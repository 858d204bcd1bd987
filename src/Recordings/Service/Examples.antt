-- ===== src/Recordings/Service/Examples.antt =====
-- A camera that starts to record, and the theorems at it.
use sms_app.Base.{
  ℕ, Bool, true, false, none, some, [], ◌∷◌, ◌≡◌, refl, if◌then◌else◌, ◌==◌, ◌&&◌, string_eq, ok,
  err, bad_request, not_found,
}
use sms_app.Camera.{Camera, online, offline, status_eq}
use sms_app.Recordings.Service.{
  Store, start_recording, stop_recording, delete_recording, get_active_recording, new_recording,
  check_and_alert_storage_quota, storage_nearly_full, storage_usage_high,
}
use sms_app.Recordings.Service.Flag.{
  Reaches, here, next, started, before_recording, flag_follows_recordings,
}
use sms_app.Recordings.Service.Operations.{active_count}
use sms_app.Recordings.Service.Stuck.{deleted_recording_sticks}

abbrev gate : Bool → Camera
gate recording = record {
  id = "a";
  org_id = "o";
  name = "Gate";
  status = online;
  maintenance_mode = false;
  ingest_mode = "pull";
  stream_url = "rtsp://gate.example";
  stream_key = none;
  needs_transcode = true;
  stream_profile = none;
  tags = [];
  is_recording = recording;
}

abbrev recording_store : Store
recording_store = record {
  cameras = gate true ∷ [];
  recordings = new_recording "r" "a" "o" ∷ [];
  segments = [];
}

started_test :
    start_recording (some 1) true "r" "a" "o" (before_recording (gate false ∷ []))
    ≡ (recording_store, ok (new_recording "r" "a" "o"))
unfolding start_recording
started_test = refl

recording_reached : Reaches (before_recording (gate false ∷ [])) recording_store
unfolding start_recording
recording_reached =
    next (before_recording (gate false ∷ [])) recording_store here
      (started (some 1) true "r" "a" "o" (before_recording (gate false ∷ [])))

flag_follows_recordings_example :
    active_count "a" "o" recording_store ≡ (if (gate true).org_id == "o" && true then 1 else 0)
flag_follows_recordings_example =
    flag_follows_recordings (gate false ∷ []) recording_store "a" (gate true) "o" (refl, tt)
      recording_reached refl

deleted_recording_sticks_example :
    (start_recording (some 1) true "q" "a" "o" (before_recording (gate true ∷ [])) ≡ (
      before_recording (gate true ∷ []),
      err (
          bad_request (
            if online == offline
            then "Camera is offline, cannot start recording"
            else "Camera is already recording")),
    ))
    × (stop_recording 7 "a" "o" (before_recording (gate true ∷ [])) ≡ (
      before_recording (gate true ∷ []),
      err (not_found "No active recording found for camera"),
    ))
unfolding delete_recording get_active_recording
deleted_recording_sticks_example =
    deleted_recording_sticks (gate false ∷ []) recording_store (before_recording (gate true ∷ []))
      (gate true) (new_recording "r" "a" "o") true true (some 1) true "q" 7 (refl, tt)
      recording_reached refl refl refl refl

abbrev storage_used : ℕ → Store
storage_used bytes = record {
  cameras = [];
  recordings = [];
  segments =
      record {
        id = "s";
        org_id = "o";
        recording_id = "r";
        camera_id = "a";
        object_path = "p";
        duration = 2000000;
        size = bytes;
        seq_no = 1;
        timestamp = 0;
        has_keyframe = none;
      }
      ∷ [];
}

-- Nine tenths of a gigabyte are used, and one byte less.
nearly_full_test :
    check_and_alert_storage_quota (some 1) "o" false ("u" ∷ []) (storage_used 966367642)
    ≡ ("u", storage_nearly_full) ∷ []
unfolding check_and_alert_storage_quota
nearly_full_test = refl

usage_high_test :
    check_and_alert_storage_quota (some 1) "o" false ("u" ∷ []) (storage_used 966367641)
    ≡ ("u", storage_usage_high) ∷ []
unfolding check_and_alert_storage_quota
usage_high_test = refl
