-- ===== src/Recordings/Service/Stuck.antt =====
-- The deletion of a recording that is still active.
use sms_app.Base.{
  ℕ, String, Bool, false, Option, some, List, ◌≡◌, ap, arith, if◌then◌else◌, ◌==◌, string_eq,
  eq_refl, find, find-none, count_by, All, ok, err, not_found, bad_request, count_by-remove_first,
  find_holds,
}
use sms_app.Camera.{Camera, offline, status_eq}
use sms_app.Recordings.Service.{
  Store, Recording, is_camera, is_active_for, is_recording_of, start_recording, stop_recording,
  delete_recording, get_active_recording,
}
use sms_app.Recordings.Service.Flag.{Reaches, before_recording, flag_follows_recordings}
use sms_app.Recordings.Service.Operations.{start_refused, stop_refused, delete_done}

-- A camera that records, in a state reached by starts, stops, archived segments and deletions of
-- recordings that are not active. After its active recording was deleted it is refused both the start,
-- as it is taken to record, and the stop, as it has no active recording; neither changes the tables.
pub deleted_recording_sticks :
    (cameras : List Camera) (s t : Store) (c : Camera) (r : Recording) (objects_ok init_ok : Bool)
    (limit_gb : Option ℕ) (bucket_ok : Bool) (id : String) (now : ℕ)
    → All (λ c. c.is_recording ≡ false) cameras
    → Reaches (before_recording cameras) s
    → find (is_camera c.id) s.cameras ≡ some c
    → get_active_recording c.id c.org_id s ≡ some r
    → find (is_recording_of r.id) s.recordings ≡ some r
    → delete_recording objects_ok init_ok r.id s ≡ ok t
    → (start_recording limit_gb bucket_ok id c.id c.org_id t ≡ (
      t,
      err (
          bad_request (
            if c.status == offline
            then "Camera is offline, cannot start recording"
            else "Camera is already recording")),
    ))
      × (stop_recording now c.id c.org_id t
          ≡ (t, err (not_found "No active recording found for camera")))
unfolding get_active_recording
deleted_recording_sticks cameras s t c r objects_ok init_ok limit_gb bucket_ok id now off reached e
      active found_r h =
    let (same, rows) = delete_done objects_ok init_ok r.id s t h in
    let flag = flag_follows_recordings cameras s c.id c c.org_id off reached e in
    let counts =
      count_by-remove_first (is_active_for c.id c.org_id) (is_recording_of r.id) s.recordings r
        found_r in
    let holds = find_holds (is_active_for c.id c.org_id) s.recordings r active in
    (
      start_refused limit_gb bucket_ok id c.id c.org_id t _
          (ground (arith, ap (find (is_camera c.id)) same, flag, counts, holds, eq_refl c.org_id)),
      stop_refused now c.id c.org_id t (
          find-none (is_active_for c.id c.org_id) t.recordings (
            ground (arith, ap (count_by (is_active_for c.id c.org_id)) rows, flag, counts, holds))),
    )
