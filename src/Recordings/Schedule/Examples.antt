-- ===== src/Recordings/Schedule/Examples.antt =====
-- A camera with a schedule by day and one by night, and the theorems at it.
use sms_app.Base.{String, Bool, true, false, none, some, [], ◌∷◌, ◌≡◌, refl, find}
use sms_app.Camera.{Camera, online}
use sms_app.Recordings.Service.{Store, is_camera, start_recording, stop_recording}
use sms_app.Recordings.Service.Flag.{before_recording}
use sms_app.Recordings.Schedule.{Schedule, Run, should_be_recording, process}

abbrev camera : String → Bool → Camera
camera id recording = record {
  id = id;
  org_id = "o";
  name = "Gate";
  status = online;
  maintenance_mode = false;
  ingest_mode = "pull";
  stream_url = "rtsp://gate.example";
  stream_key = none;
  needs_transcode = true;
  stream_profile = none;
  tags = [];
  is_recording = recording;
}

abbrev store : Store
store = before_recording (camera "a" false ∷ camera "b" false ∷ [])

abbrev schedule : String → String → String → Schedule
schedule id start stop = record {
  camera_id = id;
  org_id = "o";
  schedule_type = "daily";
  start_time = start;
  end_time = stop;
  days = none;
}

abbrev at_night : Run
at_night = record {
  time = "23:30";
  day = 4;
  now = 1000;
  limit_gb = λ org. some 1;
  bucket_ok = λ org. true;
  new_id = λ camera. "r";
}

-- 22:00 to 06:00 crosses midnight.
overnight_test : should_be_recording "23:30" (schedule "a" "22:00" "06:00") ≡ true
unfolding should_be_recording
overnight_test = refl

morning_test : should_be_recording "06:00" (schedule "a" "22:00" "06:00") ≡ false
unfolding should_be_recording
morning_test = refl

-- The schedule by night starts the recording, and the schedule by day stops it in the same run.
started_and_stopped_test :
    find
      (is_camera "a")
      (process at_night
        (schedule "a" "22:00" "06:00" ∷ schedule "a" "08:00" "18:00" ∷ [])
        store).cameras
    ≡ some (camera "a" false)
unfolding process start_recording stop_recording should_be_recording
started_and_stopped_test = refl

-- The morning after the one day of a weekly schedule: the window has ended, but the schedule is left out
-- on that day, and the camera records on.
abbrev friday_night : Schedule
friday_night = record {
  camera_id = "a";
  org_id = "o";
  schedule_type = "weekly";
  start_time = "22:00";
  end_time = "06:00";
  days = some (5 ∷ []);
}

abbrev saturday_noon : Run
saturday_noon = record at_night { time = "12:00"; day = 6 }

recorded_on_test :
    find
      (is_camera "a")
      (process saturday_noon (friday_night ∷ []) (before_recording (camera "a" true ∷ []))).cameras
    ≡ some (camera "a" true)
unfolding process
recorded_on_test = refl
