-- ===== src/Streams/Processor/Examples.antt =====
-- Attempts of two jobs, and the theorems at them.
use sms_app.Base.{
  String, true, false, not, ◌&&◌, ◌||◌, none, some, List, [], ◌∷◌, ◌++◌, ◌≡◌, refl, keep,
  if◌then◌else◌, string_eq, ok,
}
use sms_app.Camera.{Camera, Profile, online}
use sms_app.Streams.Jobs.{fallback_profile}
use sms_app.Streams.Ffmpeg.{on_error}
use sms_app.Streams.Ffmpeg.Exits.{Act, spawn, started, stop, acts, no_process}
use sms_app.Streams.Processor.{mark_degraded, completed, failed, Job, Answers, process}
use sms_app.Streams.Processor.Spawn.{
  is_start, is_mark, is_failed, is_admitted, start_of, signalled_job, process-starts,
  process-outcome,
}
use sms_app.Streams.Processor.HotReload.{settled_of, signalled_restart_completes}

abbrev identity : String → String
identity s = s

abbrev gate_job : Job
gate_job = record {
  name = "start";
  payload = record {
    camera_id = "gate";
    org_id = "o";
    input_url = "rtsp://gate.example";
    profile = fallback_profile;
    needs_transcode = false;
  };
}

abbrev crash : Answers
crash = record {
  srs_host = "localhost";
  is_degraded = false;
  is_in_crash_loop = true;
  subscribed = true;
  restarting = false;
  signal = none;
  row = ok (some (some (record fallback_profile { codec = "libx264"; fps = some 25 })));
  transition_ok = true;
  publisher_before = ok (some "17");
  publisher_after = ok none;
  spawned = failed;
}

abbrev pushed : Camera
pushed = record {
  id = "gate";
  org_id = "o";
  name = "Gate";
  status = online;
  maintenance_mode = false;
  ingest_mode = "push";
  stream_url = "";
  stream_key = some "k";
  needs_transcode = false;
  stream_profile = none;
  tags = [];
  is_recording = false;
}

process-starts_example : keep is_start (process identity crash gate_job).0 ≡ (
    if is_admitted crash gate_job && crash.transition_ok
    then start_of crash (signalled_job crash gate_job)
    else [])
process-starts_example = process-starts identity crash gate_job

process-outcome_example :
    ((process identity crash gate_job).1 ≡ (
      if is_admitted crash gate_job && (not crash.transition_ok || is_failed crash.spawned)
      then failed
      else completed))
    × (keep is_mark (process identity crash gate_job).0 ≡ (
        if is_admitted crash gate_job
          && crash.transition_ok
          && is_failed crash.spawned
          && crash.is_in_crash_loop
        then mark_degraded "gate" ∷ []
        else []))
process-outcome_example = process-outcome identity crash gate_job

abbrev running : List Act
running = spawn "gate" ∷ started 5 "gate" ∷ []

signalled_restart_completes_example :
    (process identity
      (record crash {
        spawned = settled_of (on_error 60 "gate" (acts (running ++ stop "gate" ∷ []) no_process)).0;
      })
      gate_job).1
    ≡ completed
signalled_restart_completes_example =
    signalled_restart_completes identity crash gate_job running 60 refl refl

abbrev new_profile : Profile
new_profile = record fallback_profile { codec = "libx264"; fps = some 25 }
