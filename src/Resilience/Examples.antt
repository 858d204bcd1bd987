-- ===== src/Resilience/Examples.antt =====
-- A dead camera, one with a failed job and a push camera, and the theorems at them.
use sms_app.Base.{
  ℕ, ◌++◌, List, map, false, not, ◌&&◌, String, true, false, not, ◌&&◌, Option, none, some, [], ◌∷◌,
  ◌≡◌, refl, All, lookup, insert, if◌then◌else◌,
}
use sms_app.Status
use sms_app.Camera.{online, offline, reconnecting, Camera}
use sms_app.Streams.Health.{fresh_metrics, is_degraded, get_miss_tolerance}
use sms_app.Streams.Health.Camera.{run}
use sms_app.Streams.Jobs.{QueuedJob, ffmpeg_job_id, build_stream_job_data}
use sms_app.Resilience.{
  World, TickState, DetectorWorld, DetectorState, detect_and_handle, restart_cameras, stop_ffmpeg,
  status_call, remove_stream_job, add_start, check_camera, recover_camera, run_tick,
}
use sms_app.Resilience.Tick.{is_dead, observed, backoff_of, check-calls}
use sms_app.Resilience.Liveness.{Missed, unseen, again, fourth_miss_recovers}
use sms_app.Resilience.Scope.{IsScoped, tick-IsForRunning}

abbrev gate : Camera
gate = record {
  id = "gate";
  org_id = "org";
  name = "Gate";
  status = online;
  maintenance_mode = false;
  ingest_mode = "pull";
  stream_url = "rtsp://10.0.0.6/1";
  stream_key = none;
  needs_transcode = false;
  stream_profile = none;
  tags = [];
  is_recording = false;
}

abbrev studio : Camera
studio = record gate { id = "studio"; ingest_mode = "push"; stream_key = some "key" }

abbrev queued : String → Option QueuedJob
queued id = some (record { name = "start"; attempts_made = 4 })

abbrev world : World
world = record {
  now = 5000;
  is_running = λ id. true;
  stream_job = queued;
  row = λ id. some gate;
  notify_pending = λ id. false;
}

abbrev third_tick : TickState
third_tick = record {
  srs_stream_ids = [];
  srs_cache_updated_at = 0;
  miss_counters = ("gate", 3) ∷ [];
  tick_count = 3;
  metrics = fresh_metrics;
}

check-calls_example : (check_camera world [] gate third_tick).0 ≡ (
    if not (is_degraded "gate" fresh_metrics) && is_dead world [] gate third_tick
    then (recover_camera world gate (observed world [] gate third_tick)).0
    else [])
check-calls_example = check-calls world [] gate third_tick

abbrev after_misses : ℕ → TickState
after_misses n = record {
  srs_stream_ids = [];
  srs_cache_updated_at = 0;
  miss_counters = ("gate", n) ∷ [];
  tick_count = 3;
  metrics = fresh_metrics;
}

gate-Missed : Missed gate 3 third_tick
unfolding check_camera is_degraded lookup insert get_miss_tolerance recover_camera
gate-Missed =
    again 2 world [] (after_misses 2) third_tick
      (again 1 world [] (after_misses 1) (after_misses 2)
        (again 0 world [] (after_misses 0) (after_misses 1) (unseen (after_misses 0)) refl refl
          refl)
        refl refl refl)
      refl refl refl

fourth_miss_recovers_example :
    (notices : List Status.Effect) × ((check_camera world [] gate third_tick).0
      ≡ stop_ffmpeg "gate"
        ∷ status_call (Status.update_status "gate" reconnecting none)
        ∷ status_call (Status.record_transition "gate" online reconnecting)
        ∷ status_call (Status.broadcast_status "org" "gate" reconnecting)
        ∷ (map status_call notices
            ++ (remove_stream_job (ffmpeg_job_id "gate")
                ∷ add_start
                    (ffmpeg_job_id "gate")
                    (backoff_of world gate (observed world [] gate third_tick))
                    0
                    (build_stream_job_data gate)
                ∷ [])))
unfolding is_degraded lookup
fourth_miss_recovers_example =
    fourth_miss_recovers world [] gate gate third_tick [] gate-Missed (unfold run in refl) refl refl
      refl refl refl refl refl

-- The instance id of SRS has changed since the last tick.
abbrev restarted : DetectorWorld
restarted = record {
  server_id = some "b";
  cameras = gate ∷ record gate { id = "shed"; status = offline } ∷ [];
  is_running = λ id. true;
  jitter = λ id. 700;
}

abbrev known : DetectorState
known = record { last_server_id = some "a"; first_tick = false }

detector_calls :
    (detect_and_handle restarted.is_running restarted.jitter restarted.cameras (some "b") known).0
    ≡ stop_ffmpeg "gate"
      ∷ add_start (ffmpeg_job_id "gate") 1000 700 (build_stream_job_data gate)
      ∷ []
unfolding detect_and_handle restart_cameras
detector_calls = refl

tick-IsForRunning_example :
    All
      (IsScoped restarted.cameras (gate ∷ studio ∷ []))
      (run_tick restarted world (gate ∷ studio ∷ []) (some []) (known, third_tick)).0
tick-IsForRunning_example =
    tick-IsForRunning restarted world (gate ∷ studio ∷ []) (some []) known third_tick (tt, (tt, tt))
