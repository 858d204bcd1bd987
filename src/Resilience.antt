-- ===== src/Resilience.antt =====
-- apps/api/src/resilience: the 60-second health tick, the SRS restart detector and the recovery at
-- boot. What the database, SRS, FFmpeg and the queue answer during a pass is the record `World`; a
-- pass returns its new state and the calls that it makes, in order.
pub mod Tick
pub mod Scope
pub mod Liveness
pub mod Restart
mod Examples
use sms_app.Base.{
  ℕ, suc, ◌+◌, ◌-◌, ◌%◌, String, Bool, true, false, not, ◌&&◌, ◌||◌, Option, none, some, List, [],
  ◌∷◌, ◌++◌, map, contains, keep, Dict, lookup, insert, erase, ltb, leb, if◌then◌else◌, ◌==◌,
  nat_eq, string_eq, Result, ok, err,
}
use sms_app.Camera.{
  Status, offline, online, connecting, reconnecting, degraded, status_eq, Camera, running_statuses,
  is_push_passthrough,
}
use sms_app.Status
use sms_app.Streams.Health.{
  HealthMetrics, record_transition, is_degraded, get_miss_tolerance, bump_miss_tolerance,
  get_backoff_base_ms,
}
use sms_app.Streams.Jobs.{JobData, QueuedJob, build_stream_job_data, ffmpeg_job_id}

-- The answers of the collaborators during one pass.
pub record World : Type 0 where
  pub now : ℕ
  -- `FfmpegService.isRunning`
  pub is_running : String → Bool
  -- `streamQueue.getJob` under the camera's job id
  pub stream_job : String → Option QueuedJob
  -- the row that `StatusService.transition` reads, and whether it finds a pending notify job
  pub row : String → Option Camera
  pub notify_pending : String → Bool

pub data Call : Type 0 where
  reload_config : Call
  stop_ffmpeg : String → Call
  status_call : Status.Effect → Call
  remove_stream_job : String → Call
  -- job id, backoff base in ms, delay in ms, data; always 'start', with 8 attempts
  add_start : String → ℕ → ℕ → JobData → Call

pub record TickState : Type 0 where
  pub srs_stream_ids : List String
  pub srs_cache_updated_at : ℕ
  pub miss_counters : Dict ℕ
  pub tick_count : ℕ
  pub metrics : HealthMetrics

abbrev pub cache_stale_ms : ℕ
cache_stale_ms = 300000

abbrev pub reload_every_n_ticks : ℕ
reload_every_n_ticks = 30

abbrev pub stuck_attempts_threshold : ℕ
stuck_attempts_threshold = 3

-- What `StatusService.transition` does, its errors caught by the caller.
abbrev pub calls_of : Result (List Status.Effect) → List Call
calls_of (ok effects) = map status_call effects
calls_of (err e) = []

abbrev pub note_transitions : ℕ → List Status.Effect → HealthMetrics → HealthMetrics
note_transitions now [] m = m
note_transitions now (Status.record_transition id from to ∷ es) m =
    note_transitions now es (record_transition now id from to m)
note_transitions now (e ∷ es) m = note_transitions now es m

abbrev pub metrics_after : ℕ → Result (List Status.Effect) → HealthMetrics → HealthMetrics
metrics_after now (ok effects) m = note_transitions now effects m
metrics_after now (err e) m = m

abbrev pub fresh_start : Camera → ℕ → List Call
fresh_start c backoff = add_start (ffmpeg_job_id c.id) backoff 0 (build_stream_job_data c) ∷ []

abbrev pub start_over : QueuedJob → Camera → ℕ → List Call
start_over job c backoff =
    if leb stuck_attempts_threshold job.attempts_made
    then remove_stream_job (ffmpeg_job_id c.id) ∷ fresh_start c backoff
    else fresh_start c backoff

-- `enqueueStart`
unfoldable pub enqueue_start : Option QueuedJob → Camera → ℕ → List Call
enqueue_start none c backoff = fresh_start c backoff
enqueue_start (some job) c backoff = if job.name == "restart" then [] else start_over job c backoff

abbrev pub count_or_zero : Option ℕ → ℕ
count_or_zero none = 0
count_or_zero (some n) = n

-- The part of a round that acts on a dead camera.
unfoldable pub recover_camera : World → Camera → TickState → List Call × TickState
unfolding enqueue_start
recover_camera w c s =
    let bumped = if c.status == online then bump_miss_tolerance c.id s.metrics else s.metrics in
    let moved = Status.transition w.now (w.notify_pending c.id) (w.row c.id) reconnecting in
    let s' = record s { metrics = metrics_after w.now moved bumped } in
    if is_push_passthrough c then (calls_of moved, s') else (
      (if w.is_running c.id then stop_ffmpeg c.id ∷ [] else [])
          ++ (calls_of moved
              ++ enqueue_start (w.stream_job c.id) c (get_backoff_base_ms c.id s'.metrics)),
      s',
    )

-- The misses of a camera after this tick.
abbrev pub misses_after : String → Bool → Dict ℕ → Dict ℕ
misses_after id srs_alive misses =
    if srs_alive then erase id misses else insert id (count_or_zero (lookup id misses) + 1) misses

-- Step 4 of `runTick`, for one camera.
unfoldable pub check_camera : World → List String → Camera → TickState → List Call × TickState
check_camera w srs_ids c s =
    if is_degraded c.id s.metrics
    then ([], s)
    else let ffmpeg_alive = w.is_running c.id in
      let srs_alive = contains srs_ids c.id in
      let (tolerance, metrics) = get_miss_tolerance w.now c.id s.metrics in
      let misses = misses_after c.id srs_alive s.miss_counters in
      let s' = record s { miss_counters = misses; metrics = metrics } in
      let tolerated =
        not srs_alive
        && not (is_push_passthrough c)
        && ffmpeg_alive
        && ltb (count_or_zero (lookup c.id misses)) tolerance in
      let dead =
        if is_push_passthrough c then not srs_alive else not ffmpeg_alive || not srs_alive in
      if tolerated then ([], s') else if not dead then ([], s') else recover_camera w c s'

unfoldable pub check_cameras : World → List String → List Camera → TickState → List Call × TickState
unfolding check_camera
check_cameras w srs_ids [] s = ([], s)
check_cameras w srs_ids (c ∷ cs) s =
    let (calls, s') = check_camera w srs_ids c s in
    let (more, s'') = check_cameras w srs_ids cs s' in (calls ++ more, s'')

-- The stream ids that a tick goes by: the answer of SRS, which is kept, or a kept one that is less
-- than 5 minutes old. `none` skips the liveness pass.
unfoldable pub stream_ids_for_tick :
    ℕ → Option (List String) → TickState → Option (List String) × TickState
stream_ids_for_tick now (some ids) s =
    (some ids, record s { srs_stream_ids = ids; srs_cache_updated_at = now })
stream_ids_for_tick now none s =
    if ltb 0 s.srs_cache_updated_at && ltb (now - s.srs_cache_updated_at) cache_stale_ms
    then (some s.srs_stream_ids, s)
    else (none, s)

-- The cameras that the query of step 2 answers.
abbrev pub should_run : Camera → Bool
should_run c = contains running_statuses c.status && not c.maintenance_mode

abbrev pub liveness_pass :
    World → List Camera → Option (List String) × TickState → List Call × TickState
liveness_pass w cameras (none, s) = ([], s)
liveness_pass w cameras (some ids, s) = check_cameras w ids (keep should_run cameras) s

-- srs-restart-detector.ts
pub record DetectorState : Type 0 where
  pub last_server_id : Option String
  pub first_tick : Bool

-- One camera of `handleRestart`, and of the loop of `BootRecoveryService`, which kills no process
-- by this path: `delay` is the jitter drawn for the camera.
abbrev pub start_with_jitter : ℕ → Camera → Call
start_with_jitter delay c = add_start (ffmpeg_job_id c.id) 1000 delay (build_stream_job_data c)

abbrev pub restart_camera : (String → Bool) → (String → ℕ) → Camera → List Call
restart_camera is_running jitter c =
    (if is_running c.id then stop_ffmpeg c.id ∷ [] else [])
    ++ start_with_jitter (jitter c.id) c ∷ []

unfoldable pub restart_cameras : (String → Bool) → (String → ℕ) → List Camera → List Call
restart_cameras is_running jitter [] = []
restart_cameras is_running jitter (c ∷ cs) =
    restart_camera is_running jitter c ++ restart_cameras is_running jitter cs

-- The rows that `handleRestart` queries.
abbrev pub survives_restart : Camera → Bool
survives_restart c = not (c.status == offline) && not c.maintenance_mode

abbrev pub is_other : Option String → String → Bool
is_other none id = false
is_other (some last) id = not (last == id)

-- `current` is the instance id in the summaries, `none` where they fail or hold none.
unfoldable pub detect_and_handle :
    (String → Bool)
    → (String → ℕ)
    → List Camera
    → Option String
    → DetectorState
    → List Call × DetectorState
unfolding restart_cameras
detect_and_handle is_running jitter table none d = ([], d)
detect_and_handle is_running jitter table (some current) d =
    let known : DetectorState = record { last_server_id = some current; first_tick = false } in
    if d.first_tick then ([], known) else (
      if is_other d.last_server_id current
          then restart_cameras is_running jitter (keep survives_restart table)
          else [],
      record d { last_server_id = some current },
    )

-- What the collaborators answer to the restart detector during a tick: the instance id in the summaries,
-- `none` where they fail or hold none, and the camera table, as its own query finds it.
pub record DetectorWorld : Type 0 where
  pub server_id : Option String
  pub cameras : List Camera
  pub is_running : String → Bool
  pub jitter : String → ℕ

-- `runTick`: `v` is what the detector of step 1 is answered; `table` is the camera table of step 2 and
-- `streams` what `getStreams` answers, `none` where it fails or holds no list.
unfoldable pub run_tick :
    DetectorWorld
    → World
    → List Camera
    → Option (List String)
    → DetectorState × TickState
    → List Call × (DetectorState × TickState)
unfolding check_cameras stream_ids_for_tick detect_and_handle
run_tick v w table streams (d, s) =
    let ticked = record s { tick_count = s.tick_count + 1 } in
    let (restarts, d') = detect_and_handle v.is_running v.jitter v.cameras v.server_id d in
    let (calls, s') = liveness_pass w table (stream_ids_for_tick w.now streams ticked) in
    (
      (if ticked.tick_count % reload_every_n_ticks == 0 then reload_config ∷ [] else [])
          ++ (restarts ++ calls),
      (d', s'),
    )

-- boot-recovery.service.ts, after the orphan processes are gone.
unfoldable pub boot_recovery : (String → ℕ) → List Camera → List Call
boot_recovery jitter table = map (λ c. start_with_jitter (jitter c.id) c) (keep should_run table)
