-- ===== src/Resilience/Scope.antt =====
-- The cameras that a health tick touches.
use sms_app.Base.{
  contains, ℕ, ◌%◌, ◌+◌, String, Bool, true, false, not, ◌&&◌, Option, none, some, List, [], ◌∷◌,
  ◌≡◌, refl, arith, keep, if◌then◌else◌, ◌==◌, nat_eq, All, All-append, All-imp, Bool-cases, ◌⊎◌,
  inl, inr, ◌∙◌, Result, ok, err,
}
use mathlib.Core.List.{Memᴰ}
use sms_app.Camera.{status_eq, running_statuses, Camera, is_push_passthrough}
use sms_app.Status
use sms_app.Streams.Health.{is_degraded}
use sms_app.Streams.Jobs.{QueuedJob, ffmpeg_job_id, build_stream_job_data}
use sms_app.Resilience.{
  World, Call, reload_config, stop_ffmpeg, status_call, remove_stream_job, add_start, TickState,
  calls_of, enqueue_start, recover_camera, check_camera, check_cameras, stream_ids_for_tick,
  should_run, liveness_pass, run_tick, reload_every_n_ticks, DetectorWorld, DetectorState,
  restart_camera, restart_cameras, survives_restart, detect_and_handle, is_other,
}
use sms_app.Resilience.Restart.{IsKnown, should_run-survives_restart}
use sms_app.Resilience.Tick.{is_dead, check-calls, recover-push, recover-pull, observed}

-- The call stops FFmpeg of the camera, or changes the queued job of the camera. A call of the status
-- service or of SRS concerns no FFmpeg process and no job.
abbrev pub IsFor : Camera → Call → Type 0
IsFor c (stop_ffmpeg id) = id ≡ c.id
IsFor c (remove_stream_job job_id) = job_id ≡ ffmpeg_job_id c.id
IsFor c (add_start job_id backoff delay data_of) =
    (job_id ≡ ffmpeg_job_id c.id) × (data_of ≡ build_stream_job_data c)
IsFor c (status_call e) = Unit
IsFor c reload_config = Unit

IsFor-calls_of : (c : Camera) (r : Result (List Status.Effect)) → All (IsFor c) (calls_of r)
IsFor-calls_of c (ok []) = tt
IsFor-calls_of c (ok (e ∷ es)) = (tt, IsFor-calls_of c (ok es))
IsFor-calls_of c (err e) = tt

IsFor-stop : (c : Camera) (b : Bool) → All (IsFor c) (if b then stop_ffmpeg c.id ∷ [] else [])
IsFor-stop c true = (refl, tt)
IsFor-stop c false = tt

IsFor-enqueue :
    (c : Camera) (job : Option QueuedJob) (backoff : ℕ)
    → All (IsFor c) (enqueue_start job c backoff)
unfolding enqueue_start
IsFor-enqueue c none backoff = ((refl, refl), tt)
IsFor-enqueue c (some job) backoff = ground arith

IsFor-recover : (w : World) (c : Camera) (s : TickState) → All (IsFor c) (recover_camera w c s).0
IsFor-recover w c s = elim (Bool-cases (is_push_passthrough c)) [
  | inl push ↦ rw (recover-push w c s push) (IsFor-calls_of c _)
  | inr pull ↦ rw (recover-pull w c s pull) (
      All-append (IsFor c) _ _ (IsFor-stop c (w.is_running c.id))
        (All-append (IsFor c) _ _ (IsFor-calls_of c _) (IsFor-enqueue c (w.stream_job c.id) _)))
]

IsFor-check :
    (w : World) (srs_ids : List String) (c : Camera) (s : TickState)
    → All (IsFor c) (check_camera w srs_ids c s).0
IsFor-check w srs_ids c s =
    rw (check-calls w srs_ids c s)
      (elim (Bool-cases (not (is_degraded c.id s.metrics) && is_dead w srs_ids c s)) [
        | inl e ↦ rw e (IsFor-recover w c (observed w srs_ids c s))
        | inr e ↦ rw e tt
      ])

-- Not in maintenance, and in one of the four running statuses.
abbrev pub IsRunning : Camera → Type 0
IsRunning c = (c.maintenance_mode ≡ false) × (contains running_statuses c.status ≡ true)

should_run-IsRunning : (c : Camera) → should_run c ≡ true → IsRunning c
should_run-IsRunning c h = ground arith

-- Every row has one of the statuses that the source writes.
abbrev pub AreKnown : List Camera → Type 0
AreKnown = All (λ c. IsKnown c.status)

survives_restart-IsRunning :
    (c : Camera) → IsKnown c.status → survives_restart c ≡ true → IsRunning c
survives_restart-IsRunning c k h = should_run-IsRunning c (should_run-survives_restart c k ∙ h)

-- The call is for such a camera of the table.
abbrev pub IsForRunning : List Camera → Call → Type 0
IsForRunning table call = (c : Camera) × (Memᴰ c table) × (IsRunning c) × (IsFor c call)

for_running :
    (table : List Camera) (c : Camera) (calls : List Call)
    → Memᴰ c table
    → IsRunning c
    → All (IsFor c) calls
    → All (IsForRunning table) calls
for_running table c [] m r h = tt
for_running table c (call ∷ calls) m r (p, h) = ((c, m, r, p), for_running table c calls m r h)

IsForRunning-cons :
    (c : Camera) (table : List Camera) (calls : List Call)
    → All (IsForRunning table) calls
    → All (IsForRunning (c ∷ table)) calls
IsForRunning-cons c table [] h = tt
IsForRunning-cons c table (call ∷ calls) ((d, m, r, p), h) =
    ((d, Memᴰ.tail m, r, p), IsForRunning-cons c table calls h)

check_cameras-IsForRunning :
    (w : World) (srs_ids : List String) (table : List Camera) (s : TickState)
    → All (IsForRunning table) (check_cameras w srs_ids (keep should_run table) s).0
unfolding check_cameras
check_cameras-IsForRunning w srs_ids [] s = tt
check_cameras-IsForRunning w srs_ids (c ∷ table) s = elim (Bool-cases (should_run c)) [
  | inl runs ↦ rw runs (
      All-append (IsForRunning (c ∷ table)) _ _
        (for_running (c ∷ table) c _ (Memᴰ.head refl) (should_run-IsRunning c runs)
          (IsFor-check w srs_ids c s))
        (IsForRunning-cons c table _
          (check_cameras-IsForRunning w srs_ids table (check_camera w srs_ids c s).1)))
  | inr rests ↦
      rw rests (IsForRunning-cons c table _ (check_cameras-IsForRunning w srs_ids table s))
]

liveness_pass-IsForRunning :
    (w : World) (table : List Camera) (r : Option (List String) × TickState)
    → All (IsForRunning table) (liveness_pass w table r).0
liveness_pass-IsForRunning w table (none, s) = tt
liveness_pass-IsForRunning w table (some ids, s) = check_cameras-IsForRunning w ids table s

restart_camera-IsFor :
    (v : DetectorWorld) (c : Camera) → All (IsFor c) (restart_camera v.is_running v.jitter c)
restart_camera-IsFor v c =
    All-append (IsFor c) _ _ (IsFor-stop c (v.is_running c.id)) ((refl, refl), tt)

restart_cameras-IsForRunning :
    (v : DetectorWorld) (table : List Camera)
    → AreKnown table
    → All (IsForRunning table) (restart_cameras v.is_running v.jitter (keep survives_restart table))
unfolding restart_cameras
restart_cameras-IsForRunning v [] k = tt
restart_cameras-IsForRunning v (c ∷ table) k = elim (Bool-cases (survives_restart c)) [
  | inl runs ↦ rw runs (
      All-append (IsForRunning (c ∷ table)) _ _
        (for_running (c ∷ table) c _ (Memᴰ.head refl) (survives_restart-IsRunning c k.0 runs)
          (restart_camera-IsFor v c))
        (IsForRunning-cons c table _ (restart_cameras-IsForRunning v table k.1)))
  | inr rests ↦ rw rests (IsForRunning-cons c table _ (restart_cameras-IsForRunning v table k.1))
]

detect_and_handle-IsForRunning :
    (v : DetectorWorld) (server : Option String) (d : DetectorState)
    → AreKnown v.cameras
    → All (IsForRunning v.cameras) (detect_and_handle v.is_running v.jitter v.cameras server d).0
unfolding detect_and_handle
detect_and_handle-IsForRunning v none d k = tt
detect_and_handle-IsForRunning v (some current) d k = elim (Bool-cases d.first_tick) [
  | inl first ↦ rw first tt
  | inr later ↦ rw later (elim (Bool-cases (is_other d.last_server_id current)) [
    | inl changed ↦ rw changed (restart_cameras-IsForRunning v v.cameras k)
    | inr same ↦ rw same tt
  ])
]

-- `reload_config`, or for a camera that the query of the detector or that of the tick has found.
abbrev pub IsScoped : (found_first found : List Camera) → Call → Type 0
IsScoped found_first found call =
    (call ≡ reload_config) ⊎ (IsForRunning found_first call ⊎ IsForRunning found call)

IsScoped-reload :
    (found_first found : List Camera) (b : Bool)
    → All (IsScoped found_first found) (if b then reload_config ∷ [] else [])
IsScoped-reload found_first found true = (inl refl, tt)
IsScoped-reload found_first found false = tt

-- Where the rows that the restart detector finds have statuses that the source writes: every call of a
-- tick that stops FFmpeg or changes the queue, those of the detector included, whatever SRS and the queue
-- answer, is for a camera of the table, as the detector or the tick finds it, that is not in
-- maintenance and has one of the four running statuses, and a start job carries the data of that very
-- camera: no offline camera is brought up.
pub tick-IsForRunning :
    (v : DetectorWorld) (w : World) (table : List Camera) (streams : Option (List String))
    (d : DetectorState) (s : TickState)
    → AreKnown v.cameras
    → All (IsScoped v.cameras table) (run_tick v w table streams (d, s)).0
unfolding run_tick
tick-IsForRunning v w table streams d s k =
    All-append (IsScoped v.cameras table) _ _
      (IsScoped-reload v.cameras table (ticks % reload_every_n_ticks == 0))
      (All-append (IsScoped v.cameras table) _ _
        (All-imp (IsForRunning v.cameras) (IsScoped v.cameras table) _ (λ call h. inr (inl h))
          (detect_and_handle-IsForRunning v v.server_id d k))
        (All-imp (IsForRunning table) (IsScoped v.cameras table) _ (λ call h. inr (inr h))
          (liveness_pass-IsForRunning w table
            (stream_ids_for_tick w.now streams (record s { tick_count = ticks })))))
  where
    ticks : ℕ
    ticks = s.tick_count + 1
