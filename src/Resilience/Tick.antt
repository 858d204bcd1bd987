-- ===== src/Resilience/Tick.antt =====
-- What the health tick does to a camera, and which cameras it leaves alone.
use sms_app.Base.{
  nat_same, leb, ℕ, ◌+◌, ◌≤◌, String, Bool, true, false, not, ◌&&◌, ◌||◌, some, List, [], ◌∷◌, ◌++◌,
  ◌≡◌, refl, ◌∙◌, arith, if◌then◌else◌, nat_eq, string_eq, eq_iff, ltb, contains, Bool-cases, inl,
  inr, All, All-append, lookup, lookup-insert, Result, ok, err,
}
use sms_app.Camera.{reconnecting, status_eq, Camera, is_push_passthrough}
use sms_app.Status
use sms_app.Streams.Health.Camera.{Event, run}
use sms_app.Streams.Health.Bounds.{miss_tolerance_bounds}
use sms_app.Streams.Health.{fresh_metrics, is_degraded, get_miss_tolerance, get_backoff_base_ms}
use sms_app.Streams.Jobs.{QueuedJob}
use sms_app.Resilience.{
  World, Call, stop_ffmpeg, status_call, remove_stream_job, add_start, TickState, calls_of,
  enqueue_start, count_or_zero, recover_camera, misses_after, check_camera,
}

-- A call that stops or starts FFmpeg of a camera, or that takes its queued job away.
abbrev pub is_ffmpeg_call : Call → Bool
is_ffmpeg_call (stop_ffmpeg id) = true
is_ffmpeg_call (remove_stream_job id) = true
is_ffmpeg_call (add_start id backoff delay job) = true
is_ffmpeg_call call = false

abbrev pub is_queue_call : Call → Bool
is_queue_call (remove_stream_job id) = true
is_queue_call (add_start id backoff delay job) = true
is_queue_call call = false

abbrev pub Never : (Call → Bool) → List Call → Type 0
Never test = All (λ call. test call ≡ false)

Never-append :
    (test : Call → Bool) (xs ys : List Call) → Never test xs → Never test ys → Never test (xs ++ ys)
Never-append test xs ys hx hy = All-append (λ call. test call ≡ false) xs ys hx hy

Never-calls_of :
    (test : Call → Bool) (r : Result (List Status.Effect))
    → ((e : Status.Effect) → test (status_call e) ≡ false)
    → Never test (calls_of r)
Never-calls_of test (ok []) h = tt
Never-calls_of test (ok (e ∷ es)) h = (h e, Never-calls_of test (ok es) h)
Never-calls_of test (err e) h = tt

-- The tolerance that the tick reads for a camera, and the state after it has counted the misses.
abbrev pub tolerance_of : World → Camera → TickState → ℕ
tolerance_of w c s = (get_miss_tolerance w.now c.id s.metrics).0

abbrev pub observed : World → List String → Camera → TickState → TickState
observed w srs_ids c s = record s {
  miss_counters = misses_after c.id (contains srs_ids c.id) s.miss_counters;
  metrics = (get_miss_tolerance w.now c.id s.metrics).1;
}

-- How many ticks in a row SRS has not shown the camera, this one included.
abbrev pub misses_of : List String → Camera → TickState → ℕ
misses_of srs_ids c s =
    if contains srs_ids c.id then 0 else count_or_zero (lookup c.id s.miss_counters) + 1

-- A camera counts as dead: for a push camera with no FFmpeg, SRS does not show it; for another one,
-- FFmpeg does not run, or SRS has not shown the stream for as many ticks as are tolerated.
abbrev pub is_dead : World → List String → Camera → TickState → Bool
is_dead w srs_ids c s =
    let missing = not (contains srs_ids c.id) in
    if is_push_passthrough c
    then missing
    else not (w.is_running c.id)
      || missing && not (ltb (misses_of srs_ids c s) (tolerance_of w c s))

-- The tick acts on a camera exactly when it is dead and not marked degraded.
pub check-calls :
    (w : World) (srs_ids : List String) (c : Camera) (s : TickState)
    → (check_camera w srs_ids c s).0 ≡ (
        if not (is_degraded c.id s.metrics) && is_dead w srs_ids c s
        then (recover_camera w c (observed w srs_ids c s)).0
        else [])
unfolding check_camera
check-calls w srs_ids c s = ground (
  arith,
  lookup-insert c.id c.id (count_or_zero (lookup c.id s.miss_counters) + 1) s.miss_counters,
  eq_iff c.id c.id,
)

abbrev pub moved_of : World → Camera → Result (List Status.Effect)
moved_of w c = Status.transition w.now (w.notify_pending c.id) (w.row c.id) reconnecting

pub recover-push :
    (w : World) (c : Camera) (s : TickState)
    → is_push_passthrough c ≡ true
    → (recover_camera w c s).0 ≡ calls_of (moved_of w c)
unfolding recover_camera
recover-push w c s h = ground arith

-- The backoff base that `recover_camera` reads.
abbrev pub backoff_of : World → Camera → TickState → ℕ
backoff_of w c s = get_backoff_base_ms c.id (recover_camera w c s).1.metrics

pub recover-pull :
    (w : World) (c : Camera) (s : TickState)
    → is_push_passthrough c ≡ false
    → (recover_camera w c s).0
      ≡ (if w.is_running c.id then stop_ffmpeg c.id ∷ [] else [])
        ++ (calls_of (moved_of w c) ++ enqueue_start (w.stream_job c.id) c (backoff_of w c s))
unfolding recover_camera
recover-pull w c s h = ground arith

-- What holds of no call of the recovery holds of no call of the check.
Never-check :
    (test : Call → Bool) (w : World) (srs_ids : List String) (c : Camera) (s : TickState)
    → Never test (recover_camera w c (observed w srs_ids c s)).0
    → Never test (check_camera w srs_ids c s).0
Never-check test w srs_ids c s h =
    rw (check-calls w srs_ids c s)
      (elim (Bool-cases (not (is_degraded c.id s.metrics) && is_dead w srs_ids c s)) [
        | inl e ↦ rw e h
        | inr e ↦ rw e tt
      ])

-- The tick never starts, stops or requeues FFmpeg for a push camera that needs no transcoding, which
-- has none: at most it moves such a camera to `reconnecting`.
pub push_passthrough-check :
    (w : World) (srs_ids : List String) (c : Camera) (s : TickState)
    → is_push_passthrough c ≡ true
    → Never is_ffmpeg_call (check_camera w srs_ids c s).0
push_passthrough-check w srs_ids c s h = Never-check is_ffmpeg_call w srs_ids c s (
    rw (recover-push w c (observed w srs_ids c s) h)
      (Never-calls_of is_ffmpeg_call (moved_of w c) (λ e. refl)))

Never-enqueue :
    (job : QueuedJob) (c : Camera) (backoff : ℕ)
    → job.name ≡ "restart"
    → Never is_queue_call (enqueue_start (some job) c backoff)
unfolding enqueue_start
Never-enqueue job c backoff h = ground (arith, eq_iff job.name "restart")

Never-stop : (id : String) (b : Bool) → Never is_queue_call (if b then stop_ffmpeg id ∷ [] else [])
Never-stop id true = (refl, tt)
Never-stop id false = tt

-- While a 'restart' job of a camera is in the queue, the tick leaves the queue of that camera alone:
-- the new profile that the job carries is not replaced by a plain start.
pub restart_job-check :
    (w : World) (srs_ids : List String) (c : Camera) (s : TickState) (job : QueuedJob)
    → w.stream_job c.id ≡ some job
    → job.name ≡ "restart"
    → Never is_queue_call (check_camera w srs_ids c s).0
restart_job-check w srs_ids c s job found restart =
    Never-check is_queue_call w srs_ids c s (elim (Bool-cases (is_push_passthrough c)) [
      | inl push ↦
          rw (recover-push w c s' push) (Never-calls_of is_queue_call (moved_of w c) (λ e. refl))
      | inr pull ↦ rw (recover-pull w c s' pull) (
          Never-append is_queue_call _ _ (Never-stop c.id (w.is_running c.id)) (
            Never-append is_queue_call _ _ (Never-calls_of is_queue_call (moved_of w c) (λ e. refl))
              (rw found (Never-enqueue job c (backoff_of w c s') restart))))
    ])
  where
    s' : TickState
    s' = observed w srs_ids c s

-- A dead pull camera in no degraded state is recovered in this tick, whatever is queued but a
-- 'restart' job: FFmpeg is stopped if it runs, the camera moves to `reconnecting`, and a start job
-- is added with the backoff of its history; a job that has failed three times or more is removed
-- before.
pub dead_camera-check :
    (w : World) (srs_ids : List String) (c : Camera) (s : TickState)
    → is_degraded c.id s.metrics ≡ false
    → is_push_passthrough c ≡ false
    → is_dead w srs_ids c s ≡ true
    → let s' = observed w srs_ids c s in
      (check_camera w srs_ids c s).0
      ≡ (if w.is_running c.id then stop_ffmpeg c.id ∷ [] else [])
        ++ (calls_of (moved_of w c) ++ enqueue_start (w.stream_job c.id) c (backoff_of w c s'))
dead_camera-check w srs_ids c s healthy pull dead =
    check-calls w srs_ids c s ∙ rw (healthy, dead) (recover-pull w c (observed w srs_ids c s) pull)

-- Whatever the history of the health metrics, a pull camera whose FFmpeg runs is not dead at the
-- first tick at which SRS does not show it, and is dead at the fourth such tick in a row at the
-- latest.
pub miss-is_dead :
    (w : World) (srs_ids : List String) (c : Camera) (s : TickState) (es : List Event)
    → s.metrics ≡ run es fresh_metrics
    → is_push_passthrough c ≡ false
    → w.is_running c.id ≡ true
    → contains srs_ids c.id ≡ false
    → let misses = count_or_zero (lookup c.id s.miss_counters) in
      ((nat_same misses 0 && is_dead w srs_ids c s) ≡ false)
      × ((leb 3 misses && not (is_dead w srs_ids c s)) ≡ false)
miss-is_dead w srs_ids c s es history pull running missing =
    let bounds : (2 ≤ tolerance_of w c s) × (tolerance_of w c s ≤ 4) =
      rw history (miss_tolerance_bounds es w.now c.id) in
    (ground (arith, bounds), ground (arith, bounds))
