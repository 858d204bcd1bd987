-- ===== src/Resilience/Liveness.antt =====
-- How soon a health tick recovers a camera whose stream is missing.
use sms_app.Base.{
  ℕ, suc, ◌+◌, ◌≤◌, String, Bool, true, false, ◌||◌, Option, none, some, List, [], ◌∷◌, ◌++◌, map,
  ◌≡◌, refl, ◌∙◌, arith, ◌==◌, if◌then◌else◌, leb, string_eq, eq_refl, contains, lookup,
  lookup-insert,
}
use sms_app.Camera.{
  Status, offline, degraded, other, online, connecting, reconnecting, status_eq, Camera,
  is_push_passthrough,
}
use sms_app.Status
use sms_app.Streams.Jobs.{QueuedJob, ffmpeg_job_id, build_stream_job_data}
use sms_app.Streams.Health.{fresh_metrics, is_degraded}
use sms_app.Streams.Health.Camera.{Event, run}
use sms_app.Resilience.{
  World, TickState, stop_ffmpeg, status_call, remove_stream_job, add_start, calls_of, enqueue_start,
  count_or_zero, recover_camera, check_camera,
}
use sms_app.Resilience.Tick.{is_dead, observed, backoff_of, dead_camera-check, miss-is_dead}

recover-misses :
    (w : World) (c : Camera) (s : TickState)
    → (recover_camera w c s).1.miss_counters ≡ s.miss_counters
unfolding recover_camera
recover-misses w c s = ground arith

-- A check that finds the stream missing counts it, whether it acts on the camera or not.
check-misses :
    (w : World) (srs_ids : List String) (c : Camera) (s : TickState)
    → is_degraded c.id s.metrics ≡ false
    → contains srs_ids c.id ≡ false
    → lookup c.id (check_camera w srs_ids c s).1.miss_counters
      ≡ some (count_or_zero (lookup c.id s.miss_counters) + 1)
unfolding check_camera
check-misses w srs_ids c s healthy missing = ground (
  arith,
  recover-misses w c (observed w srs_ids c s),
  lookup-insert c.id c.id (count_or_zero (lookup c.id s.miss_counters) + 1) s.miss_counters,
  eq_refl c.id,
)

-- Before the next check of the camera, `n` checks in a row have found its stream missing. Between the
-- checks the state changes in any way that keeps the camera's count.
pub data Missed (c : Camera) : ℕ → TickState → Type 0 where
  unseen : (s : TickState) → Missed c 0 s
  again :
      (n : ℕ) (w : World) (srs_ids : List String) (s t : TickState)
      → Missed c n s
      → is_degraded c.id s.metrics ≡ false
      → contains srs_ids c.id ≡ false
      → lookup c.id t.miss_counters ≡ lookup c.id (check_camera w srs_ids c s).1.miss_counters
      → Missed c (suc n) t

Missed-count :
    (c : Camera) (n : ℕ) (s : TickState)
    → Missed c n s
    → n ≤ count_or_zero (lookup c.id s.miss_counters)
Missed-count c _ s (unseen _) = omega arith
Missed-count c _ t (again n w srs_ids s _ m healthy missing same) =
    ground (arith, Missed-count c n s m, check-misses w srs_ids c s healthy missing)

abbrev pub is_restart : Option QueuedJob → Bool
is_restart none = false
is_restart (some job) = job.name == "restart"

-- A job that has failed three times.
abbrev pub has_failed_thrice : Option QueuedJob → Bool
has_failed_thrice none = false
has_failed_thrice (some job) = leb 3 job.attempts_made

enqueue_start-starts :
    (job : Option QueuedJob) (c : Camera) (backoff : ℕ)
    → is_restart job ≡ false
    → enqueue_start job c backoff
      ≡ (if has_failed_thrice job then remove_stream_job (ffmpeg_job_id c.id) ∷ [] else [])
        ++ add_start (ffmpeg_job_id c.id) backoff 0 (build_stream_job_data c) ∷ []
unfolding enqueue_start
enqueue_start-starts none c backoff h = refl
enqueue_start-starts (some job) c backoff h = ground arith

can_reconnect :
    (st : Status)
    → (st == online || st == connecting) ≡ true
    → ((reconnecting == st) ≡ false) × (contains (Status.valid_transitions st) reconnecting ≡ true)
unfolding Status.valid_transitions
can_reconnect online h = (refl, refl)
can_reconnect connecting h = (refl, refl)
can_reconnect offline h = absurd (cc)
can_reconnect reconnecting h = absurd (cc)
can_reconnect degraded h = absurd (cc)
can_reconnect (other t) h = absurd (cc)

-- What `transition` does to a camera that is online or connecting.
reconnecting_calls :
    (now : ℕ) (pending : Bool) (r : Camera)
    → (r.status == online || r.status == connecting) ≡ true
    → (notices : List Status.Effect) × (calls_of
          (Status.transition now pending (some r) reconnecting)
        ≡ status_call (Status.update_status r.id reconnecting none)
          ∷ status_call (Status.record_transition r.id r.status reconnecting)
          ∷ status_call (Status.broadcast_status r.org_id r.id reconnecting)
          ∷ map status_call notices)
unfolding Status.transition Status.transition_effects
reconnecting_calls now pending r h =
    let (differs, valid) = can_reconnect r.status h in
    (
      if r.maintenance_mode
          then []
          else if contains Status.notifiable_statuses reconnecting
          then Status.notify_effects pending r reconnecting
          else [],
      rw (differs, valid) refl,
    )

-- A pull camera that is not marked degraded and whose FFmpeg runs, whatever the history of the health
-- metrics, and whose row says that it is online or connecting: where three checks in a row have found
-- its stream missing, and no 'restart' job of it is queued, the next check that finds it missing
-- recovers it. It stops FFmpeg, writes `reconnecting` to the row, notes and broadcasts the change,
-- removes a queued job that has failed three times, and adds a start job with the camera's data, no delay
-- and the backoff of its history.
pub fourth_miss_recovers :
    (w : World) (srs_ids : List String) (c r : Camera) (s : TickState) (es : List Event)
    → Missed c 3 s
    → s.metrics ≡ run es fresh_metrics
    → is_degraded c.id s.metrics ≡ false
    → is_push_passthrough c ≡ false
    → w.is_running c.id ≡ true
    → contains srs_ids c.id ≡ false
    → w.row c.id ≡ some r
    → (r.status == online || r.status == connecting) ≡ true
    → is_restart (w.stream_job c.id) ≡ false
    → (notices : List Status.Effect) × ((check_camera w srs_ids c s).0
        ≡ stop_ffmpeg c.id
          ∷ status_call (Status.update_status r.id reconnecting none)
          ∷ status_call (Status.record_transition r.id r.status reconnecting)
          ∷ status_call (Status.broadcast_status r.org_id r.id reconnecting)
          ∷ (map status_call notices
              ++ ((if has_failed_thrice (w.stream_job c.id)
                    then remove_stream_job (ffmpeg_job_id c.id) ∷ []
                    else [])
                  ++ add_start
                      (ffmpeg_job_id c.id)
                      (backoff_of w c (observed w srs_ids c s))
                      0
                      (build_stream_job_data c)
                    ∷ [])))
fourth_miss_recovers w srs_ids c r s es missed history healthy pull running missing row up free =
    let dead : is_dead w srs_ids c s ≡ true = ground (
      arith,
      miss-is_dead w srs_ids c s es history pull running missing,
      Missed-count c 3 s missed,
    ) in
    let (notices, moved) = reconnecting_calls w.now (w.notify_pending c.id) r up in
    let backoff = backoff_of w c (observed w srs_ids c s) in
    (
      notices,
      dead_camera-check w srs_ids c s healthy pull dead
          ∙ rw (running, row, moved, enqueue_start-starts (w.stream_job c.id) c backoff free) refl,
    )
