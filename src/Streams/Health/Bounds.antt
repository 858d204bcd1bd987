-- ===== src/Streams/Health/Bounds.antt =====
-- The bounds of the adaptive settings, whatever the history.
use sms_app.Base.{
  ℕ, ◌+◌, ◌≤◌, String, Bool, true, false, List, [], ◌∷◌, ◌≡◌, refl, ap, ◌∙◌, sym, subst, arith, leb,
  if◌then◌else◌, ◌==◌, string_eq, lookup, not, ◌&&◌,
}
use sms_app.Camera.{degraded, status_eq}
use sms_app.Streams.Health.{
  HealthRecord, HealthMetrics, fresh_metrics, get_or_create_record, exit_record, transition_record,
  get_miss_tolerance, get_backoff_base_ms, default_miss_tolerance, max_miss_tolerance,
  tolerance_or_default, is_degraded, backoff_of_record, is_fast_exit, is_some,
}
use sms_app.Streams.Health.Camera.{
  Event, exit, moved, mark, bump, apply, run, View, view, step, steps, view-run, view-apply,
}

-- A camera's own tolerance is unset, or between the default and the cap.
abbrev pub IsTolerable : HealthRecord → Type 0
IsTolerable r =
    (default_miss_tolerance ≤ tolerance_or_default r.custom_miss_tolerance)
    × (tolerance_or_default r.custom_miss_tolerance ≤ max_miss_tolerance)

step-IsTolerable :
    (id : String) (e : Event) (v : View) → IsTolerable v.health → IsTolerable (step id e v).health
unfolding step exit_record transition_record
step-IsTolerable id (bump j) v h = ground arith
step-IsTolerable id e v h = ground arith

steps-IsTolerable :
    (id : String) (es : List Event) (v : View)
    → IsTolerable v.health
    → IsTolerable (steps id es v).health
unfolding steps
steps-IsTolerable id [] v h = h
steps-IsTolerable id (e ∷ es) v h =
    steps-IsTolerable id es (step id e v) (step-IsTolerable id e v h)

-- After any calls from a fresh service, the miss tolerance that the health tick reads is between 2
-- and 4, for every camera at every time: a dead stream is never waited for longer than 4 ticks.
pub miss_tolerance_bounds :
    (es : List Event) (now : ℕ) (id : String)
    → let tolerance = (get_miss_tolerance now id (run es fresh_metrics)).0 in
      (2 ≤ tolerance) × (tolerance ≤ 4)
unfolding get_miss_tolerance view get_or_create_record lookup
miss_tolerance_bounds es now id =
    let m = run es fresh_metrics in
    let tolerable : IsTolerable (view id m).health =
      subst (λ w. IsTolerable w.health) (sym (view-run id es fresh_metrics))
        (steps-IsTolerable id es (view id fresh_metrics) (omega arith)) in
    ground (arith, tolerable)

-- The degraded mark as one bit: `mark_degraded` sets it, a transition to anything but `degraded`
-- clears it, and nothing else touches it.
abbrev pub degraded_after : String → Event → Bool → Bool
degraded_after id (mark now j) b = if id == j then true else b
degraded_after id (moved now j from to) b = if id == j && not (to == degraded) then false else b
degraded_after id e b = b

abbrev pub degraded_by : String → List Event → Bool → Bool
degraded_by id [] b = b
degraded_by id (e ∷ es) b = degraded_by id es (degraded_after id e b)

step-degraded :
    (id : String) (e : Event) (v : View)
    → is_some (step id e v).health.degraded_since
      ≡ degraded_after id e (is_some v.health.degraded_since)
unfolding step exit_record transition_record
step-degraded id (bump j) v = ground arith
step-degraded id e v = ground arith

steps-degraded :
    (id : String) (es : List Event) (v : View)
    → is_some (steps id es v).health.degraded_since
      ≡ degraded_by id es (is_some v.health.degraded_since)
unfolding steps
steps-degraded id [] v = refl
steps-degraded id (e ∷ es) v =
    steps-degraded id es (step id e v) ∙ ap (degraded_by id es) (step-degraded id e v)

is_degraded-of-view :
    (id : String) (m : HealthMetrics) → is_degraded id m ≡ is_some (view id m).health.degraded_since
unfolding is_degraded view get_or_create_record
is_degraded-of-view id m = ground arith

-- After any calls from a fresh service, a camera counts as degraded exactly when it was marked
-- degraded and no transition to another status than `degraded` was recorded for it since.
pub degraded_verdict :
    (es : List Event) (id : String)
    → is_degraded id (run es fresh_metrics) ≡ degraded_by id es false
unfolding view get_or_create_record lookup
degraded_verdict es id =
    is_degraded-of-view id (run es fresh_metrics)
    ∙ ap (λ (w : View). is_some w.health.degraded_since) (view-run id es fresh_metrics)
    ∙ steps-degraded id es (view id fresh_metrics)

-- The fast exits in a row that the backoff counts.
abbrev pub streak_after : String → Event → View → ℕ
streak_after id (exit now j intentional) v =
    if id == j && not intentional
    then (if is_fast_exit now v.started then v.health.consecutive_fast_exits + 1 else 0)
    else v.health.consecutive_fast_exits
streak_after id (moved now j from to) v =
    if id == j && not (to == degraded) && is_some v.health.degraded_since
    then 0
    else v.health.consecutive_fast_exits
streak_after id e v = v.health.consecutive_fast_exits

backoff-of-view :
    (id : String) (m : HealthMetrics)
    → get_backoff_base_ms id m ≡ backoff_of_record (view id m).health
unfolding get_backoff_base_ms view get_or_create_record
backoff-of-view id m = ground arith

streak-step :
    (id : String) (e : Event) (v : View)
    → (step id e v).health.consecutive_fast_exits ≡ streak_after id e v
unfolding step exit_record transition_record
streak-step id (bump j) v = ground arith
streak-step id e v = ground arith

abbrev pub backoff_of_streak : ℕ → ℕ
backoff_of_streak n = if leb 3 n then 30000 else if leb 1 n then 5000 else 1000

-- The base delay of the next retry after a call: 1 s with no fast exit in a row, 5 s with one or two,
-- 30 s from three on, where a slow exit, or a transition that ends a degraded spell, starts the
-- count of the camera anew and nothing else changes it.
pub backoff_after_event :
    (id : String) (e : Event) (m : HealthMetrics)
    → get_backoff_base_ms id (apply e m) ≡ backoff_of_streak (streak_after id e (view id m))
backoff_after_event id e m =
    backoff-of-view id (apply e m)
    ∙ ap (λ (w : View). backoff_of_record w.health) (view-apply id e m)
    ∙ ap backoff_of_streak (streak-step id e (view id m))
