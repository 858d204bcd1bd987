-- ===== src/Streams/Health.antt =====
-- apps/api/src/streams/stream-health-metrics.service.ts: the in-memory health record of each
-- camera. `Date.now()` is the argument `now`, in milliseconds; a method returns the new state beside
-- its result. `now - t` is only compared with bounds above 0, so the subtraction that stops at 0
-- answers as the signed one.
pub mod Camera
pub mod Window
pub mod Bounds
mod Examples
use sms_app.Base.{
  ℕ, suc, ◌+◌, ◌-◌, ◌*◌, String, Bool, true, false, not, ◌&&◌, ◌||◌, Option, none, some, List, [],
  ◌∷◌, ◌++◌, length, keep, take, find, Dict, lookup, insert, erase, ltb, leb, if◌then◌else◌, ◌==◌,
  nat_eq, string_eq, reverse, sort_by,
}
use sms_app.Camera.{Status, online, reconnecting, degraded, status_eq}

pub record Transition : Type 0 where
  pub at : ℕ
  pub from : Status
  pub to : Status

pub record HealthRecord : Type 0 where
  pub exits : List ℕ
  pub fast_exits : List ℕ
  pub transitions : List Transition
  pub stable_since : Option ℕ
  pub consecutive_fast_exits : ℕ
  pub custom_miss_tolerance : Option ℕ
  pub degraded_since : Option ℕ

pub record HealthMetrics : Type 0 where
  pub records : Dict HealthRecord
  pub start_times : Dict ℕ

abbrev pub crash_window_ms : ℕ
crash_window_ms = 600000

abbrev pub fast_exit_threshold_ms : ℕ
fast_exit_threshold_ms = 10000

abbrev pub crash_loop_threshold : ℕ
crash_loop_threshold = 5

abbrev pub flap_window_ms : ℕ
flap_window_ms = 300000

abbrev pub stuck_reconnecting_ms : ℕ
stuck_reconnecting_ms = 300000

abbrev pub stable_dwell_ms : ℕ
stable_dwell_ms = 300000

abbrev pub default_miss_tolerance : ℕ
default_miss_tolerance = 2

abbrev pub max_miss_tolerance : ℕ
max_miss_tolerance = 4

abbrev pub empty_record : HealthRecord
empty_record = record {
  exits = [];
  fast_exits = [];
  transitions = [];
  stable_since = none;
  consecutive_fast_exits = 0;
  custom_miss_tolerance = none;
  degraded_since = none;
}

abbrev pub fresh_metrics : HealthMetrics
fresh_metrics = record { records = []; start_times = [] }

-- `now - t <= windowMs`
abbrev pub within : ℕ → ℕ → ℕ → Bool
within window now t = leb (now - t) window

abbrev pub record_or_empty : Option HealthRecord → HealthRecord
record_or_empty none = empty_record
record_or_empty (some r) = r

unfoldable pub get_or_create_record : String → HealthMetrics → HealthRecord
get_or_create_record id m = record_or_empty (lookup id m.records)

-- The object in the map is mutated in place: the entry of the camera takes the new record.
abbrev pub set_record : String → HealthRecord → HealthMetrics → HealthMetrics
set_record id r m = record m { records = insert id r m.records }

unfoldable pub record_start : ℕ → String → HealthMetrics → HealthMetrics
record_start now id m = record m { start_times = insert id now m.start_times }

-- `startedAt && now - startedAt < FAST_EXIT_THRESHOLD_MS`; a start at time 0 is falsy.
abbrev pub is_fast_exit : ℕ → Option ℕ → Bool
is_fast_exit now none = false
is_fast_exit now (some started) = not (started == 0) && ltb (now - started) fast_exit_threshold_ms

-- What an exit that was not asked for does to the record.
unfoldable pub exit_record : ℕ → Option ℕ → HealthRecord → HealthRecord
exit_record now started r =
    let fast = is_fast_exit now started in
    let fast_exits = if fast then r.fast_exits ++ now ∷ [] else r.fast_exits in
    record r {
      exits = keep (within crash_window_ms now) (r.exits ++ now ∷ []);
      fast_exits = keep (within crash_window_ms now) fast_exits;
      consecutive_fast_exits = if fast then r.consecutive_fast_exits + 1 else 0;
    }

unfoldable pub record_exit : ℕ → String → Bool → HealthMetrics → HealthMetrics
record_exit now id intentional m =
    let started = lookup id m.start_times in
    let stopped = record m { start_times = erase id m.start_times } in
    if intentional
    then stopped
    else set_record id (exit_record now started (get_or_create_record id stopped)) stopped

abbrev pub stable_after : ℕ → Status → Status → Option ℕ → Option ℕ
stable_after now from to since =
    if to == online then some now else if from == online then none else since

abbrev pub is_some {ℓ} : {A : Type ℓ} → Option A → Bool
is_some none = false
is_some (some a) = true

unfoldable pub transition_record : ℕ → Status → Status → HealthRecord → HealthRecord
transition_record now from to r =
    let moved = record r {
      transitions =
          keep (λ t. within flap_window_ms now t.at)
            (r.transitions ++ record { at = now; from = from; to = to } ∷ []);
      stable_since = stable_after now from to r.stable_since;
    } in
    if not (to == degraded) && is_some r.degraded_since
    then record moved { degraded_since = none; consecutive_fast_exits = 0 }
    else moved

unfoldable pub record_transition : ℕ → String → Status → Status → HealthMetrics → HealthMetrics
record_transition now id from to m =
    set_record id (transition_record now from to (get_or_create_record id m)) m

unfoldable pub is_in_crash_loop : String → HealthMetrics → Bool
is_in_crash_loop id m = elim (lookup id m.records) [
  | none ↦ false
  | some r ↦ ltb crash_loop_threshold (length r.fast_exits)
]

abbrev pub mark_record : ℕ → HealthRecord → HealthRecord
mark_record now r = if is_some r.degraded_since then r else record r { degraded_since = some now }

unfoldable pub mark_degraded : ℕ → String → HealthMetrics → HealthMetrics
mark_degraded now id m = set_record id (mark_record now (get_or_create_record id m)) m

unfoldable pub is_degraded : String → HealthMetrics → Bool
is_degraded id m = elim (lookup id m.records) [ none ↦ false | some r ↦ is_some r.degraded_since ]

abbrev pub tolerance_or_default : Option ℕ → ℕ
tolerance_or_default none = default_miss_tolerance
tolerance_or_default (some n) = n

abbrev pub held_stable : ℕ → Option ℕ → Bool
held_stable now none = false
held_stable now (some since) = leb stable_dwell_ms (now - since)

unfoldable pub get_miss_tolerance : ℕ → String → HealthMetrics → ℕ × HealthMetrics
get_miss_tolerance now id m = elim (lookup id m.records) [
  | none ↦ (default_miss_tolerance, m)
  | some r ↦
      if held_stable now r.stable_since
      then (default_miss_tolerance, set_record id (record r { custom_miss_tolerance = none }) m)
      else (tolerance_or_default r.custom_miss_tolerance, m)
]

abbrev pub bump_record : HealthRecord → HealthRecord
bump_record r =
    let current = tolerance_or_default r.custom_miss_tolerance in
    if leb max_miss_tolerance current
    then r
    else record r { custom_miss_tolerance = some (current + 1) }

unfoldable pub bump_miss_tolerance : String → HealthMetrics → HealthMetrics
bump_miss_tolerance id m = set_record id (bump_record (get_or_create_record id m)) m

abbrev pub backoff_of_record : HealthRecord → ℕ
backoff_of_record r =
    if leb 3 r.consecutive_fast_exits
    then 30000
    else if leb 1 r.consecutive_fast_exits
    then 5000
    else 1000

unfoldable pub get_backoff_base_ms : String → HealthMetrics → ℕ
get_backoff_base_ms id m = elim (lookup id m.records) [ none ↦ 1000 | some r ↦ backoff_of_record r ]

-- The trims that `snapshot` makes on every record it reads.
abbrev pub trimmed : ℕ → HealthRecord → HealthRecord
trimmed now r = record r {
  fast_exits = keep (within crash_window_ms now) r.fast_exits;
  transitions = keep (λ t. within flap_window_ms now t.at) r.transitions;
}

abbrev pub flaps_of : HealthRecord → ℕ
flaps_of r = length (keep (λ t. t.from == online && t.to == reconnecting) r.transitions)

abbrev is_before : Option Transition → Transition → Bool
is_before none into = true
is_before (some out) into = ltb out.at into.at

abbrev stuck_since : ℕ → Option Transition → Option Transition → Bool
stuck_since now none out = false
stuck_since now (some into) out = is_before out into && ltb stuck_reconnecting_ms (now - into.at)

abbrev pub is_stuck_reconnecting : ℕ → HealthRecord → Bool
is_stuck_reconnecting now r =
    stuck_since now (find (λ t. t.to == reconnecting) (reverse r.transitions))
      (find (λ t. t.from == reconnecting) (reverse r.transitions))

-- `transitionsPerMinute` counts hundredths: the source rounds `total / 5 * 100` and divides by 100.
pub record Snapshot : Type 0 where
  pub transitions_per_minute : ℕ
  pub suspected_crash_loop : List String
  pub top_flapping : List (String × ℕ)
  pub stuck_reconnecting : List String
  pub degraded_cameras : List String

abbrev add_if : Bool → String → List String → List String
add_if test id ids = if test then id ∷ ids else ids

-- One round of the loop over the records, in front of the rounds that follow it.
abbrev pub snapshot_camera : ℕ → String → HealthRecord → Snapshot → Snapshot
snapshot_camera now id r s = record {
  transitions_per_minute = 20 * length r.transitions + s.transitions_per_minute;
  suspected_crash_loop =
      add_if (ltb crash_loop_threshold (length r.fast_exits)) id s.suspected_crash_loop;
  top_flapping = if ltb 0 (flaps_of r) then (id, flaps_of r) ∷ s.top_flapping else s.top_flapping;
  stuck_reconnecting = add_if (is_stuck_reconnecting now r) id s.stuck_reconnecting;
  degraded_cameras = add_if (is_some r.degraded_since) id s.degraded_cameras;
}

unfoldable pub snapshot_loop : ℕ → Dict HealthRecord → Snapshot
snapshot_loop now [] = record {
  transitions_per_minute = 0;
  suspected_crash_loop = [];
  top_flapping = [];
  stuck_reconnecting = [];
  degraded_cameras = [];
}
snapshot_loop now ((id, r) ∷ records) =
    snapshot_camera now id (trimmed now r) (snapshot_loop now records)

unfoldable pub trim_all : ℕ → Dict HealthRecord → Dict HealthRecord
trim_all now [] = []
trim_all now ((id, r) ∷ records) = (id, trimmed now r) ∷ trim_all now records

unfoldable pub snapshot : ℕ → HealthMetrics → Snapshot × HealthMetrics
unfolding snapshot_loop trim_all
snapshot now m =
    let s = snapshot_loop now m.records in
    (
      record s { top_flapping = take 10 (sort_by (λ a b. ltb b.1 a.1) s.top_flapping) },
      record m { records = trim_all now m.records },
    )
