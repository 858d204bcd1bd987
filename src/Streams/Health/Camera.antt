-- ===== src/Streams/Health/Camera.antt =====
-- Each camera's share of the health metrics as a machine of its own, which the service's maps refine.
use sms_app.Base.{
  ℕ, String, Bool, Option, none, some, List, [], ◌∷◌, ◌≡◌, refl, ap, ◌∙◌, arith, lookup,
  lookup-insert, lookup-erase, if◌then◌else◌, ◌==◌, eq_iff, string_eq, Bool-cases, inl, inr, Dict,
}
use sms_app.Camera.{Status}
use sms_app.Streams.Health.{
  HealthRecord, HealthMetrics, record_or_empty, get_or_create_record, set_record, record_start,
  exit_record, record_exit, transition_record, record_transition, mark_record, mark_degraded,
  held_stable, get_miss_tolerance, bump_record, bump_miss_tolerance, trimmed, trim_all, snapshot,
}

-- A call of one of the service's methods that change its state.
pub data Event : Type 0 where
  start : ℕ → String → Event
  exit : ℕ → String → Bool → Event
  moved : ℕ → String → Status → Status → Event
  mark : ℕ → String → Event
  read_tolerance : ℕ → String → Event
  bump : String → Event
  read_snapshot : ℕ → Event

unfoldable pub apply : Event → HealthMetrics → HealthMetrics
apply (start now id) m = record_start now id m
apply (exit now id intentional) m = record_exit now id intentional m
apply (moved now id from to) m = record_transition now id from to m
apply (mark now id) m = mark_degraded now id m
apply (read_tolerance now id) m = (get_miss_tolerance now id m).1
apply (bump id) m = bump_miss_tolerance id m
apply (read_snapshot now) m = (snapshot now m).1

unfoldable pub run : List Event → HealthMetrics → HealthMetrics
run [] m = m
run (e ∷ es) m = run es (apply e m)

-- What the service holds of one camera.
pub record View : Type 0 where
  pub started : Option ℕ
  pub health : HealthRecord

unfoldable pub view : String → HealthMetrics → View
view id m = record { started = lookup id m.start_times; health = get_or_create_record id m }

abbrev pub with_health : (HealthRecord → HealthRecord) → View → View
with_health f v = record v { health = f v.health }

abbrev pub own_exit : ℕ → Bool → View → View
own_exit now intentional v = record {
  started = none;
  health = if intentional then v.health else exit_record now v.started v.health;
}

abbrev pub reset_if_stable : ℕ → HealthRecord → HealthRecord
reset_if_stable now r =
    if held_stable now r.stable_since then record r { custom_miss_tolerance = none } else r

unfoldable pub step : String → Event → View → View
step id (start now j) v = if id == j then record v { started = some now } else v
step id (exit now j intentional) v = if id == j then own_exit now intentional v else v
step id (moved now j from to) v =
    if id == j then with_health (transition_record now from to) v else v
step id (mark now j) v = if id == j then with_health (mark_record now) v else v
step id (read_tolerance now j) v = if id == j then with_health (reset_if_stable now) v else v
step id (bump j) v = if id == j then with_health bump_record v else v
step id (read_snapshot now) v = with_health (trimmed now) v

unfoldable pub steps : String → List Event → View → View
steps id [] v = v
steps id (e ∷ es) v = steps id es (step id e v)

pub record-set :
    (id j : String) (r : HealthRecord) (m : HealthMetrics)
    → get_or_create_record id (set_record j r m)
      ≡ (if id == j then r else get_or_create_record id m)
unfolding get_or_create_record
record-set id j r m = ground (arith, lookup-insert id j r m.records)

lookup-trim_all :
    (now : ℕ) (id : String) (d : Dict HealthRecord)
    → record_or_empty (lookup id (trim_all now d)) ≡ trimmed now (record_or_empty (lookup id d))
unfolding lookup trim_all
lookup-trim_all now id [] = refl
lookup-trim_all now id ((j, r) ∷ d) = elim (Bool-cases (id == j)) [
  | inl h ↦ rw h refl
  | inr h ↦ rw h (lookup-trim_all now id d)
]

pub view-apply :
    (id : String) (e : Event) (m : HealthMetrics) → view id (apply e m) ≡ step id e (view id m)
unfolding view apply step
view-apply id (start now j) m =
    unfold record_start get_or_create_record in ground (arith, lookup-insert id j now m.start_times)
view-apply id (exit now j intentional) m =
    unfold record_exit get_or_create_record in
    ground (
      arith,
      eq_iff id j,
      lookup-insert id j
          (exit_record now (lookup j m.start_times) (record_or_empty (lookup j m.records)))
          m.records,
      lookup-erase id j m.start_times,
    )
view-apply id (moved now j from to) m =
    unfold record_transition in
    ground (
      arith,
      eq_iff id j,
      record-set id j (transition_record now from to (get_or_create_record j m)) m,
    )
view-apply id (mark now j) m =
    unfold mark_degraded in
    ground (arith, eq_iff id j, record-set id j (mark_record now (get_or_create_record j m)) m)
view-apply id (read_tolerance now j) m =
    let cleared : HealthRecord = record (record_or_empty (lookup j m.records)) {
      custom_miss_tolerance = none;
    } in
    unfold get_miss_tolerance get_or_create_record in
    ground (arith, eq_iff id j, lookup-insert id j cleared m.records)
view-apply id (bump j) m =
    unfold bump_miss_tolerance in
    ground (arith, eq_iff id j, record-set id j (bump_record (get_or_create_record j m)) m)
view-apply id (read_snapshot now) m =
    unfold snapshot get_or_create_record in ground (arith, lookup-trim_all now id m.records)

-- After any calls, for any cameras in any order, what the service holds of a camera is what the
-- camera's own machine holds: the maps keep the cameras apart.
pub view-run :
    (id : String) (es : List Event) (m : HealthMetrics)
    → view id (run es m) ≡ steps id es (view id m)
unfolding run steps
view-run id [] m = refl
view-run id (e ∷ es) m = view-run id es (apply e m) ∙ ap (steps id es) (view-apply id e m)
