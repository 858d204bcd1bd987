-- ===== src/Status/Diagram.antt =====
-- The transition diagram as a relation, and what `transition` accepts.
use sms_app.Base.{
  ℕ, Bool, true, false, not, ◌&&◌, some, List, [], ◌∷◌, ◌≡◌, refl, ◌≢◌, ◌↔◌, arith, contains, any,
  ◌||◌, if◌then◌else◌, ◌==◌, eq_iff, Error, Result, ok, err, string_eq,
}
use sms_app.Camera.{
  Status, offline, connecting, online, reconnecting, degraded, status_eq, status_same_iff, Camera,
}
use sms_app.Status.{
  Effect, update_status, notify_effects, valid_transitions, transition_effects, transition,
}

-- From any status a camera may go offline, also from a text that the source does not know.
infix 40 ◌⟶◌
pub data ◌⟶◌ : Status → Status → Type 0 where
  stop : {s : Status} → s ⟶ offline
  begin : offline ⟶ connecting
  publish : offline ⟶ online
  connected : connecting ⟶ online
  lost_early : connecting ⟶ reconnecting
  crash_early : connecting ⟶ degraded
  lost : online ⟶ reconnecting
  crash : online ⟶ degraded
  restart : online ⟶ connecting
  recovered : reconnecting ⟶ online
  retry : reconnecting ⟶ connecting
  give_up : reconnecting ⟶ degraded
  repaired : degraded ⟶ online
  rearm : degraded ⟶ connecting

ruleset edges = (
  stop, begin, publish, connected, lost_early, crash_early, lost, crash, restart, recovered, retry,
  give_up, repaired, rearm,
)

abbrev accepts : Status → Status → Bool
accepts from to = not (not (to == offline) && not (contains (valid_transitions from) to))

accepts-sound : (from to : Status) → accepts from to ≡ true → from ⟶ to
unfolding valid_transitions
accepts-sound offline to h = grind (arith, edges)
accepts-sound from to h = grind (arith, edges)

accepts_complete : {from to : Status} → from ⟶ to → accepts from to ≡ true
unfolding valid_transitions
accepts_complete stop = refl
accepts_complete e = ground arith

transition-accepts :
    (now : ℕ) (pending : Bool) (c : Camera) (to : Status)
    → to ≢ c.status
    → transition now pending (some c) to ≡ (
        if accepts c.status to
        then ok (transition_effects now pending c to)
        else err (Error.failure "Invalid transition"))
unfolding transition
transition-accepts now pending c to h = ground (arith, status_same_iff to c.status)

-- For a request to change the status of a camera that is there, `transition` succeeds exactly when
-- the diagram has an edge from the old status to the new one.
pub transition_ok_iff :
    (now : ℕ) (pending : Bool) (c : Camera) (to : Status)
    → to ≢ c.status
    → ((effects : List Effect) × (transition now pending (some c) to ≡ ok effects))
      ↔ (c.status ⟶ to)
transition_ok_iff now pending c to h = (
  λ (effects, e). accepts-sound c.status to (ground (arith, transition-accepts now pending c to h)),
  λ edge. (
    transition_effects now pending c to,
    rw (transition-accepts now pending c to h, accepts_complete edge) refl,
  ),
)

-- The row of the camera after the writes among the calls.
abbrev pub row_after : List Effect → Camera → Camera
row_after [] c = c
row_after (update_status id status stamp ∷ es) c =
    row_after es (if id == c.id then record c { status = status } else c)
row_after (e ∷ es) c = row_after es c

abbrev pub row_of_result : Result (List Effect) → Camera → Camera
row_of_result (ok effects) c = row_after effects c
row_of_result (err e) c = c

-- A row through a sequence of requested transitions, refused ones included.
abbrev pub serve : List (ℕ × Bool × Status) → Camera → Camera
serve [] c = c
serve ((now, pending, to) ∷ requests) c =
    serve requests (row_of_result (transition now pending (some c) to) c)

row_after-effects :
    (now : ℕ) (pending : Bool) (c : Camera) (to : Status)
    → (row_after (transition_effects now pending c to) c).status ≡ to
unfolding transition_effects notify_effects
row_after-effects now pending c to = ground (arith, eq_iff c.id c.id)

row-transition :
    (now : ℕ) (pending : Bool) (c : Camera) (to : Status)
    → (row_of_result (transition now pending (some c) to) c).status
      ≡ (if accepts c.status to then to else c.status)
unfolding transition
row-transition now pending c to =
    ground (arith, row_after-effects now pending c to, status_same_iff to c.status)

abbrev pub starts_stream : ℕ × Bool × Status → Bool
starts_stream (now, pending, to) = to == connecting || to == online

-- An offline camera stays offline, whatever transitions are requested in whatever order, until one of
-- them asks for `connecting` or `online`: it is never reported reconnecting or degraded before.
pub offline_until_started :
    (requests : List (ℕ × Bool × Status)) (c : Camera)
    → c.status ≡ offline
    → any starts_stream requests ≡ false
    → (serve requests c).status ≡ offline
unfolding valid_transitions
offline_until_started [] c h n = h
offline_until_started ((now, pending, to) ∷ requests) c h n =
    offline_until_started requests (row_of_result (transition now pending (some c) to) c)
      (ground (arith, row-transition now pending c to, status_same_iff to offline)) (ground arith)
