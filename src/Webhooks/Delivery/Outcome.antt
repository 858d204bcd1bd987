-- ===== src/Webhooks/Delivery/Outcome.antt =====
-- What becomes of a delivery over its attempts.
use sms_app.Base.{
  ℕ, zero, suc, ◌+◌, ◌*◌, ◌≤◌, String, Bool, true, false, not, ◌&&◌, Option, none, some, List, [],
  ◌∷◌, ◌≡◌, refl, arith, if◌then◌else◌, leb, length,
}
use sms_app.Webhooks.Delivery.{
  Answer, Delivery, responded, no_response, is_success, process, attempts_from, deliver,
  backoff_strategy, new_delivery,
}

abbrev pub is_set : Option ℕ → Bool
is_set none = false
is_set (some n) = true

abbrev pub fails : Answer → Bool
fails (responded status body) = not (is_success status)
fails no_response = true

-- Whether the attempts from `made` on all fail.
abbrev pub all_fail : (ℕ → Answer) → ℕ → ℕ → Bool
all_fail answers zero made = true
all_fail answers (suc left) made = fails (answers made) && all_fail answers left (made + 1)

abbrev pub total_delay : List ℕ → ℕ
total_delay [] = 0
total_delay (d ∷ ds) = d + total_delay ds

-- The delays of the attempts from `made` on, up to the last.
abbrev waited : ℕ → ℕ → ℕ
waited zero made = 0
waited (suc left) made = backoff_strategy (made + 1) + waited left (made + 1)

-- The text function, the clock and the answers of the attempts.
module _ (slice : String → String) (clock : ℕ → ℕ) (answers : ℕ → Answer) where
  process_lem :
      (made : ℕ) (d : Delivery)
      → ((process slice (clock made) made (answers made) d).1 ≡ fails (answers made))
        × ((process slice (clock made) made (answers made) d).0.attempts ≡ made + 1)
        × (is_set (process slice (clock made) made (answers made) d).0.completed_at
            ≡ (if fails (answers made) then is_set d.completed_at else true))
        × (is_set (process slice (clock made) made (answers made) d).0.failed_at
            ≡ (if fails (answers made) && leb 5 (made + 1) then true else is_set d.failed_at))
  unfolding process
  process_lem made d = ground arith

  attempts_from-outcome :
      (left made : ℕ) (d : Delivery)
      → made + suc left ≡ 5
      → is_set d.completed_at ≡ false
      → is_set d.failed_at ≡ false
      → ((attempts_from slice clock answers (suc left) made d).delivery.attempts
          ≡ made + 1 + length (attempts_from slice clock answers (suc left) made d).delays)
        × (length (attempts_from slice clock answers (suc left) made d).delays ≤ left)
        × (total_delay (attempts_from slice clock answers (suc left) made d).delays
            ≤ waited left made)
        × (is_set (attempts_from slice clock answers (suc left) made d).delivery.failed_at
            ≡ all_fail answers (suc left) made)
        × (is_set (attempts_from slice clock answers (suc left) made d).delivery.completed_at
            ≡ not (all_fail answers (suc left) made))
  unfolding attempts_from
  attempts_from-outcome zero made d h c f = ground (arith, process_lem made d)
  attempts_from-outcome (suc left) made d h c f = ground (
    arith,
    process_lem made d,
    attempts_from-outcome left (made + 1) (process slice (clock made) made (answers made) d).0,
  )

  -- A delivery takes one to five attempts, each but the first after its delay, and waits at most two
  -- hours and 36 minutes over all of them.
  pub delivery_bounds :
      (1 ≤ (deliver slice clock answers).delivery.attempts)
      × ((deliver slice clock answers).delivery.attempts ≤ 5)
      × ((deliver slice clock answers).delivery.attempts
          ≡ 1 + length (deliver slice clock answers).delays)
      × (total_delay (deliver slice clock answers).delays ≤ 156 * 60000)
  unfolding deliver backoff_strategy
  delivery_bounds = omega (arith, attempts_from-outcome 4 0 new_delivery (omega arith) refl refl)

  -- A delivery ends as failed exactly if all five attempts fail, and as completed exactly if not.
  pub delivery_settles :
      (is_set (deliver slice clock answers).delivery.failed_at ≡ all_fail answers 5 0)
      × (is_set (deliver slice clock answers).delivery.completed_at ≡ not (all_fail answers 5 0))
  unfolding deliver
  delivery_settles =
      let outcome = attempts_from-outcome 4 0 new_delivery (omega arith) refl refl in
      (outcome.3, outcome.4)
