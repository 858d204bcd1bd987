-- ===== src/Webhooks/Delivery.antt =====
-- apps/api/src/webhooks/webhook-delivery.processor.ts: one attempt at a delivery, and the attempts that
-- the queue makes of a job: it runs a job again after the delay of the backoff strategy while the
-- attempts of the job last.
pub mod Outcome
use sms_app.Base.{
  ℕ, zero, suc, ◌+◌, ◌-◌, String, Bool, true, false, not, ◌&&◌, Option, none, some, List, [], ◌∷◌,
  if◌then◌else◌, ltb, leb, get_elem?,
}

-- `WEBHOOK_DELAYS[attemptsMade - 1] || 43200000`, in milliseconds
abbrev pub webhook_delays : List ℕ
webhook_delays = 60000 ∷ 300000 ∷ 1800000 ∷ 7200000 ∷ 43200000 ∷ []

abbrev pub delay_or_last : Option ℕ → ℕ
delay_or_last none = 43200000
delay_or_last (some d) = d

unfoldable pub backoff_strategy : ℕ → ℕ
backoff_strategy zero = 43200000
backoff_strategy (suc k) = delay_or_last (get_elem? webhook_delays k)

-- The columns of `WebhookDelivery` that the attempts write.
pub record Delivery : Type 0 where
  pub attempts : ℕ
  pub response_status : Option ℕ
  pub response_body : Option String
  pub last_attempt_at : Option ℕ
  pub completed_at : Option ℕ
  pub failed_at : Option ℕ

-- What the fetch gives: a response, or an error or the end of the ten seconds.
pub data Answer : Type 0 where
  responded : (status : ℕ) (body : String) → Answer
  no_response : Answer

-- `response.ok`
abbrev pub is_success : ℕ → Bool
is_success status = leb 200 status && ltb status 300

abbrev pub when_true : Bool → ℕ → Option ℕ → Option ℕ
when_true b now old = if b then some now else old

-- The update after a response.
abbrev pub with_response : (String → String) → ℕ → ℕ → ℕ → String → Delivery → Delivery
with_response slice now made status body d = record d {
  response_status = some status;
  response_body = some (slice body);
  attempts = made + 1;
  last_attempt_at = some now;
  completed_at = when_true (is_success status) now d.completed_at;
}

-- The update of the catch block.
abbrev pub with_failure : ℕ → ℕ → Delivery → Delivery
with_failure now made d = record d {
  attempts = made + 1;
  last_attempt_at = some now;
  failed_at = when_true (leb 5 (made + 1)) now d.failed_at;
}

-- One attempt: the row after it, and whether it threw. `slice` is `slice(0, 1000)`.
unfoldable pub process : (String → String) → ℕ → ℕ → Answer → Delivery → Delivery × Bool
process slice now made no_response d = (with_failure now made d, true)
process slice now made (responded status body) d =
    if is_success status
    then (with_response slice now made status body d, false)
    else (with_failure now made (with_response slice now made status body d), true)

-- What becomes of a job: the row and the delays between its attempts.
pub record Run : Type 0 where
  pub delivery : Delivery
  pub delays : List ℕ

-- `left` attempts are left after `made`; the answers and the clock are those of each attempt.
unfoldable pub attempts_from :
    (String → String) → (clock : ℕ → ℕ) (answers : ℕ → Answer) (left made : ℕ) → Delivery → Run
unfolding process backoff_strategy
attempts_from slice clock answers zero made d = record { delivery = d; delays = [] }
attempts_from slice clock answers (suc left) made d =
    let (d', threw) = process slice (clock made) made (answers made) d in
    let rest = attempts_from slice clock answers left (made + 1) d' in
    let again : Run = record rest { delays = backoff_strategy (made + 1) ∷ rest.delays } in
    if threw && ltb 0 left then again else record { delivery = d'; delays = [] }

abbrev pub new_delivery : Delivery
new_delivery = record {
  attempts = 0;
  response_status = none;
  response_body = none;
  last_attempt_at = none;
  completed_at = none;
  failed_at = none;
}

-- A job, with the five attempts that it is added with.
unfoldable pub deliver : (String → String) → (clock : ℕ → ℕ) (answers : ℕ → Answer) → Run
unfolding attempts_from
deliver slice clock answers = attempts_from slice clock answers 5 0 new_delivery
