-- ===== src/ApiKeys/Totals.antt =====
-- What is counted for a key and a day, over the counters and the rows.
use sms_app.Base.{
  ℕ, ◌+◌, ◌-◌, ◌≤◌, String, Bool, true, false, not, List, [], ◌∷◌, ◌≡◌, if◌then◌else◌, string_eq,
  keep,
}
use sms_app.ApiKeys.{
  Amounts, Counter, Usage, Store, Job, read, written, System, Event, used, expired, counter_deleted,
  job_stopped, is_live, read_counter, step,
}

pub data Quantity : Type 0 where
  requests bytes : Quantity

abbrev pub amount : Quantity → Amounts → ℕ
amount requests a = a.requests
amount bytes a = a.bandwidth

-- The job has read a counter that it has not deleted yet.
abbrev pub is_between : Job → Bool
is_between (read key date a ks) = true
is_between (written key date a ks) = true
is_between job = false

-- No counter ends while the job is between its reading of a counter and its deletion of it.
abbrev pub NoneEnds : List Event → System → Type 0
NoneEnds [] s = Unit {0}
NoneEnds (expired now ∷ es) s = (is_between s.job ≡ false) × NoneEnds es (step (expired now) s)
NoneEnds (e ∷ es) s = NoneEnds es (step e s)

-- A quantity, and a set of keys and days.
module _ (q : Quantity) (p : String → String → Bool) where
  abbrev pub counted : List Counter → ℕ
  counted [] = 0
  counted (c ∷ cs) = (if p c.key_id c.date then amount q c.amounts else 0) + counted cs

  abbrev pub stored : List Usage → ℕ
  stored [] = 0
  stored (u ∷ us) = (if p u.key_id u.date then amount q u.amounts else 0) + stored us

  abbrev pub total : Store → ℕ
  total s = counted s.counters + stored s.rows

  -- What the job has added to a row and not yet deleted from its counter.
  abbrev pub overlap : Job → ℕ
  overlap (written k d a ks) = if p k d then amount q a else 0
  overlap job = 0

  -- What an event adds: only a request of a key on a day of the set does.
  abbrev pub added : Event → ℕ
  added (used now d k n) = if p k d then amount q (record { requests = 1; bandwidth = n }) else 0
  added e = 0

  -- What a deletion drops: the requests counted since the job read the counter.
  abbrev pub dropped : Job → List Counter → ℕ
  dropped (written k d a ks) cs = if p k d then amount q (read_counter k d cs) - amount q a else 0
  dropped job cs = 0

  -- What an event loses: the counters whose time is over, and what a deletion drops.
  abbrev pub lost : Event → System → ℕ
  lost (expired now) s = counted (keep (λ c. not (is_live now c)) s.store.counters)
  lost (counter_deleted true) s = dropped s.job s.store.counters
  lost e s = 0

  -- What is counted twice: a counter that stays where its row is written, and is read again.
  abbrev pub doubled : Event → System → ℕ
  doubled (counter_deleted false) s = overlap s.job
  doubled job_stopped s = overlap s.job
  doubled e s = 0

  abbrev pub all_added : List Event → ℕ
  all_added [] = 0
  all_added (e ∷ es) = added e + all_added es

  unfoldable pub all_lost : List Event → System → ℕ
  unfolding step
  all_lost [] s = 0
  all_lost (e ∷ es) s = lost e s + all_lost es (step e s)

  unfoldable pub all_doubled : List Event → System → ℕ
  unfolding step
  all_doubled [] s = 0
  all_doubled (e ∷ es) s = doubled e s + all_doubled es (step e s)

  -- A counter holds at least what the job has read of it.
  abbrev pub Covers : Job → List Counter → Type 0
  Covers (read k d a ks) cs = amount q a ≤ amount q (read_counter k d cs)
  Covers (written k d a ks) cs = amount q a ≤ amount q (read_counter k d cs)
  Covers job cs = Unit {0}
