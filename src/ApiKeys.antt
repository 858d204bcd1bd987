-- ===== src/ApiKeys.antt =====
-- apps/api/src/api-keys/api-keys.service.ts: the usage of the keys, counted in Redis for each key and
-- day and moved to the table of the usage rows by the daily job.
pub mod Access
pub mod Totals
mod Examples
use sms_app.Base.{
  ℕ, ◌+◌, ◌*◌, ◌≤◌, String, Bool, not, ◌&&◌, Option, none, some, List, [], ◌∷◌, map, if◌then◌else◌,
  ◌==◌, string_eq, ltb, find, keep, remove_first, true, false,
}

pub record Amounts : Type 0 where
  pub requests : ℕ
  pub bandwidth : ℕ

-- The two Redis keys of an API key and a day, which are set and expire together.
pub record Counter : Type 0 where
  pub key_id : String
  pub date : String
  pub amounts : Amounts
  pub expires_at : ℕ

-- A row of `ApiKeyUsage`.
pub record Usage : Type 0 where
  pub key_id : String
  pub date : String
  pub amounts : Amounts

pub record Store : Type 0 where
  pub counters : List Counter
  pub rows : List Usage

abbrev pub plus : Amounts → Amounts → Amounts
plus a b = record { requests = a.requests + b.requests; bandwidth = a.bandwidth + b.bandwidth }

abbrev pub is_counter_of : String → String → Counter → Bool
is_counter_of key date c = c.key_id == key && c.date == date

abbrev pub is_usage_of : String → String → Usage → Bool
is_usage_of key date u = u.key_id == key && u.date == date

-- Three days in milliseconds.
abbrev pub usage_ttl_ms : ℕ
usage_ttl_ms = 259200 * 1000

-- The pipeline of `incr`, `incrby` and the two `expire`.
unfoldable pub count_usage : ℕ → String → String → ℕ → List Counter → List Counter
count_usage now key date bytes [] =
    record {
      key_id = key;
      date = date;
      amounts = record { requests = 1; bandwidth = bytes };
      expires_at = now + usage_ttl_ms;
    }
    ∷ []
count_usage now key date bytes (c ∷ cs) =
    let rest = count_usage now key date bytes cs in
    if is_counter_of key date c
    then record c {
      amounts = plus c.amounts (record { requests = 1; bandwidth = bytes });
      expires_at = now + usage_ttl_ms;
    }
      ∷ cs
    else c ∷ rest

unfoldable pub record_usage : ℕ → String → String → ℕ → Store → Store
unfolding count_usage
record_usage now date key bytes s = record s {
  counters = count_usage now key date bytes s.counters;
}

-- The counters whose time is not over.
abbrev pub is_live : ℕ → Counter → Bool
is_live now c = ltb now c.expires_at

-- What `get` reads, with 0 for a missing key.
abbrev pub amounts_or_zero : Option Counter → Amounts
amounts_or_zero none = record { requests = 0; bandwidth = 0 }
amounts_or_zero (some c) = c.amounts

abbrev pub read_counter : String → String → List Counter → Amounts
read_counter key date cs = amounts_or_zero (find (is_counter_of key date) cs)

-- `upsert`, with `increment` for a row that is there
unfoldable pub upsert_usage : String → String → Amounts → List Usage → List Usage
upsert_usage key date a [] = record { key_id = key; date = date; amounts = a } ∷ []
upsert_usage key date a (u ∷ us) =
    let rest = upsert_usage key date a us in
    if is_usage_of key date u then record u { amounts = plus u.amounts a } ∷ us else u ∷ rest

abbrev pub counter_keys : List Counter → List (String × String)
counter_keys cs = map (λ c. (c.key_id, c.date)) cs

-- Where a run of `aggregateDaily` waits: before the reading of the next key, with the keys that are
-- left; after it, before the `upsert`; and after that, before the `del`. Between any two of them
-- requests are counted.
pub data Job : Type 0 where
  idle : Job
  round : List (String × String) → Job
  read written : String → String → Amounts → List (String × String) → Job

-- The start, with the keys that Redis lists; while a run is under way no other one starts.
unfoldable pub start_job : List Counter → Job → Job
start_job cs idle = round (counter_keys cs)
start_job cs (round ks) = round ks
start_job cs (read key date a ks) = read key date a ks
start_job cs (written key date a ks) = written key date a ks

-- The two `get`, and the end of the loop.
unfoldable pub read_next : List Counter → Job → Job
read_next cs idle = idle
read_next cs (round []) = idle
read_next cs (round ((key, date) ∷ ks)) = read key date (read_counter key date cs) ks
read_next cs (read key date a ks) = read key date a ks
read_next cs (written key date a ks) = written key date a ks

-- The `upsert`; one that throws, as that of a deleted API key does, ends the run.
unfoldable pub write_row : (goes_through : Bool) → Job → List Usage → Job × List Usage
unfolding upsert_usage
write_row b idle us = (idle, us)
write_row b (round ks) us = (round ks, us)
write_row false (read key date a ks) us = (idle, us)
write_row true (read key date a ks) us = (written key date a ks, upsert_usage key date a us)
write_row b (written key date a ks) us = (written key date a ks, us)

-- The `del` of both keys; one that throws ends the run.
unfoldable pub delete_counter : (goes_through : Bool) → Job → List Counter → Job × List Counter
delete_counter b idle cs = (idle, cs)
delete_counter b (round ks) cs = (round ks, cs)
delete_counter b (read key date a ks) cs = (read key date a ks, cs)
delete_counter false (written key date a ks) cs = (idle, cs)
delete_counter true (written key date a ks) cs =
    (round ks, remove_first (is_counter_of key date) cs)

pub record System : Type 0 where
  pub store : Store
  pub job : Job

-- What happens to the usage, in any order: a request is counted at a time, the counters whose time is
-- over end, or the daily job takes its next step. Commands that are written in one go to the one Redis
-- connection are one step.
pub data Event : Type 0 where
  used : ℕ → String → String → ℕ → Event
  expired : ℕ → Event
  job_started counter_read job_stopped : Event
  row_written counter_deleted : (goes_through : Bool) → Event

unfoldable pub step : Event → System → System
unfolding record_usage start_job read_next write_row delete_counter
step (used now date key bytes) s = record s { store = record_usage now date key bytes s.store }
step (expired now) s = record s {
  store = record { counters = keep (is_live now) s.store.counters; rows = s.store.rows };
}
step job_started s = record s { job = start_job s.store.counters s.job }
step counter_read s = record s { job = read_next s.store.counters s.job }
step (row_written b) s = record {
  store = record { counters = s.store.counters; rows = (write_row b s.job s.store.rows).1 };
  job = (write_row b s.job s.store.rows).0;
}
step (counter_deleted b) s = record {
  store = record { counters = (delete_counter b s.job s.store.counters).1; rows = s.store.rows };
  job = (delete_counter b s.job s.store.counters).0;
}
step job_stopped s = record s { job = idle }

unfoldable pub run : List Event → System → System
unfolding step
run [] s = s
run (e ∷ es) s = run es (step e s)
