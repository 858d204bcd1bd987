-- ===== src/ApiKeys/Examples.antt =====
-- Two keys with their counters, and the theorems at them.
use Prim.Native.String
use sms_app.ApiKeys.Access.{Text, NewKey, ApiKey, generated, create}
use sms_app.Base.{
  ◌&&◌, Bool, ◌==◌, string_eq, ok, String, true, false, nat_eq, [], ◌∷◌, List, ◌≡◌, refl, string_eq,
}
use sms_app.ApiKeys.{
  System, Event, idle, used, expired, job_started, counter_read, row_written, counter_deleted, run,
  step, record_usage, count_usage, upsert_usage, start_job, read_next, write_row, delete_counter,
}
use sms_app.ApiKeys.Totals.{bytes, total, all_lost, all_doubled}

abbrev no_usage : System
no_usage = record { store = record { counters = []; rows = [] }; job = idle }

abbrev is_of : String → String → String → String → Bool
is_of key date k d = k == key && d == date

-- A request while the job is between its reading and its deletion, then a job whose deletion fails,
-- and a counter that ends.
abbrev history : List Event
history =
    used 5 "d" "k" 100
    ∷ job_started
    ∷ counter_read
    ∷ used 9 "d" "k" 20
    ∷ row_written true
    ∷ counter_deleted true
    ∷ counter_read
    ∷ used 10 "d" "k" 3
    ∷ job_started
    ∷ counter_read
    ∷ row_written true
    ∷ counter_deleted false
    ∷ expired 999999999
    ∷ []

usage_of_history :
    (total bytes (is_of "k" "d") (run history no_usage).store ≡ 103)
    × (all_lost bytes (is_of "k" "d") history no_usage ≡ 23)
    × (all_doubled bytes (is_of "k" "d") history no_usage ≡ 3)
unfolding run step record_usage count_usage start_job read_next write_row delete_counter
    upsert_usage all_lost all_doubled
usage_of_history = (refl, refl, refl)

-- The text functions are stand-ins: the hash adds a letter and the last four are the whole text.
abbrev texts : Text
texts = record { sha256 = λ s. String.◌++◌ "h" s; slice_4 = λ s. s }

abbrev new_key : NewKey
new_key = record { name = "n"; scope = "PROJECT"; scope_id = "p" }

abbrev created : String × List ApiKey
created = ("sk_live_ab", generated texts "ab" "i" "o" 3 new_key ∷ [])

creation : create texts true "ab" "i" "o" 3 new_key [] ≡ ok created
unfolding create
creation = refl
