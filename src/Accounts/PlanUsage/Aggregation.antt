-- ===== src/Accounts/PlanUsage/Aggregation.antt =====
-- The plan's usage while the usage of the keys moves from the counters to the rows.
use sms_app.Base.{String, Bool, ◌&&◌, List, [], ◌∷◌, ◌≡◌, string_eq, contains}
use sms_app.ApiKeys.{Amounts, Counter, Store, Event, used, expired}
use sms_app.Accounts.PlanUsage.{aggregate_api_usage}

-- The keys of the organization on the days of the month.
abbrev pub of_month : List String → (String → Bool) → String → String → Bool
of_month key_ids since key date = contains key_ids key && since date

-- Every counter is of today.
abbrev pub AreToday : String → List Counter → Type 0
AreToday today [] = Unit {0}
AreToday today (c ∷ cs) = (c.date ≡ today) × AreToday today cs

-- A sequence of requests of today and steps of daily jobs.
abbrev pub AreOfToday : String → List Event → Type 0
AreOfToday today [] = Unit {0}
AreOfToday today (used now date key n ∷ es) = (date ≡ today) × AreOfToday today es
AreOfToday today (expired now ∷ es) = ⊥
AreOfToday today (e ∷ es) = AreOfToday today es

-- The usage as it is read where nothing changes it meanwhile.
abbrev pub usage_of : List String → (String → Bool) → String → Store → Amounts
usage_of key_ids since today s = aggregate_api_usage key_ids since today s.rows s.counters
