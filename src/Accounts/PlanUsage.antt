-- ===== src/Accounts/PlanUsage.antt =====
-- apps/api/src/account/plan-usage/plan-usage.service.ts: what an organization uses of its plan. The
-- bandwidth stands as its bytes and the seconds of the month so far; the division by both is the host's.
pub mod Aggregation
use sms_app.Base.{
  ℕ, ◌+◌, ◌-◌, ◌*◌, ◌/◌, max, String, Bool, true, false, ◌&&◌, Option, none, some, List, [], ◌∷◌,
  ◌==◌, string_eq, if◌then◌else◌, contains, keep, map, length, Dict,
}
use sms_app.ApiKeys.{Amounts, Counter, Usage, plus}
use sms_app.Recordings.Service.{Segment, sum_sizes}

pub record Plan : Type 0 where
  pub id : String
  pub name : String
  pub description : Option String
  pub max_cameras : ℕ
  pub max_viewers : ℕ
  pub max_bandwidth_mbps : ℕ
  pub max_storage_gb : ℕ
  pub features : Option (Dict Bool)

pub record PlanUsage : Type 0 where
  pub plan : Option Plan
  pub cameras : ℕ
  pub viewers : ℕ
  pub bandwidth_bytes : ℕ
  pub seconds_elapsed : ℕ
  pub storage_used_bytes : ℕ
  pub api_calls : ℕ
  pub features : Dict Bool

abbrev pub no_amounts : Amounts
no_amounts = record { requests = 0; bandwidth = 0 }

-- `_sum` over the rows of the organization's keys from the first of the month on; `since` tells which
-- dates are.
abbrev pub persisted : (key_ids : List String) (since : String → Bool) → List Usage → Amounts
persisted key_ids since [] = no_amounts
persisted key_ids since (u ∷ us) =
    if contains key_ids u.key_id && since u.date
    then plus u.amounts (persisted key_ids since us)
    else persisted key_ids since us

-- The loop over today's Redis keys.
abbrev pub counted_today : (key_ids : List String) (today : String) → List Counter → Amounts
counted_today key_ids today [] = no_amounts
counted_today key_ids today (c ∷ cs) =
    if c.date == today && contains key_ids c.key_id
    then plus c.amounts (counted_today key_ids today cs)
    else counted_today key_ids today cs

-- The rows and the counters, each as they stand when they are read.
unfoldable pub aggregate_api_usage :
    (key_ids : List String) (since : String → Bool) (today : String)
    → List Usage
    → List Counter
    → Amounts
aggregate_api_usage key_ids since today rows counters =
    plus (persisted key_ids since rows) (counted_today key_ids today counters)

abbrev pub sum_viewers : (String → ℕ) → List String → ℕ
sum_viewers viewers [] = 0
sum_viewers viewers (c ∷ cs) = viewers c + sum_viewers viewers cs

abbrev pub features_of : Option Plan → Dict Bool
features_of none = []
features_of (some p) = elim p.features [ none ↦ [] | some features ↦ features ]

unfoldable pub get_plan_usage :
    (now first_of_month : ℕ) (today : String) (since : String → Bool) (plan : Option Plan)
    (cameras key_ids : List String) (viewers : String → ℕ)
    → (org : String) → List Segment
    → List Usage
    → List Counter
    → PlanUsage
unfolding aggregate_api_usage
get_plan_usage now first_of_month today since plan cameras key_ids viewers org segments rows
      counters =
    let usage = aggregate_api_usage key_ids since today rows counters in
    record {
      plan = plan;
      cameras = length cameras;
      viewers = sum_viewers viewers cameras;
      bandwidth_bytes = usage.bandwidth;
      seconds_elapsed = max 1 ((now - first_of_month) / 1000);
      storage_used_bytes = sum_sizes (keep (λ g. g.org_id == org) segments);
      api_calls = usage.requests;
      features = features_of plan;
    }
