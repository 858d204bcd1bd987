-- ===== src/Cluster.antt =====
-- apps/api/src/cluster/cluster-health.service.ts and the guards of cluster.service.ts: the health of
-- the media server nodes. What a node answers is a probe; a check returns the row that it writes and
-- what it broadcasts.
pub mod Verdicts
mod Examples
use sms_app.Base.{
  ℕ, ◌+◌, String, Bool, true, false, not, Option, none, some, List, [], ◌∷◌, ◌++◌, leb,
  if◌then◌else◌, Result, ok, err, Error, not_found, bad_request, require, found, ◌>>=◌, ◌>>◌,
}

pub data Role : Type 0 where
  origin edge : Role

pub data NodeStatus : Type 0 where
  online offline degraded connecting : NodeStatus

pub record Metrics : Type 0 where
  pub cpu : Option ℕ
  pub memory : Option ℕ
  pub bandwidth : ℕ
  pub viewers : ℕ
  pub uptime : Option ℕ
  pub srs_version : Option String

pub record Node : Type 0 where
  pub id : String
  pub role : Role
  pub status : NodeStatus
  pub missed_checks : ℕ
  pub metrics : Metrics
  pub last_health_at : Option ℕ

-- What the requests of a check answer: those to an origin are the summaries, the number of clients and
-- the version, those to an edge its health, whether that is `ok`, and the active connections.
pub record Probe : Type 0 where
  pub summaries : Result Metrics
  pub clients : Result ℕ
  pub version : Result (Option String)
  pub health : Result Bool
  pub connections : Option ℕ

abbrev pub offline_threshold : ℕ
offline_threshold = 3

abbrev pub version_or_none : Result (Option String) → Option String
version_or_none (ok v) = v
version_or_none (err e) = none

abbrev pub or_zero : Option ℕ → ℕ
or_zero none = 0
or_zero (some n) = n

abbrev pub no_metrics : Metrics
no_metrics = record {
  cpu = none;
  memory = none;
  bandwidth = 0;
  viewers = 0;
  uptime = none;
  srs_version = none;
}

-- The `try` of a check.
unfoldable pub probe_node : Role → Probe → Result Metrics
probe_node origin p = do
  m ← p.summaries
  viewers ← p.clients
  ok (record m { viewers = viewers; srs_version = version_or_none p.version })
probe_node edge p = do
  healthy ← p.health
  require healthy (Error.failure "Edge health check failed")
  ok (record no_metrics { viewers = or_zero p.connections })

abbrev pub status_after_success : NodeStatus → NodeStatus
status_after_success offline = online
status_after_success degraded = online
status_after_success connecting = online
status_after_success online = online

abbrev pub status_after_failure : ℕ → NodeStatus
status_after_failure missed = if leb offline_threshold missed then offline else degraded

abbrev pub same_status : NodeStatus → NodeStatus → Bool
same_status online online = true
same_status offline offline = true
same_status degraded degraded = true
same_status connecting connecting = true
same_status _ _ = false

pub data Broadcast : Type 0 where
  node_health : String → NodeStatus → Option Metrics → Broadcast
  node_status : String → NodeStatus → Broadcast

abbrev pub status_change : Node → NodeStatus → List Broadcast
status_change n status = if same_status status n.status then [] else node_status n.id status ∷ []

-- `checkNode` of a node that is there: the row after the update, and the broadcasts.
unfoldable pub check_node : ℕ → Probe → Node → Node × List Broadcast
unfolding probe_node
check_node now p n = elim (probe_node n.role p) [
  | ok m ↦
      let status = status_after_success n.status in
      (
        record n { metrics = m; missed_checks = 0; last_health_at = some now; status = status },
        node_health n.id status (some m) ∷ status_change n status,
      )
  | err e ↦
      let missed = n.missed_checks + 1 in
      let status = status_after_failure missed in
      (
        record n { missed_checks = missed; status = status },
        node_health n.id status none ∷ status_change n status,
      )
]

-- `remove` of cluster.service.ts: the id that it deletes.
unfoldable pub remove_node : Option Node → Result String
remove_node row = found row (not_found "Node not found") >>= λ n.
    require (elim n.role [ origin ↦ false | edge ↦ true ]) (bad_request "Cannot delete origin node")
    >> ok n.id
