-- ===== src/Cluster/Examples.antt =====
-- An edge that fails three times and comes back, and the theorems at it.
use sms_app.Base.{ℕ, Bool, true, false, none, some, List, [], ◌∷◌, Result, ok, err, Error}
use sms_app.Cluster.{Node, edge, connecting, Probe, no_metrics}

abbrev added : Node
added = record {
  id = "e1";
  role = edge;
  status = connecting;
  missed_checks = 0;
  metrics = no_metrics;
  last_health_at = none;
}

abbrev answer : Result Bool → Probe
answer health = record {
  summaries = err (Error.failure "not an origin");
  clients = ok 0;
  version = ok none;
  health = health;
  connections = some 12;
}

abbrev later : List (ℕ × Probe)
later =
    (20000, answer (ok false))
    ∷ (30000, answer (err (Error.failure "timeout")))
    ∷ (40000, answer (ok true))
    ∷ (50000, answer (ok false))
    ∷ []
