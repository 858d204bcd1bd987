-- ===== src/Cluster/Verdicts.antt =====
-- What the checks of a node amount to, over any sequence of them.
use sms_app.Base.{
  ℕ, zero, suc, ◌+◌, Bool, true, false, List, [], ◌∷◌, ◌++◌, ◌≡◌, refl, ◌∙◌, ap, arith,
  if◌then◌else◌, ok, err,
}
use sms_app.Cluster.{
  Role, Node, NodeStatus, online, offline, degraded, Probe, Broadcast, node_health, node_status,
  check_node, probe_node, status_after_success, status_after_failure, same_status, status_change,
}

-- Checks with their times, oldest first: the row after them and all broadcasts.
unfoldable pub checks : List (ℕ × Probe) → Node → Node × List Broadcast
unfolding check_node
checks [] n = (n, [])
checks ((now, p) ∷ rest) n =
    let (n', sent) = check_node now p n in let (last, more) = checks rest n' in (last, sent ++ more)

abbrev pub succeeds : Role → Probe → Bool
succeeds role p = elim (probe_node role p) [ ok m ↦ true | err e ↦ false ]

-- The failures since the last success, on top of those before.
abbrev pub failures : Role → List (ℕ × Probe) → ℕ → ℕ
failures role [] k = k
failures role ((now, p) ∷ rest) k =
    let good = failures role rest 0 in
    let bad = failures role rest (k + 1) in if succeeds role p then good else bad

-- The status that so many failures in a row give.
abbrev pub verdict : ℕ → NodeStatus
verdict zero = online
verdict (suc zero) = degraded
verdict (suc (suc zero)) = degraded
verdict (suc (suc (suc k))) = offline

-- The status that a client of the broadcasts shows, from the one that it shows before.
abbrev pub shown : NodeStatus → List Broadcast → NodeStatus
shown status [] = status
shown status (node_health id s m ∷ rest) = shown status rest
shown status (node_status id s ∷ rest) = shown s rest

shown-append :
    (status : NodeStatus) (bs cs : List Broadcast)
    → shown status (bs ++ cs) ≡ shown (shown status bs) cs
shown-append status [] cs = refl
shown-append status (node_health id s m ∷ bs) cs = shown-append status bs cs
shown-append status (node_status id s ∷ bs) cs = shown-append s bs cs

verdict_of_failure : (k : ℕ) → status_after_failure (suc k) ≡ verdict (suc k)
verdict_of_failure zero = refl
verdict_of_failure (suc zero) = refl
verdict_of_failure (suc (suc k)) = ground arith

same_status_sound : (a b : NodeStatus) → same_status a b ≡ true → a ≡ b
same_status_sound a b h = ground arith

-- A check leaves the role, counts its failure or starts the count anew, and gives the verdict.
check-verdict :
    (now : ℕ) (p : Probe) (n : Node)
    → let n' = (check_node now p n).0 in
      let k = if succeeds n.role p then 0 else n.missed_checks + 1 in
      (n'.role ≡ n.role) × (n'.missed_checks ≡ k) × (n'.status ≡ verdict k)
unfolding check_node
check-verdict now p n = ground (arith, verdict_of_failure n.missed_checks)

shown-change : (n : Node) (status : NodeStatus) → shown n.status (status_change n status) ≡ status
shown-change n status = ground (arith, same_status_sound status n.status)

check-shown :
    (now : ℕ) (p : Probe) (n : Node)
    → shown n.status (check_node now p n).1 ≡ (check_node now p n).0.status
unfolding check_node
check-shown now p n = ground (
  arith,
  shown-change n (status_after_success n.status),
  shown-change n (status_after_failure (n.missed_checks + 1)),
)

checks-from :
    (rest : List (ℕ × Probe)) (n : Node)
    → n.status ≡ verdict n.missed_checks
    → let n' = (checks rest n).0 in
      let k = failures n.role rest n.missed_checks in
      (n'.missed_checks ≡ k) × (n'.status ≡ verdict k)
unfolding checks
checks-from [] n h = (refl, h)
checks-from ((now, p) ∷ rest) n h =
    ground (arith, check-verdict now p n, checks-from rest (check_node now p n).0)

-- After one or more checks of a node, whatever its status was before them, its row counts the checks
-- that have failed since the last one that succeeded (on top of those counted before, where none has),
-- and its status is ONLINE for none, DEGRADED for one or two, and OFFLINE from three on.
pub checks-verdict :
    (now : ℕ) (p : Probe) (rest : List (ℕ × Probe)) (n : Node)
    → let n' = (checks ((now, p) ∷ rest) n).0 in
      let k = failures n.role ((now, p) ∷ rest) n.missed_checks in
      (n'.missed_checks ≡ k) × (n'.status ≡ verdict k)
unfolding checks
checks-verdict now p rest n =
    ground (arith, check-verdict now p n, checks-from rest (check_node now p n).0)

-- A client that starts from the status of a node's row and follows the status broadcasts of any
-- sequence of checks shows the status of the row after them.
pub broadcasts_follow_status :
    (events : List (ℕ × Probe)) (n : Node)
    → shown n.status (checks events n).1 ≡ (checks events n).0.status
unfolding checks
broadcasts_follow_status [] n = refl
broadcasts_follow_status ((now, p) ∷ rest) n =
    let n' = (check_node now p n).0 in
    shown-append n.status (check_node now p n).1 (checks rest n').1
    ∙ ap (λ s. shown s (checks rest n').1) (check-shown now p n)
    ∙ broadcasts_follow_status rest n'
