-- ===== src/Web/Bulk/Runners.antt =====
-- The requests in flight, and that every item gets one.
use sms_app.Base.{
  ℕ, ◌+◌, ◌≤◌, ◌<◌, max, true, ◌&&◌, List, [], ◌∷◌, ◌≡◌, ap, arith, nat_eq, if◌then◌else◌, nat_same,
  ltb, any, length, count_by, remove_first,
}
use sms_app.Web.Bulk.{
  Pool, Step, take_item, leave, settle, Reach, here, next, start, worker_count, IsDone,
}

-- How often an item is in flight or has a result.
abbrev pub requests_of : ℕ → Pool → ℕ
requests_of i p = count_by (nat_same i) p.in_flight + count_by (λ r. nat_same i r.0) p.results

pub length-remove_first :
    (i : ℕ) (xs : List ℕ)
    → any (nat_same i) xs ≡ true
    → length (remove_first (nat_same i) xs) + 1 ≡ length xs
length-remove_first i [] h = ground arith
length-remove_first i (x ∷ xs) h = ground (arith, length-remove_first i xs)

count-remove_first :
    (i j : ℕ) (xs : List ℕ)
    → any (nat_same i) xs ≡ true
    → count_by (nat_same j) (remove_first (nat_same i) xs) + (if nat_same j i then 1 else 0)
      ≡ count_by (nat_same j) xs
count-remove_first i j [] h = ground arith
count-remove_first i j (x ∷ xs) h = ground (arith, count-remove_first i j xs)

-- The runners are ready, in flight or gone; one is gone only past the last item; the items before the
-- cursor have one request each, and the others none.
record IsPool (workers items : ℕ) (p : Pool) : Type 0 where
  runners : p.ready + length p.in_flight + p.returned ≡ workers
  ended : 0 < p.returned → items ≤ p.cursor
  once : (i : ℕ) → requests_of i p ≡ (if ltb i items && ltb i p.cursor then 1 else 0)

module _ (workers items : ℕ) where
  Step-IsPool : {p q : Pool} → Step items p q → IsPool workers items p → IsPool workers items q
  Step-IsPool (take_item p r e lt) v = record {
    runners = omega (arith, v.runners, e);
    ended = λ h. omega (arith, v.ended h);
    once = λ i. ground (arith, v.once i);
  }
  Step-IsPool (leave p r e le) v = record {
    runners = omega (arith, v.runners, e);
    ended = λ h. omega arith;
    once = λ i. ground (arith, v.once i);
  }
  Step-IsPool (settle p i result h) v = record {
    runners = omega (arith, v.runners, length-remove_first i p.in_flight h);
    ended = v.ended;
    once = λ j. ground (arith, v.once j, count-remove_first i j p.in_flight h);
  }

  Reach-IsPool : {p q : Pool} → Reach items p q → IsPool workers items p → IsPool workers items q
  Reach-IsPool here v = v
  Reach-IsPool (next r s) v = Step-IsPool s (Reach-IsPool r v)

start-IsPool :
    (concurrency items : ℕ)
    → IsPool (worker_count concurrency items) items (start concurrency items)
start-IsPool concurrency items = record {
  runners = omega arith;
  ended = λ h. absurd (omega arith);
  once = λ i. ground arith;
}

-- In every state that the runners reach, there are at most as many requests in flight as the
-- concurrency, or one where that is 0, and no more than there are items.
pub in_flight_bounds :
    (concurrency items : ℕ) (p : Pool)
    → Reach items (start concurrency items) p
    → (length p.in_flight ≤ max concurrency 1) × (length p.in_flight ≤ items)
in_flight_bounds concurrency items p r =
    let v =
      Reach-IsPool (worker_count concurrency items) items r (start-IsPool concurrency items) in
    (omega (arith, v.runners), omega (arith, v.runners))

-- When all runners have returned, every item has had exactly one request and has its result, whatever
-- the order in which the requests settled.
pub every_item_settles :
    (concurrency items : ℕ) (p : Pool) (i : ℕ)
    → Reach items (start concurrency items) p
    → IsDone p
    → i < items
    → count_by (λ r. nat_same i r.0) p.results ≡ 1
every_item_settles concurrency items p i r d lt =
    let v =
      Reach-IsPool (worker_count concurrency items) items r (start-IsPool concurrency items) in
    let past : items ≤ p.cursor = v.ended (omega (arith, v.runners, d.0, ap length d.1)) in
    ground (arith, v.once i, d.1, past)
