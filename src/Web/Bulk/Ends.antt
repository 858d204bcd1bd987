-- ===== src/Web/Bulk/Ends.antt =====
-- That the runners of a bulk action return.
use sms_app.Base.{
  ℕ, zero, suc, ◌+◌, ◌-◌, ◌*◌, ◌≤◌, true, List, [], ◌∷◌, ◌≡◌, refl, arith, nat_same, length, ◌⊎◌,
  inl, inr, nat_eq,
}
use native.Mathlib.Decide.{dec_lt}
use sms_app.Web.Bulk.{
  Pool, fulfilled, Step, take_item, leave, settle, Reach, here, next, start, worker_count, taking,
  leaving, settling, IsDone,
}
use sms_app.Web.Bulk.Runners.{length-remove_first}

-- The steps that are left: two for an item, one for a request in flight and its runner, one for a runner
-- to return.
abbrev pub steps_left : ℕ → Pool → ℕ
steps_left items p = 2 * (items - p.cursor) + (2 * length p.in_flight + p.ready)

Step-steps_left :
    (items : ℕ) {p q : Pool} → Step items p q → steps_left items q + 1 ≡ steps_left items p
Step-steps_left items (take_item p r e lt) = omega (arith, e, lt)
Step-steps_left items (leave p r e le) = omega (arith, e, le)
Step-steps_left items (settle p i result h) = omega (arith, length-remove_first i p.in_flight h)

abbrev pub moves : {items : ℕ} {p q : Pool} → Reach items p q → ℕ
moves here = 0
moves (next r s) = moves r + 1

moves-left :
    (concurrency items : ℕ) {p : Pool} (r : Reach items (start concurrency items) p)
    → moves r + steps_left items p ≡ 2 * items + worker_count concurrency items
moves-left concurrency items here = omega arith
moves-left concurrency items (next r s) =
    omega (arith, moves-left concurrency items r, Step-steps_left items s)

nat_same_self : (i : ℕ) → nat_same i i ≡ true
nat_same_self i = ground arith

-- Whether a pool is done or has a next state.
abbrev pub CanEnd : ℕ → Pool → Type 0
CanEnd items p = IsDone p ⊎ ((q : Pool) × Step items p q)

settling_turn :
    (items : ℕ) (p : Pool) (is : List ℕ) → p.ready ≡ 0 → p.in_flight ≡ is → CanEnd items p
settling_turn items p [] r e = inl (r, e)
settling_turn items p (i ∷ is) r e =
    inr (settling i fulfilled p, settle p i fulfilled (rw e (ground (arith, nat_same_self i))))

turn : (items : ℕ) (p : Pool) (n : ℕ) → p.ready ≡ n → CanEnd items p
turn items p zero e = settling_turn items p p.in_flight e refl
turn items p (suc n) e = elim (dec_lt p.cursor items) [
  | yes lt ↦ inr (taking n p, take_item p n e lt)
  | no ge ↦ inr (leaving n p, leave p n e (omega (arith, ge)))
]

-- The runners neither block nor go on forever: in every state that they reach they have all returned or
-- can take a turn, and they take at most two turns for each item and one for each runner.
pub runners_end :
    (concurrency items : ℕ) {p : Pool} (r : Reach items (start concurrency items) p)
    → CanEnd items p × (moves r ≤ 2 * items + worker_count concurrency items)
runners_end concurrency items {p} r =
    (turn items p p.ready refl, omega (arith, moves-left concurrency items r))
