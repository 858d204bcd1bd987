-- ===== src/Base/Lists.antt =====
-- Lists measured by native numbers, and the array operations of the source: `filter`, `some`,
-- `includes`, `findIndex` with `slice`.
use Prim.Native.Nat.{ℕ, zero, suc, ◌+◌, ◌≤◌}
use mathlib.Core.Path.{◌≡◌, refl, ap}
use mathlib.Core.Bool.{Bool, true, false, not, ◌&&◌, ◌||◌}
use mathlib.Core.List.{List, [], ◌∷◌, ◌++◌, map}
use mathlib.Core.Option.{Option, none, some}
use native.Mathlib.Omega.{arith}
use sms_app.Base.Tests.{if◌then◌else◌, Bool-cases}
use mathlib.Core.Logic.{inl, inr}

module _ {ℓ} {A : Type ℓ} where
  abbrev pub length : List A → ℕ
  length [] = 0
  length (x ∷ xs) = suc (length xs)

  abbrev pub get_elem? : List A → ℕ → Option A
  get_elem? [] i = none
  get_elem? (x ∷ xs) zero = some x
  get_elem? (x ∷ xs) (suc i) = get_elem? xs i

  abbrev pub take : ℕ → List A → List A
  take zero xs = []
  take (suc n) [] = []
  take (suc n) (x ∷ xs) = x ∷ take n xs

  pub length-append : (xs ys : List A) → length (xs ++ ys) ≡ length xs + length ys
  length-append [] ys = omega arith
  length-append (x ∷ xs) ys = omega (arith, length-append xs ys)

  -- `xs.filter(p)`
  abbrev pub keep : (A → Bool) → List A → List A
  keep p [] = []
  keep p (x ∷ xs) = let rest = keep p xs in if p x then x ∷ rest else rest

  -- `xs.some(p)`
  abbrev pub any : (A → Bool) → List A → Bool
  any p [] = false
  any p (x ∷ xs) = p x || any p xs

  -- `xs.slice(xs.findIndex(p))`, and `[]` where no element passes
  abbrev pub drop_until : (A → Bool) → List A → List A
  drop_until p [] = []
  drop_until p (x ∷ xs) = let rest = drop_until p xs in if p x then x ∷ xs else rest

  -- `xs.find(p)`
  abbrev pub find : (A → Bool) → List A → Option A
  find p [] = none
  find p (x ∷ xs) = let rest = find p xs in if p x then some x else rest

  -- `prisma.count({ where: p })`
  abbrev pub count_by : (A → Bool) → List A → ℕ
  count_by p [] = 0
  count_by p (x ∷ xs) = (if p x then 1 else 0) + count_by p xs

  -- The update and the deletion of the one row that passes.
  abbrev pub replace_first : (A → Bool) → (A → A) → List A → List A
  replace_first p f [] = []
  replace_first p f (x ∷ xs) = let rest = replace_first p f xs in if p x then f x ∷ xs else x ∷ rest

  abbrev pub remove_first : (A → Bool) → List A → List A
  remove_first p [] = []
  remove_first p (x ∷ xs) = let rest = remove_first p xs in if p x then xs else x ∷ rest

  pub keep-append : (p : A → Bool) (xs ys : List A) → keep p (xs ++ ys) ≡ keep p xs ++ keep p ys
  keep-append p [] ys = refl
  keep-append p (x ∷ xs) ys = elim (Bool-cases (p x)) [
    | inl h ↦ rw h (ap (◌∷◌ x) (keep-append p xs ys))
    | inr h ↦ rw h (keep-append p xs ys)
  ]

  pub length-keep-le : (p : A → Bool) (xs : List A) → length (keep p xs) ≤ length xs
  length-keep-le p [] = omega arith
  length-keep-le p (x ∷ xs) = ground (arith, length-keep-le p xs)

  -- A filter that keeps less absorbs one that keeps more.
  pub keep-keep :
      (p q : A → Bool) (xs : List A)
      → ((x : A) → p x ≡ true → q x ≡ true)
      → keep p (keep q xs) ≡ keep p xs
  keep-keep p q [] h = refl
  keep-keep p q (x ∷ xs) h = ground (arith, keep-keep p q xs h, h x)

module _ {ℓ κ} {A : Type ℓ} (P : A → Type κ) where
  abbrev pub All : List A → Type κ
  All [] = Unit
  All (x ∷ xs) = P x × All xs

  pub All-append : (xs ys : List A) → All xs → All ys → All (xs ++ ys)
  All-append [] ys hx hy = hy
  All-append (x ∷ xs) ys (p, hx) hy = (p, All-append xs ys hx hy)

  pub All-keep_of_All : (q : A → Bool) (xs : List A) → All xs → All (keep q xs)
  All-keep_of_All q [] h = tt
  All-keep_of_All q (x ∷ xs) (p, h) = elim (Bool-cases (q x)) [
    | inl e ↦ rw e (p, All-keep_of_All q xs h)
    | inr e ↦ rw e (All-keep_of_All q xs h)
  ]

  pub All-keep : (q : A → Bool) (xs : List A) → ((x : A) → q x ≡ true → P x) → All (keep q xs)
  All-keep q [] h = tt
  All-keep q (x ∷ xs) h = elim (Bool-cases (q x)) [
    | inl e ↦ rw e (h x e, All-keep q xs h)
    | inr e ↦ rw e (All-keep q xs h)
  ]

pub All-imp {ℓ κ ρ} :
    {A : Type ℓ} (P : A → Type κ) (Q : A → Type ρ) (xs : List A)
    → ((x : A) → P x → Q x)
    → All P xs
    → All Q xs
All-imp P Q [] f h = tt
All-imp P Q (x ∷ xs) f (p, h) = (f x p, All-imp P Q xs f h)

-- How the rows of one kind are counted after a change of other rows.
module _ {ℓ} {A : Type ℓ} (q : A → Bool) where
  abbrev pub one_if : A → ℕ
  one_if x = if q x then 1 else 0

  pub count_by-map :
      (f : A → A) (xs : List A) → ((x : A) → q (f x) ≡ q x) → count_by q (map f xs) ≡ count_by q xs
  count_by-map f [] h = refl
  count_by-map f (x ∷ xs) h = ground (arith, count_by-map f xs h, h x)

  pub count_by-map_none :
      (f : A → A) (xs : List A) → ((x : A) → q (f x) ≡ false) → count_by q (map f xs) ≡ 0
  count_by-map_none f [] h = refl
  count_by-map_none f (x ∷ xs) h = ground (arith, count_by-map_none f xs h, h x)

  pub count_by-replace_first :
      (p : A → Bool) (f : A → A) (xs : List A) (r : A)
      → find p xs ≡ some r
      → count_by q (replace_first p f xs) + one_if r ≡ count_by q xs + one_if (f r)
  count_by-replace_first p f [] r h = ground arith
  count_by-replace_first p f (x ∷ xs) r h = ground (arith, count_by-replace_first p f xs r)

  pub count_by-replace_first_same :
      (p : A → Bool) (f : A → A) (xs : List A)
      → ((x : A) → q (f x) ≡ q x)
      → count_by q (replace_first p f xs) ≡ count_by q xs
  count_by-replace_first_same p f [] h = refl
  count_by-replace_first_same p f (x ∷ xs) h =
      ground (arith, count_by-replace_first_same p f xs h, h x)

  -- A row of another kind is found as before.
  pub find-replace_first_other :
      (p : A → Bool) (f : A → A) (xs : List A)
      → ((x : A) → q (f x) ≡ q x)
      → ((x : A) → p x ≡ true → q x ≡ false)
      → find q (replace_first p f xs) ≡ find q xs
  find-replace_first_other p f [] h d = refl
  find-replace_first_other p f (x ∷ xs) h d =
      ground (arith, find-replace_first_other p f xs h d, h x, d x)

  pub count_by-remove_first :
      (p : A → Bool) (xs : List A) (r : A)
      → find p xs ≡ some r
      → count_by q (remove_first p xs) + one_if r ≡ count_by q xs
  count_by-remove_first p [] r h = ground arith
  count_by-remove_first p (x ∷ xs) r h = ground (arith, count_by-remove_first p xs r)

  pub count_by_le :
      (p : A → Bool) (xs : List A)
      → ((x : A) → q x ≡ true → p x ≡ true)
      → count_by q xs ≤ count_by p xs
  count_by_le p [] h = omega arith
  count_by_le p (x ∷ xs) h = ground (arith, count_by_le p xs h, h x)

  pub count_by_split :
      (p : A → Bool) (xs : List A)
      → count_by q xs ≡ count_by (λ x. q x && p x) xs + count_by (λ x. q x && not (p x)) xs
  count_by_split p [] = refl
  count_by_split p (x ∷ xs) = ground (arith, count_by_split p xs)

pub find_holds {ℓ} :
    {A : Type ℓ} (p : A → Bool) (xs : List A) (r : A) → find p xs ≡ some r → p r ≡ true
find_holds p [] r h = ground arith
find_holds p (x ∷ xs) r h = ground (arith, find_holds p xs r)

pub find-map {ℓ} :
    {A : Type ℓ} (p : A → Bool) (f : A → A) (xs : List A) (r : A)
    → ((x : A) → p (f x) ≡ p x)
    → find p xs ≡ some r
    → find p (map f xs) ≡ some (f r)
find-map p f [] r h e = ground arith
find-map p f (x ∷ xs) r h e = ground (arith, find-map p f xs r h, h x)

pub find-replace_first {ℓ} :
    {A : Type ℓ} (p : A → Bool) (f : A → A) (xs : List A)
    → ((x : A) → p (f x) ≡ p x)
    → find p (replace_first p f xs) ≡ (elim (find p xs) [ none ↦ none | some r ↦ some (f r) ])
find-replace_first p f [] h = refl
find-replace_first p f (x ∷ xs) h = ground (arith, find-replace_first p f xs h, h x)

-- No row is found exactly if none is counted.
pub find-none {ℓ} : {A : Type ℓ} (p : A → Bool) (xs : List A) → count_by p xs ≡ 0 → find p xs ≡ none
find-none p [] h = refl
find-none p (x ∷ xs) h = ground (arith, find-none p xs)

pub count_by-none {ℓ} :
    {A : Type ℓ} (p : A → Bool) (xs : List A) → find p xs ≡ none → count_by p xs ≡ 0
count_by-none p [] h = refl
count_by-none p (x ∷ xs) h = ground (arith, count_by-none p xs)

-- Where no row but the replaced one passes a test, the replaced one is found by it.
pub find-replace_first_new {ℓ} :
    {A : Type ℓ} (p q : A → Bool) (f : A → A) (xs : List A) (r : A)
    → find p xs ≡ some r
    → q (f r) ≡ true
    → any q (keep (λ x. not (p x)) xs) ≡ false
    → find q (replace_first p f xs) ≡ some (f r)
find-replace_first_new p q f [] r e t n = ground arith
find-replace_first_new p q f (x ∷ xs) r e t n = ground (arith, find-replace_first_new p q f xs r)
