-- ===== src/Base/Sorting.antt =====
-- `xs.sort(compare)`: a stable sort, here by insertion. `before a b` is `compare(a, b) < 0`.
use mathlib.Core.Path.{◌≡◌}
use mathlib.Core.Bool.{Bool, true, false}
use mathlib.Core.Logic.{inl, inr}
use mathlib.Core.List.{List, [], ◌∷◌, Perm}
use mathlib.Core.List.Perm
use sms_app.Base.Tests.{if◌then◌else◌, Bool-cases}
use sms_app.Base.Lists.{All}

module _ {ℓ} {A : Type ℓ} (before : A → A → Bool) where
  unfoldable pub insert_by : A → List A → List A
  insert_by x [] = x ∷ []
  insert_by x (y ∷ ys) = if before y x then y ∷ insert_by x ys else x ∷ y ∷ ys

  unfoldable pub sort_by : List A → List A
  unfolding insert_by
  sort_by [] = []
  sort_by (x ∷ xs) = insert_by x (sort_by xs)

  insert_by-perm : (x : A) (ys : List A) → Perm (insert_by x ys) (x ∷ ys)
  unfolding insert_by
  insert_by-perm x [] = Perm.refl (x ∷ [])
  insert_by-perm x (y ∷ ys) = elim (Bool-cases (before y x)) [
    | inl h ↦ rw h (Perm.trans (Perm.cons y (insert_by-perm x ys)) (Perm.swap x y ys))
    | inr h ↦ rw h (Perm.refl (x ∷ y ∷ ys))
  ]

  pub sort_by-perm : (xs : List A) → Perm (sort_by xs) xs
  unfolding sort_by
  sort_by-perm [] = Perm.refl []
  sort_by-perm (x ∷ xs) = Perm.trans (insert_by-perm x (sort_by xs)) (Perm.cons x (sort_by-perm xs))

  -- No element comes after one that it goes before.
  abbrev pub IsSorted : List A → Type ℓ
  IsSorted [] = Unit
  IsSorted (x ∷ xs) = All (λ y. before y x ≡ false) xs × IsSorted xs

  module _ (asym : (a b : A) → before a b ≡ true → before b a ≡ false)
      (trans : (a b c : A) → before b a ≡ false → before c b ≡ false → before c a ≡ false) where
    All-weaken :
        (x y : A) (zs : List A)
        → before y x ≡ false
        → All (λ z. before z y ≡ false) zs
        → All (λ z. before z x ≡ false) zs
    All-weaken x y [] h a = tt
    All-weaken x y (z ∷ zs) h (p, a) = (trans x y z h p, All-weaken x y zs h a)

    All-insert_by :
        (w x : A) (ys : List A)
        → before x w ≡ false
        → All (λ y. before y w ≡ false) ys
        → All (λ y. before y w ≡ false) (insert_by x ys)
    unfolding insert_by
    All-insert_by w x [] h a = (h, tt)
    All-insert_by w x (y ∷ ys) h (p, a) = elim (Bool-cases (before y x)) [
      | inl e ↦ rw e (p, All-insert_by w x ys h a)
      | inr e ↦ rw e (h, (p, a))
    ]

    insert_by-IsSorted : (x : A) (ys : List A) → IsSorted ys → IsSorted (insert_by x ys)
    unfolding insert_by
    insert_by-IsSorted x [] s = (tt, tt)
    insert_by-IsSorted x (y ∷ ys) (a, s) = elim (Bool-cases (before y x)) [
      | inl e ↦ rw e (All-insert_by y x ys (asym y x e) a, insert_by-IsSorted x ys s)
      | inr e ↦ rw e ((e, All-weaken x y ys e a), (a, s))
    ]

    pub sort_by-IsSorted : (xs : List A) → IsSorted (sort_by xs)
    unfolding sort_by
    sort_by-IsSorted [] = tt
    sort_by-IsSorted (x ∷ xs) = insert_by-IsSorted x (sort_by xs) (sort_by-IsSorted xs)
