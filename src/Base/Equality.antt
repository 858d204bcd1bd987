-- ===== src/Base/Equality.antt =====
-- `===` for every type whose equality the source decides, as one operator.
use Prim.Native.Nat.{ℕ}
use Prim.Native.String.{String}
use mathlib.Core.Path.{◌≡◌, refl}
use mathlib.Core.Logic.{◌↔◌}
use mathlib.Core.Bool.{Bool, true, false, ◌||◌}
use mathlib.Core.List.{List, [], ◌∷◌}
use text.Mathlib.Text.{◌==◌ as text_same}
use text.Mathlib.TextEquality.{eq_iff as text_same_iff}
use sms_app.Base.Tests.{nat_same, nat_same_iff}

-- A decided equality, with what its answer says.
pub record Eq {ℓ} (A : Type ℓ) : Type ℓ where
  pub same : A → A → Bool
  pub same_iff : (x y : A) → (same x y ≡ true) ↔ (x ≡ y)

instance abbrev pub string_eq : Eq String
string_eq = record { same = text_same; same_iff = text_same_iff }

instance abbrev pub nat_eq : Eq ℕ
nat_eq = record { same = nat_same; same_iff = nat_same_iff }

infix 50 ◌==◌
abbrev pub ◌==◌ {ℓ} : {A : Type ℓ} ⦃d : Eq A⦄ (x y : A) → Bool
◌==◌ ⦃d⦄ x y = d.same x y

-- All that follows is over one such type.
module _ {ℓ} {A : Type ℓ} ⦃d : Eq A⦄ where
  pub eq_iff : (x y : A) → ((x == y) ≡ true) ↔ (x ≡ y)
  eq_iff x y = d.same_iff x y

  pub eq_refl : (x : A) → (x == x) ≡ true
  eq_refl x = (eq_iff x x).1 refl

  -- `list.includes(x)`
  abbrev pub contains : List A → A → Bool
  contains [] x = false
  contains (y ∷ ys) x = x == y || contains ys x
