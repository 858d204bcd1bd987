-- ===== src/Base/Results.antt =====
-- What a handler answers: a value, or the exception that it throws. The constructors are the
-- exception classes of the source, with the constant part of the message.
use Prim.Native.String.{String}
use mathlib.Core.Path.{◌≡◌, refl}
use mathlib.Core.Logic.{◌⊎◌, inl, inr}
use mathlib.Core.Bool.{Bool, true, false}
use mathlib.Core.Option.{Option, none, some}

pub data Error : Type 0 where
  not_found bad_request forbidden unauthorized conflict failure : String → Error

pub data Result {ℓ} (A : Type ℓ) : Type ℓ where
  ok : A → Result A
  err : Error → Result A

-- `if (!row) throw e`
abbrev pub found {ℓ} : {A : Type ℓ} → Option A → Error → Result A
found (some row) e = ok row
found none e = err e

-- `if (!test) throw e`
abbrev pub require : Bool → Error → Result (Unit {0})
require test e = elim test [ true ↦ ok tt | false ↦ err e ]

-- An exception ends the method; a value goes on to the next step.
infixl 5 ◌>>=◌ ◌>>◌
abbrev pub ◌>>=◌ {ℓ κ} :
    {A : Type ℓ} {B : Type κ} (first : Result A) (next : A → Result B) → Result B
err e >>= next = err e
ok value >>= next = next value

abbrev pub ◌>>◌ {ℓ κ} : {A : Type ℓ} {B : Type κ} (first : Result A) (next : Result B) → Result B
first >> next = first >>= λ value. next

pub Result-cases {ℓ} :
    {A : Type ℓ} (r : Result A) → ((e : Error) × (r ≡ err e)) ⊎ ((a : A) × (r ≡ ok a))
Result-cases (err e) = inl (e, refl)
Result-cases (ok a) = inr (a, refl)
