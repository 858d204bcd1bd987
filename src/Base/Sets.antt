-- ===== src/Base/Sets.antt =====
-- A `Set<string>` as the list of its elements, each once.
use Prim.Native.String.{String}
use mathlib.Core.Path.{◌≡◌}
use mathlib.Core.Bool.{not, ◌||◌, ◌&&◌}
use mathlib.Core.List.{List, [], ◌∷◌}
use native.Mathlib.Omega.{arith}
use sms_app.Base.Tests.{if◌then◌else◌}
use sms_app.Base.Lists.{keep}
use sms_app.Base.Equality.{◌==◌, eq_iff, string_eq, contains}

unfoldable pub set_add : String → List String → List String
set_add x xs = if contains xs x then xs else x ∷ xs

unfoldable pub set_remove : String → List String → List String
set_remove x xs = keep (λ y. not (y == x)) xs

pub contains-set_add :
    (y x : String) (xs : List String) → contains (set_add x xs) y ≡ (y == x || contains xs y)
unfolding set_add
contains-set_add y x xs = ground (arith, eq_iff y x)

pub contains-set_remove :
    (y x : String) (xs : List String)
    → contains (set_remove x xs) y ≡ (not (y == x) && contains xs y)
unfolding set_remove
contains-set_remove y x [] = ground arith
contains-set_remove y x (z ∷ xs) =
    unfold set_remove in
    ground (arith, eq_iff y z, eq_iff y x, eq_iff z x, contains-set_remove y x xs)
