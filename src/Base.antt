-- ===== src/Base.antt =====
-- The names that the other modules share: the libraries', passed on, and those of the children.
mod Tests
mod Lists
mod Equality
mod Maps
mod Results
mod Sets
mod Sorting
mod Strings
pub use Tests.*
pub use Lists.*
pub use Equality.*
unfoldable pub use Maps.{lookup, insert, erase}
pub use Maps.{Dict, lookup-insert, lookup-erase}
pub use Results.*
pub use Sets.{contains-set_add, contains-set_remove}
unfoldable pub use Sets.{set_add, set_remove}
unfoldable pub use Sorting.{insert_by, sort_by}
pub use Sorting.{sort_by-perm, IsSorted, sort_by-IsSorted}
pub use Strings.*
pub use Prim.Native.Nat.{ℕ, zero, suc, ◌+◌, ◌-◌, ◌*◌, ◌/◌, ◌%◌, ◌^◌, ◌≤◌, ◌<◌, min, max}
pub use Prim.Native.String.{String}
pub use mathlib.Core.Path.{◌≡◌, refl, sym, ap, ◌∙◌, subst}
pub use mathlib.Core.Logic.{◌≢◌, ◌↔◌, ◌⊎◌, inl, inr}
pub use mathlib.Core.Bool.{Bool, true, false, not, ◌&&◌, ◌||◌}
pub use mathlib.Core.Option.{Option, none, some}
pub use mathlib.Core.List.{List, [], ◌∷◌, ◌++◌, map, reverse, Perm, append-nil, append_assoc}
pub use native.Mathlib.Omega.{arith}
