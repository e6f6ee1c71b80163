-- ===== src/Base.antt =====
-- The names that the other modules share: the libraries', passed on, and those of the children.
mod Tests
mod Columns
mod Lists
mod Slices
mod Text
mod Maps
mod Clashes
pub use Tests.{ltb, leb, if◌then◌else◌, ==_iff, u32, Bool-cases, Option-cases, some-inversion}
pub use Columns.{
  Column, ◌==◌, nat_Column, string_Column, option_Column, discrete_Column, decide_eq, matches,
}
pub use Lists.*
pub use Slices.*
unfoldable pub use Text.*
unfoldable pub use Maps.*
unfoldable pub use Clashes.*
pub use Prim.Native.Nat.{ℕ, zero, suc, ◌+◌, ◌-◌, ◌*◌, ◌/◌, ◌%◌, ◌≤◌, ◌<◌, min, max}
pub use Prim.Native.String.{String}
pub use mathlib.Core.Path.{◌≡◌, refl, sym, ap, ◌∙◌, subst}
pub use mathlib.Core.Logic.{◌≢◌, ◌↔◌, ◌⊎◌, inl, inr}
pub use mathlib.Core.Bool.{Bool, true, false, not, ◌&&◌, ◌||◌}
pub use mathlib.Core.Option.{Option, none, some}
pub use mathlib.Core.List.{List, [], ◌∷◌, ◌++◌, map, reverse, append-nil, append_assoc}
pub use native.Mathlib.Omega.{arith}
