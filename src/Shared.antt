-- ===== src/Shared.antt =====
-- The names that every other module takes: the libraries' and those of the children below, for
-- Boolean tests, lists over the native numbers, decidable equality, Go maps and Go results.
mod Tests
mod Equality
mod Lists
mod Results
pub use Tests.*
unfoldable pub use Equality.*
unfoldable pub use Lists.*
pub use Results.*
pub mod Map
pub use Prim.Native.Nat.{ℕ, zero, suc, ◌+◌, ◌-◌, ◌*◌, ◌/◌, ◌%◌, ◌^◌, ◌≤◌, ◌<◌}
pub use mathlib.Core.Path.{◌≡◌, refl, sym, ap, subst, ◌∙◌}
pub use mathlib.Core.Logic.{◌≢◌, ◌↔◌, ◌⊎◌, inl, inr}
pub use mathlib.Core.Bool.{Bool, true, false, not, ◌&&◌, ◌||◌}
pub use mathlib.Core.Option.{Option, none, some}
pub use mathlib.Core.List.{List, [], ◌∷◌, ◌++◌, map}
pub use native.Mathlib.Omega.{arith}
