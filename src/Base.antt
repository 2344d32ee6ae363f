-- ===== src/Base.antt =====
-- The names that the other modules share: the libraries', passed on, with the Boolean tests, the
-- lists over native numbers and the byte memory that the components are written in.
mod Tests
mod Lists
mod Memory
mod Result
mod Occurrences
pub use Tests.*
pub use Lists.*
unfoldable pub use Memory.*
pub use Result.*
unfoldable pub use Occurrences.*
pub use Prim.Native.Nat.{ℕ, zero, suc, ◌+◌, ◌-◌, ◌*◌, ◌/◌, ◌%◌, ◌^◌, ◌≤◌, ◌<◌, ◌∣◌, min, max}
pub use mathlib.Core.Path.{◌≡◌, refl, sym, ap, ap₂, ◌∙◌, subst, fun_ext}
pub use mathlib.Core.Logic.{◌≢◌, ◌↔◌, ◌⊎◌, inl, inr}
pub use mathlib.Core.Bool.{Bool, true, false, ◌&&◌, ◌||◌, not}
pub use mathlib.Core.Option.{Option, none, some}
pub use mathlib.Core.List.{List, [], ◌∷◌, ◌++◌, map}
pub use native.Mathlib.Omega.{arith}
