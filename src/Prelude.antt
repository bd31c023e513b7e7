-- ===== src/Prelude.antt =====
-- The names that every other module shares: those of the libraries, passed on, and the helpers of
-- the children (tests on numbers, lists and maps over the native numbers, 64-bit words, Go panics).
pub mod Tests
pub mod Lists
pub mod Maps
pub mod Words
pub mod Panics
pub use Tests.*
pub use Lists.*
unfoldable pub use Words.*
unfoldable pub use Panics.*
pub use Prim.Native.Nat.{ℕ, zero, suc, ◌+◌, ◌-◌, ◌*◌, ◌/◌, ◌%◌, ◌^◌, ◌≤◌, ◌<◌, min, max}
pub use mathlib.Core.Path.{◌≡◌, refl, sym, ap, ◌∙◌, subst}
pub use mathlib.Core.Logic.{◌≢◌, ◌↔◌, ◌⊎◌, inl, inr}
pub use mathlib.Core.Bool.{Bool, true, false, not, ◌&&◌, ◌||◌}
pub use mathlib.Core.Option.{Option, none, some}
pub use mathlib.Core.List.{List, [], ◌∷◌, ◌++◌, map}
pub use native.Mathlib.Omega.{arith}
unfoldable pub use native.Mathlib.Decide.{dec_lt, dec_le, ℕ_discrete}
