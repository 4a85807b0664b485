-- ===== src/Prelude.antt =====
-- The names that the other modules share: the libraries' passed on, Boolean tests, lists and
-- integers over the native numbers, and the result type of fallible code.
pub mod Tests
pub mod Lists
pub mod Int
pub mod Keyed
mod Outcome
mod Search
pub use Tests.*
pub use Lists.*
pub use Outcome.*
pub use Search.*
pub use Prim.Native.Nat.{ℕ, zero, suc, ◌+◌, ◌-◌, ◌*◌, ◌/◌, ◌%◌, ◌^◌, ◌≤◌, ◌<◌, min, max}
pub use mathlib.Core.Path.{◌≡◌, refl, sym, ap, ◌∙◌, subst}
pub use mathlib.Core.Logic.{◌≢◌, ◌↔◌, ◌⊎◌, inl, inr}
pub use mathlib.Core.Bool.{Bool, true, false, ◌&&◌, ◌||◌, not}
pub use mathlib.Core.Option.{Option, none, some, map as option_map}
pub use mathlib.Core.List.{List, Memᴰ, [], ◌∷◌, ◌++◌, map}
pub use native.Mathlib.Omega.{arith}
