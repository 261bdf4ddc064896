-- ===== src/Common.antt =====
-- What the models share: library names, Boolean tests, lists, bytes, words, integers and results.
mod Tests
mod Lists
mod ByteString
pub mod Word
pub mod Int
pub mod Outcome
pub mod Action
pub mod Text
mod Fallible
pub use Tests.*
pub use Lists.*
unfoldable pub use ByteString.*
pub use Fallible.*
pub use Prim.Native.Nat.{ℕ, zero, suc, ◌+◌, ◌-◌, ◌*◌, ◌/◌, ◌%◌, ◌^◌, ◌≤◌, ◌<◌}
pub use mathlib.Core.Path.{◌≡◌, refl, sym, ap, ◌∙◌, subst}
pub use mathlib.Core.Logic.{◌≢◌, ◌↔◌, ◌⊎◌, inl, inr}
pub use mathlib.Core.Bool.{Bool, true, false, not, ◌&&◌, ◌||◌}
pub use mathlib.Core.Option.{Option, none, some}
pub use mathlib.Core.List.{List, [], ◌∷◌, ◌++◌, map}
pub use native.Mathlib.Omega.{arith}
