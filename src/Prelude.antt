-- ===== src/Prelude.antt =====
-- Names that the modules of both programs share: library names passed on, and the children below.
pub mod Tests
pub mod Lists
pub mod Int
pub mod Order
pub mod Sort
pub mod Strict
pub mod Map
pub mod Nested
pub mod Any
pub mod Result
pub mod Text
pub mod TextLaws
pub mod Decimal
pub mod Bits
pub use Tests.*
pub use Lists.*
pub use Prim.Native.Nat.{ℕ, zero, suc, ◌+◌, ◌-◌, ◌*◌, ◌/◌, ◌%◌, ◌^◌, ◌≤◌, ◌<◌}
pub use mathlib.Core.Path.{◌≡◌, refl, sym, ap, ◌∙◌}
pub use mathlib.Core.Logic.{◌≢◌, ◌↔◌, ◌⊎◌, inl, inr}
pub use mathlib.Core.Bool.{Bool, true, false, ◌&&◌, ◌||◌, not}
pub use mathlib.Core.Option.{Option, none, some}
pub use mathlib.Core.List.{List, [], ◌∷◌, ◌++◌, map}
pub use native.Mathlib.Omega.{arith}
