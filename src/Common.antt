-- ===== src/Common.antt =====
-- The names that every module shares: the library's, Boolean tests on native numbers, lists
-- indexed by native numbers, the outcome of kernel code that can panic, and words of the machine.
mod Tests
mod Lists
mod Outcomes
mod Words
pub mod Bytes
pub mod Int
pub use Tests.*
pub use Lists.*
pub use Outcomes.*
pub use Words.*
pub use Prim.Native.Nat.{ℕ, zero, suc, ◌+◌, ◌-◌, ◌*◌, ◌/◌, ◌%◌, ◌^◌, ◌≤◌, ◌<◌}
pub use mathlib.Core.Path.{◌≡◌, refl, sym, ap, ◌∙◌}
pub use mathlib.Core.Logic.{◌≢◌, ◌↔◌, ◌⊎◌, inl, inr}
pub use mathlib.Core.Bool.{Bool, true, false, ◌&&◌, ◌||◌, not}
pub use mathlib.Core.Option.{Option, none, some}
pub use mathlib.Core.List.{List, [], ◌∷◌, ◌++◌, map}
pub use native.Mathlib.Omega.{arith}
