-- ===== src/Common.antt =====
-- What every module shares: library names passed on, Boolean tests on the native numbers, equality
-- as an instance, dictionaries, errors as values, and lists measured by native numbers.
mod Tests
mod Compare
mod Lists
mod Outcome
pub mod Dict
pub mod Text
pub mod Numbers
pub mod Clock
pub use Tests.*
pub use Compare.*
pub use Lists.*
pub use Outcome.*
pub use Clock.{sec, minute}
pub use Prim.Native.Nat.{ℕ, zero, suc, ◌+◌, ◌-◌, ◌*◌, ◌/◌, ◌%◌, ◌^◌, ◌≤◌, ◌<◌, min, max}
pub use Prim.Native.String.{String}
pub use mathlib.Core.Path.{◌≡◌, refl, sym, ap, ◌∙◌}
pub use mathlib.Core.Logic.{◌≢◌, ◌↔◌, ◌⊎◌, inl, inr}
pub use mathlib.Core.Bool.{Bool, true, false, not, ◌&&◌, ◌||◌}
pub use mathlib.Core.Option.{Option, none, some}
pub use mathlib.Core.List.{List, [], ◌∷◌, ◌++◌, map}
pub use native.Mathlib.Omega.{arith}
