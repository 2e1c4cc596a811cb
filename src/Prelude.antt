-- ===== src/Prelude.antt =====
-- What the other modules share: library names passed on, Boolean tests, lists, equality by
-- instances, texts, dictionaries and sets. It models no file of its own; `Dict` and `Set` stand
-- for the standard library's maps and sets wherever the code uses them.
mod Tests
mod Lists
mod Equality
mod Results
pub mod Dict
pub mod Set
pub mod Word
pub use Tests.*
pub use Lists.*
pub use Equality.*
unfoldable pub use Equality.{str_beq}
pub use Results.*
pub use Prim.Native.Nat.{ℕ, zero, suc, ◌+◌, ◌-◌, ◌*◌, ◌/◌, ◌%◌, ◌^◌, ◌≤◌, ◌<◌, min, max}
pub use mathlib.Core.Path.{◌≡◌, refl, sym, ap, ap₂, subst, ◌∙◌}
pub use mathlib.Core.Logic.{◌≢◌, ◌↔◌, ◌⊎◌, inl, inr}
pub use mathlib.Core.Bool.{Bool, true, false, not, ◌&&◌, ◌||◌}
pub use mathlib.Core.Option.{Option, none, some}
pub use mathlib.Core.List.{List, [], ◌∷◌, ◌++◌, map}
pub use native.Mathlib.Omega.{arith}
