-- ===== src/Prelude.antt =====
-- The names that all modules share: the libraries', passed on, and those of the children:
-- Boolean tests on native numbers (Tests), lists measured by native numbers (Lists), chains of steps
-- that may fail (Options), the codes of a literal (Texts).
mod Tests
mod Lists
mod Options
mod Texts
pub use Tests.*
pub use Lists.*
pub use Options.*
pub use Texts.*
pub use Prim.Native.Nat.{
  ℕ, zero, suc, ◌+◌, ◌-◌, ◌*◌, ◌/◌, ◌%◌, ◌^◌, ◌≤◌, ◌<◌, min, max, bit_and, bit_or,
}
pub use mathlib.Core.Path.{◌≡◌, refl, sym, ap, ap₂, ◌∙◌, subst}
pub use mathlib.Core.Logic.{◌≢◌, ◌↔◌, ◌⊎◌, inl, inr}
pub use mathlib.Core.Bool.{Bool, true, false, not, ◌&&◌, ◌||◌}
pub use mathlib.Core.Option.{Option, none, some}
pub use mathlib.Core.List.{List, [], ◌∷◌, ◌++◌, map, append-nil, append_assoc}
pub use native.Mathlib.Omega.{arith}
