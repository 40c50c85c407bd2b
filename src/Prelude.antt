-- ===== src/Prelude.antt =====
-- The names that the other modules share: library names passed on, tests on numbers and texts,
-- lists measured by native numbers, tables as lists of rows, and signed integers.
mod Tests
mod Lists
mod Texts
pub mod Int
pub mod Table
pub use Tests.*
pub use Lists.*
unfoldable pub use Texts.{same_text, trim, starts_with, split_on}
pub use Texts.{Text, codes, is_space, same_text_iff}
pub use Prim.Native.Nat.{ℕ, zero, suc, ◌+◌, ◌-◌, ◌*◌, ◌/◌, ◌%◌, ◌^◌, ◌≤◌, ◌<◌, min, max}
pub use mathlib.Core.Path.{◌≡◌, refl, sym, ap, subst, ◌∙◌}
pub use mathlib.Core.Logic.{◌≢◌, ◌↔◌, ◌⊎◌, inl, inr}
pub use mathlib.Core.Bool.{Bool, true, false, ◌&&◌, ◌||◌, not}
pub use mathlib.Core.Option.{Option, none, some}
pub use mathlib.Core.List.{List, [], ◌∷◌, ◌++◌, map}
pub use native.Mathlib.Omega.{arith}
