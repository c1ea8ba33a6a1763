-- ===== src/Common.antt =====
-- Names that the other modules share: those of the libraries, Boolean tests, and tables of rows.
mod Tests
mod Lists
mod Tables
mod Selection
pub mod Partial
pub use Tests.*
pub use Lists.*
pub use Tables.*
pub use Selection.*
unfoldable pub use Tests.{text_beq}
unfoldable pub use Lists.{find, select, update, any}
pub use Prim.Native.Nat.{ℕ, zero, suc, ◌+◌, ◌-◌, ◌*◌, ◌/◌, ◌%◌, ◌≤◌, ◌<◌, min}
pub use Prim.Native.String.{String}
pub use mathlib.Core.Path.{◌≡◌, refl, sym, ap, subst, ◌∙◌}
pub use mathlib.Core.Logic.{◌≢◌, ◌↔◌, ◌⊎◌, inl, inr}
pub use mathlib.Core.Bool.{Bool, true, false, not, ◌&&◌, ◌||◌}
pub use mathlib.Core.Option.{Option, none, some}
pub use mathlib.Core.List.{List, [], ◌∷◌, ◌++◌, map}
pub use native.Mathlib.Omega.{arith}
