-- ===== src/Prelude.antt =====
-- Names that the modules of this development share: those of the libraries, and small helpers on
-- Booleans, lists, integers and byte texts.
mod Tests
mod Lists
mod Options
mod Int
mod Bytes
mod Decimal
mod Digits
pub use Tests.*
pub use Lists.*
pub use Options.*
pub use Int.*
pub use Bytes.*
unfoldable pub use Bytes.{text_eq}
pub use Digits.*
unfoldable pub use Decimal.{show_nat, digits_from}
pub use Prim.Native.Nat.{ℕ, zero, suc, ◌+◌, ◌-◌, ◌*◌, ◌/◌, ◌%◌, ◌^◌, ◌≤◌, ◌<◌, min, max}
pub use mathlib.Core.Path.{◌≡◌, refl, sym, ap, subst, ◌∙◌}
pub use mathlib.Core.Logic.{◌≢◌, ◌↔◌, ◌⊎◌, inl, inr}
pub use mathlib.Core.Bool.{Bool, true, false, not, ◌&&◌, ◌||◌}
pub use mathlib.Core.Option.{Option, none, some}
pub use mathlib.Core.List.{List, [], ◌∷◌, ◌++◌, map, foldl}
pub use native.Mathlib.Omega.{arith}
