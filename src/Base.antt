-- ===== src/Base.antt =====
-- Names that the other modules share: the libraries', passed on, and those of the children, which
-- hold tests on numbers and texts (Tests) and lists measured by native numbers (Lists), and text methods (Text, Prefixes, Parsing), and the sort (Sorting).
mod Tests
mod Lists
mod Text
mod Prefixes
mod Parsing
mod Sorting
pub use Tests.*
pub use Prefixes.*
unfoldable pub use Text.*
unfoldable pub use Lists.*
unfoldable pub use Parsing.*
unfoldable pub use Sorting.*
pub use Prim.Native.Nat.{ℕ, zero, suc, ◌+◌, ◌-◌, ◌*◌, ◌/◌, ◌^◌, ◌≤◌, ◌<◌, min, max}
pub use Prim.Native.String.{String}
pub use mathlib.Core.Path.{◌≡◌, refl, sym, ap, subst, ◌∙◌}
pub use mathlib.Core.Logic.{◌≢◌, ◌↔◌, ◌⊎◌, inl, inr}
pub use mathlib.Core.Bool.{Bool, true, false, not, ◌&&◌, ◌||◌}
pub use mathlib.Core.Option.{Option, none, some}
pub use mathlib.Core.List.{List, [], ◌∷◌, ◌++◌, map}
pub use native.Mathlib.Omega.{arith}
pub use text.Mathlib.Text.{◌==◌}
pub use text.Mathlib.TextEquality.{eq_iff}
pub use text.Mathlib.TextPositions.{eq_refl}
