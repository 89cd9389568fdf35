-- ===== src/Prelude.antt =====
-- The names that the other modules share: the libraries', passed on, and those of its children:
-- Boolean tests, lists measured by native numbers, dictionaries keyed by texts, and text search.
mod Tests
mod Lists
mod Dictionaries
mod Text
mod Counts
unfoldable pub use Tests.*
unfoldable pub use Counts.*
unfoldable pub use Text.*
unfoldable pub use Lists.*
unfoldable pub use Dictionaries.*
pub use Prim.Native.Nat.{ℕ, zero, suc, ◌+◌, ◌-◌, ◌*◌, ◌/◌, ◌%◌, ◌^◌, ◌≤◌, ◌<◌}
pub use Prim.Native.String.{String}
pub use mathlib.Core.Path.{◌≡◌, refl, sym, ap, subst, ◌∙◌}
pub use mathlib.Core.Logic.{◌≢◌, ◌↔◌, ◌⊎◌, inl, inr}
pub use mathlib.Core.Bool.{Bool, true, false, not, ◌&&◌, ◌||◌}
pub use mathlib.Core.Option.{Option, none, some}
pub use mathlib.Core.List.{List, [], ◌∷◌, ◌++◌, map, Memᴰ}
pub use native.Mathlib.Omega.{arith}
pub use text.Mathlib.TextEquality.{eq_iff}
pub use text.Mathlib.TextPositions.{eq_refl}
pub use text.Mathlib.Text.{◌==◌ as ◌=ₛ◌}
