-- ===== src/Prelude.antt =====
-- The names that the other modules share: the libraries', passed on, and those of the children.
mod Tests
mod Lists
mod Maps
mod Strings
pub use Tests.*
pub use Lists.*
pub use Maps.{Dict, lookup-insert, lookup-erase, dict_laws}
unfoldable pub use Maps.{lookup, insert, erase}
pub use Strings.{str_lt_asymm, str_lt_trans}
unfoldable pub use Strings.{str_lt}
pub use Prim.Native.Nat.{ℕ, zero, suc, ◌+◌, ◌-◌, ◌*◌, ◌/◌, ◌%◌, ◌^◌, ◌≤◌, ◌<◌}
pub use Prim.Native.String.{String}
pub use text.Mathlib.Text.{◌==◌ as str_eq}
pub use text.Mathlib.TextEquality.{eq_iff}
pub use mathlib.Core.Path.{◌≡◌, refl, sym, ap, subst, ◌∙◌}
pub use mathlib.Core.Logic.{◌≢◌, ◌↔◌, ◌⊎◌, inl, inr}
pub use mathlib.Core.Bool.{Bool, true, false, not, ◌&&◌, ◌||◌}
pub use mathlib.Core.Option.{Option, none, some}
pub use mathlib.Core.List.{List, [], ◌∷◌, ◌++◌, map}
pub use native.Mathlib.Omega.{arith}
