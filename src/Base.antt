-- ===== src/Base.antt =====
-- Names, lists, integers and tables that the modules of the development share.
mod Tests
mod Lists
mod Count
mod Int
mod Maps
mod Keys
pub use Tests.*
pub use Lists.*
pub use Count.*
pub use Int.*
pub use Keys.*
unfoldable pub use Maps.{find, put, delete}
pub use Maps.{Comparable, ℕ_comparable, String_comparable, Table, find-put, find-delete, same_refl}
pub use Prim.Native.Nat.{ℕ, zero, suc, ◌+◌, ◌-◌, ◌*◌, ◌/◌, ◌%◌, ◌^◌, ◌≤◌, ◌<◌}
pub use Prim.Native.String.{String}
pub use mathlib.Core.Path.{◌≡◌, refl, sym, ap, subst, ◌∙◌}
pub use mathlib.Core.Logic.{◌≢◌, ◌↔◌, ◌⊎◌, inl, inr}
pub use mathlib.Core.Bool.{Bool, true, false, not, ◌&&◌, ◌||◌}
pub use mathlib.Core.Option.{Option, none, some}
pub use mathlib.Core.List.{List, [], ◌∷◌, ◌++◌, map}
pub use native.Mathlib.Omega.{arith}
pub use text.Mathlib.Text.{◌==◌ as str_eq}
pub use text.Mathlib.TextEquality.{eq_iff}
