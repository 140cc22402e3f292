-- ===== src/Prelude.antt =====
-- The names that the modules share: the library's, passed on, and those of four children, which
-- hold Boolean tests, lists over the native numbers, finite maps, signed integers and results.
mod Tests
mod Lists
pub mod Dict
mod Int
mod Results
mod Texts
pub mod Scalars
pub use Tests.*
pub use Lists.*
pub use Int.*
unfoldable pub use Texts.{String_discrete, str_lt}
pub use Texts.{str_lt_irrefl}
pub use Results.*
pub use Prim.Native.Nat.{ℕ, zero, suc, ◌+◌, ◌-◌, ◌*◌, ◌/◌, ◌%◌, ◌^◌, ◌≤◌, ◌<◌, max, min}
pub use Prim.Native.String.{String}
pub use mathlib.Core.Path.{◌≡◌, refl, sym, ap, ◌∙◌}
pub use mathlib.Core.Logic.{◌≢◌, ◌↔◌, ◌⊎◌, inl, inr, ite}
pub use mathlib.Core.Bool.{Bool, true, false, not, ◌&&◌, ◌||◌}
pub use mathlib.Core.Option.{Option, none, some, map as map_option}
pub use mathlib.Core.List.{List, [], ◌∷◌, ◌++◌, map}
pub use native.Mathlib.Omega.{arith}
pub use text.Mathlib.Text.{◌==◌ as str_eq}
pub use text.Mathlib.TextEquality.{eq_iff}
unfoldable pub use native.Mathlib.Decide.{ℕ_discrete}
