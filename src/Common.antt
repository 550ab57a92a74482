-- ===== src/Common.antt =====
-- The names that the other modules share: those of the libraries, passed on, and those of the
-- children: Boolean tests, results of code that throws, JavaScript numbers, lists, sets and maps.
mod Tests
mod Results
mod Numbers
mod Lists
mod Sets
mod Counting
mod Text
mod Sorting
mod Decimal
mod Time
pub mod Samples
pub use Tests.*
pub use Results.*
pub use Numbers.*
pub use Lists.*
pub use Sets.*
pub use Counting.*
pub use Text.*
unfoldable pub use Sorting.*
unfoldable pub use Decimal.*
pub use Time.*
pub use Prim.Native.Nat.{ℕ, zero, suc, ◌+◌, ◌-◌, ◌*◌, ◌^◌, ◌≤◌, ◌<◌}
pub use Prim.Native.String.{String}
pub use mathlib.Core.Path.{◌≡◌, refl, sym, ap, subst, ◌∙◌}
pub use mathlib.Core.Logic.{◌≢◌, ◌↔◌, ◌⊎◌, inl, inr}
pub use mathlib.Core.Bool.{Bool, true, false, not, ◌&&◌, ◌||◌}
pub use mathlib.Core.Option.{Option, none, some}
pub use mathlib.Core.List.{List, [], ◌∷◌, ◌++◌, map}
pub use native.Mathlib.Omega.{arith}
pub use text.Mathlib.Text.{◌==◌}
pub use text.Mathlib.TextEquality.{eq_iff}
