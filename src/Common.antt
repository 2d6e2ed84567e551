-- ===== src/Common.antt =====
-- The names that every other file uses: those of the libraries, passed on, the tests and list
-- functions of JavaScript that the sources call, its sort, and the interface of its numbers.
mod Tests
mod Lists
mod Failures
mod Arithmetic
mod Sorting
mod Texts
pub use Tests.*
pub use Lists.*
pub use Failures.*
pub use Arithmetic.*
pub use Sorting.*
pub use Texts.*
pub use Prim.Native.Nat.{ℕ, zero, suc, ◌+◌, ◌-◌, ◌*◌, ◌^◌, ◌≤◌, ◌<◌, max}
pub use Prim.Native.String.{String}
pub use mathlib.Core.Path.{◌≡◌, refl, sym, ap, subst, ◌∙◌}
pub use mathlib.Core.Logic.{◌≢◌, ◌↔◌, ◌⊎◌, inl, inr}
pub use mathlib.Core.Bool.{Bool, true, false, not, ◌&&◌, ◌||◌}
pub use mathlib.Core.Option.{Option, none, some}
pub use mathlib.Core.List.{List, [], ◌∷◌, ◌++◌, map}
pub use native.Mathlib.Omega.{arith}
pub use text.Mathlib.TextEquality.{eq_iff}
pub use text.Mathlib.TextPositions.{eq_refl}
