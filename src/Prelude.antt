-- ===== src/Prelude.antt =====
-- The names that the other modules share: the libraries', passed on, and those of the children.
mod Logic
mod Int
mod Fractions
mod Lists
mod Sets
mod Sorting
mod Dicts
mod Results
mod Counts
unfoldable pub use Logic.*
pub use Int.*
pub use Fractions.*
pub use Lists.*
pub use Sets.*
unfoldable pub use Sorting.*
unfoldable pub use Dicts.*
pub use Results.*
pub use Counts.*
pub use Prim.Native.Nat.{ℕ, zero, suc, ◌+◌, ◌-◌, ◌*◌, ◌/◌, ◌≤◌, ◌<◌, min, max, Ordering}
pub use Prim.Native.Nat.{compare as compare_ℕ}
pub use Prim.Native.String.{String, compare as compare_text}
pub use mathlib.Core.Path.{◌≡◌, refl, sym, ap, subst, ◌∙◌}
pub use mathlib.Core.Logic.{◌≢◌, ◌↔◌, ◌⊎◌, inl, inr}
pub use mathlib.Core.Bool.{Bool, true, false, ◌&&◌, ◌||◌, not}
pub use mathlib.Core.Option.{Option, none, some}
pub use mathlib.Core.List.{List, [], ◌∷◌, ◌++◌, map}
pub use native.Mathlib.Omega.{arith}
