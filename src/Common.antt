-- ===== src/Common.antt =====
-- The names that the other modules share: the libraries', passed on, and those of its children.
mod Tests
mod Lists
mod Words
mod Outcome
mod Slices
mod Strings
mod Search
mod Int
mod Hex
mod Sorting
mod Exists
mod Maps
mod Parse
pub use Tests.*
pub use Lists.*
unfoldable pub use Words.*
pub use Outcome.*
unfoldable pub use Slices.*
unfoldable pub use Strings.*
pub use Search.*
unfoldable pub use Int.*
unfoldable pub use Maps.*
unfoldable pub use Parse.*
unfoldable pub use Exists.*
unfoldable pub use Sorting.*
unfoldable pub use Hex.*
pub use Prim.Native.Nat.{ℕ, zero, suc, ◌+◌, ◌-◌, ◌*◌, ◌/◌, ◌%◌, ◌^◌, ◌≤◌, ◌<◌, min, max}
pub use mathlib.Core.Path.{◌≡◌, refl, sym, ap, ◌∙◌, subst}
pub use mathlib.Core.Logic.{◌≢◌, ◌↔◌, ◌⊎◌, inl, inr}
pub use mathlib.Core.Bool.{Bool, true, false, not, ◌&&◌, ◌||◌}
pub use mathlib.Core.Option.{Option, none, some}
pub use mathlib.Core.List.{List, [], ◌∷◌, ◌++◌, map, append-nil, append_assoc}
pub use native.Mathlib.Omega.{arith}
unfoldable pub use native.Mathlib.Decide.{dec_lt, ℕ_discrete}
