-- ===== src/Base.antt =====
-- The names that the other modules share: the libraries' names, decidable equality, Boolean tests
-- on numbers, byte strings, maps and the action monad.
mod Equality
mod Numbers
mod Lists
mod Text
pub mod Map
pub mod Exec
pub mod Outcomes
pub mod Counting
pub mod Clock
pub mod Index
unfoldable pub use Equality.*
unfoldable pub use Numbers.*
unfoldable pub use Lists.*
unfoldable pub use Text.*
pub use Prim.Native.Nat.{ℕ, zero, suc, ◌+◌, ◌-◌, ◌*◌, ◌/◌, ◌%◌, ◌^◌, ◌≤◌, ◌<◌}
pub use Prim.Native.String.{String}
pub use mathlib.Core.Path.{◌≡◌, refl, sym, ap, ◌∙◌, subst}
pub use mathlib.Core.Logic.{◌≢◌, ◌↔◌, ◌⊎◌, inl, inr}
pub use mathlib.Core.Bool.{Bool, true, false, not, ◌&&◌, ◌||◌}
pub use mathlib.Core.Option.{Option, none, some}
pub use mathlib.Core.List.{List, [], ◌∷◌, ◌++◌, map, append-nil, append_assoc}
pub use native.Mathlib.Omega.{arith}
