-- ===== src/Base.antt =====
-- The names that the other modules share: the libraries', passed on, the Boolean tests, lists and
-- texts, errors with the effect monad, and the integers.
mod Tests
mod Lists
mod Texts
mod Int
mod Effect
pub mod Sort
pub mod Strings
pub mod Space
pub use Tests.*
pub use Lists.*
unfoldable pub use Texts.*
unfoldable pub use Int.*
pub use Effect.*
pub use Prim.Native.Nat.{ℕ, zero, suc, ◌+◌, ◌-◌, ◌*◌, ◌/◌, ◌%◌, ◌^◌, ◌≤◌, ◌<◌}
pub use Prim.Native.String.{String}
pub use mathlib.Core.Path.{◌≡◌, refl, sym, ap, subst, ◌∙◌}
pub use mathlib.Core.Logic.{◌≢◌, ◌↔◌, ◌⊎◌, inl, inr}
pub use mathlib.Core.Bool.{Bool, true, false, not, ◌&&◌, ◌||◌}
pub use mathlib.Core.Option.{Option, none, some}
pub use mathlib.Core.List.{List, [], ◌∷◌, ◌++◌, map, append-nil, append_assoc}
pub use native.Mathlib.Omega.{arith}
