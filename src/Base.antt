-- ===== src/Base.antt =====
-- The names that the other modules share: the libraries', passed on, and those of the children.
mod Tests
mod Lists
mod Order
mod Sets
mod Maps
mod Texts
mod Suffix
mod Sorting
mod Ranking
mod Results
pub mod Run
pub use Tests.*
pub use Lists.*
pub use Order.*
pub use Sets.*
pub use Maps.*
unfoldable pub use Texts.{to_ascii_uppercase, to_ascii_lowercase}
pub use Texts.*
unfoldable pub use Suffix.{without_suffix}
pub use Suffix.*
pub use Sorting.*
pub use Ranking.*
pub use Results.*
pub use Prim.Native.Nat.{ℕ, zero, suc, ◌+◌, ◌-◌, ◌*◌, ◌/◌, ◌%◌, ◌^◌, ◌≤◌, ◌<◌, Ordering}
pub use Prim.Native.String.{String, len}
pub use Prim.Native.String.{◌++◌ as ◌+++◌}
pub use mathlib.Core.Path.{fun_ext, ◌≡◌, refl, sym, ap, subst, ◌∙◌}
pub use mathlib.Core.Logic.{◌≢◌, ◌↔◌, ◌⊎◌, inl, inr}
pub use mathlib.Core.Bool.{Bool, true, false, not, ◌&&◌, ◌||◌}
pub use mathlib.Core.Option.{Option, none, some, some-injective}
pub use mathlib.Core.List.{List, [], ◌∷◌, ◌++◌, map, foldl}
pub use native.Mathlib.Omega.{arith}
pub use text.Mathlib.Text.{starts_with}
