-- ===== src/Base.antt =====
-- The names that the other modules share: the library's, passed on, and those of the children:
-- Boolean tests, lists measured by native numbers, byte texts and string-keyed maps.
mod Tests
mod Lists
mod Texts
mod Maps
mod Sorting
mod Decimal
mod Splitting
mod Trimming
mod Trailing
pub use Tests.*
unfoldable pub use Lists.*
unfoldable pub use Texts.*
unfoldable pub use Maps.*
unfoldable pub use Sorting.*
unfoldable pub use Decimal.*
pub use Splitting.*
unfoldable pub use Trimming.*
pub use Trailing.*
pub use Prim.Native.Nat.{ℕ, zero, suc, ◌+◌, ◌-◌, ◌*◌, ◌/◌, ◌%◌, ◌^◌, ◌≤◌, ◌<◌}
pub use mathlib.Core.Path.{◌≡◌, refl, sym, ap, subst, ◌∙◌}
pub use mathlib.Core.Logic.{◌≢◌, ◌↔◌, ◌⊎◌, inl, inr}
pub use mathlib.Core.Bool.{Bool, true, false, not, ◌&&◌, ◌||◌}
pub use mathlib.Core.Option.{Option, none, some}
pub use mathlib.Core.List.{List, [], ◌∷◌, ◌++◌, map, append-nil, append_assoc}
pub use native.Mathlib.Omega.{arith}
