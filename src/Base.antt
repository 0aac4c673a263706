-- ===== src/Base.antt =====
-- The names that the other modules share: those of the libraries, passed on, and those of the
-- children, which hold tests, integers, lists, byte strings, orderings and error results.
mod Tests
mod Lists
mod Counting
mod Int
mod Strings
mod Decimal
mod TextOrder
mod Sorting
mod Errors
pub use Tests.*
unfoldable pub use Lists.*
pub use Counting.*
pub use Int.*
unfoldable pub use Strings.*
pub use TextOrder.*
unfoldable pub use Decimal.*
unfoldable pub use Sorting.*
pub use Errors.*
pub use Prim.Native.Nat.{ℕ, zero, suc, ◌+◌, ◌-◌, ◌*◌, ◌/◌, ◌%◌, ◌^◌, ◌≤◌, ◌<◌}
pub use mathlib.Core.Path.{◌≡◌, refl, sym, ap, ◌∙◌, subst, subst₂}
pub use mathlib.Core.Logic.{◌≢◌, ◌↔◌, ◌⊎◌, inl, inr}
pub use mathlib.Core.Bool.{Bool, true, false, not, ◌&&◌, ◌||◌}
pub use mathlib.Core.Option.{Option, none, some}
pub use mathlib.Core.List.{List, [], ◌∷◌, ◌++◌, map, append-nil, append_assoc, map-append, Permᴰ}
pub use native.Mathlib.Omega.{arith}
