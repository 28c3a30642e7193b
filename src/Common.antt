-- ===== src/Common.antt =====
-- The names that the other modules share: the libraries', passed on, and those of the children.
mod Tests
mod Lists
mod Text
pub mod Digits
pub mod Result
pub mod Regex
pub mod Spaces
pub mod Json
pub use Tests.*
pub use Lists.*
unfoldable pub use Text.{str_eq, ends_with, starts_with, includes, has, add, join, split_at}
pub use Text.{
  Str, str, is_digit, starts_with_iff, str_eq_iff, str_eq_refl, has-append, has-add, has-cons_self,
  has-cons, has-snoc_self, has-snoc, snoc-has, cons-has, nil_has, has-map, map-has,
}
pub use Prim.Native.Nat.{ℕ, zero, suc, ◌+◌, ◌-◌, ◌*◌, ◌/◌, ◌%◌, ◌^◌, ◌≤◌, ◌<◌}
pub use mathlib.Core.Path.{◌≡◌, refl, sym, ap, ◌∙◌}
pub use mathlib.Core.Logic.{◌≢◌, ◌↔◌, ◌⊎◌, inl, inr}
pub use mathlib.Core.Bool.{Bool, true, false, ◌&&◌, ◌||◌, not}
pub use mathlib.Core.Option.{Option, none, some}
pub use mathlib.Core.List.{List, [], ◌∷◌, ◌++◌, map}
pub use native.Mathlib.Omega.{arith}
