-- ===== src/Base.antt =====
-- The names that the other modules share: the libraries', passed on, and those of the children.
mod Compare
mod Lists
mod Chars
pub use Compare.*
pub use Lists.*
pub use Chars.{
  Text, text_eq_iff, text_eq_refl, text_eq_sym, split_on-append, split_on-plain, split_on-join,
}
unfoldable pub use Chars.{
  u, text_eq, starts_with, includes, split_on, join, char_lower, lower, decimal, decimal_from,
  is_digit, is_alpha, is_alnum, trim, is_blank, filter_b, member,
}
pub use Prim.Native.Nat.{ℕ, zero, suc, ◌+◌, ◌-◌, ◌*◌, ◌/◌, ◌%◌, ◌^◌, ◌≤◌, ◌<◌, min, max}
pub use mathlib.Core.Path.{◌≡◌, refl, sym, ap, ◌∙◌, subst}
pub use mathlib.Core.Logic.{◌≢◌, ◌↔◌, ◌⊎◌, inl, inr}
pub use mathlib.Core.Bool.{Bool, true, false, not, ◌&&◌, ◌||◌}
pub use mathlib.Core.Option.{Option, none, some}
pub use mathlib.Core.List.{List, [], ◌∷◌, ◌++◌, map, reverse}
pub use native.Mathlib.Omega.{arith}
