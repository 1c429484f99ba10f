-- ===== src/Prelude.antt =====
-- The names that the other modules share: the libraries', passed on, and those of the children.
pub mod Tests
pub mod Lists
pub mod Dicts
pub mod Texts
pub mod Decimal
pub use Tests.*
pub use Lists.*
unfoldable pub use Dicts.{Dict, lookup, insert, remove}
unfoldable pub use Texts.{
  Text, codes, text_eq, after_prefix, before, before_suffix, is_space, strip, contains,
}
pub use Texts.{
  contains-before, before-append, text_eq_iff, text_eq_refl, text_eq_sound, text_eq_sym,
  after_prefix-append, after_prefix_sound,
}
pub use Dicts.{lookup-insert, lookup-remove}
pub use Prim.Native.Nat.{ℕ, zero, suc, ◌+◌, ◌-◌, ◌*◌, ◌^◌, ◌≤◌, ◌<◌, min, max}
pub use Prim.Native.String.{String}
pub use mathlib.Core.Path.{◌≡◌, refl, sym, ap, ◌∙◌}
pub use mathlib.Core.Logic.{◌≢◌, ◌↔◌, ◌⊎◌, inl, inr}
pub use mathlib.Core.Bool.{Bool, true, false, not, ◌&&◌, ◌||◌}
pub use mathlib.Core.Option.{Option, none, some}
pub use mathlib.Core.List.{List, [], ◌∷◌, ◌++◌, map}
pub use native.Mathlib.Omega.{arith}
pub use text.Mathlib.Text.{◌==◌ as str_eq}
pub use text.Mathlib.TextEquality.{eq_iff}
unfoldable pub use Decimal.{digit, take_digits, value, digits_of, numerals, show}
pub use Decimal.{
  AreDigits, value-digits_of, digits_of-AreDigits, length-digits_of, take_digits-numerals, pow10,
  with_digit,
}
