-- ===== src/Prelude.antt =====
-- The names that the other modules share: the libraries', passed on, and those of the children.
mod Tests
mod Lists
mod Options
mod Text
mod Strings
mod Scan
pub mod Bits
pub use Tests.*
pub use Lists.*
pub use Options.*
unfoldable pub use Text.{cat, join, decimal, decimal_fuel, digit}
unfoldable pub use Strings.{drop, split, lstrip, rstrip, has, minus}
unfoldable pub use Scan.{begins, mentions, behind, span, all_chars, find_all}
pub use Scan.{
  size, line_starts, with_char, Splits, nil-Splits, all-Splits, with_char-Splits, cat-append, stops,
  behind-append, behind-some, span-append, all_chars-span, stops-append, mentions-one,
  all_chars-and,
}
pub use Strings.{
  same_text, same_text_iff, nonempty_cons, starts_with, is_space, strip, has-append, has-minus,
  Within, minus-Within, NoRepeats, NoRepeats-snoc, join-split,
}
pub use Prim.Native.Nat.{ℕ, zero, suc, ◌+◌, ◌-◌, ◌*◌, ◌/◌, ◌%◌, ◌^◌, ◌≤◌, ◌<◌, min, max}
pub use Prim.Native.String.{String}
pub use mathlib.Core.Path.{◌≡◌, refl, sym, ap, ap₂, fun_ext, ◌∙◌}
pub use mathlib.Core.Logic.{◌≢◌, ◌↔◌, ◌⊎◌, inl, inr}
pub use mathlib.Core.Bool.{Bool, true, false, not, ◌&&◌, ◌||◌}
pub use mathlib.Core.Option.{Option, none, some}
pub use mathlib.Core.List.{List, [], ◌∷◌, ◌++◌, map}
pub use native.Mathlib.Omega.{arith}
