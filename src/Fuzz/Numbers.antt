-- ===== src/Fuzz/Numbers.antt =====
-- `int` of a text, as tools/fuzz/mcfuzz.py uses it: `_positive_int`, and the counts and positions of
-- the rows. Digits are the ASCII ones.
use Prim.Native.Char.{code}
use modern_c.Prelude.{
  ℕ, zero, suc, ◌+◌, ◌-◌, ◌*◌, String, Bool, true, false, ◌&&◌, Option, none, some, leb, ltb, ◌==◌,
  lstrip, rstrip, strip, if◌then◌else◌,
}

pub data ℤ : Type 0 where
  pos : ℕ → ℤ
  negsuc : ℕ → ℤ

abbrev pub negative : ℕ → ℤ
negative zero = pos zero
negative (suc n) = negsuc n

abbrev pub same_int : ℤ → ℤ → Bool
same_int (pos m) (pos n) = m == n
same_int (negsuc m) (negsuc n) = m == n
same_int (pos m) (negsuc n) = false
same_int (negsuc m) (pos n) = false

-- Digits, with an underscore between two of them at most; `after` is whether a digit came last.
unfoldable pub digits_from : Bool → ℕ → String → Option ℕ
digits_from after acc String.[] = if after then some acc else none
digits_from after acc (String.◌∷◌ c s) = elim (leb 48 (code c) && leb (code c) 57) [
  | true ↦ digits_from true (acc * 10 + (code c - 48)) s
  | false ↦ elim (after && code c == b'_') [ true ↦ digits_from false acc s | false ↦ none ]
]

abbrev negated : Option ℕ → Option ℤ
negated none = none
negated (some n) = some (negative n)

abbrev unsigned : Option ℕ → Option ℤ
unsigned none = none
unsigned (some n) = some (pos n)

unfoldable pub signed : String → Option ℤ
unfolding digits_from
signed String.[] = none
signed (String.◌∷◌ c s) = elim (code c == b'-') [
  | true ↦ negated (digits_from false 0 s)
  | false ↦ elim (code c == b'+') [
    | true ↦ unsigned (digits_from false 0 s)
    | false ↦ unsigned (digits_from false 0 (String.◌∷◌ c s))
  ]
]

-- `int(text)`; `none` is the `ValueError`.
unfoldable pub to_int : String → Option ℤ
unfolding signed lstrip rstrip
to_int s = signed (strip s)

abbrev is_positive : Option ℤ → Bool
is_positive (some (pos n)) = ltb 0 n
is_positive _ = false

-- `_positive_int(value)`; a missing value is a `TypeError`, which counts as not positive.
unfoldable pub positive_int : Option String → Bool
unfolding to_int
positive_int none = false
positive_int (some s) = is_positive (to_int s)
