-- ===== src/Fuzz/Digits.antt =====
-- `int` of what `str` prints of a number: the digits of `decimal`, read by `digits_from`.
use Prim.Native.Char.{Char, code}
use Prim.Native.String as Texts
use text.Mathlib.TextLemmas.{nil-append, append-nil, cons-append, append_assoc}
use modern_c.Prelude.{
  ℕ, zero, suc, ◌+◌, ◌*◌, ◌/◌, ◌%◌, ◌<◌, ◌≤◌, ◌≡◌, refl, ap, ◌∙◌, String, Bool, true, false, ltb,
  leb, ◌&&◌, ◌-◌, some, arith, Bool-cases, inl, inr, decimal, decimal_fuel, digit, all_chars,
}
use modern_c.Fuzz.Numbers.{digits_from}
use modern_c.Fuzz.Signature.{is_digit}

-- A digit is one character.
digit-Char : (d : ℕ) → d < 10 → (c : Char) × (digit d ≡ String.◌∷◌ c "") × (code c ≡ d + 48)
unfolding digit
digit-Char zero h = ("0", refl, refl)
digit-Char (suc zero) h = ("1", refl, refl)
digit-Char (suc (suc zero)) h = ("2", refl, refl)
digit-Char (suc (suc (suc zero))) h = ("3", refl, refl)
digit-Char (suc (suc (suc (suc zero)))) h = ("4", refl, refl)
digit-Char (suc (suc (suc (suc (suc zero))))) h = ("5", refl, refl)
digit-Char (suc (suc (suc (suc (suc (suc zero)))))) h = ("6", refl, refl)
digit-Char (suc (suc (suc (suc (suc (suc (suc zero))))))) h = ("7", refl, refl)
digit-Char (suc (suc (suc (suc (suc (suc (suc (suc zero)))))))) h = ("8", refl, refl)
digit-Char (suc (suc (suc (suc (suc (suc (suc (suc (suc zero))))))))) h = ("9", refl, refl)
digit-Char (suc (suc (suc (suc (suc (suc (suc (suc (suc (suc n)))))))))) h =
    absurd (omega (arith, h))

digit-append :
    (d : ℕ) (s : String)
    → d < 10
    → (c : Char) × (Texts.◌++◌ (digit d) s ≡ String.◌∷◌ c s) × (code c ≡ d + 48)
digit-append d s h =
    let (c, e, v) = digit-Char d h in (c, rw (e, cons-append c "" s, nil-append s) refl, v)

digit-digits_from :
    (after : Bool) (acc d : ℕ) (s : String)
    → d < 10
    → digits_from after acc (Texts.◌++◌ (digit d) s) ≡ digits_from true (acc * 10 + d) s
unfolding digits_from
digit-digits_from after acc d s h =
    let (c, e, v) = digit-append d s h in
    let numeral : (leb 48 (code c) && leb (code c) 57) ≡ true = ground (arith, v, h) in
    let value : code c - 48 ≡ d = omega (arith, v) in
    rw (e) (rw (numeral, digits_from) (ap (λ (v : ℕ). digits_from true (acc * 10 + v) s) value))

decimal_fuel-digits_from :
    (fuel n : ℕ) (after : Bool) (s : String)
    → n < fuel
    → digits_from after 0 (Texts.◌++◌ (decimal_fuel fuel n) s) ≡ digits_from true n s
unfolding decimal_fuel
decimal_fuel-digits_from zero n after s h = absurd (omega (arith, h))
decimal_fuel-digits_from (suc fuel) n after s h = elim (Bool-cases (ltb n 10)) [
  | inl e ↦
      let same : 0 * 10 + n ≡ n = omega arith in
      rw (e) (
        digit-digits_from after 0 n s (ground (arith, e))
        ∙ ap (λ (v : ℕ). digits_from true v s) same)
  | inr e ↦
      let large : 10 ≤ n = ground (arith, e) in
      let less : n / 10 < fuel = omega (arith, h, large) in
      let whole : n / 10 * 10 + n % 10 ≡ n = omega arith in
      rw
        (
          e,
          append_assoc (decimal_fuel fuel (n / 10)) (digit (n % 10)) s,
          decimal_fuel-digits_from fuel (n / 10) after (Texts.◌++◌ (digit (n % 10)) s) less,
          digit-digits_from true (n / 10) (n % 10) s (omega arith),
          whole,
        )
        refl
]

digit-all_chars :
    (d : ℕ) (s : String)
    → d < 10
    → all_chars is_digit (Texts.◌++◌ (digit d) s) ≡ all_chars is_digit s
unfolding all_chars
digit-all_chars d s h =
    let (c, e, v) = digit-append d s h in
    let numeral : is_digit (code c) ≡ true = ground (arith, v, h) in
    rw (e, all_chars) (ground (arith, numeral))

decimal_fuel-all_chars :
    (fuel n : ℕ) (s : String)
    → all_chars is_digit (Texts.◌++◌ (decimal_fuel fuel n) s) ≡ all_chars is_digit s
unfolding decimal_fuel
decimal_fuel-all_chars zero n s = rw (nil-append s) refl
decimal_fuel-all_chars (suc fuel) n s = elim (Bool-cases (ltb n 10)) [
  | inl e ↦ rw (e) (digit-all_chars n s (ground (arith, e)))
  | inr e ↦
      rw
        (
          e,
          append_assoc (decimal_fuel fuel (n / 10)) (digit (n % 10)) s,
          decimal_fuel-all_chars fuel (n / 10) (Texts.◌++◌ (digit (n % 10)) s),
        )
        (digit-all_chars (n % 10) s (omega arith))
]

-- The digits of a number are digits.
pub all_chars-decimal : (n : ℕ) → all_chars is_digit (decimal n) ≡ true
unfolding decimal all_chars
all_chars-decimal n =
    let digits = decimal_fuel-all_chars (suc n) n "" in
    rw (append-nil (decimal_fuel (suc n) n)) at digits

-- They are read as the number.
pub digits_from-decimal : (n : ℕ) → digits_from false 0 (decimal n) ≡ some n
unfolding decimal digits_from
digits_from-decimal n =
    let read = decimal_fuel-digits_from (suc n) n false "" (omega arith) in
    rw (append-nil (decimal_fuel (suc n) n)) at read

-- There is a first one.
pub decimal-Char :
    (n : ℕ) → (c : Char) × (s : String) × (decimal n ≡ String.◌∷◌ c s) × (is_digit (code c) ≡ true)
unfolding digits_from all_chars
decimal-Char n = first (decimal n) (all_chars-decimal n) (digits_from-decimal n)
  where
    first :
        (t : String)
        → all_chars is_digit t ≡ true
        → digits_from false 0 t ≡ some n
        → (c : Char) × (s : String) × (t ≡ String.◌∷◌ c s) × (is_digit (code c) ≡ true)
    first String.[] h e = absurd cc
    first (String.◌∷◌ c s) h e = (c, s, refl, ground (arith, h))
