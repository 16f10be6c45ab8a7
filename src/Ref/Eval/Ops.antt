-- ===== src/Ref/Eval/Ops.antt =====
-- The arithmetic of the `wrap` and `sat` domains in tools/fuzz/mcref.py, against the integers.
use native.Mathlib.Nat.{mod-eq_of_lt, add-mod_right, mod-eq-sub-mod}
use native.Mathlib.Decide.{dec_lt}
use modern_c.Prelude.{
  ℕ, ◌+◌, ◌-◌, ◌*◌, ◌%◌, ◌^◌, ◌<◌, ◌≤◌, ◌≡◌, refl, sym, ap, ◌∙◌, arith, leb, le→leb, true,
  Bool-cases, inl, inr,
}
use modern_c.Prelude.Bits.{bit_and_mask, two-pow-pos}
use modern_c.Ref.Syntax.{Op, add, sub, mul, band, bor, bxor}
use modern_c.Ref.Eval.{wrap_op, sat_op}
use modern_c.Ref.Eval.Range.{wrap_op-lt}

-- The two's complement of a negative difference is the difference with the modulus added.
pub wrap_sub : (w x y : ℕ) → x < 2 ^ w → y < 2 ^ w → wrap_op sub w x y ≡ (x + 2 ^ w - y) % 2 ^ w
unfolding wrap_op
wrap_sub w x y p q = elim (Bool-cases (leb y x)) [
  | inl e ↦
      let le : y ≤ x = ground arith in
      let above : x + 2 ^ w - y ≡ (x - y) + 2 ^ w = omega arith in
      rw (e, bit_and_mask w (x - y), above) (sym (add-mod_right (x - y) (2 ^ w)))
  | inr e ↦
      let lt : x < y = ground arith in
      let small : y - x < 2 ^ w = omega arith in
      let below : x + 2 ^ w - y ≡ 2 ^ w - (y - x) = omega arith in rw (e, mod-eq_of_lt small, below)
]

sub-add_mod : (m x y : ℕ) → x < m → y < m → ((x + y) % m + m - y) % m ≡ x
sub-add_mod m x y p q = elim (dec_lt (x + y) m) [
  | yes h ↦
      let e : x + y + m - y ≡ x + m = omega arith in
      rw (mod-eq_of_lt h, e) (add-mod_right x m ∙ mod-eq_of_lt p)
  | no h ↦
      let ge : m ≤ x + y = omega arith in
      let small : x + y - m < m = omega arith in
      let e : x + y - m + m - y ≡ x = omega arith in
      rw (mod-eq-sub-mod ge, mod-eq_of_lt small, e) (mod-eq_of_lt p)
]

-- In a `wrap` domain subtraction undoes addition of operands in range, across the wrap.
wrap_sub-wrap_add : (w x y : ℕ) → x < 2 ^ w → y < 2 ^ w → wrap_op sub w (wrap_op add w x y) y ≡ x
wrap_sub-wrap_add w x y p q =
    let sum : wrap_op add w x y ≡ (x + y) % 2 ^ w = unfold wrap_op in bit_and_mask w (x + y) in
    wrap_sub w (wrap_op add w x y) y (wrap_op-lt add w x y p q) q
    ∙ (ap (λ (t : ℕ). (t + 2 ^ w - y) % 2 ^ w) sum ∙ sub-add_mod (2 ^ w) x y p q)

-- The exact result of an operation on integers, where it is not negative.
abbrev pub exact : Op → ℕ → ℕ → ℕ
exact add x y = x + y
exact sub x y = x - y
exact _ x y = x * y

-- The three operations of both domains.
abbrev pub IsArith : Op → Type 0
IsArith add = Unit
IsArith sub = Unit
IsArith mul = Unit
IsArith _ = ⊥

-- The exact result lies in the range of the type.
abbrev pub InWidth : Op → ℕ → ℕ → ℕ → Type 0
InWidth sub w x y = y ≤ x
InWidth op w x y = exact op x y < 2 ^ w

-- For an addition, subtraction or multiplication of operands in range whose exact result lies in the
-- range of the type, both domains give that result.
pub domains_exact :
    (op : Op) (w x y : ℕ)
    → IsArith op
    → x < 2 ^ w
    → y < 2 ^ w
    → InWidth op w x y
    → (wrap_op op w x y ≡ exact op x y) × (sat_op op w x y ≡ exact op x y)
unfolding wrap_op sat_op
domains_exact add w x y a p q h = (bit_and_mask w (x + y) ∙ mod-eq_of_lt h, omega arith)
domains_exact sub w x y a p q h =
    let fits : x - y < 2 ^ w = omega arith in
    let e : leb y x ≡ true = le→leb y x h in
    (rw (e, bit_and_mask w (x - y)) (mod-eq_of_lt fits), refl)
domains_exact mul w x y a p q h = (bit_and_mask w (x * y) ∙ mod-eq_of_lt h, omega arith)
domains_exact band w x y a p q h = absurd a
domains_exact bor w x y a p q h = absurd a
domains_exact bxor w x y a p q h = absurd a

-- The exact result as a difference of two numbers, since it may be negative.
abbrev pub gained : Op → ℕ → ℕ → ℕ
gained add x y = x + y
gained sub x y = x
gained _ x y = x * y

abbrev pub owed : Op → ℕ → ℕ
owed sub y = y
owed _ y = 0

-- How far two numbers lie apart.
abbrev pub apart : ℕ → ℕ → ℕ
apart m n = (m - n) + (n - m)

-- For an addition, subtraction or multiplication of values of the type, the result of `sat` is the value
-- of the type that lies nearest to the exact result: it is below 2 ^ w, and no other number below 2 ^ w
-- is nearer.
pub sat_op_nearest :
    (op : Op) (w x y : ℕ)
    → IsArith op
    → x < 2 ^ w
    → y < 2 ^ w
    → (sat_op op w x y < 2 ^ w)
      × ((z : ℕ)
          → z < 2 ^ w
          → apart (gained op x y) (owed op y + sat_op op w x y)
            ≤ apart (gained op x y) (owed op y + z))
unfolding sat_op
sat_op_nearest add w x y a p q = (omega (arith, two-pow-pos w), λ z h. omega (arith, two-pow-pos w))
sat_op_nearest sub w x y a p q = (omega arith, λ z h. omega arith)
sat_op_nearest mul w x y a p q = (omega (arith, two-pow-pos w), λ z h. omega (arith, two-pow-pos w))
sat_op_nearest band w x y a p q = absurd a
sat_op_nearest bor w x y a p q = absurd a
sat_op_nearest bxor w x y a p q = absurd a
