-- ===== src/Prelude/Bits/Step.antt =====
-- One equation for the lowest digit of `&`, `|` and `^`, from the digit recursion they stand for.
use Prim.Native.Nat.{
  ℕ, zero, suc, ◌+◌, ◌-◌, ◌*◌, ◌/◌, ◌%◌, ◌≤◌, ◌<◌, min, max, bit_and, bit_or, bit_xor, digits,
  bitwise, differ, bit_and-bitwise, bit_or-bitwise, bit_xor-bitwise,
}
use Prim.Native.Nat.add
use mathlib.Core.Path.{◌≡◌, refl, ap, ◌∙◌}
use native.Mathlib.Omega.{arith}

-- `bitwise` is `digits` with the first operand for fuel. More fuel changes nothing.
module _ (low : ℕ → ℕ) (digit : ℕ → ℕ → ℕ) where
  one_more : (fuel x y : ℕ) → x ≤ fuel → digits low digit (suc fuel) x y ≡ digits low digit fuel x y
  one_more zero zero y le = refl
  one_more zero (suc x) y le = absurd (omega arith)
  one_more (suc fuel) zero y le = refl
  one_more (suc fuel) (suc x) y le = rw (one_more fuel (suc x / 2) (y / 2) (omega arith))

  many_more :
      (k fuel x y : ℕ) → x ≤ fuel → digits low digit (k + fuel) x y ≡ digits low digit fuel x y
  many_more zero fuel x y le = rw add.zero
  many_more (suc k) fuel x y le =
      rw (add.suc, one_more (k + fuel) x y (omega arith)) (many_more k fuel x y le)

  lowest :
      (x y : ℕ)
      → bitwise low digit (suc x) y
        ≡ bitwise low digit (suc x / 2) (y / 2) * 2 + digit (suc x % 2) (y % 2)
  lowest x y =
      let half = suc x / 2 in
      let split : x ≡ x - half + half = omega arith in
      let same : digits low digit x half (y / 2) ≡ digits low digit half half (y / 2) =
        ap (λ (n : ℕ). digits low digit n half (y / 2)) split
        ∙ many_more (x - half) half half (y / 2) (omega arith) in
      omega (arith, same)

pub bit_or_step : (x y : ℕ) → bit_or x y ≡ bit_or (x / 2) (y / 2) * 2 + max (x % 2) (y % 2)
bit_or_step zero y = simp bit_or-bitwise (omega arith)
bit_or_step (suc x) y = simp bit_or-bitwise (lowest (λ t. t) max x y)

differ_two : (x y : ℕ) → x < 2 → y < 2 → differ x y ≡ (x + y) % 2
differ_two zero y p q = omega arith
differ_two (suc zero) zero p q = refl
differ_two (suc zero) (suc zero) p q = refl
differ_two (suc zero) (suc (suc y)) p q = absurd (omega arith)
differ_two (suc (suc x)) y p q = absurd (omega arith)

pub bit_xor_step : (x y : ℕ) → bit_xor x y ≡ bit_xor (x / 2) (y / 2) * 2 + (x + y) % 2
bit_xor_step zero y = simp bit_xor-bitwise (omega arith)
bit_xor_step (suc x) y = simp bit_xor-bitwise (
    omega (
      arith,
      lowest (λ t. t) differ x y,
      differ_two (suc x % 2) (y % 2) (omega arith) (omega arith),
    ))

pub bit_and_step : (x y : ℕ) → bit_and x y ≡ bit_and (x / 2) (y / 2) * 2 + min (x % 2) (y % 2)
bit_and_step zero y = simp bit_and-bitwise (omega arith)
bit_and_step (suc x) y = simp bit_and-bitwise (lowest (λ t. 0) min x y)
