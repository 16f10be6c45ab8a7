-- ===== src/Prelude/Bits/Bounds.antt =====
-- The bit operations keep to a width, and `&` with a low mask is the remainder.
use Prim.Native.Nat.{
  ℕ, zero, suc, ◌+◌, ◌-◌, ◌*◌, ◌/◌, ◌%◌, ◌^◌, ◌≤◌, ◌<◌, bit_and, bit_or, bit_xor, bit_and-bitwise,
}
use Prim.Native.Nat.add
use mathlib.Core.Path.{◌≡◌, ap, ◌∙◌}
use native.Mathlib.Nat.{
  pow-suc, one-le-pow, mod-lt, div-add-mod', add-mul-mod_self_right, mod-eq_of_lt,
}
use native.Mathlib.Omega.{arith}
use modern_c.Prelude.Bits.Step.{bit_and_step, bit_or_step, bit_xor_step}

pub two-pow-suc : (k : ℕ) → 2 ^ suc k ≡ 2 * 2 ^ k
two-pow-suc k = omega (arith, pow-suc 2 k)

pub two-pow-pos : (k : ℕ) → 1 ≤ 2 ^ k
two-pow-pos k = one-le-pow k 2 (omega arith)

-- Every number fits as many bits as it counts.
pub lt-two-pow : (k : ℕ) → k < 2 ^ k
lt-two-pow zero = omega arith
lt-two-pow (suc k) = omega (arith, lt-two-pow k, two-pow-suc k)

pub two-pow_mono : (j k : ℕ) → j ≤ k → 2 ^ j ≤ 2 ^ k
two-pow_mono zero k h = two-pow-pos k
two-pow_mono (suc j) zero h = absurd (omega arith)
two-pow_mono (suc j) (suc k) h =
    omega (arith, two-pow-suc j, two-pow-suc k, two-pow_mono j k (omega arith))

pub bit_or-lt : (k a b : ℕ) → a < 2 ^ k → b < 2 ^ k → bit_or a b < 2 ^ k
bit_or-lt zero a b p q =
    let a0 : a ≡ 0 = omega arith in let b0 : b ≡ 0 = omega arith in rw (a0, b0) (omega arith)
bit_or-lt (suc k) a b p q = omega (
  arith,
  two-pow-suc k,
  bit_or_step a b,
  bit_or-lt k (a / 2) (b / 2) (omega (arith, two-pow-suc k)) (omega (arith, two-pow-suc k)),
)

pub bit_xor-lt : (k a b : ℕ) → a < 2 ^ k → b < 2 ^ k → bit_xor a b < 2 ^ k
bit_xor-lt zero a b p q =
    let a0 : a ≡ 0 = omega arith in let b0 : b ≡ 0 = omega arith in rw (a0, b0) (omega arith)
bit_xor-lt (suc k) a b p q = omega (
  arith,
  two-pow-suc k,
  bit_xor_step a b,
  bit_xor-lt k (a / 2) (b / 2) (omega (arith, two-pow-suc k)) (omega (arith, two-pow-suc k)),
)

bit_and-le_fuel : (k a b : ℕ) → a < 2 ^ k → bit_and a b ≤ a
bit_and-le_fuel zero a b p =
    let a0 : a ≡ 0 = omega arith in rw a0 (omega (arith, bit_and-bitwise 0 b))
bit_and-le_fuel (suc k) a b p =
    omega
      (arith, bit_and_step a b, bit_and-le_fuel k (a / 2) (b / 2) (omega (arith, two-pow-suc k)))

-- `&` only clears bits.
pub bit_and-le : (a b : ℕ) → bit_and a b ≤ a
bit_and-le a b = bit_and-le_fuel a a b (lt-two-pow a)

bit_and-zero_fuel : (k a : ℕ) → a < 2 ^ k → bit_and a 0 ≡ 0
bit_and-zero_fuel zero a p = let a0 : a ≡ 0 = omega arith in rw a0
bit_and-zero_fuel (suc k) a p =
    omega (arith, bit_and_step a 0, bit_and-zero_fuel k (a / 2) (omega (arith, two-pow-suc k)))

pub bit_and-zero : (a : ℕ) → bit_and a 0 ≡ 0
bit_and-zero a = bit_and-zero_fuel a a (lt-two-pow a)

-- The remainder by twice a number, from the lowest digit and the others.
pub mod-two-mul : (a m : ℕ) → 0 < m → a % (2 * m) ≡ a / 2 % m * 2 + a % 2
mod-two-mul a m h = grind arith

-- `x & ((1 << k) - 1)` is the remainder of `x` by `1 << k`.
pub bit_and_mask : (k a : ℕ) → bit_and a (2 ^ k - 1) ≡ a % 2 ^ k
bit_and_mask zero a = omega (arith, bit_and-zero a)
bit_and_mask (suc k) a =
    let half : (2 ^ suc k - 1) / 2 ≡ 2 ^ k - 1 = omega (arith, two-pow-suc k, two-pow-pos k) in
    let odd : (2 ^ suc k - 1) % 2 ≡ 1 = omega (arith, two-pow-suc k, two-pow-pos k) in
    let ih = bit_and_mask k (a / 2) in
    rw (bit_and_step a (2 ^ suc k - 1), half, odd, ih, two-pow-suc k)
      (omega (arith, mod-two-mul a (2 ^ k) (two-pow-pos k)))

pub two-pow-add : (j k : ℕ) → 2 ^ (j + k) ≡ 2 ^ j * 2 ^ k
two-pow-add zero k = rw add.zero (omega arith)
two-pow-add (suc j) k = rw add.suc (
    omega (
      arith,
      two-pow-suc (j + k),
      two-pow-suc j,
      two-pow-add j k,
      ap (λ (t : ℕ). t * 2 ^ k) (two-pow-suc j),
    ))

below_product : (r c h w : ℕ) → r < h → c < w → r * w + c < w * h
below_product r c h w p q = grind arith

-- The remainder by a product, from the remainder by one factor and the digit above it.
pub mod-mul : (u a b : ℕ) → 0 < a → 0 < b → u % (a * b) ≡ u / a % b * a + u % a
mod-mul u a b ha hb =
    let q : ℕ = u / a in
    let r : ℕ = q % b * a + u % a in
    let small : r < a * b = below_product (q % b) (u % a) b a (mod-lt q hb) (mod-lt u ha) in
    let whole : u ≡ r + q / b * (a * b) =
      omega (arith, div-add-mod' u a, ap (λ (t : ℕ). t * a) (div-add-mod' q b)) in
    ap (λ (t : ℕ). t % (a * b)) whole
    ∙ (add-mul-mod_self_right r (q / b) (a * b) ∙ mod-eq_of_lt small)
