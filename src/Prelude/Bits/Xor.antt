-- ===== src/Prelude/Bits/Xor.antt =====
-- Exclusive or: a commutative group law in which every number is its own inverse.
use Prim.Native.Nat.{ℕ, zero, suc, ◌+◌, ◌*◌, ◌/◌, ◌^◌, ◌≤◌, ◌<◌, bit_xor, bit_xor-bitwise}
use mathlib.Core.Path.{◌≡◌, ap, ◌∙◌}
use native.Mathlib.Omega.{arith}
use modern_c.Prelude.Bits.Step.{bit_xor_step}
use modern_c.Prelude.Bits.Bounds.{two-pow-suc, lt-two-pow, two-pow_mono}

pub zero-bit_xor : (a : ℕ) → bit_xor 0 a ≡ a
zero-bit_xor a = bit_xor-bitwise 0 a

self_fuel : (k a : ℕ) → a < 2 ^ k → bit_xor a a ≡ 0
self_fuel zero a p = let a0 : a ≡ 0 = omega arith in rw a0
self_fuel (suc k) a p =
    omega (arith, bit_xor_step a a, self_fuel k (a / 2) (omega (arith, two-pow-suc k)))

pub bit_xor_self : (a : ℕ) → bit_xor a a ≡ 0
bit_xor_self a = self_fuel a a (lt-two-pow a)

comm_fuel : (k a b : ℕ) → a < 2 ^ k → b < 2 ^ k → bit_xor a b ≡ bit_xor b a
comm_fuel zero a b p q = let a0 : a ≡ 0 = omega arith in let b0 : b ≡ 0 = omega arith in rw (a0, b0)
comm_fuel (suc k) a b p q = omega (
  arith,
  bit_xor_step a b,
  bit_xor_step b a,
  comm_fuel k (a / 2) (b / 2) (omega (arith, two-pow-suc k)) (omega (arith, two-pow-suc k)),
)

-- A width that fits both of two numbers, and a third.
lt-two-pow_of_le : (a k : ℕ) → a ≤ k → a < 2 ^ k
lt-two-pow_of_le a k h = omega (arith, lt-two-pow a, two-pow_mono a k h)

pub bit_xor_comm : (a b : ℕ) → bit_xor a b ≡ bit_xor b a
bit_xor_comm a b =
    comm_fuel (a + b) a b (lt-two-pow_of_le a (a + b) (omega arith))
      (lt-two-pow_of_le b (a + b) (omega arith))

pub bit_xor-zero : (a : ℕ) → bit_xor a 0 ≡ a
bit_xor-zero a = bit_xor_comm a 0 ∙ zero-bit_xor a

assoc_fuel :
    (k a b c : ℕ)
    → a < 2 ^ k
    → b < 2 ^ k
    → c < 2 ^ k
    → bit_xor (bit_xor a b) c ≡ bit_xor a (bit_xor b c)
assoc_fuel zero a b c p q r =
    let a0 : a ≡ 0 = omega arith in
    let b0 : b ≡ 0 = omega arith in let c0 : c ≡ 0 = omega arith in rw (a0, b0, c0)
assoc_fuel (suc k) a b c p q r =
    let ih =
      assoc_fuel k (a / 2) (b / 2) (c / 2) (omega (arith, two-pow-suc k))
        (omega (arith, two-pow-suc k)) (omega (arith, two-pow-suc k)) in
    let ab : bit_xor a b / 2 ≡ bit_xor (a / 2) (b / 2) = omega (arith, bit_xor_step a b) in
    let bc : bit_xor b c / 2 ≡ bit_xor (b / 2) (c / 2) = omega (arith, bit_xor_step b c) in
    rw (bit_xor_step (bit_xor a b) c, bit_xor_step a (bit_xor b c), ab, bc, ih)
      (omega (arith, bit_xor_step a b, bit_xor_step b c))

pub bit_xor_assoc : (a b c : ℕ) → bit_xor (bit_xor a b) c ≡ bit_xor a (bit_xor b c)
bit_xor_assoc a b c =
    let k = a + b + c in
    assoc_fuel k a b c (lt-two-pow_of_le a k (omega arith)) (lt-two-pow_of_le b k (omega arith))
      (lt-two-pow_of_le c k (omega arith))

-- `x ^ y ^ y` is `x`.
pub bit_xor_cancel : (a b : ℕ) → bit_xor (bit_xor a b) b ≡ a
bit_xor_cancel a b = rw (bit_xor_assoc a b b, bit_xor_self b) (bit_xor-zero a)

-- Fields that do not overlap: exclusive or is their sum.
pub bit_xor_fields : (k q r : ℕ) → r < 2 ^ k → bit_xor (q * 2 ^ k) r ≡ q * 2 ^ k + r
bit_xor_fields zero q r p =
    let r0 : r ≡ 0 = omega arith in rw r0 (omega (arith, bit_xor-zero (q * 2 ^ zero)))
bit_xor_fields (suc k) q r p =
    let ih = bit_xor_fields k q (r / 2) (omega (arith, two-pow-suc k)) in
    let twice : q * 2 ^ suc k ≡ 2 * (q * 2 ^ k) =
      omega (arith, ap (λ (t : ℕ). q * t) (two-pow-suc k)) in
    let half : q * 2 ^ suc k / 2 ≡ q * 2 ^ k = omega (arith, twice) in
    rw (bit_xor_step (q * 2 ^ suc k) r, half, ih) (omega (arith, twice))
