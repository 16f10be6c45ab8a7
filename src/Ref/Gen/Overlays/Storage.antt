-- ===== src/Ref/Gen/Overlays/Storage.antt =====
-- The body that `gen_overlays` of tools/fuzz/mcref.py writes, run on little-endian bytes: an
-- independent account of the overlay, and the proof that the expected value is that run's.
use Prim.Native.Nat.{bit_xor}
use native.Mathlib.Nat.{div-div-eq-div-mul}
use modern_c.Prelude.{
  ℕ, zero, suc, ◌+◌, ◌*◌, ◌/◌, ◌%◌, ◌^◌, ◌<◌, ◌≡◌, refl, ap, ◌∙◌, arith, String, inl, inr, ◌==◌,
  if◌then◌else◌,
}
use modern_c.Prelude.Bits.{bit_and_mask, two-pow-pos, two-pow-add, mod-mul}
use modern_c.Ref.Layout.{new_overlay}
use modern_c.Ref.Gen.Overlays.{lane_at, fold_lanes, overlay_exp}
use modern_c.Ref.Gen.Overlays.Digest.{IsOverlay}

-- The bytes of the storage.
abbrev pub Storage : Type 0
Storage = ℕ → ℕ

-- `vv.u = u`: the bytes of the scalar, lowest first.
pub store_scalar : ℕ → Storage
store_scalar u k = u / 2 ^ (8 * k) % 256

-- `vv.u` over `n` bytes.
pub load_scalar : Storage → ℕ → ℕ
load_scalar m zero = 0
load_scalar m (suc k) = load_scalar m k + m k * 2 ^ (8 * k)

-- `vv.halves[i]` and its assignment: two bytes, the low one first.
pub load_half : Storage → ℕ → ℕ
load_half m i = m (2 * i) + m (2 * i + 1) * 256

pub store_half : Storage → ℕ → ℕ → Storage
store_half m i h k = if k == 2 * i then h % 256 else if k == 2 * i + 1 then h / 256 % 256 else m k

-- The xor of the first `n` elements of a view into the accumulator.
pub xor_view : (ℕ → ℕ) → ℕ → ℕ → ℕ → ℕ → ℕ
xor_view read lane per zero acc = acc
xor_view read lane per (suc k) acc =
    bit_xor (xor_view read lane per k acc) (read k * 2 ^ (k % per * lane))

-- The body's lines in order: write the scalar, read every view, write a half and read it back.
pub run_body : ℕ → ℕ → ℕ → ℕ → ℕ
run_body w u i h =
    let m = store_scalar u in
    let acc = load_scalar m (w / 8) in
    let acc = xor_view m 8 8 (w / 8) acc in
    let acc = xor_view (load_half m) 16 4 (w / 16) acc in
    let m = store_half m i h in
    bit_xor (bit_xor acc (load_half m i * 2 ^ 3)) (w / 8 * 2 ^ 4) % 2 ^ 64

load_scalar_lem : (u n : ℕ) → load_scalar (store_scalar u) n ≡ u % 2 ^ (8 * n)
unfolding load_scalar store_scalar
load_scalar_lem u zero = let e : 8 * 0 ≡ 0 = omega arith in rw e (omega arith)
load_scalar_lem u (suc k) =
    let split : 2 ^ (8 * suc k) ≡ 2 ^ (8 * k) * 256 =
      ap (λ (t : ℕ). 2 ^ t) (omega arith) ∙ two-pow-add (8 * k) 8 in
    rw (load_scalar_lem u k, split, mod-mul u (2 ^ (8 * k)) 256 (two-pow-pos (8 * k)) (omega arith))
      (omega arith)

-- A byte and a half are lanes of the scalar.
byte_lane : (u k : ℕ) → store_scalar u k ≡ lane_at 8 u k
unfolding store_scalar lane_at
byte_lane u k = rw (bit_and_mask 8 (u / 2 ^ (8 * k)))

half_lane : (u k : ℕ) → load_half (store_scalar u) k ≡ lane_at 16 u k
unfolding load_half store_scalar lane_at
half_lane u k =
    let low : 8 * (2 * k) ≡ 16 * k = omega arith in
    let high : 2 ^ (8 * (2 * k + 1)) ≡ 2 ^ (16 * k) * 256 =
      ap (λ (t : ℕ). 2 ^ t) (omega arith) ∙ two-pow-add (16 * k) 8 in
    rw (low, high, bit_and_mask 16 (u / 2 ^ (16 * k)), ← div-div-eq-div-mul u (2 ^ (16 * k)) 256)
      (omega arith)

xor_view-eq-fold_lanes :
    (read : ℕ → ℕ) (lane per u n acc : ℕ)
    → ((k : ℕ) → read k ≡ lane_at lane u k)
    → xor_view read lane per n acc ≡ fold_lanes lane per u n acc
unfolding xor_view fold_lanes
xor_view-eq-fold_lanes read lane per u zero acc h = refl
xor_view-eq-fold_lanes read lane per u (suc k) acc h =
    rw (xor_view-eq-fold_lanes read lane per u k acc h, h k)

-- A half that was written is read back.
pub load_half-store_half : (m : Storage) (i h : ℕ) → h < 2 ^ 16 → load_half (store_half m i h) i ≡ h
unfolding load_half store_half
load_half-store_half m i h lt = ground arith

-- For a scalar of an overlay width that lies in the generator's range and a half below 2 ^ 16, the
-- expected value computed by shifts is what the emitted body computes on the bytes of the storage:
-- store the scalar, read the scalar, bytes and halves, overwrite half `i`, read it back, add the size.
pub overlay_exp-eq-run_body :
    (name : String) (w u i h : ℕ)
    → IsOverlay w u
    → h < 2 ^ 16
    → overlay_exp (new_overlay name w) u h ≡ run_body w u i h
unfolding overlay_exp new_overlay run_body
overlay_exp-eq-run_body name w u i h (width, lt) lh = rw (
  load_half-store_half (store_scalar u) i h lh,
  load_scalar_lem u (w / 8),
  xor_view-eq-fold_lanes (store_scalar u) 8 8 u (w / 8) (u % 2 ^ (8 * (w / 8))) (byte_lane u),
  xor_view-eq-fold_lanes (load_half (store_scalar u)) 16 4 u (w / 16)
      (fold_lanes 8 8 u (w / 8) (u % 2 ^ (8 * (w / 8)))) (half_lane u),
  bit_and_mask 64 u,
  fits,
  bit_and_mask,
)
  where
    fits : u % 2 ^ (8 * (w / 8)) ≡ u % 2 ^ 64
    fits = elim width [
      | inl e ↦ let small : u < 2 ^ 32 = rw e at lt in rw e (omega arith)
      | inr e ↦ rw e
    ]
