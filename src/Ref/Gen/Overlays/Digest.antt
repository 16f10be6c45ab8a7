-- ===== src/Ref/Gen/Overlays/Digest.antt =====
-- The digest of an overlay: the views reassemble the scalar, so they cancel in pairs.
use Prim.Native.Nat.{bit_xor}
use native.Mathlib.Nat.{mod-lt, mod-eq_of_lt, mul_comm}
use modern_c.Prelude.{
  ℕ, zero, suc, ◌*◌, ◌/◌, ◌%◌, ◌^◌, ◌<◌, ◌≤◌, ◌≡◌, arith, String, ◌⊎◌, inl, inr, ap, ◌∙◌, sym,
}
use modern_c.Prelude.Bits.{
  bit_and_mask, bit_xor_fields, bit_xor_comm, bit_xor_assoc, bit_xor-zero, two-pow-pos, two-pow-add,
  bit_xor_cancel, mod-mul,
}
use modern_c.Ref.Layout.{new_overlay}
use modern_c.Ref.Gen.Overlays.{lane_at, fold_lanes, overlay_exp}

-- Lane `k` with the lanes below it.
lane_step :
    (lane u k : ℕ)
    → bit_xor (u % 2 ^ (lane * k)) (lane_at lane u k * 2 ^ (k * lane)) ≡ u % 2 ^ (lane * suc k)
unfolding lane_at
lane_step lane u k =
    let a : ℕ = 2 ^ (lane * k) in
    let split : 2 ^ (lane * suc k) ≡ a * 2 ^ lane =
      ap (λ (t : ℕ). 2 ^ t) (omega arith) ∙ two-pow-add (lane * k) lane in
    let small = mod-lt u (two-pow-pos (lane * k)) in
    rw (
      bit_and_mask lane (u / 2 ^ (lane * k)),
      mul_comm k lane,
      bit_xor_comm (u % a) (u / a % 2 ^ lane * a),
      bit_xor_fields (lane * k) (u / a % 2 ^ lane) (u % a) small,
      split,
      mod-mul u a (2 ^ lane) (two-pow-pos (lane * k)) (two-pow-pos lane),
    )

-- The first `n` lanes, each at its place, make the low bits of the scalar.
pub fold_lanes_lem :
    (lane per u n exp : ℕ)
    → n ≤ per
    → fold_lanes lane per u n exp ≡ bit_xor exp (u % 2 ^ (lane * n))
unfolding fold_lanes
fold_lanes_lem lane per u zero exp h =
    let nothing : lane * 0 ≡ 0 = omega arith in
    let none_left : u % 2 ^ 0 ≡ 0 = omega arith in rw (nothing, none_left) (sym (bit_xor-zero exp))
fold_lanes_lem lane per u (suc k) exp h = rw (
  fold_lanes_lem lane per u k exp (omega arith),
  mod-eq_of_lt h,
  bit_xor_assoc,
  lane_step lane u k,
)

-- The two widths that are drawn, and a scalar that fits the width.
abbrev pub IsOverlay : ℕ → ℕ → Type 0
IsOverlay w u = ((w ≡ 32) ⊎ (w ≡ 64)) × (u < 2 ^ w)

-- The byte views and the half views cancel, so the expected value is the scalar with the half that
-- was written and the size.
pub overlay_exp_lem :
    (name : String) (w u h : ℕ)
    → IsOverlay w u
    → overlay_exp (new_overlay name w) u h ≡ bit_xor (bit_xor u (h * 8)) (w / 8 * 16) % 2 ^ 64
unfolding overlay_exp new_overlay
overlay_exp_lem name w u h (inl e, lt) =
    let fits : u < 2 ^ 32 = rw e at lt in
    rw
      (
        e,
        bit_and_mask 64 u,
        fold_lanes_lem 8 8 u 4 (u % 2 ^ 64) (omega arith),
        fold_lanes_lem 16 4 u 2 (bit_xor (u % 2 ^ 64) (u % 2 ^ 32)) (omega arith),
        bit_xor_cancel (u % 2 ^ 64) (u % 2 ^ 32),
        bit_and_mask,
      )
      (ap (λ (t : ℕ). bit_xor (bit_xor t (h * 8)) 64 % 2 ^ 64) (omega arith))
overlay_exp_lem name w u h (inr e, lt) =
    let fits : u < 2 ^ 64 = rw e at lt in
    rw
      (
        e,
        bit_and_mask 64 u,
        fold_lanes_lem 8 8 u 8 (u % 2 ^ 64) (omega arith),
        fold_lanes_lem 16 4 u 4 (bit_xor (u % 2 ^ 64) (u % 2 ^ 64)) (omega arith),
        bit_xor_cancel (u % 2 ^ 64) (u % 2 ^ 64),
        bit_and_mask,
      )
      (ap (λ (t : ℕ). bit_xor (bit_xor t (h * 8)) 128 % 2 ^ 64) (omega arith))
