-- ===== src/Ref/Gen/Overlays.antt =====
-- `gen_overlays` of tools/fuzz/mcref.py: an overlay union is written and read back through its
-- views. The expected digest is folded beside the lines of the body.
pub mod Digest
pub mod Storage
use Prim.Native.Nat.{bit_and, bit_xor}
use modern_c.Prelude.{
  ℕ, zero, suc, ◌+◌, ◌-◌, ◌*◌, ◌/◌, ◌%◌, ◌^◌, min, String, List, [], ◌∷◌, ◌++◌, cat, decimal,
}
use modern_c.Ref.Types.{mask}
use modern_c.Ref.Layout.{OverlayUnion, new_overlay, overlay_decl}
use modern_c.Ref.Random.{Draw, ◌>>=◌, pure, randrange, choice}
use modern_c.Ref.Gen.State.{RefGen}
use modern_c.Ref.Gen.Offsets.{times}

-- Lane `k` of the scalar: `(uval >> (lane * k)) & ((1 << lane) - 1)`.
pub lane_at : ℕ → ℕ → ℕ → ℕ
lane_at lane u k = bit_and (u / 2 ^ (lane * k)) (mask lane)

-- `for k in range(n): exp ^= (lanes[k] << ((k % per) * lane))`.
pub fold_lanes : ℕ → ℕ → ℕ → ℕ → ℕ → ℕ
fold_lanes lane per u zero exp = exp
fold_lanes lane per u (suc k) exp =
    bit_xor (fold_lanes lane per u k exp) (lane_at lane u k * 2 ^ (k % per * lane))

-- The expected value of one overlay: the scalar, its bytes, its halves, the half that is written
-- and read back, and the storage size.
pub overlay_exp : OverlayUnion → ℕ → ℕ → ℕ
overlay_exp o uval hval =
    let scalar = bit_and uval (mask 64) in
    let bytes = fold_lanes 8 8 uval o.nbytes scalar in
    let halves = fold_lanes 16 4 uval o.nhalves bytes in
    bit_and (bit_xor (bit_xor halves (hval * 2 ^ 3)) (o.nbytes * 2 ^ 4)) (mask 64)

-- `    acc = (acc ^ ((TERM as u64) << shift));`
pub xor_line : String → String → ℕ → String
xor_line acc term shift =
    cat ("    " ∷ acc ∷ " = (" ∷ acc ∷ " ^ ((" ∷ term ∷ " as u64) << " ∷ decimal shift ∷ "));" ∷ [])

-- The reads of the first `n` elements of a view.
pub lane_lines : String → String → String → ℕ → ℕ → ℕ → List String
lane_lines acc vn view lane per zero = []
lane_lines acc vn view lane per (suc k) =
    lane_lines acc vn view lane per k
    ++ xor_line acc (cat (vn ∷ "." ∷ view ∷ "[" ∷ decimal k ∷ "]" ∷ [])) (k % per * lane) ∷ []

pub overlay_lines : OverlayUnion → String → String → ℕ → ℕ → ℕ → List String
overlay_lines o vn acc uval hidx hval =
    (cat ("    var " ∷ vn ∷ ": " ∷ o.name ∷ " = uninit;" ∷ [])
      ∷ cat ("    " ∷ vn ∷ ".u = " ∷ decimal uval ∷ ";" ∷ [])
      ∷ cat ("    var " ∷ acc ∷ ": u64 = (" ∷ vn ∷ ".u as u64);" ∷ [])
      ∷ [])
    ++ (lane_lines acc vn "bytes" 8 8 o.nbytes
        ++ (lane_lines acc vn "halves" 16 4 o.nhalves
            ++ (cat ("    " ∷ vn ∷ ".halves[" ∷ decimal hidx ∷ "] = " ∷ decimal hval ∷ ";" ∷ [])
                ∷ xor_line acc (cat (vn ∷ ".halves[" ∷ decimal hidx ∷ "]" ∷ [])) 3
                ∷ xor_line acc (cat ("sizeof(" ∷ o.name ∷ ")" ∷ [])) 4
                ∷ [])))

unfoldable pub gen_overlay : RefGen → Draw RefGen
gen_overlay g = do
  let name = cat ("OV" ∷ decimal g.n ∷ [])
  w ← choice (32 ∷ 64 ∷ [])
  let o = new_overlay name w
  uval ← randrange 1 (2 ^ min w 32)
  let vn = cat ("ovv_" ∷ name ∷ [])
  let acc = cat ("ovo_" ∷ name ∷ [])
  hidx ← randrange 0 o.nhalves
  hval ← randrange 1 (2 ^ 16)
  pure (record g {
    n = g.n + 1;
    pre_decls = g.pre_decls ++ overlay_decl o ∷ [];
    extra_body = g.extra_body ++ overlay_lines o vn acc uval hidx hval;
    extra_terms = g.extra_terms ++ (acc, overlay_exp o uval hval) ∷ [];
  })

unfoldable pub gen_overlays : RefGen → Draw RefGen
gen_overlays g = do k ← randrange 1 3; times k gen_overlay g
