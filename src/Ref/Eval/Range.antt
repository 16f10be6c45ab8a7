-- ===== src/Ref/Eval/Range.antt =====
-- Expressions of the discipline of `Ref.Typing` evaluate, to a value of their type.
use Prim.Native.Nat.{bit_and, bit_or, bit_xor}
use native.Mathlib.Nat.{mod-lt}
use modern_c.Prelude.{
  ℕ, ◌+◌, ◌-◌, ◌*◌, ◌/◌, ◌%◌, ◌^◌, ◌<◌, ◌≤◌, ◌≡◌, refl, arith, Bool, true, false, Bool-cases, inl,
  inr, if◌then◌else◌, Option, some,
}
use modern_c.Prelude.Bits.{bit_and-le, bit_and_mask, bit_or-lt, bit_xor-lt, two-pow-pos}
use modern_c.Ref.Types.{RefType, Ident, Kind, wrap, width, kind, mask, same_name}
use modern_c.Ref.Scope.{Scope, type_of, declare, type_of-declare, same_name_iff}
use modern_c.Ref.Syntax.{
  Op, add, sub, mul, band, bor, bxor, Source, fold_of, number, Expr, lit, var, wadd, bitwise, shr,
  conv, dom_bin, dom_shr, Cond, cmp, bool_bin, both, either,
}
use modern_c.Ref.Typing.{IsBitOp, SourceIn, HasType, CondIn}
use modern_c.Ref.Eval.{
  Env, store, bitwise_op, wrap_op, sat_op, dom_op, source_val, eval_expr, cmp_op, eval_cond,
}

-- A result below a bound: neither a missing key nor a value out of range.
abbrev pub Below : ℕ → Option ℕ → Type 0
Below m r = (x : ℕ) × (r ≡ some x) × (x < m)

-- Every declared name is bound to a value of its type.
abbrev pub Fits : Scope → Env → Type 0
Fits s env = (n : Ident) (rt : RefType) → type_of s n ≡ some rt → Below (2 ^ width rt) (env n)

pub bit_and-mask-lt : (w x : ℕ) → bit_and x (mask w) < 2 ^ w
bit_and-mask-lt w x = rw bit_and_mask (mod-lt x (two-pow-pos w))

pub bitwise_op-Below :
    (op : Op) (w x y : ℕ) → IsBitOp op → x < 2 ^ w → y < 2 ^ w → Below (2 ^ w) (bitwise_op op x y)
unfolding bitwise_op
bitwise_op-Below band w x y h p q = (bit_and x y, refl, omega (arith, bit_and-le x y))
bitwise_op-Below bor w x y h p q = (bit_or x y, refl, bit_or-lt w x y p q)
bitwise_op-Below bxor w x y h p q = (bit_xor x y, refl, bit_xor-lt w x y p q)
bitwise_op-Below _ w x y h p q = absurd h

pub wrap_op-lt : (op : Op) (w x y : ℕ) → x < 2 ^ w → y < 2 ^ w → wrap_op op w x y < 2 ^ w
unfolding wrap_op
wrap_op-lt add w x y p q = bit_and-mask-lt w (x + y)
wrap_op-lt sub w x y p q =
    ground (arith, bit_and-mask-lt w (x - y), mod-lt (2 ^ w - (y - x) % 2 ^ w) (two-pow-pos w))
wrap_op-lt mul w x y p q = bit_and-mask-lt w (x * y)
wrap_op-lt band w x y p q = omega (arith, bit_and-le x y)
wrap_op-lt bor w x y p q = bit_or-lt w x y p q
wrap_op-lt bxor w x y p q = bit_xor-lt w x y p q

pub sat_op-lt : (op : Op) (w x y : ℕ) → x < 2 ^ w → y < 2 ^ w → sat_op op w x y < 2 ^ w
unfolding sat_op
sat_op-lt add w x y p q = omega (arith, two-pow-pos w)
sat_op-lt sub w x y p q = omega arith
sat_op-lt _ w x y p q = omega (arith, two-pow-pos w)

pub dom_op-lt : (k : Kind) (op : Op) (w x y : ℕ) → x < 2 ^ w → y < 2 ^ w → dom_op k op w x y < 2 ^ w
unfolding dom_op
dom_op-lt wrap op w x y p q = wrap_op-lt op w x y p q
dom_op-lt _ op w x y p q = sat_op-lt op w x y p q

pub shr-lt : (m x k : ℕ) → x < m → x / 2 ^ k < m
shr-lt m x k p = omega (arith, div-le x (2 ^ k))
  where
    div-le : (n d : ℕ) → n / d ≤ n
    div-le n d = native.Mathlib.Nat.div-le_self n d

width_le : (rt : RefType) → width rt ≤ 64
width_le rt = ground arith

module _ (s : Scope) (env : Env) (fits : Fits s env) where
  pub source_val-Below : (src : Source) → SourceIn s src → (x : ℕ) × (source_val src env ≡ some x)
  unfolding source_val
  source_val-Below (fold_of n t) h = let (x, p, b) = fits n t h in (x, p)
  source_val-Below (number x) h = (x, refl)

  -- In an environment where every variable of the scope has a value of its type, an expression that
  -- has type `rt` in the scope evaluates, without a missing key, to a value below 2 ^ width rt.
  pub eval_expr-Below :
      (e : Expr) (rt : RefType) → HasType s rt e → Below (2 ^ width rt) (eval_expr e env)
  unfolding eval_expr
  eval_expr-Below (lit x t) rt h = (x, refl, h.1)
  eval_expr-Below (var n t) rt h = fits n rt h.1
  eval_expr-Below (wadd a b t) rt h =
      let (x, p, bx) = eval_expr-Below a rt h.2 in
      let (y, q, by) = eval_expr-Below b rt h.3 in
      (bit_and (x + y) (mask (width rt)), rw (p, q, h.0), bit_and-mask-lt (width rt) (x + y))
  eval_expr-Below (bitwise op a b t) rt h =
      let (x, p, bx) = eval_expr-Below a rt h.3 in
      let (y, q, by) = eval_expr-Below b rt h.4 in
      let (z, r, bz) = bitwise_op-Below op (width rt) x y h.2 bx by in (z, rw (p, q) r, bz)
  eval_expr-Below (shr a k t) rt h =
      let (x, p, bx) = eval_expr-Below a rt h.3 in (x / 2 ^ k, rw p, shr-lt (2 ^ width rt) x k bx)
  eval_expr-Below (conv t src) rt h =
      let (x, p) = source_val-Below src h.2 in
      (bit_and x (mask (width rt)), rw (p, h.0), bit_and-mask-lt (width rt) x)
  eval_expr-Below (dom_bin op a b t) rt h =
      let (x, p, bx) = eval_expr-Below a rt h.2 in
      let (y, q, by) = eval_expr-Below b rt h.3 in
      (
        dom_op (kind rt) op (width rt) x y,
        rw (p, q, h.0),
        dom_op-lt (kind rt) op (width rt) x y bx by,
      )
  eval_expr-Below (dom_shr a k t) rt h =
      let (x, p, bx) = eval_expr-Below a rt h.3 in (x / 2 ^ k, rw p, shr-lt (2 ^ width rt) x k bx)

  pub eval_cond-total : (c : Cond) → CondIn s c → (b : Bool) × (eval_cond c env ≡ some b)
  unfolding eval_cond
  eval_cond-total (cmp op a b) (rt, _, ha, hb) =
      let (x, p, _) = eval_expr-Below a rt ha in
      let (y, q, _) = eval_expr-Below b rt hb in (cmp_op op x y, rw (p, q))
  eval_cond-total (bool_bin both a b) (ha, hb) =
      let (x, p) = eval_cond-total a ha in
      let (y, q) = eval_cond-total b hb in (if x then y else false, rw (p, q) (ground arith))
  eval_cond-total (bool_bin either a b) (ha, hb) =
      let (x, p) = eval_cond-total a ha in
      let (y, q) = eval_cond-total b hb in (if x then true else y, rw (p, q) (ground arith))

  -- A variable assigned a value of its type still fits.
  pub Fits-store :
      (n : Ident) (rt : RefType) (x : ℕ)
      → type_of s n ≡ some rt
      → x < 2 ^ width rt
      → Fits s (store env n x)
  Fits-store n rt x h b m t k = elim (Bool-cases (same_name n m)) [
    | inl e ↦
        let nm = (same_name_iff n m).0 e in
        let same : some rt ≡ some t = rw (← h, nm) k in (x, rw e, ground arith)
    | inr e ↦ rw e (fits m t k)
  ]

  pub Fits-declare :
      (n : Ident) (rt : RefType) (x : ℕ) → x < 2 ^ width rt → Fits (declare s n rt) (store env n x)
  Fits-declare n rt x b m t k = elim (Bool-cases (same_name n m)) [
    | inl e ↦ let same : some rt ≡ some t = rw (type_of-declare, e) at k in (x, rw e, ground arith)
    | inr e ↦ rw e (fits m t (rw (type_of-declare, e) at k))
  ]
