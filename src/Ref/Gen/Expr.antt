-- ===== src/Ref/Gen/Expr.antt =====
-- `_lit_val`, `_leaf`, `_u64_source`, `gen_expr` and `gen_cond` of tools/fuzz/mcref.py. They read
-- `self.scope` and draw, and change nothing else of the generator.
pub mod Typed
pub mod Conds
use modern_c.Prelude.{
  is_cons, ℕ, zero, suc, ◌+◌, ◌-◌, ◌*◌, ◌/◌, ◌^◌, Bool, true, false, not, ◌&&◌, ◌||◌, ltb, leb,
  ◌==◌, if◌then◌else◌, Option, none, some, List, [], ◌∷◌, ◌++◌, map, length,
}
use modern_c.Ref.Types.{
  RefType, Kind, plain, wrap, sat, Ident, width, kind, mask, same_type, uint, w8,
}
use modern_c.Ref.Scope.{Scope, type_of, vars_of, names_of}
use modern_c.Ref.Syntax.{
  Op, add, sub, mul, band, bor, bxor, CmpOp, lt, le, gt, ge, eq, ne, BoolOp, both, either, Source,
  fold_of, number, Expr, lit, var, wadd, bitwise, shr, conv, dom_bin, dom_shr, Cond, cmp, bool_bin,
}
use modern_c.Ref.Random.{Draw, ◌>>=◌, pure, lift, chance, chance_if, randrange, randint, choice}

abbrev pub corners : ℕ → List ℕ
corners m = 0 ∷ 1 ∷ 2 ∷ m ∷ (m - 1) ∷ (m / 2) ∷ (m / 2 + 1) ∷ []

pub lit_val : ℕ → Draw ℕ
lit_val w = do corner ← chance 40; if corner then choice (corners (mask w)) else randint (mask w)

pub leaf : Scope → RefType → Draw Expr
leaf s rt = do
  live ← chance_if (is_cons (vars_of s rt)) 60
  if live
      then (do n ← choice (vars_of s rt); pure (var n rt))
      else (do x ← lit_val (width rt); pure (lit x rt))

pub u64_source : Scope → Draw Source
u64_source s = do
  live ← chance_if (is_cons (names_of s)) 70
  if live
      then (do n ← choice (names_of s); rt ← lift (type_of s n); pure (fold_of n rt))
      else (do x ← randint (mask 64); pure (number x))

pub data Choice : Type 0 where
  leaf_choice wadd_choice bitwise_choice shr_choice conv_choice : Choice

pub gen_choice : Scope → RefType → Choice → Draw Expr
gen_choice s rt leaf_choice = leaf s rt
gen_choice s rt wadd_choice =
    if is_cons (vars_of s rt)
    then (do n ← choice (vars_of s rt); e ← leaf s rt; pure (wadd (var n rt) e rt))
    else leaf s rt
gen_choice s rt bitwise_choice = do
  op ← choice (band ∷ bor ∷ bxor ∷ [])
  a ← leaf s rt
  b ← leaf s rt
  pure (bitwise op a b rt)
gen_choice s rt shr_choice = do a ← leaf s rt; k ← randrange 0 (width rt); pure (shr a k rt)
gen_choice s rt conv_choice = do src ← u64_source s; pure (conv rt src)

abbrev pub is_wrap : Kind → Bool
is_wrap wrap = true
is_wrap _ = false

abbrev pub is_plain : Kind → Bool
is_plain plain = true
is_plain _ = false

abbrev pub domain_ops : Kind → List Op
domain_ops wrap = add ∷ sub ∷ mul ∷ band ∷ bor ∷ bxor ∷ []
domain_ops _ = add ∷ sub ∷ mul ∷ []

pub gen_domain : Scope → RefType → Draw Expr
gen_domain s rt = do
  two ← chance_if (leb 1 (length (vars_of s rt))) 60
  if two
      then (do
        op ← choice (domain_ops (kind rt))
        a ← choice (vars_of s rt)
        b ← choice (vars_of s rt)
        pure (dom_bin op (var a rt) (var b rt) rt))
      else (do
        shift ← chance_if (is_wrap (kind rt) && is_cons (vars_of s rt)) 30
        if shift
            then (do
              a ← choice (vars_of s rt)
              k ← randrange 0 (width rt)
              pure (dom_shr (var a rt) k rt))
            else leaf s rt)

pub gen_expr : Scope → RefType → Draw Expr
gen_expr s rt =
    if is_plain (kind rt)
    then (do
      c ← choice (leaf_choice ∷ wadd_choice ∷ bitwise_choice ∷ shr_choice ∷ conv_choice ∷ [])
      gen_choice s rt c)
    else gen_domain s rt

pub has_type : RefType → List RefType → Bool
has_type t [] = false
has_type t (u ∷ us) = same_type t u || has_type t us

pub dedup : List RefType → List RefType → List RefType
dedup seen [] = []
dedup seen (t ∷ ts) =
    let old = dedup seen ts in
    let new = t ∷ dedup (t ∷ seen) ts in if has_type t seen then old else new

-- `list(dict.fromkeys(self.scope.values()))`.
abbrev pub types_of : Scope → List RefType
types_of s = dedup [] (map (λ (n, t). t) s)

-- A list comprehension with a condition.
pub select {ℓ} : {A : Type ℓ} → (A → Bool) → List A → List A
select p [] = []
select p (x ∷ xs) = let rest = select p xs in if p x then x ∷ rest else rest

abbrev pub plain_cand : Scope → List RefType
plain_cand s = select (λ t. is_plain (kind t) && is_cons (vars_of s t)) (types_of s)

abbrev pub dom_cand : Scope → List RefType
dom_cand s = select (λ t. not (is_plain (kind t)) && leb 2 (length (vars_of s t))) (types_of s)

abbrev pub cmp_ops : List CmpOp
cmp_ops = lt ∷ le ∷ gt ∷ ge ∷ eq ∷ ne ∷ []

pub dom_cmp : Scope → Draw Cond
dom_cmp s = do
  rt ← choice (dom_cand s)
  a ← choice (vars_of s rt)
  b ← choice (vars_of s rt)
  op ← choice (if is_wrap (kind rt) then eq ∷ ne ∷ [] else cmp_ops)
  pure (cmp op (var a rt) (var b rt))

pub plain_cmp : Scope → Draw Cond
plain_cmp s = do
  rt ← choice (plain_cand s)
  a ← choice (vars_of s rt)
  two ← chance_if (leb 2 (length (vars_of s rt))) 50
  b ←
      if two
      then (do n ← choice (vars_of s rt); pure (var n rt))
      else (do x ← lit_val (width rt); pure (lit x rt))
  op ← choice cmp_ops
  pure (cmp op (var a rt) b)

-- `dom_cand and (not plain_cand or self.rng.random() < 0.4)`.
pub gen_use_dom : Scope → Draw Bool
gen_use_dom s =
    if is_cons (dom_cand s)
    then (if is_cons (plain_cand s) then chance 40 else pure true)
    else pure false

-- The comparison, with `1 == 1` where nothing is in scope that could be compared.
pub gen_cmp : Scope → Draw Cond
gen_cmp s = do
  use_dom ← gen_use_dom s
  if use_dom
      then dom_cmp s
      else if is_cons (plain_cand s)
      then plain_cmp s
      else pure (cmp eq (lit 1 (uint w8)) (lit 1 (uint w8)))

-- `gen_cond(d)` with `2 - d` levels left.
pub gen_cond : ℕ → Scope → Draw Cond
gen_cond zero s = gen_cmp s
gen_cond (suc left) s = do
  nest ← chance 25
  let nested = do
    op ← choice (both ∷ either ∷ [])
    a ← gen_cond left s
    b ← gen_cond left s
    pure (bool_bin op a b)
  if nest then nested else gen_cmp s
