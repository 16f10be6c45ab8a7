-- ===== src/Ref/Gen/Expr/Conds.antt =====
-- On every tape `gen_cond` returns a well-typed condition.
use modern_c.Prelude.{
  split_and, is_cons, ℕ, zero, suc, ◌≡◌, refl, arith, Bool, true, false, leb, if◌then◌else◌, List,
  [], ◌∷◌, length, All, All-imp, inl, inr, Bool-cases,
}
use modern_c.Ref.Types.{RefType, Kind, plain, wrap, sat, kind, width, w8}
use modern_c.Ref.Scope.Distinct.{Distinct}
use modern_c.Ref.Scope.{Scope, vars_of}
use modern_c.Ref.Syntax.{eq, ne, both, either, var, lit}
use modern_c.Ref.Typing.{HasCmp, HasType, CondIn}
use modern_c.Ref.Random.{◌>>=◌, pure, choice}
use modern_c.Ref.Random.Rules.{
  Draws, Draws-pure, Draws-if, Draws-bind, Draws-map, Draws-chance, Draws-chance_if, Draws-choice,
}
use modern_c.Ref.Gen.Expr.{
  is_wrap, is_plain, types_of, select, plain_cand, dom_cand, cmp_ops, dom_cmp, plain_cmp,
  gen_use_dom, gen_cmp, gen_cond, lit_val,
}
use modern_c.Ref.Gen.Expr.Typed.{lit_val-lt, var-HasType, width-ge}

select-All {ℓ} : {A : Type ℓ} (p : A → Bool) (xs : List A) → All (λ x. p x ≡ true) (select p xs)
unfolding select
select-All p [] = tt
select-All p (x ∷ xs) = elim (Bool-cases (p x)) [
  | inl e ↦ rw e (e, select-All p xs)
  | inr e ↦ rw e (select-All p xs)
]

is_cons_of_length : {A : Type 0} (xs : List A) → leb 2 (length xs) ≡ true → is_cons xs ≡ true
is_cons_of_length [] h = cc
is_cons_of_length (x ∷ xs) h = refl

module _ (s : Scope) (d : Distinct s) where
  -- The operators that `dom_cmp` may choose from: a `wrap` value has equality only.
  cmp_ops-HasCmp :
      (k : Kind) → Draws (HasCmp k) (choice (if is_wrap k then eq ∷ ne ∷ [] else cmp_ops))
  cmp_ops-HasCmp wrap = Draws-choice (HasCmp wrap) _ refl (inl refl, (inr refl, tt))
  cmp_ops-HasCmp plain = Draws-choice (HasCmp plain) cmp_ops refl (omega arith)
  cmp_ops-HasCmp sat = Draws-choice (HasCmp sat) cmp_ops refl (omega arith)

  dom_cmp-CondIn : is_cons (dom_cand s) ≡ true → Draws (CondIn s) (dom_cmp s)
  unfolding dom_cmp
  dom_cmp-CondIn h =
      Draws-bind (λ rt. is_cons (vars_of s rt) ≡ true) (CondIn s) _ _
        (Draws-choice _ (dom_cand s) h (
          All-imp _ _ (dom_cand s) (λ rt e. is_cons_of_length (vars_of s rt) (split_and e).1)
            (select-All _ (types_of s))))
        λ rt live. Draws-bind _ (CondIn s) _ _ (var-HasType s d rt live) λ a ha.
          Draws-bind _ (CondIn s) _ _ (var-HasType s d rt live) λ b hb.
            Draws-bind _ (CondIn s) _ _ (cmp_ops-HasCmp (kind rt))
              λ op hop. Draws-pure (CondIn s) _ (rt, hop, ha, hb)

  plain_cmp-CondIn : is_cons (plain_cand s) ≡ true → Draws (CondIn s) (plain_cmp s)
  unfolding plain_cmp
  plain_cmp-CondIn h =
      Draws-bind (λ rt. (is_plain (kind rt) ≡ true) × (is_cons (vars_of s rt) ≡ true)) (CondIn s) _
        _
        (Draws-choice _ (plain_cand s) h
          (All-imp _ _ (plain_cand s) (λ rt e. split_and e) (select-All _ (types_of s))))
        λ rt (p, live). Draws-bind _ (CondIn s) _ _ (var-HasType s d rt live) λ a ha.
          Draws-bind _ (CondIn s) _ _ (Draws-chance_if (leb 2 (length (vars_of s rt))) 50) λ two _.
            Draws-bind (HasType s rt) (CondIn s) _ _ (other rt live two) λ b hb.
              Draws-bind (HasCmp (kind rt)) (CondIn s) _ _ (ops (kind rt) p)
                λ op hop. Draws-pure (CondIn s) _ (rt, hop, ha, hb)
    where
      ops : (k : Kind) → is_plain k ≡ true → Draws (HasCmp k) (choice cmp_ops)
      ops plain h = Draws-choice (HasCmp plain) cmp_ops refl (omega arith)
      ops wrap h = cc
      ops sat h = cc

      other :
          (rt : RefType)
          → is_cons (vars_of s rt) ≡ true
          → (two : Bool)
          → Draws (HasType s rt) (
              if two
              then (do n ← choice (vars_of s rt); pure (var n rt))
              else (do x ← lit_val (width rt); pure (lit x rt)))
      other rt live true =
          Draws-bind _ (HasType s rt) _ _ (var-HasType s d rt live) λ n h. Draws-pure _ _ h
      other rt live false =
          Draws-bind _ (HasType s rt) _ _ (lit_val-lt (width rt) (width-ge rt))
            λ x h. Draws-pure (HasType s rt) _ (refl, h)

  gen_use_dom_lem : Draws (λ b. (b ≡ true → is_cons (dom_cand s) ≡ true)) (gen_use_dom s)
  unfolding gen_use_dom
  gen_use_dom_lem =
      Draws-if _ (is_cons (dom_cand s)) _ _
        (λ e.
          Draws-if _ (is_cons (plain_cand s)) _ _
            (λ _. Draws-map (λ _. Unit {0}) _ _ (λ b _ _. e) (Draws-chance 40))
            (λ _. Draws-pure _ _ (λ _. e)))
        (λ _. Draws-pure _ _ (λ h. absurd (false-ne-true h)))
    where
      false-ne-true : false ≡ true → ⊥
      false-ne-true h = cc

  gen_cmp-CondIn : Draws (CondIn s) (gen_cmp s)
  unfolding gen_cmp
  gen_cmp-CondIn = Draws-bind _ (CondIn s) _ _ gen_use_dom_lem λ use_dom live.
      Draws-if _ use_dom _ _ (λ e. dom_cmp-CondIn (live e))
        (λ _. Draws-if _ (is_cons (plain_cand s)) _ _ plain_cmp-CondIn (λ _.
          Draws-pure (CondIn s) _ (RefType.uint w8, tt, (refl, omega arith), (refl, omega arith))))

  -- Every condition is well typed, whatever the depth left.
  pub gen_cond-CondIn : (left : ℕ) → Draws (CondIn s) (gen_cond left s)
  unfolding gen_cond
  gen_cond-CondIn zero = gen_cmp-CondIn
  gen_cond-CondIn (suc left) =
      Draws-bind (λ _. Unit {0}) (CondIn s) _ _ (Draws-chance 25)
        λ nest _.
          Draws-if _ nest _ _
            (λ _.
              Draws-bind (λ _. Unit {0}) (CondIn s) _ _
                (Draws-choice _ (both ∷ either ∷ []) refl (omega arith))
                λ op _. Draws-bind _ (CondIn s) _ _ (gen_cond-CondIn left) λ a ha.
                  Draws-bind _ (CondIn s) _ _ (gen_cond-CondIn left)
                    λ b hb. Draws-pure (CondIn s) _ (ha, hb))
            (λ _. gen_cmp-CondIn)
