-- ===== src/Ref/Gen/Expr/Typed.antt =====
-- On every tape the expression and condition generators return, and what they return is well typed.
use modern_c.Prelude.{
  split_and, is_cons, ℕ, ◌^◌, ◌<◌, ◌≤◌, ◌≡◌, refl, arith, true, false, ◌&&◌, leb, some, List, [],
  ◌∷◌, length, All, inl, inr,
}
use modern_c.Prelude.Bits.{two-pow_mono}
use modern_c.Ref.Types.{RefType, Kind, plain, wrap, sat, width, kind, mask}
use modern_c.Ref.Scope.Distinct.{Distinct, vars_of-All, names_of-All}
use modern_c.Ref.Scope.{names_of, Scope, type_of, vars_of}
use modern_c.Ref.Syntax.{var}
use modern_c.Ref.Typing.{IsBitOp, HasOp, SourceIn, HasType}
use modern_c.Ref.Random.{chance, randint, choice}
use modern_c.Ref.Random.Rules.{
  Draws, Draws-pure, Draws-if, Draws-bind, Draws-chance, Draws-chance_if, Draws-randrange,
  Draws-randint, Draws-choice, Draws-map,
}
use modern_c.Ref.Gen.Expr.{
  lit_val, leaf, u64_source, gen_choice, leaf_choice, wadd_choice, bitwise_choice, shr_choice,
  conv_choice, Choice, is_wrap, is_plain, domain_ops, gen_domain, gen_expr,
}

pub lit_val-lt : (w : ℕ) → 8 ≤ w → Draws (λ x. x < 2 ^ w) (lit_val w)
unfolding lit_val
lit_val-lt w h =
    let big = two-pow_mono 8 w h in
    Draws-bind (λ _. Unit {0}) (λ x. x < 2 ^ w) (chance 40) _ (Draws-chance 40)
      λ b _.
        Draws-if _ b _ _ (λ _. Draws-choice _ _ refl (omega (arith, big))) (λ _. randint_lt big)
  where
    randint_lt : 256 ≤ 2 ^ w → Draws (λ x. x < 2 ^ w) (randint (mask w))
    randint_lt big =
        Draws-map _ _ (randint (mask w)) (λ x le. omega (arith, big)) (Draws-randint (mask w))

pub width-ge : (rt : RefType) → 8 ≤ width rt
width-ge rt = ground arith

module _ (s : Scope) (d : Distinct s) where
  pub leaf-HasType : (rt : RefType) → Draws (HasType s rt) (leaf s rt)
  unfolding leaf
  leaf-HasType rt =
      Draws-bind _ (HasType s rt) _ _ (Draws-chance_if (is_cons (vars_of s rt)) 60) λ b live.
        Draws-if _ b _ _
          (λ e.
            Draws-bind (λ n. type_of s n ≡ some rt) (HasType s rt) _ _
              (Draws-choice _ (vars_of s rt) (live e) (vars_of-All s rt d))
              λ n h. Draws-pure (HasType s rt) _ (refl, h))
          (λ _.
            Draws-bind (λ x. x < 2 ^ width rt) (HasType s rt) _ _
              (lit_val-lt (width rt) (width-ge rt)) λ x h. Draws-pure (HasType s rt) _ (refl, h))

  -- A variable of the type, which `live` says there is.
  pub var-HasType :
      (rt : RefType)
      → is_cons (vars_of s rt) ≡ true
      → Draws (λ n. HasType s rt (var n rt)) (choice (vars_of s rt))
  var-HasType rt live =
      Draws-map _ _ _ (λ n h. (refl, h)) (Draws-choice _ (vars_of s rt) live (vars_of-All s rt d))

  pub u64_source-SourceIn : Draws (SourceIn s) (u64_source s)
  unfolding u64_source
  u64_source-SourceIn =
      Draws-bind _ (SourceIn s) _ _ (Draws-chance_if (is_cons (names_of s)) 70) λ b live.
        Draws-if _ b _ _
          (λ e.
            Draws-bind (λ n. (rt : RefType) × (type_of s n ≡ some rt)) (SourceIn s) _ _
              (Draws-choice _ (names_of s) (live e) (names_of-All s d))
              λ n (rt, h). record { on = λ r. rw h h })
          (λ _.
            Draws-bind (λ x. x ≤ mask 64) (SourceIn s) _ _ (Draws-randint (mask 64))
              λ x h. Draws-pure (SourceIn s) _ (omega arith))

  gen_choice-HasType :
      (rt : RefType) (c : Choice) → kind rt ≡ plain → Draws (HasType s rt) (gen_choice s rt c)
  unfolding gen_choice
  gen_choice-HasType rt leaf_choice k = leaf-HasType rt
  gen_choice-HasType rt wadd_choice k =
      Draws-if _ (is_cons (vars_of s rt)) _ _
        (λ live. Draws-bind _ (HasType s rt) _ _ (var-HasType rt live) λ n hn.
          Draws-bind _ (HasType s rt) _ _ (leaf-HasType rt)
            λ e he. Draws-pure (HasType s rt) _ (refl, k, hn, he))
        (λ _. leaf-HasType rt)
  gen_choice-HasType rt bitwise_choice k =
      Draws-bind IsBitOp (HasType s rt) _ _ (Draws-choice _ _ refl (omega arith)) λ op hop.
        Draws-bind _ (HasType s rt) _ _ (leaf-HasType rt) λ a ha.
          Draws-bind _ (HasType s rt) _ _ (leaf-HasType rt)
            λ b hb. Draws-pure (HasType s rt) _ (refl, k, hop, ha, hb)
  gen_choice-HasType rt shr_choice k = Draws-bind _ (HasType s rt) _ _ (leaf-HasType rt) λ a ha.
      Draws-bind _ (HasType s rt) _ _ (Draws-randrange 0 (width rt) (omega (arith, width-ge rt)))
        λ n hn. Draws-pure (HasType s rt) _ (refl, k, hn.1, ha)
  gen_choice-HasType rt conv_choice k =
      Draws-bind _ (HasType s rt) _ _ u64_source-SourceIn
        λ src h. Draws-pure (HasType s rt) _ (refl, k, h)

  domain_ops-HasOp : (k : Kind) → is_plain k ≡ false → All (HasOp k) (domain_ops k)
  domain_ops-HasOp plain h = cc
  domain_ops-HasOp wrap h = omega arith
  domain_ops-HasOp sat h = (inl refl, (inr (inl refl), (inr (inr refl), tt)))

  gen_domain-HasType :
      (rt : RefType) → is_plain (kind rt) ≡ false → Draws (HasType s rt) (gen_domain s rt)
  unfolding gen_domain
  gen_domain-HasType rt k =
      Draws-bind _ (HasType s rt) _ _ (Draws-chance_if (leb 1 (length (vars_of s rt))) 60)
        λ two live.
          Draws-if _ two _ _
            (λ e.
              let some_var = var-HasType rt (is_cons_of_length (vars_of s rt) (live e)) in
              Draws-bind (HasOp (kind rt)) (HasType s rt) _ _
                (Draws-choice _ _ (domain_ops_cons (kind rt)) (domain_ops-HasOp (kind rt) k))
                λ op hop. Draws-bind _ (HasType s rt) _ _ some_var λ a ha.
                  Draws-bind _ (HasType s rt) _ _ some_var
                    λ b hb. Draws-pure (HasType s rt) _ (refl, hop, ha, hb))
            (λ _.
              Draws-bind _ (HasType s rt) _ _
                (Draws-chance_if (is_wrap (kind rt) && is_cons (vars_of s rt)) 30)
                λ shift ok.
                  Draws-if _ shift _ _
                    (λ e.
                      let (w, live') = split_and (ok e) in
                      Draws-bind _ (HasType s rt) _ _ (var-HasType rt live') λ a ha.
                        Draws-bind _ (HasType s rt) _ _
                          (Draws-randrange 0 (width rt) (omega (arith, width-ge rt)))
                          λ n hn.
                            Draws-pure (HasType s rt) _ (refl, is_wrap→eq (kind rt) w, hn.1, ha))
                    (λ _. leaf-HasType rt))
    where
      is_cons_of_length : {A : Type 0} (xs : List A) → leb 1 (length xs) ≡ true → is_cons xs ≡ true
      is_cons_of_length [] h = cc
      is_cons_of_length (x ∷ xs) h = refl

      domain_ops_cons : (k : Kind) → is_cons (domain_ops k) ≡ true
      domain_ops_cons wrap = refl
      domain_ops_cons _ = refl

      is_wrap→eq : (k : Kind) → is_wrap k ≡ true → k ≡ wrap
      is_wrap→eq wrap h = refl
      is_wrap→eq plain h = cc
      is_wrap→eq sat h = cc

  -- What `gen_expr` returns has the type asked for.
  pub gen_expr-HasType : (rt : RefType) → Draws (HasType s rt) (gen_expr s rt)
  unfolding gen_expr
  gen_expr-HasType rt =
      Draws-if _ (is_plain (kind rt)) _ _
        (λ e.
          Draws-bind (λ _. Unit {0}) (HasType s rt) _ _ (Draws-choice _ _ refl (omega arith))
            λ c _. gen_choice-HasType rt c (is_plain→eq (kind rt) e))
        (λ e. gen_domain-HasType rt e)
    where
      is_plain→eq : (k : Kind) → is_plain k ≡ true → k ≡ plain
      is_plain→eq plain h = refl
      is_plain→eq wrap h = cc
      is_plain→eq sat h = cc
