-- ===== src/Ref/Gen/Block/Typed.antt =====
-- On every tape `gen_block` returns a well-typed block without declarations and loops.
use modern_c.Prelude.{
  split_and, is_cons, ℕ, zero, suc, ◌≡◌, refl, arith, true, ◌&&◌, ltb, none, some, [], ◌∷◌,
}
use modern_c.Ref.Scope.Distinct.{Distinct, vars_of-All, values_of-All}
use modern_c.Ref.Scope.{Scope, vars_of, values_of, type_of}
use modern_c.Ref.Syntax.{Stmt, Block, end}
use modern_c.Ref.Typing.{InnerStmt, InnerBlock}
use modern_c.Ref.Random.{Draw}
use modern_c.Ref.Random.Rules.{
  Draws, Draws-pure, Draws-if, Draws-bind, Draws-percent, Draws-choice, Draws-randrange,
}
use modern_c.Ref.Gen.Expr.Typed.{gen_expr-HasType, u64_source-SourceIn}
use modern_c.Ref.Gen.Expr.Conds.{gen_cond-CondIn}
use modern_c.Ref.Gen.Block.{gen_assign, gen_branch, gen_early_ret, gen_inner, repeat, gen_block}

module _ (s : Scope) (d : Distinct s) where
  pub gen_assign-InnerStmt : is_cons s ≡ true → Draws (InnerStmt s) (gen_assign s)
  unfolding gen_assign
  gen_assign-InnerStmt h =
      Draws-bind (λ rt. is_cons (vars_of s rt) ≡ true) (InnerStmt s) _ _
        (Draws-choice _ (values_of s) (cons_map s h) (values_of-All s))
        λ rt live.
          Draws-bind (λ n. type_of s n ≡ some rt) (InnerStmt s) _ _
            (Draws-choice _ (vars_of s rt) live (vars_of-All s rt d))
            λ n hn.
              Draws-bind _ (InnerStmt s) _ _ (gen_expr-HasType s d rt)
                λ e he. Draws-pure (InnerStmt s) _ (rt, hn, he)
    where
      cons_map : (s : Scope) → is_cons s ≡ true → is_cons (values_of s) ≡ true
      cons_map [] h = cc
      cons_map (x ∷ xs) h = refl

  pub gen_early_ret-InnerStmt : Draws (InnerStmt s) (gen_early_ret s)
  unfolding gen_early_ret
  gen_early_ret-InnerStmt = Draws-bind _ (InnerStmt s) _ _ (u64_source-SourceIn s d) λ src hs.
      Draws-bind _ (InnerStmt s) _ _ (gen_cond-CondIn s d 2)
        λ c hc. Draws-pure (InnerStmt s) _ (hc, hs)

  pub gen_branch-InnerStmt :
      (nested : Draw Block)
      → Draws (InnerBlock s) nested
      → Draws (InnerStmt s) (gen_branch s nested)
  unfolding gen_branch
  gen_branch-InnerStmt nested hb = Draws-bind _ (InnerStmt s) _ _ (gen_cond-CondIn s d 2) λ c hc.
      Draws-bind _ (InnerStmt s) _ _ hb
        λ t ht. Draws-bind _ (InnerStmt s) _ _ hb λ e he. Draws-pure (InnerStmt s) _ (hc, ht, he)

  repeat-InnerBlock :
      (k : ℕ) (m : Draw Stmt) → Draws (InnerStmt s) m → Draws (InnerBlock s) (repeat k m)
  unfolding repeat
  repeat-InnerBlock zero m h = Draws-pure (InnerBlock s) end tt
  repeat-InnerBlock (suc k) m h = Draws-bind _ (InnerBlock s) _ _ h λ st hst.
      Draws-bind _ (InnerBlock s) _ _ (repeat-InnerBlock k m h)
        λ rest hr. Draws-pure (InnerBlock s) _ (hst, hr)

  gen_leaf-InnerStmt : Draws (InnerStmt s) (gen_inner s none)
  unfolding gen_inner
  gen_leaf-InnerStmt = Draws-bind _ (InnerStmt s) _ _ Draws-percent λ r _.
      Draws-if _ (ltb r 55 && is_cons s) _ _ (λ e. gen_assign-InnerStmt (split_and e).1)
        (λ _. gen_early_ret-InnerStmt)

  gen_node-InnerStmt :
      (nested : Draw Block)
      → Draws (InnerBlock s) nested
      → Draws (InnerStmt s) (gen_inner s (some nested))
  unfolding gen_inner
  gen_node-InnerStmt nested hb = Draws-bind _ (InnerStmt s) _ _ Draws-percent λ r _.
      Draws-if _ (ltb r 55 && is_cons s) _ _ (λ e. gen_assign-InnerStmt (split_and e).1)
        (λ _.
          Draws-if _ (ltb r 75) _ _ (λ _. gen_branch-InnerStmt nested hb)
            (λ _. gen_early_ret-InnerStmt))

  -- Every nested block is well typed, whatever the depth left.
  pub gen_block-InnerBlock : (left : ℕ) → Draws (InnerBlock s) (gen_block left s)
  unfolding gen_block
  gen_block-InnerBlock zero =
      Draws-bind _ (InnerBlock s) _ _ (Draws-randrange 1 3 (omega arith))
        λ k _. repeat-InnerBlock k (gen_inner s none) gen_leaf-InnerStmt
  gen_block-InnerBlock (suc left) =
      Draws-bind _ (InnerBlock s) _ _ (Draws-randrange 1 3 (omega arith)) λ k _.
        repeat-InnerBlock k (gen_inner s (some (gen_block left s)))
          (gen_node-InnerStmt (gen_block left s) (gen_block-InnerBlock left))
