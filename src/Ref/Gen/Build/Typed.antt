-- ===== src/Ref/Gen/Build/Typed.antt =====
-- On every tape `build_core` returns, and the program that it leaves is well typed.
use modern_c.Prelude.{
  ℕ, zero, suc, ◌≡◌, refl, arith, Bool-cases, inl, inr, ◌&&◌, is_cons, split_and, ltb, some, List,
  [], ◌∷◌, ◌++◌, All, All-imp, min, length,
}
use modern_c.Ref.Types.{RefType, Ident, Prefix, v, j, uint, w64, ref_types, same_name}
use modern_c.Ref.Scope.{Scope, declare, type_of, type_of-declare, same_name_iff}
use modern_c.Ref.Scope.Distinct.{Distinct, Distinct-declare}
use modern_c.Ref.Scope.Bounded.{Bounded, type_of_new, Bounded-declare}
use modern_c.Ref.Syntax.{Stmt, decl, loop, Block, end, ◌⨾◌}
use modern_c.Ref.Typing.{InnerStmt, TopStmt, TopBlock, scope_after}
use modern_c.Ref.Random.{Draw, ◌>>=◌, pure}
use modern_c.Ref.Random.Rules.{
  Draws, Draws-pure, Draws-if, Draws-bind, Draws-percent, Draws-randrange, Draws-sample,
}
use modern_c.Ref.Gen.State.{RefGen, new_gen, snoc, new_name, bump}
use modern_c.Ref.Gen.Expr.Typed.{gen_expr-HasType}
use modern_c.Ref.Gen.Block.{gen_block}
use modern_c.Ref.Gen.Block.Typed.{
  gen_assign-InnerStmt, gen_branch-InnerStmt, gen_early_ret-InnerStmt, gen_block-InnerBlock,
}
use modern_c.Ref.Gen.Build.{
  add_var, add_stmt, gen_decls, gen_while, gen_stmt, gen_stmts, build_core,
}

-- A name is live if the scope has it.
abbrev pub Live : Scope → Ident → Type 0
Live s n = (rt : RefType) × (type_of s n ≡ some rt)

-- The generator between two statements: distinct names, none that `_new` has yet to make, every
-- name of the digest declared, and a well-typed program so far.
pub record Built (g : RefGen) : Type 0 where
  pub distinct : Distinct g.scope
  pub bounded : Bounded g.n g.scope
  pub ordered : All (Live g.scope) g.order
  pub typed : TopBlock [] g.stmts g.scope

TopBlock-snoc :
    (s : Scope) (b : Block) (s' : Scope) (st : Stmt)
    → TopBlock s b s'
    → TopStmt s' st
    → TopBlock s (snoc b st) (scope_after s' st)
unfolding snoc
TopBlock-snoc s end s' st h k = rw h (k, refl)
TopBlock-snoc s (s₁ ⨾ b) s' st (h, hs) k = (h, TopBlock-snoc (scope_after s s₁) b s' st hs k)

Live-declare : (s : Scope) (m n : Ident) (t : RefType) → Live s n → Live (declare s m t) n
Live-declare s m n t (rt, h) = elim (Bool-cases (same_name m n)) [
  | inl e ↦ (t, rw (type_of-declare, e))
  | inr e ↦ (rt, rw (type_of-declare, e) h)
]

-- A statement of a nested block may stand at the top level, and declares nothing.
TopStmt-of_InnerStmt :
    (s : Scope) (st : Stmt) → InnerStmt s st → TopStmt s st × (scope_after s st ≡ s)
TopStmt-of_InnerStmt s (decl n rt e) h = absurd h
TopStmt-of_InnerStmt s (loop n bound body) h = absurd h
TopStmt-of_InnerStmt s (Stmt.assign n e) h = (h, refl)
TopStmt-of_InnerStmt s (Stmt.branch c t e) h = (h, refl)
TopStmt-of_InnerStmt s (Stmt.early_ret c src) h = (h, refl)

Built-add_stmt : (g : RefGen) (st : Stmt) → Built g → InnerStmt g.scope st → Built (add_stmt g st)
Built-add_stmt g st h inner =
    let (top, same) = TopStmt-of_InnerStmt g.scope st inner in
    record {
      distinct = h.distinct;
      bounded = h.bounded;
      ordered = h.ordered;
      typed = rw same at (TopBlock-snoc [] g.stmts g.scope st h.typed top);
    }

All-snoc {ℓ} :
    {A : Type ℓ} (P : A → Type 0) (xs : List A) (x : A) → All P xs → P x → All P (xs ++ x ∷ [])
All-snoc P [] x h hx = (hx, tt)
All-snoc P (y ∷ ys) x h hx = (h.0, All-snoc P ys x h.1 hx)

-- A new variable, its statement being one that declares it.
Built-add_var :
    (g : RefGen) (p : Prefix) (rt : RefType) (st : Stmt)
    → Built g
    → TopStmt g.scope st
    → scope_after g.scope st ≡ declare g.scope (new_name p g) rt
    → Built (add_var (bump g) (new_name p g) rt st)
Built-add_var g p rt st h top same = record {
  distinct = Distinct-declare g.scope (new_name p g) rt h.distinct;
  bounded = Bounded-declare g.scope (new_name p g) rt h.bounded;
  ordered =
      All-snoc (Live (declare g.scope (new_name p g) rt)) g.order (new_name p g)
        (All-imp _ _ g.order (λ n. Live-declare g.scope (new_name p g) n rt) h.ordered)
        (rt, rw (type_of-declare, (same_name_iff (new_name p g) (new_name p g)).1 refl));
  typed = rw same at (TopBlock-snoc [] g.stmts g.scope st h.typed top);
}

gen_decls-Built : (rts : List RefType) (g : RefGen) → Built g → Draws Built (gen_decls rts g)
unfolding gen_decls
gen_decls-Built [] g h = Draws-pure Built g h
gen_decls-Built (rt ∷ rts) g h =
    let n = new_name v g in
    Draws-bind _ Built _ _ (gen_expr-HasType g.scope h.distinct rt) λ e he.
      gen_decls-Built rts (add_var (bump g) n rt (decl n rt e))
        (Built-add_var g v rt (decl n rt e) h (type_of_new g.scope n h.bounded, he) refl)

gen_while-Built : (g : RefGen) → Built g → Draws Built (gen_while g)
unfolding gen_while
gen_while-Built g h =
    let n = new_name j g in
    Draws-bind _ Built _ _ (Draws-randrange 1 5 (omega arith)) λ bound le.
      Draws-bind _ Built _ _ (gen_block-InnerBlock g.scope h.distinct 2) λ body hb.
        Draws-pure Built _ (
          Built-add_var g j (uint w64) (loop n bound body) h
            (type_of_new g.scope n h.bounded, omega (arith, le.1), hb) refl)

gen_stmt-Built : (g : RefGen) → Built g → Draws Built (gen_stmt g)
unfolding gen_stmt
gen_stmt-Built g h = Draws-bind _ Built _ _ Draws-percent λ r _.
    Draws-if _ (ltb r 40 && is_cons g.scope) _ _
      (λ e. added (gen_assign-InnerStmt g.scope h.distinct (split_and e).1))
      (λ _.
        Draws-if _ (ltb r 65) _ _
          (λ _. added (
            gen_branch-InnerStmt g.scope h.distinct (gen_block 2 g.scope)
              (gen_block-InnerBlock g.scope h.distinct 2)))
          (λ _.
            Draws-if _ (ltb r 80) _ _ (λ _. gen_while-Built g h)
              (λ _. added (gen_early_ret-InnerStmt g.scope h.distinct))))
  where
    added :
        {m : Draw Stmt}
        → Draws (InnerStmt g.scope) m
        → Draws Built (m >>= λ st. pure (add_stmt g st))
    added hm = Draws-bind _ Built _ _ hm λ st hst. Draws-pure Built _ (Built-add_stmt g st h hst)

gen_stmts-Built : (k : ℕ) (g : RefGen) → Built g → Draws Built (gen_stmts k g)
unfolding gen_stmts
gen_stmts-Built zero g h = Draws-pure Built g h
gen_stmts-Built (suc k) g h =
    Draws-bind _ Built _ _ (gen_stmt-Built g h) λ g' h'. gen_stmts-Built k g' h'

-- Whatever is drawn, the core is built, without an exception, and is well typed.
pub build_core-Built : Draws Built build_core
unfolding build_core
build_core-Built =
    Draws-bind _ Built _ _
      (Draws-sample (λ _. Unit {0}) ref_types (min 6 (length ref_types)) (omega arith)
        (omega arith))
      λ rts _. Draws-bind _ Built _ _ (gen_decls-Built rts new_gen start) λ g h.
        Draws-bind _ Built _ _ (Draws-randrange 5 11 (omega arith)) λ k _. gen_stmts-Built k g h
  where
    start : Built new_gen
    start = record { distinct = tt; bounded = tt; ordered = tt; typed = refl }
