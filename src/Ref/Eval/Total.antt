-- ===== src/Ref/Eval/Total.antt =====
-- Programs of the discipline of `Ref.Typing` run to the end: no missing key, no endless loop.
use Prim.Native.Nat.{bit_and}
use modern_c.Prelude.{
  ℕ, zero, suc, ◌+◌, ◌^◌, ◌<◌, ◌≤◌, ◌≡◌, refl, ◌∙◌, arith, ltb, Bool, true, false, Bool-cases, inl,
  inr, if◌then◌else◌, some, none, ltb→lt, ltb→ge,
}
use modern_c.Ref.Types.{RefType, Ident, width, same_name, mask}
use modern_c.Ref.Scope.{Scope, type_of, same_name_iff}
use modern_c.Ref.Syntax.{Cond, Source, Stmt, decl, assign, branch, loop, early_ret, Block, end, ◌⨾◌}
use modern_c.Ref.Typing.{CondIn, SourceIn, InnerStmt, InnerBlock}
use modern_c.Ref.Eval.{
  Env, store, Outcome, normal, ret_signal, key_error, cut_off, after, with_value, source_val,
  rounds, exec, exec_block,
}
use modern_c.Ref.Eval.Range.{
  Fits, Fits-store, eval_expr-Below, eval_cond-total, source_val-Below, bit_and-mask-lt,
}

-- The outcome is a state with `P`, or a return of a u64.
abbrev pub Ends : (Env → Type 0) → Outcome → Type 0
Ends P (normal env) = P env
Ends P (ret_signal x) = x < 2 ^ 64
Ends P key_error = ⊥
Ends P cut_off = ⊥

pub Ends-map :
    (P Q : Env → Type 0) (o : Outcome) → Ends P o → ((env : Env) → P env → Q env) → Ends Q o
Ends-map P Q (normal env) h f = f env h
Ends-map P Q (ret_signal x) h f = h
Ends-map P Q key_error h f = h
Ends-map P Q cut_off h f = h

pub Ends-after :
    (P Q : Env → Type 0) (o : Outcome) (k : Env → Outcome)
    → Ends P o
    → ((env : Env) → P env → Ends Q (k env))
    → Ends Q (after o k)
Ends-after P Q (normal env) k h f = f env h
Ends-after P Q (ret_signal x) k h f = h
Ends-after P Q key_error k h f = h
Ends-after P Q cut_off k h f = h

pub Ends-if :
    (P : Env → Type 0) (b : Bool) (o o' : Outcome)
    → Ends P o
    → Ends P o'
    → Ends P (if b then o else o')
Ends-if P true o o' h h' = h
Ends-if P false o o' h h' = h'

-- The scope still fits, and what it does not declare is as before.
abbrev pub Kept : Scope → Env → Env → Type 0
Kept s env env' = Fits s env' × ((m : Ident) → type_of s m ≡ none → env' m ≡ env m)

module _ (s : Scope) where
  pub early_ret-Ends :
      (fuel : ℕ) (env : Env) (P : Env → Type 0) (c : Cond) (src : Source)
      → Fits s env
      → CondIn s c
      → SourceIn s src
      → P env
      → Ends P (exec fuel (early_ret c src) env)
  unfolding exec
  early_ret-Ends fuel env P c src fits hc hs h =
      let (b, p) = eval_cond-total s env fits c hc in
      let (x, q) = source_val-Below s env fits src hs in rw p (returns b x q)
    where
      returns :
          (b : Bool) (x : ℕ)
          → source_val src env ≡ some x
          → Ends P (
              if b
              then with_value (source_val src env) (λ x. ret_signal (bit_and x (mask 64)))
              else normal env)
      returns true x q = rw q (bit_and-mask-lt 64 x)
      returns false x q = h

  pub Kept-assign :
      (env : Env) (n : Ident) (rt : RefType) (x : ℕ)
      → Fits s env
      → type_of s n ≡ some rt
      → x < 2 ^ width rt
      → Kept s env (store env n x)
  Kept-assign env n rt x fits h b = (
    Fits-store s env fits n rt x h b,
    λ m undeclared. elim (Bool-cases (same_name n m)) [
      | inl e ↦ let nm = (same_name_iff n m).0 e in let h' = rw nm at h in cc
      | inr e ↦ rw e
    ],
  )

  pub stored : (env : Env) (n : Ident) (x : ℕ) → store env n x n ≡ some x
  stored env n x = rw ((same_name_iff n n).1 refl)

  mutual
    unfolding exec

    pub exec-Kept :
        (fuel : ℕ) (st : Stmt) (env : Env)
        → Fits s env
        → InnerStmt s st
        → Ends (Kept s env) (exec fuel st env)
    exec-Kept fuel (assign n e) env fits (rt, hn, he) =
        let (x, p, b) = eval_expr-Below s env fits e rt he in
        rw p (Kept-assign env n rt x fits hn b)
    exec-Kept fuel (branch c t e) env fits (hc, ht, he) =
        let (b, p) = eval_cond-total s env fits c hc in
        rw p (
          Ends-if (Kept s env) b (exec_block fuel t env) (exec_block fuel e env)
            (exec_block-Kept fuel t env fits ht) (exec_block-Kept fuel e env fits he))
    exec-Kept fuel (early_ret c src) env fits (hc, hs) =
        early_ret-Ends fuel env (Kept s env) c src fits hc hs (fits, λ m _. refl)
    exec-Kept fuel (decl n rt e) env fits h = absurd h
    exec-Kept fuel (loop n bound body) env fits h = absurd h

    pub exec_block-Kept :
        (fuel : ℕ) (b : Block) (env : Env)
        → Fits s env
        → InnerBlock s b
        → Ends (Kept s env) (exec_block fuel b env)
    exec_block-Kept fuel end env fits h = (fits, λ m _. refl)
    exec_block-Kept fuel (st ⨾ b) env fits (hs, hb) =
        Ends-after (Kept s env) (Kept s env) (exec fuel st env) (λ env'. exec_block fuel b env')
          (exec-Kept fuel st env fits hs)
          λ env' (fits', same).
            Ends-map (Kept s env') (Kept s env) (exec_block fuel b env')
              (exec_block-Kept fuel b env' fits' hb)
              λ env'' (fits'', same'). (fits'', λ m u. same' m u ∙ same m u)

  -- A loop whose body leaves the counter alone ends with the counter at its bound.
  module _ (fuel₀ : ℕ) (n : Ident) (bound : ℕ) (body : Block) (inner : InnerBlock s body)
      (fresh : type_of s n ≡ none) where
    pub Fits-counter : (env : Env) (x : ℕ) → Fits s env → Fits s (store env n x)
    Fits-counter env x fits m t k = elim (Bool-cases (same_name n m)) [
      | inl e ↦ let nm = (same_name_iff n m).0 e in let k' = rw (← nm) at k in cc
      | inr e ↦ rw e (fits m t k)
    ]

    pub rounds-Ends :
        (fuel i : ℕ) (env : Env)
        → Fits s env
        → env n ≡ some i
        → i ≤ bound
        → bound < fuel + i
        → Ends
            (λ env'. Fits s env' × (env' n ≡ some bound))
            (rounds fuel n bound (λ env'. exec_block fuel₀ body env') env)
    unfolding rounds
    rounds-Ends zero i env fits at le lt = absurd (omega arith)
    rounds-Ends (suc fuel) i env fits at le lt = rw at (elim (Bool-cases (ltb i bound)) [
      | inl e ↦
          let more = ltb→lt i bound e in
          let env₁ = store env n (i + 1) in
          rw e (
            Ends-after (Kept s env₁) (λ env'. Fits s env' × (env' n ≡ some bound))
              (exec_block fuel₀ body env₁)
              (rounds fuel n bound (λ env'. exec_block fuel₀ body env'))
              (exec_block-Kept fuel₀ body env₁ (Fits-counter env (i + 1) fits) inner)
              λ env₂ (fits₂, same).
                rounds-Ends fuel (i + 1) env₂ fits₂ (same n fresh ∙ stored env n (i + 1))
                  (omega arith) (omega arith))
      | inr e ↦
          let done : i ≡ bound = omega (arith, ltb→ge i bound e) in rw e (fits, rw (← done) at)
    ])
