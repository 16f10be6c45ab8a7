-- ===== src/Ref/Eval/Loops.antt =====
-- The `While` loop of tools/fuzz/mcref.py makes exactly its bound of rounds, so what a program of
-- the discipline does is the same at every bound that is high enough.
use modern_c.Prelude.{
  ℕ, zero, suc, ◌+◌, ◌<◌, ◌≡◌, refl, sym, ap, ap₂, fun_ext, ◌∙◌, arith, ltb, lt→ltb, true, false,
  some, none,
}
use modern_c.Ref.Types.{Ident}
use modern_c.Ref.Scope.{Scope, type_of}
use modern_c.Ref.Syntax.{Stmt, decl, assign, branch, loop, early_ret, Block, end, ◌⨾◌}
use modern_c.Ref.Typing.{InnerStmt, InnerBlock, TopStmt, TopBlock, scope_after}
use modern_c.Ref.Eval.{
  Env, store, Outcome, normal, ret_signal, key_error, cut_off, after, rounds, exec, exec_block,
}
use modern_c.Ref.Eval.Range.{Fits}
use modern_c.Ref.Eval.Total.{Ends, Kept, exec_block-Kept, Fits-counter, stored}
use modern_c.Ref.Eval.Runs.{exec-Fits}

-- `k` rounds, the counter being `i` before the first: a `for` loop with early return.
pub unroll : ℕ → ℕ → Ident → (Env → Outcome) → Env → Outcome
unroll zero i n body env = normal env
unroll (suc k) i n body env = after (body (store env n (i + 1))) (unroll k (i + 1) n body)

-- A continuation may be replaced by one that agrees where the first part ends.
after-cong :
    (P : Env → Type 0) (o : Outcome) (k k' : Env → Outcome)
    → Ends P o
    → ((env : Env) → P env → k env ≡ k' env)
    → after o k ≡ after o k'
after-cong P (normal env) k k' h f = f env h
after-cong P (ret_signal x) k k' h f = refl
after-cong P key_error k k' h f = refl
after-cong P cut_off k k' h f = refl

module _ (s : Scope) (fuel₀ : ℕ) (n : Ident) (bound : ℕ) (body : Block) (inner : InnerBlock s body)
    (fresh : type_of s n ≡ none) where
  rounds-eq-unroll :
      (fuel k i : ℕ) (env : Env)
      → Fits s env
      → env n ≡ some i
      → i + k ≡ bound
      → k < fuel
      → rounds fuel n bound (λ env'. exec_block fuel₀ body env') env
        ≡ unroll k i n (λ env'. exec_block fuel₀ body env') env
  unfolding rounds unroll
  rounds-eq-unroll zero k i env fits at e lt = absurd (omega arith)
  rounds-eq-unroll (suc fuel) zero i env fits at e lt =
      let stop : ltb i bound ≡ false = ground arith in rw (at, stop)
  rounds-eq-unroll (suc fuel) (suc k) i env fits at e lt =
      let more : ltb i bound ≡ true = lt→ltb i bound (omega arith) in
      let env₁ = store env n (i + 1) in
      rw (at, more)
        (after-cong (Kept s env₁) (exec_block fuel₀ body env₁) _ _
          (exec_block-Kept s fuel₀ body env₁
            (Fits-counter s fuel₀ n bound body inner fresh env (i + 1) fits) inner)
          λ env₂ (fits₂, same).
            rounds-eq-unroll fuel k (i + 1) env₂ fits₂ (same n fresh ∙ stored s env n (i + 1))
              (omega arith) (omega arith))

-- A loop that is well typed in `s` (its counter new, at most four rounds, a nested body), run on an
-- environment that fits `s` with more rounds granted than its bound, is its body unrolled `bound`
-- times from a counter stored as 0: each time the counter is stored one higher, then the body runs.
pub loop-eq-unroll :
    (s : Scope) (fuel : ℕ) (n : Ident) (bound : ℕ) (body : Block) (env : Env)
    → Fits s env
    → TopStmt s (loop n bound body)
    → bound < fuel
    → exec fuel (loop n bound body) env
      ≡ unroll bound 0 n (λ env'. exec_block fuel body env') (store env n 0)
unfolding exec
loop-eq-unroll s fuel n bound body env fits (fresh, le, inner) lt =
    rounds-eq-unroll s fuel n bound body inner fresh fuel bound 0 (store env n 0)
      (Fits-counter s fuel n bound body inner fresh env 0 fits) (stored s env n 0) (omega arith) lt

unroll-cong :
    (k i : ℕ) (n : Ident) (body body' : Env → Outcome) (env : Env)
    → body ≡ body'
    → unroll k i n body env ≡ unroll k i n body' env
unroll-cong k i n body body' env e = rw e

mutual
  unfolding exec

  exec-inner_fuel :
      (f f' : ℕ) (s : Scope) (st : Stmt) (env : Env)
      → InnerStmt s st
      → exec f st env ≡ exec f' st env
  exec-inner_fuel f f' s (assign n e) env h = refl
  exec-inner_fuel f f' s (early_ret c src) env h = refl
  exec-inner_fuel f f' s (branch c t e) env (hc, ht, he) =
      rw (exec_block-inner_fuel f f' s t env ht, exec_block-inner_fuel f f' s e env he)
  exec-inner_fuel f f' s (decl n rt e) env h = absurd h
  exec-inner_fuel f f' s (loop n bound body) env h = absurd h

  exec_block-inner_fuel :
      (f f' : ℕ) (s : Scope) (b : Block) (env : Env)
      → InnerBlock s b
      → exec_block f b env ≡ exec_block f' b env
  exec_block-inner_fuel f f' s end env h = refl
  exec_block-inner_fuel f f' s (st ⨾ b) env (hs, hb) =
      ap₂ after (exec-inner_fuel f f' s st env hs)
        (fun_ext λ env'. exec_block-inner_fuel f f' s b env' hb)

exec-fuel :
    (f f' : ℕ) (s : Scope) (st : Stmt) (env : Env)
    → 4 < f
    → 4 < f'
    → Fits s env
    → TopStmt s st
    → exec f st env ≡ exec f' st env
exec-fuel f f' s (loop n bound body) env lf lf' fits h =
    loop-eq-unroll s f n bound body env fits h (omega (arith, h.1))
    ∙ (unroll-cong bound 0 n _ _ (store env n 0)
          (fun_ext λ env'. exec_block-inner_fuel f f' s body env' h.2)
        ∙ sym (loop-eq-unroll s f' n bound body env fits h (omega (arith, h.1))))
exec-fuel f f' s (decl n rt e) env lf lf' fits h = unfold exec in refl
exec-fuel f f' s (assign n e) env lf lf' fits h = exec-inner_fuel f f' s (assign n e) env h
exec-fuel f f' s (branch c t e) env lf lf' fits h = exec-inner_fuel f f' s (branch c t e) env h
exec-fuel f f' s (early_ret c src) env lf lf' fits h =
    exec-inner_fuel f f' s (early_ret c src) env h

-- A well-typed block of the top level, run on an environment that fits its scope, has the same
-- outcome under any two grants of more than four rounds.
pub exec_block-fuel :
    (f f' : ℕ) (s : Scope) (b : Block) (s' : Scope) (env : Env)
    → 4 < f
    → 4 < f'
    → Fits s env
    → TopBlock s b s'
    → exec_block f b env ≡ exec_block f' b env
unfolding exec
exec_block-fuel f f' s end s' env lf lf' fits h = refl
exec_block-fuel f f' s (st ⨾ b) s' env lf lf' fits (hs, hb) =
    ap (λ o. after o (exec_block f b)) (exec-fuel f f' s st env lf lf' fits hs)
    ∙ after-cong (Fits (scope_after s st)) (exec f' st env) (exec_block f b) (exec_block f' b)
        (exec-Fits f' s st env lf' fits hs)
        λ env' fits'. exec_block-fuel f f' (scope_after s st) b s' env' lf lf' fits' hb
