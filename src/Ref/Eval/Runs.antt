-- ===== src/Ref/Eval/Runs.antt =====
-- Whole programs of the discipline of `Ref.Typing` run to the end.
use modern_c.Prelude.{ℕ, ◌<◌, ◌≤◌, ◌≡◌, arith, Bool-cases, inl, inr, some}
use modern_c.Ref.Types.{Ident, uint, w64, same_name}
use modern_c.Ref.Scope.{Scope, declare, type_of-declare, same_name_iff}
use modern_c.Ref.Syntax.{Stmt, decl, assign, branch, loop, early_ret, Block, end, ◌⨾◌}
use modern_c.Ref.Typing.{TopStmt, TopBlock, scope_after}
use modern_c.Ref.Eval.{Env, store, rounds, exec, exec_block}
use modern_c.Ref.Eval.Range.{Fits, Fits-declare, eval_expr-Below}
use modern_c.Ref.Eval.Total.{
  Ends, Ends-map, Ends-after, Kept, exec-Kept, rounds-Ends, Fits-counter, stored,
}

-- The counter of a loop that has ended is a live u64.
Fits-declared :
    (s : Scope) (n : Ident) (bound : ℕ) (env : Env)
    → bound ≤ 4
    → Fits s env
    → env n ≡ some bound
    → Fits (declare s n (uint w64)) env
Fits-declared s n bound env le fits at m t k = elim (Bool-cases (same_name n m)) [
  | inl e ↦
      let nm = (same_name_iff n m).0 e in
      let same : some (uint w64) ≡ some t = rw (type_of-declare, e) at k in
      (bound, rw (← nm) at, ground arith)
  | inr e ↦ fits m t (rw (type_of-declare, e) at k)
]

pub exec-Fits :
    (fuel : ℕ) (s : Scope) (st : Stmt) (env : Env)
    → 4 < fuel
    → Fits s env
    → TopStmt s st
    → Ends (Fits (scope_after s st)) (exec fuel st env)
unfolding exec
exec-Fits fuel s (decl n rt e) env f fits (fresh, he) =
    let (x, p, b) = eval_expr-Below s env fits e rt he in rw p (Fits-declare s env fits n rt x b)
exec-Fits fuel s (loop n bound body) env f fits (fresh, le, inner) =
    Ends-map (λ env'. Fits s env' × (env' n ≡ some bound)) (Fits (declare s n (uint w64)))
      (rounds fuel n bound (λ env'. exec_block fuel body env') (store env n 0))
      (rounds-Ends s fuel n bound body inner fresh fuel 0 (store env n 0)
        (Fits-counter s fuel n bound body inner fresh env 0 fits) (stored s env n 0) (omega arith)
        (omega arith))
      (λ env' (fits', at). Fits-declared s n bound env' le fits' at)
exec-Fits fuel s (assign n e) env f fits h =
    Ends-map (Kept s env) (Fits s) (exec fuel (assign n e) env)
      (exec-Kept s fuel (assign n e) env fits h) (λ env' k. k.0)
exec-Fits fuel s (branch c t e) env f fits h =
    Ends-map (Kept s env) (Fits s) (exec fuel (branch c t e) env)
      (exec-Kept s fuel (branch c t e) env fits h) (λ env' k. k.0)
exec-Fits fuel s (early_ret c src) env f fits h =
    Ends-map (Kept s env) (Fits s) (exec fuel (early_ret c src) env)
      (exec-Kept s fuel (early_ret c src) env fits h) (λ env' k. k.0)

-- Where more than four rounds are granted, a block of the top level that is well typed in `s`, run
-- on an environment with every variable of `s` at a value of its type, ends without a missing key and
-- without being cut off: it returns a u64, or every variable of the scope it declares fits its type.
pub exec_block-Fits :
    (fuel : ℕ) (s : Scope) (b : Block) (s' : Scope) (env : Env)
    → 4 < fuel
    → Fits s env
    → TopBlock s b s'
    → Ends (Fits s') (exec_block fuel b env)
unfolding exec
exec_block-Fits fuel s end s' env f fits h = rw h at fits
exec_block-Fits fuel s (st ⨾ b) s' env f fits (hs, hb) =
    Ends-after (Fits (scope_after s st)) (Fits s') (exec fuel st env)
      (λ env'. exec_block fuel b env') (exec-Fits fuel s st env f fits hs)
      λ env' fits'. exec_block-Fits fuel (scope_after s st) b s' env' f fits' hb
