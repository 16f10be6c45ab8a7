-- ===== src/Ref/Gen/Block.antt =====
-- `gen_block` of tools/fuzz/mcref.py: assignments, `if`s and early returns, at most three deep.
pub mod Typed
use modern_c.Prelude.{
  is_cons, ℕ, zero, suc, Bool, true, false, ◌&&◌, ltb, if◌then◌else◌, Option, none, some, List, map,
}
use modern_c.Ref.Types.{RefType}
use modern_c.Ref.Scope.{Scope, vars_of, values_of}
use modern_c.Ref.Syntax.{Stmt, assign, branch, early_ret, Block, end, ◌⨾◌}
use modern_c.Ref.Random.{Draw, ◌>>=◌, pure, raise, percent, randrange, choice}
use modern_c.Ref.Gen.Expr.{u64_source, gen_expr, gen_cond}

pub gen_assign : Scope → Draw Stmt
gen_assign s = do
  rt ← choice (values_of s)
  n ← choice (vars_of s rt)
  e ← gen_expr s rt
  pure (assign n e)

pub gen_branch : Scope → Draw Block → Draw Stmt
gen_branch s nested = do c ← gen_cond 2 s; t ← nested; e ← nested; pure (branch c t e)

pub gen_early_ret : Scope → Draw Stmt
gen_early_ret s = do src ← u64_source s; c ← gen_cond 2 s; pure (early_ret c src)

-- One statement; the nested block is missing where the depth is used up.
pub gen_inner : Scope → Option (Draw Block) → Draw Stmt
gen_inner s nested = do
  r ← percent
  if ltb r 55 && is_cons s then gen_assign s else elim nested [
    | none ↦ gen_early_ret s
    | some b ↦ if ltb r 75 then gen_branch s b else gen_early_ret s
  ]

pub repeat : ℕ → Draw Stmt → Draw Block
repeat zero m = pure end
repeat (suc k) m = do st ← m; rest ← repeat k m; pure (st ⨾ rest)

-- `gen_block(depth)` with `3 - depth` levels left.
pub gen_block : ℕ → Scope → Draw Block
gen_block zero s = do k ← randrange 1 3; repeat k (gen_inner s none)
gen_block (suc left) s = do k ← randrange 1 3; repeat k (gen_inner s (some (gen_block left s)))
