-- ===== src/Ref/Gen/Build.antt =====
-- `build` of tools/fuzz/mcref.py up to its call of `gen_constructs`: six declarations, then five to
-- ten statements.
pub mod Typed
use modern_c.Prelude.{
  ℕ, zero, suc, ◌+◌, Bool, true, false, ◌&&◌, is_cons, ltb, if◌then◌else◌, Option, none, some, List,
  [], ◌∷◌, ◌++◌, min, length,
}
use modern_c.Ref.Types.{RefType, Ident, v, j, uint, w64, ref_types}
use modern_c.Ref.Scope.{Scope, declare}
use modern_c.Ref.Syntax.{Stmt, decl, loop, Block}
use modern_c.Ref.Random.{Draw, ◌>>=◌, pure, percent, randrange, sample}
use modern_c.Ref.Gen.State.{RefGen, new_gen, snoc, new_name, bump}
use modern_c.Ref.Gen.Expr.{gen_expr}
use modern_c.Ref.Gen.Block.{gen_assign, gen_branch, gen_early_ret, gen_block}

-- The declaration of a new variable: its statement, its scope entry and its place in the order.
abbrev pub add_var : RefGen → Ident → RefType → Stmt → RefGen
add_var g n rt st = record g {
  stmts = snoc g.stmts st;
  scope = declare g.scope n rt;
  order = g.order ++ n ∷ [];
}

abbrev pub add_stmt : RefGen → Stmt → RefGen
add_stmt g st = record g { stmts = snoc g.stmts st }

pub gen_decls : List RefType → RefGen → Draw RefGen
gen_decls [] g = pure g
gen_decls (rt ∷ rts) g = do
  let n = new_name v g
  e ← gen_expr g.scope rt
  gen_decls rts (add_var (bump g) n rt (decl n rt e))

pub gen_while : RefGen → Draw RefGen
gen_while g = do
  let counter = new_name j g
  bound ← randrange 1 5
  body ← gen_block 2 g.scope
  pure (add_var (bump g) counter (uint w64) (loop counter bound body))

pub gen_stmt : RefGen → Draw RefGen
gen_stmt g = do
  r ← percent
  if ltb r 40 && is_cons g.scope
      then (do st ← gen_assign g.scope; pure (add_stmt g st))
      else if ltb r 65
      then (do st ← gen_branch g.scope (gen_block 2 g.scope); pure (add_stmt g st))
      else if ltb r 80
      then gen_while g
      else (do st ← gen_early_ret g.scope; pure (add_stmt g st))

pub gen_stmts : ℕ → RefGen → Draw RefGen
gen_stmts zero g = pure g
gen_stmts (suc k) g = do g' ← gen_stmt g; gen_stmts k g'

pub build_core : Draw RefGen
build_core = do
  rts ← sample ref_types (min 6 (length ref_types))
  g ← gen_decls rts new_gen
  k ← randrange 5 11
  gen_stmts k g
