-- ===== src/Ref/Syntax.antt =====
-- The node classes of tools/fuzz/mcref.py: expressions, conditions and statements.
use modern_c.Prelude.{ℕ}
use modern_c.Ref.Types.{RefType, Ident}

-- The operators of `Bitwise` and `DomBin`.
pub data Op : Type 0 where
  add sub mul band bor bxor : Op

pub data CmpOp : Type 0 where
  lt le gt ge eq ne : CmpOp

pub data BoolOp : Type 0 where
  both either : BoolOp

-- What `_u64_source` returns: a rendered text with its evaluator, the fold of a variable or a number.
pub data Source : Type 0 where
  fold_of : Ident → RefType → Source
  number : ℕ → Source

pub data Expr : Type 0 where
  lit : ℕ → RefType → Expr
  var : Ident → RefType → Expr
  wadd : Expr → Expr → RefType → Expr
  bitwise : Op → Expr → Expr → RefType → Expr
  shr : Expr → ℕ → RefType → Expr
  conv : RefType → Source → Expr
  dom_bin : Op → Expr → Expr → RefType → Expr
  dom_shr : Expr → ℕ → RefType → Expr

pub data Cond : Type 0 where
  cmp : CmpOp → Expr → Expr → Cond
  bool_bin : BoolOp → Cond → Cond → Cond

infixr 67 ◌⨾◌
mutual
  pub data Stmt : Type 0 where
    decl : Ident → RefType → Expr → Stmt
    assign : Ident → Expr → Stmt
    branch : Cond → Block → Block → Stmt
    loop : Ident → ℕ → Block → Stmt
    early_ret : Cond → Source → Stmt

  pub data Block : Type 0 where
    end : Block
    ◌⨾◌ : Stmt → Block → Block
