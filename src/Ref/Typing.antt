-- ===== src/Ref/Typing.antt =====
-- What the generator of tools/fuzz/mcref.py may build: the typing discipline that its docstring
-- gives, over the scope of `RefGen`. Every shift is by less than the width, plain types have no
-- arithmetic that can trap, `sat` types no bit operations, and `wrap` values no order.
use modern_c.Prelude.{◌^◌, ◌≤◌, ◌<◌, ◌≡◌, ◌⊎◌, none, some}
use modern_c.Ref.Types.{RefType, Kind, plain, wrap, sat, width, kind, uint, w64}
use modern_c.Ref.Scope.{Scope, type_of, declare}
use modern_c.Ref.Syntax.{
  Op, add, sub, mul, band, bor, bxor, CmpOp, eq, ne, Source, fold_of, number, Expr, lit, var, wadd,
  bitwise, shr, conv, dom_bin, dom_shr, Cond, cmp, bool_bin, Stmt, decl, assign, branch, loop,
  early_ret, Block, end, ◌⨾◌,
}

abbrev pub IsBitOp : Op → Type 0
IsBitOp band = Unit
IsBitOp bor = Unit
IsBitOp bxor = Unit
IsBitOp _ = ⊥

-- The operators that a domain has.
abbrev pub HasOp : Kind → Op → Type 0
HasOp plain op = ⊥
HasOp wrap op = Unit
HasOp sat op = (op ≡ add) ⊎ (op ≡ sub) ⊎ (op ≡ mul)

abbrev pub HasCmp : Kind → CmpOp → Type 0
HasCmp wrap op = (op ≡ eq) ⊎ (op ≡ ne)
HasCmp _ op = Unit

module _ (s : Scope) where
  abbrev pub SourceIn : Source → Type 0
  SourceIn (fold_of n t) = type_of s n ≡ some t
  SourceIn (number x) = x < 2 ^ 64

  -- `HasType s rt e`: in scope `s` the expression has type `rt`.
  abbrev pub HasType : RefType → Expr → Type 0
  HasType rt (lit x t) = (t ≡ rt) × (x < 2 ^ width rt)
  HasType rt (var n t) = (t ≡ rt) × (type_of s n ≡ some rt)
  HasType rt (wadd a b t) = (t ≡ rt) × (kind rt ≡ plain) × HasType rt a × HasType rt b
  HasType rt (bitwise op a b t) =
      (t ≡ rt) × (kind rt ≡ plain) × IsBitOp op × HasType rt a × HasType rt b
  HasType rt (shr a k t) = (t ≡ rt) × (kind rt ≡ plain) × (k < width rt) × HasType rt a
  HasType rt (conv t src) = (t ≡ rt) × (kind rt ≡ plain) × SourceIn src
  HasType rt (dom_bin op a b t) = (t ≡ rt) × HasOp (kind rt) op × HasType rt a × HasType rt b
  HasType rt (dom_shr a k t) = (t ≡ rt) × (kind rt ≡ wrap) × (k < width rt) × HasType rt a

  abbrev pub CondIn : Cond → Type 0
  CondIn (cmp op a b) = (rt : RefType) × HasCmp (kind rt) op × HasType rt a × HasType rt b
  CondIn (bool_bin op a b) = CondIn a × CondIn b

-- Nested blocks hold assignments, `if`s and early returns only.
abbrev mutual
  pub InnerStmt : Scope → Stmt → Type 0
  InnerStmt s (assign n e) = (rt : RefType) × (type_of s n ≡ some rt) × HasType s rt e
  InnerStmt s (branch c t e) = CondIn s c × InnerBlock s t × InnerBlock s e
  InnerStmt s (early_ret c src) = CondIn s c × SourceIn s src
  InnerStmt s (decl n rt e) = ⊥
  InnerStmt s (loop n bound body) = ⊥

  pub InnerBlock : Scope → Block → Type 0
  InnerBlock s end = Unit
  InnerBlock s (st ⨾ b) = InnerStmt s st × InnerBlock s b

-- The scope behind a statement of the top level.
abbrev pub scope_after : Scope → Stmt → Scope
scope_after s (decl n rt e) = declare s n rt
scope_after s (loop n bound body) = declare s n (uint w64)
scope_after s _ = s

-- At the top level names are declared, each once, and loops with at most four rounds stand there.
abbrev pub TopStmt : Scope → Stmt → Type 0
TopStmt s (decl n rt e) = (type_of s n ≡ none) × HasType s rt e
TopStmt s (loop n bound body) = (type_of s n ≡ none) × (bound ≤ 4) × InnerBlock s body
TopStmt s st = InnerStmt s st

abbrev pub TopBlock : Scope → Block → Scope → Type 0
TopBlock s end s' = s ≡ s'
TopBlock s (st ⨾ b) s' = TopStmt s st × TopBlock (scope_after s st) b s'
