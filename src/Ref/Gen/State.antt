-- ===== src/Ref/Gen/State.antt =====
-- The fields of `RefGen` in tools/fuzz/mcref.py, and `_new`.
use modern_c.Prelude.{ℕ, ◌≡◌, ◌+◌, String, List, []}
use modern_c.Ref.Types.{Ident, Prefix}
use modern_c.Ref.Scope.{Scope}
use modern_c.Ref.Syntax.{Stmt, Block, end, ◌⨾◌}

pub record RefGen : Type 0 where
  pub scope : Scope
  pub order : List Ident
  pub n : ℕ
  pub stmts : Block
  pub pre_decls : List String
  pub extra_body : List String
  pub extra_terms : List (String × ℕ)

-- The generator that `__init__` makes.
abbrev pub new_gen : RefGen
new_gen = record {
  scope = [];
  order = [];
  n = 0;
  stmts = end;
  pre_decls = [];
  extra_body = [];
  extra_terms = [];
}

-- `stmts.append(st)`.
unfoldable pub snoc : Block → Stmt → Block
snoc end st = st ⨾ end
snoc (s ⨾ b) st = s ⨾ snoc b st

-- `_new(prefix)`: the name, and the generator with the count gone up.
abbrev pub new_name : Prefix → RefGen → Ident
new_name p g = record { prefix = p; number = g.n }

abbrev pub bump : RefGen → RefGen
bump g = record g { n = g.n + 1 }

-- What the layout constructs leave alone: the core program, its scope and the order of its digest.
abbrev pub SameCore : RefGen → RefGen → Type 0
SameCore g g' = (g'.scope ≡ g.scope) × (g'.order ≡ g.order) × (g'.stmts ≡ g.stmts)
