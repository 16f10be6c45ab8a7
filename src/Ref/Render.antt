-- ===== src/Ref/Render.antt =====
-- The `render` methods, `_fold` and `source` of tools/fuzz/mcref.py: the MC text of a program.
use modern_c.Prelude.{
  ℕ, zero, suc, ◌+◌, String, Option, none, some, All, ◌≡◌, refl, List, [], ◌∷◌, ◌++◌, map, cat,
  join, decimal,
}
use modern_c.Ref.Types.{
  RefType, Kind, plain, uint, wrap_of, sat_of, usize, bits, width, kind, Ident, Prefix, v, j,
}
use modern_c.Ref.Scope.{Scope, type_of}
use modern_c.Ref.Syntax.{
  Op, add, sub, mul, band, bor, bxor, CmpOp, lt, le, gt, ge, eq, ne, BoolOp, both, either, Source,
  fold_of, number, Expr, lit, var, wadd, bitwise, shr, conv, dom_bin, dom_shr, Cond, cmp, bool_bin,
  Stmt, decl, assign, branch, loop, early_ret, Block, end, ◌⨾◌,
}
use modern_c.Ref.Gen.State.{RefGen}

-- The keys of `REF_TYPES`.
pub type_name : RefType → String
type_name (uint w) = cat ("u" ∷ decimal (bits w) ∷ [])
type_name (wrap_of w) = cat ("wrap<u" ∷ decimal (bits w) ∷ ">" ∷ [])
type_name (sat_of w) = cat ("sat<u" ∷ decimal (bits w) ∷ ">" ∷ [])
type_name usize = "usize"

pub prefix_name : Prefix → String
prefix_name v = "v"
prefix_name j = "j"

pub name_of : Ident → String
name_of n = cat (prefix_name n.prefix ∷ decimal n.number ∷ [])

pub fold_kind : Kind → ℕ → String → String
fold_kind plain w n = cat ("((" ∷ n ∷ ") as u64)" ∷ [])
fold_kind _ w n = cat ("((u" ∷ decimal w ∷ ".wrap_from(" ∷ n ∷ ")) as u64)" ∷ [])

-- `_fold(name, rt)`.
pub fold_text : Ident → RefType → String
fold_text n rt = fold_kind (kind rt) (width rt) (name_of n)

pub op_name : Op → String
op_name add = "+"
op_name sub = "-"
op_name mul = "*"
op_name band = "&"
op_name bor = "|"
op_name bxor = "^"

pub cmp_name : CmpOp → String
cmp_name lt = "<"
cmp_name le = "<="
cmp_name gt = ">"
cmp_name ge = ">="
cmp_name eq = "=="
cmp_name ne = "!="

pub bool_name : BoolOp → String
bool_name both = "&&"
bool_name either = "||"

pub render_source : Source → String
render_source (fold_of n rt) = fold_text n rt
render_source (number x) = decimal x

-- `"(%s %s %s)" % (a, op, b)`.
abbrev pub infix_text : String → String → String → String
infix_text a op b = cat ("(" ∷ a ∷ " " ∷ op ∷ " " ∷ b ∷ ")" ∷ [])

pub render_expr : Expr → String
render_expr (lit x rt) = decimal x
render_expr (var n rt) = name_of n
render_expr (wadd a b rt) = cat ("wrapping.add(" ∷ render_expr a ∷ ", " ∷ render_expr b ∷ ")" ∷ [])
render_expr (bitwise op a b rt) = infix_text (render_expr a) (op_name op) (render_expr b)
render_expr (shr a k rt) = infix_text (render_expr a) ">>" (decimal k)
render_expr (conv rt src) = cat (type_name rt ∷ ".wrap_from(" ∷ render_source src ∷ ")" ∷ [])
render_expr (dom_bin op a b rt) = infix_text (render_expr a) (op_name op) (render_expr b)
render_expr (dom_shr a k rt) = infix_text (render_expr a) ">>" (decimal k)

pub render_cond : Cond → String
render_cond (cmp op a b) = infix_text (render_expr a) (cmp_name op) (render_expr b)
render_cond (bool_bin op a b) = infix_text (render_cond a) (bool_name op) (render_cond b)

-- `"    " * ind`.
pub pad : ℕ → String
pad zero = ""
pad (suc k) = cat ("    " ∷ pad k ∷ [])

mutual
  pub render_stmt : ℕ → Stmt → List String
  render_stmt ind (decl n rt e) =
      cat (pad ind ∷ "var " ∷ name_of n ∷ ": " ∷ type_name rt ∷ " = " ∷ render_expr e ∷ ";" ∷ [])
      ∷ []
  render_stmt ind (assign n e) = cat (pad ind ∷ name_of n ∷ " = " ∷ render_expr e ∷ ";" ∷ []) ∷ []
  render_stmt ind (branch c t e) =
      cat (pad ind ∷ "if " ∷ render_cond c ∷ " {" ∷ [])
      ∷ (render_block (ind + 1) t
          ++ (cat (pad ind ∷ "} else {" ∷ [])
              ∷ (render_block (ind + 1) e ++ cat (pad ind ∷ "}" ∷ []) ∷ [])))
  render_stmt ind (loop n bound body) =
      cat (pad ind ∷ "var " ∷ name_of n ∷ ": u64 = 0;" ∷ [])
      ∷ (cat (pad ind ∷ "while " ∷ name_of n ∷ " < " ∷ decimal bound ∷ " {" ∷ [])
          ∷ (cat (pad ind ∷ "    " ∷ name_of n ∷ " = " ∷ name_of n ∷ " + 1;" ∷ [])
              ∷ (render_block (ind + 1) body ++ cat (pad ind ∷ "}" ∷ []) ∷ [])))
  render_stmt ind (early_ret c src) =
      cat (pad ind ∷ "if " ∷ render_cond c ∷ " { return " ∷ render_source src ∷ "; }" ∷ []) ∷ []

  pub render_block : ℕ → Block → List String
  render_block ind end = []
  render_block ind (st ⨾ b) = render_stmt ind st ++ render_block ind b

-- `acc = terms[0] if terms else "0"`, and each further term by `(acc ^ term)`.
pub xor_texts : String → List String → String
xor_texts acc [] = acc
xor_texts acc (t ∷ ts) = xor_texts (cat ("(" ∷ acc ∷ " ^ " ∷ t ∷ ")" ∷ [])) ts

pub digest_text : List String → String
digest_text [] = "0"
digest_text (t ∷ ts) = xor_texts t ts

-- `[_fold(n, self.scope[n]) for n in self.order]`: `none` is the `KeyError`.
pub order_terms : Scope → List Ident → Option (List String)
order_terms s [] = some []
order_terms s (n ∷ ns) = elim (type_of s n) [
  | none ↦ none
  | some rt ↦ elim (order_terms s ns) [ none ↦ none | some ts ↦ some (fold_text n rt ∷ ts) ]
]

pub source_lines : RefGen → List String → List String
source_lines g terms =
    "// Generated by tools/fuzz/mcref.py — reference-interpreter oracle (G1)."
    ∷ (g.pre_decls
        ++ ("fn ref_core() -> u64 {"
            ∷ (render_block 1 g.stmts
                ++ (cat ("    return " ∷ digest_text terms ∷ ";" ∷ [])
                    ∷ ("}"
                        ∷ ("fn ref_extra() -> u64 {"
                            ∷ (g.extra_body
                                ++ (cat (
                                      "    return "
                                      ∷ digest_text (map (λ (n, x). n) g.extra_terms)
                                      ∷ ";"
                                      ∷ [])
                                    ∷ ("}"
                                        ∷ ("export fn harness() -> u64 {"
                                            ∷ ("    return (ref_core() ^ ref_extra());"
                                                ∷ ("}" ∷ []))))))))))))

pub source : RefGen → Option String
source g = elim (order_terms g.scope g.order) [
  | none ↦ none
  | some terms ↦ some (cat (join "\n" (source_lines g terms) ∷ "\n" ∷ []))
]

order_terms_total :
    (s : Scope) (ns : List Ident)
    → All (λ n. (rt : RefType) × (type_of s n ≡ some rt)) ns
    → (ts : List String) × (order_terms s ns ≡ some ts)
unfolding order_terms
order_terms_total s [] h = ([], refl)
order_terms_total s (n ∷ ns) ((rt, p), h) =
    let (ts, q) = order_terms_total s ns h in (fold_text n rt ∷ ts, rw (p, q, order_terms))

-- A text is written wherever the order names variables of the scope.
pub source_total :
    (g : RefGen)
    → All (λ n. (rt : RefType) × (type_of g.scope n ≡ some rt)) g.order
    → (t : String) × (source g ≡ some t)
unfolding source
source_total g h =
    let (ts, p) = order_terms_total g.scope g.order h in
    (cat (join "\n" (source_lines g ts) ∷ "\n" ∷ []), rw (p, source))
