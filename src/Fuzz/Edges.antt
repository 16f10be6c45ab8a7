-- ===== src/Fuzz/Edges.antt =====
-- The trap edges of the compiler's artifacts in tools/fuzz/mcfuzz.py: `_parse_trap_edges`,
-- `_check_trap_edge_counts`, `_checked_fact_traps` and `_check_checked_facts_reach_ir`. A complaint is
-- a constructor with what the message names.
pub mod Counts
pub mod Agree
use modern_c.Prelude.{
  ℕ, zero, suc, ◌+◌, String, Bool, true, false, ◌&&◌, ◌||◌, not, List, [], ◌∷◌, ◌++◌, Option, none,
  some, ◌⊎◌, inl, inr, cat, same_text, starts_with, ◌==◌, if◌then◌else◌,
}
use modern_c.Fuzz.Result.{◌>>=◌, need}
use modern_c.Fuzz.Keys.{splitlines}
use modern_c.Fuzz.Rows.{get, put, parse_kv}
use modern_c.Fuzz.Numbers.{ℤ, pos, to_int, same_int}

-- A trap edge: function, kind, line and column.
pub record Key : Type 0 where
  pub fn : String
  pub kind : String
  pub line : ℤ
  pub column : ℤ

abbrev pub same_key : Key → Key → Bool
same_key a b =
    same_text a.fn b.fn
    && same_text a.kind b.kind
    && same_int a.line b.line
    && same_int a.column b.column

unfoldable pub has_key : Key → List Key → Bool
has_key k [] = false
has_key k (j ∷ js) = same_key k j || has_key k js

pub data Complaint : Type 0 where
  function_row_missing : String → Complaint
  function_row_count : String → String → Complaint
  edge_row_missing : String → Complaint
  edge_row_position : String → Complaint
  unknown_function : String → Complaint
  count_differs : String → ℤ → ℕ → Complaint
  fact_missing : String → Complaint
  fact_position : String → Complaint
  fact_without_edge : Key → Complaint

-- `functions`, `edges` and `edge_keys`; of the set only membership is used.
pub record Edges : Type 0 where
  pub functions : List (String × ℤ)
  pub edges : List (String × ℕ)
  pub edge_keys : List Key

abbrev pub no_edges : Edges
no_edges = record { functions = []; edges = []; edge_keys = [] }

-- `edges.get(name, 0)`.
abbrev pub or_zero : Option ℕ → ℕ
or_zero none = 0
or_zero (some n) = n

-- `edges.setdefault(name, 0)`.
abbrev pub set_default : String → List (String × ℕ) → List (String × ℕ)
set_default name d = put name (or_zero (get name d)) d

-- What a row gives for a key that must be there and must not be empty.
abbrev pub non_empty : Option String → Option String
non_empty none = none
non_empty (some s) = if same_text s "" then none else some s

abbrev pub required : String → List (String × String) → Option String
required k kv = non_empty (get k kv)

-- `prefix + " function "` rows.
unfoldable pub function_row : String → Edges → Complaint ⊎ Edges
unfolding parse_kv get put to_int
function_row line e = do
  let kv = parse_kv line
  name ← need (function_row_missing line) (required "name" kv)
  count ← need (function_row_missing line) (get "trap_edges" kv)
  n ← need (function_row_count name count) (to_int count)
  inr (record {
    functions = put name n e.functions;
    edges = set_default name e.edges;
    edge_keys = e.edge_keys;
  })

-- The trap edge of a row, with the key of its kind and the complaints of the caller.
unfoldable pub row_key : String → String → (missing bad : Complaint) → Complaint ⊎ Key
unfolding parse_kv get to_int
row_key line kind_key missing bad = do
  let kv = parse_kv line
  fn ← need missing (required "fn" kv)
  kind ← need missing (required kind_key kv)
  line_no ← need missing (get "line" kv)
  column ← need missing (get "column" kv)
  l ← need bad (to_int line_no)
  c ← need bad (to_int column)
  inr (record { fn = fn; kind = kind; line = l; column = c })

abbrev pub add_edge : Key → Edges → Edges
add_edge k e = record {
  functions = e.functions;
  edges = put k.fn (or_zero (get k.fn e.edges) + 1) e.edges;
  edge_keys = k ∷ e.edge_keys;
}

-- `prefix + " trap_edge "` rows.
unfoldable pub edge_row : String → Edges → Complaint ⊎ Edges
unfolding row_key put get
edge_row line e = do
  k ← row_key line "kind" (edge_row_missing line) (edge_row_position line)
  inr (add_edge k e)

module _ (prefix : String) where
  abbrev pub is_function_row : String → Bool
  is_function_row line = starts_with line (cat (prefix ∷ " function " ∷ []))

  abbrev pub is_edge_row : String → Bool
  is_edge_row line = starts_with line (cat (prefix ∷ " trap_edge " ∷ []))

  unfoldable pub parse_line : String → Edges → Complaint ⊎ Edges
  unfolding function_row edge_row cat
  parse_line line e =
      if is_function_row line
      then function_row line e
      else if is_edge_row line
      then edge_row line e
      else inr e

  unfoldable pub parse_lines : List String → Edges → Complaint ⊎ Edges
  unfolding parse_line
  parse_lines [] e = inr e
  parse_lines (line ∷ lines) e = parse_line line e >>= parse_lines lines

  -- `_parse_trap_edges(text, prefix)`.
  unfoldable pub parse_trap_edges : String → Complaint ⊎ Edges
  unfolding parse_lines splitlines
  parse_trap_edges text = parse_lines (splitlines text) no_edges

-- The first edge whose function has no row.
unfoldable pub known_functions : List (String × ℕ) → List (String × ℤ) → Option Complaint
unfolding get
known_functions [] fs = none
known_functions ((fn, n) ∷ es) fs = elim (get fn fs) [
  | none ↦ some (unknown_function fn)
  | some x ↦ known_functions es fs
]

-- The first function whose count is not that of its edges.
unfoldable pub declared_counts : List (String × ℤ) → List (String × ℕ) → Option Complaint
unfolding get
declared_counts [] es = none
declared_counts ((fn, n) ∷ fs) es = elim (same_int (pos (or_zero (get fn es))) n) [
  | false ↦ some (count_differs fn n (or_zero (get fn es)))
  | true ↦ declared_counts fs es
]

-- The first complaint of two checks.
abbrev pub first_of : Option Complaint → Option Complaint → Option Complaint
first_of none c = c
first_of (some c) d = some c

unfoldable pub check_edges : Complaint ⊎ Edges → Option Complaint
unfolding known_functions declared_counts
check_edges (inl c) = some c
check_edges (inr e) =
    first_of (known_functions e.edges e.functions) (declared_counts e.functions e.edges)

-- `_check_trap_edge_counts(text, prefix)`.
unfoldable pub check_trap_edge_counts : String → String → Option Complaint
unfolding parse_trap_edges check_edges
check_trap_edge_counts text prefix = check_edges (parse_trap_edges prefix text)
