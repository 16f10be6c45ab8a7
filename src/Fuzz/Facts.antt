-- ===== src/Fuzz/Facts.antt =====
-- The checked-trap facts of tools/fuzz/mcfuzz.py: `_checked_fact_traps` and
-- `_check_checked_facts_reach_ir`.
pub mod Rows
pub mod Reach
use modern_c.Prelude.{
  String, Bool, true, false, ◌||◌, List, [], ◌∷◌, Option, none, some, ◌⊎◌, inl, inr, starts_with,
  if◌then◌else◌,
}
use modern_c.Fuzz.Result.{◌>>=◌}
use modern_c.Fuzz.Keys.{splitlines}
use modern_c.Fuzz.Edges.{
  Key, Edges, Complaint, fact_missing, fact_position, fact_without_edge, row_key, has_key,
  parse_trap_edges,
}

abbrev pub is_trap_fact : String → Bool
is_trap_fact line =
    starts_with line "fact checked_arithmetic_trap " || starts_with line "fact checked_shift_trap "

unfoldable pub fact_lines : List String → Complaint ⊎ List Key
unfolding row_key
fact_lines [] = inr []
fact_lines (line ∷ lines) =
    let rest = fact_lines lines in
    if is_trap_fact line
    then (do
      k ← row_key line "trap" (fact_missing line) (fact_position line)
      ks ← rest
      inr (k ∷ ks))
    else rest

-- `_checked_fact_traps(facts_text)`.
unfoldable pub checked_fact_traps : String → Complaint ⊎ List Key
unfolding fact_lines splitlines
checked_fact_traps text = fact_lines (splitlines text)

-- The first fact without an edge.
unfoldable pub facts_in : List Key → List Key → Option Complaint
unfolding has_key
facts_in [] edges = none
facts_in (k ∷ ks) edges =
    let rest = facts_in ks edges in if has_key k edges then rest else some (fact_without_edge k)

unfoldable pub compare_facts : Complaint ⊎ List Key → Complaint ⊎ Edges → Option Complaint
unfolding facts_in
compare_facts (inl c) r = some c
compare_facts (inr facts) (inl c) = some c
compare_facts (inr facts) (inr e) = facts_in facts e.edge_keys

-- `_check_checked_facts_reach_ir(facts_text, ir_text)`.
unfoldable pub check_checked_facts_reach_ir : String → String → Option Complaint
unfolding checked_fact_traps parse_trap_edges compare_facts
check_checked_facts_reach_ir facts_text ir_text =
    compare_facts (checked_fact_traps facts_text) (parse_trap_edges "ir" ir_text)
