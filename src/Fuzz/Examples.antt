-- ===== src/Fuzz/Examples.antt =====
-- Tests of the model of tools/fuzz/mcfuzz.py, and its theorems at concrete inputs.
use modern_c.Prelude.{
  inr, ◌≡◌, refl, ◌↔◌, String, true, List, [], ◌∷◌, Option, none, some, join, split, has, same_text,
  if◌then◌else◌,
}
use modern_c.Fuzz.Keys.{splitlines}
use modern_c.Fuzz.Shrink.{
  shrink_source, shrink_lines, shrink_loop, shrink_pass, still_fails, without_line,
}
use modern_c.Fuzz.Shrink.Laws.{Sublist, Minimal, shrink_source-Minimal}
use modern_c.Fuzz.Result.{◌>>=◌, need}
use modern_c.Fuzz.Rows.{parse_kv}
use modern_c.Fuzz.Numbers.{ℤ, pos, negsuc, to_int}
use modern_c.Fuzz.Edges.{
  Edges, count_differs, check_trap_edge_counts, parse_trap_edges, parse_line, parse_lines,
}
use modern_c.Fuzz.Edges.Agree.{Agree, check_trap_edge_counts-Agree}
use modern_c.Fuzz.Facts.{
  check_checked_facts_reach_ir, checked_fact_traps, compare_facts, fact_lines,
}
use modern_c.Fuzz.Facts.Reach.{AllReached, check_checked_facts_reach_ir_iff}
use modern_c.Fuzz.MapFile.{
  check_emit_map, check_parsed, check_entries, entry_complaint, then_check, named,
  parse_mcmap_entries,
}
use modern_c.Fuzz.MapFile.Accepted.{AcceptedMap, check_emit_map_iff}
use modern_c.Fuzz.Artifacts.{
  Process, completed, timeout_expired, hangs, oracle_artifacts, check_artifacts, check_map_of,
  first_finding, run_required_stage,
}
use modern_c.Fuzz.Differential.{Ran, Built, trapsite_outcome, differential_compare, oracle_trapsite}
use modern_c.Fuzz.Differential.Outcome.{SameOutcome}
use modern_c.Fuzz.Differential.Agreement.{
  SameRun, SameBuild, differential_compare_iff, oracle_trapsite_iff,
}
use modern_c.Fuzz.Reference.{compare_value, value_differs}
use modern_c.Fuzz.Reference.Verdict.{Verdict}
use modern_c.Fuzz.Artifacts.Consistent.{Consistent, oracle_artifacts-Consistent}

parse_kv_test :
    parse_kv "ir trap_edge fn=f kind=\"a\\\"b \\x41\" line=12"
    ≡ ("fn", "f") ∷ ("kind", "a\"b A") ∷ ("line", "12") ∷ []
unfolding parse_kv
parse_kv_test = refl

to_int_test : (to_int " -1_0 " ≡ some (negsuc 9)) × (to_int "1__0" ≡ none) × (to_int "" ≡ none)
unfolding to_int
to_int_test = (refl, refl, refl)

-- The oracle finds a crash in every program with a line `b`.
abbrev crash : String → Option String
crash source = if has "b" (split b'\n' source) then some "mcc check CRASHED (signal 11)" else none

abbrev bucket : String → String
bucket finding = "crash:mcc-check:signal-11"

shrink_source_test : shrink_source crash bucket "crash:mcc-check:signal-11" "a\nb\nc" ≡ some "b"
unfolding shrink_source shrink_lines shrink_loop shrink_pass still_fails without_line has split join
shrink_source_test = refl

shrink_source-Minimal_example :
    (r : List String) × (shrink_source crash bucket "crash:mcc-check:signal-11" "a\nb\nc"
      ≡ some (join "\n" r))
    × Minimal crash bucket "crash:mcc-check:signal-11" r
    × Sublist r (split b'\n' "a\nb\nc")
unfolding has split
shrink_source-Minimal_example =
    shrink_source-Minimal crash bucket "crash:mcc-check:signal-11" "a\nb\nc"
      "mcc check CRASHED (signal 11)" refl refl

abbrev mir_text : String
mir_text =
    "mir function name=harness trap_edges=1\nmir trap_edge fn=harness kind=overflow line=3 column=7"

abbrev ir_text : String
ir_text =
    "ir function name=harness trap_edges=1\nir trap_edge fn=harness kind=overflow line=3 column=7"

abbrev facts_text : String
facts_text = "fact checked_arithmetic_trap fn=harness trap=overflow line=3 column=7"

abbrev map_text : String
map_text =
    "# mcmap v1\nentry kind=function symbol=harness source_line=1 source_column=1 source_len=9 source_path=p.mc typed_ast_node=n1 mir_block=mir:harness:0 visibility=exported origin=source"

abbrev compiler : String → Process
compiler stage =
    if same_text stage "facts"
    then completed (pos 0) facts_text ""
    else if same_text stage "lower-mir"
    then completed (pos 0) mir_text ""
    else if same_text stage "inspect-ir"
    then completed (pos 0) ir_text ""
    else completed (pos 0) map_text ""

count_differs_test :
    check_trap_edge_counts
      "mir function name=f trap_edges=2\nmir trap_edge fn=f kind=k line=1 column=1" "mir"
    ≡ some (count_differs "f" (pos 2) 1)
unfolding check_trap_edge_counts parse_lines parse_line ◌>>=◌ need
count_differs_test = refl

hangs_test : oracle_artifacts (λ stage. timeout_expired) "p.mc" ≡ some (hangs "facts")
unfolding oracle_artifacts run_required_stage
hangs_test = refl

mir_checked : check_trap_edge_counts mir_text "mir" ≡ none
unfolding check_trap_edge_counts parse_lines parse_line ◌>>=◌ need
mir_checked = refl

check_trap_edge_counts-Agree_example : (e : Edges) × Agree "mir" mir_text e
check_trap_edge_counts-Agree_example = check_trap_edge_counts-Agree mir_text "mir" mir_checked

check_checked_facts_reach_ir_iff_example :
    (check_checked_facts_reach_ir facts_text ir_text ≡ none) ↔ (
      (e : Edges) × (parse_trap_edges "ir" ir_text ≡ inr e)
      × AllReached ir_text (splitlines facts_text))
check_checked_facts_reach_ir_iff_example = check_checked_facts_reach_ir_iff facts_text ir_text

check_emit_map_iff_example :
    (check_emit_map "p.mc" (same_text "harness") map_text ≡ none)
    ↔ AcceptedMap "p.mc" (same_text "harness") (parse_mcmap_entries map_text)
check_emit_map_iff_example = check_emit_map_iff "p.mc" (same_text "harness") map_text

oracle_passes : oracle_artifacts compiler "p.mc" ≡ none
unfolding oracle_artifacts check_artifacts check_map_of first_finding run_required_stage
    check_trap_edge_counts parse_lines parse_line ◌>>=◌ need check_checked_facts_reach_ir
    checked_fact_traps compare_facts fact_lines check_emit_map check_parsed check_entries
    entry_complaint then_check named has
oracle_passes = refl

oracle_artifacts-Consistent_example : Consistent compiler "p.mc"
oracle_artifacts-Consistent_example = oracle_artifacts-Consistent compiler "p.mc" oracle_passes

abbrev trapping : Built
trapping = record {
  c_error = none;
  llvm_accepts = true;
  llvm_built = true;
  c_linked = true;
  llvm_linked = true;
  c_ran = record { returncode = pos 44; stdout = "" };
  llvm_ran = record { returncode = pos 44; stdout = "" };
}

trapsite_outcome_test :
    (trapsite_outcome (λ s. s) trapping.c_ran ≡ "trap:IntegerOverflow")
    × (trapsite_outcome (λ s. s) (record { returncode = negsuc 5; stdout = "" }) ≡ "status:-6")
    × (trapsite_outcome (λ s. s) (record { returncode = pos 0; stdout = "7\n" }) ≡ "ok:7")
unfolding trapsite_outcome
trapsite_outcome_test = (refl, refl, refl)

differential_compare_iff_example :
    (differential_compare trapping ≡ none) ↔ SameBuild SameRun trapping
differential_compare_iff_example = differential_compare_iff trapping

oracle_trapsite_iff_example :
    (oracle_trapsite (λ s. s) none none trapping ≡ none) ↔ SameBuild (SameOutcome (λ s. s)) trapping
oracle_trapsite_iff_example = oracle_trapsite_iff (λ s. s) trapping

abbrev accepts : String → ℤ
accepts src = pos 0

abbrev prints_seven : String → Option Ran
prints_seven src = some (record { returncode = pos 0; stdout = "7\n" })

compare_value_test :
    (compare_value 7 (prints_seven "") ≡ none)
    × (compare_value 8 (prints_seven "") ≡ some (value_differs 8 "7"))
unfolding compare_value
compare_value_test = (refl, refl)
