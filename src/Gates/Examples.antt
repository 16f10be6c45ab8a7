-- ===== src/Gates/Examples.antt =====
-- Tests of the model of tools/dev-gates.py, and its theorems at concrete inputs.
use modern_c.Prelude.{
  ◌||◌, ◌&&◌, String, true, false, List, [], ◌∷◌, ◌≡◌, refl, ◌↔◌, Option, none, some, is_cons, has,
  same_text, if◌then◌else◌,
}
use modern_c.Gates.Match.{matches, path_match}
use modern_c.Gates.Rule.{Rule, takes}
use modern_c.Gates.Rules.{all_rules}
use modern_c.Gates.Route.{host_manifest_gates, spec_fixture_gates}
use modern_c.Gates.Select.{
  select_gates, finish, add_paths, add_path, add_rules, add_rule, add_advice, add_all, add_new,
}
use modern_c.Gates.Select.Wants.{wants_paths}
use modern_c.Gates.Select.Laws.{
  expected, select_gates-eq-expected, OnceEach, select_gates-OnceEach, rule_gate-selected,
}
use modern_c.Gates.Run.Files.{
  printed, printed_base, cached, unstaged_diff, others, changed_files-has,
}
use modern_c.Gates.Run.{
  Git, base_files, changed_files, update_files, run_git, clean_lines, sorted_set, insert_path, Code,
  exited, succeeded, run_focused_commands, focused_run_commands,
}
use modern_c.Gates.Run.Laws.{
  AllSucceed, commands-select_gates, run_focused_commands_iff, run_focused_commands-append,
}

matches_test :
    (matches "std/addr.mc" "std/**/*" ≡ false) × (matches "std/alloc/arena.mc" "std/**/*" ≡ true)
unfolding matches
matches_test = (refl, refl)

-- A Markdown file brings a check only; a file right under `std` has no rule, and gets the default.
select_gates_test :
    ((select_gates all_rules none (λ p. none) ("src/async_lower.zig" ∷ "README.md" ∷ [])).gates
      ≡ "test" ∷ "diagnostics-reference-test" ∷ "diagnostic-code-inventory-test" ∷ "c-test"
        ∷ "diff-backend" ∷ "fuzz-async" ∷ "fuzz-corpus" ∷ [])
    × ((select_gates all_rules none (λ p. none) ("src/async_lower.zig" ∷ "README.md" ∷ [])).checks
        ≡ "git diff --check" ∷ [])
    × ((select_gates all_rules none (λ p. none) ("std/addr.mc" ∷ [])).gates ≡ "test" ∷ [])
unfolding select_gates finish add_paths add_path add_rules add_rule add_advice add_all add_new takes
    path_match host_manifest_gates spec_fixture_gates all_rules
select_gates_test = (refl, refl, refl)

abbrev manifest : Option (List String)
manifest = some ("# name fixture mode" ∷ "ring\ttests/qemu/ring.mc\tdriver" ∷ [])

abbrev fixture : String → Option (List String)
fixture path = some ("// SPEC: phase=parse, lower-c" ∷ [])

route_test :
    ((select_gates all_rules manifest fixture ("tests/qemu/ring.mc" ∷ [])).gates ≡ "ring" ∷ [])
    × ((select_gates all_rules manifest fixture ("tests/spec/a.mc" ∷ [])).gates
        ≡ "test" ∷ "sweep" ∷ [])
unfolding select_gates finish add_paths add_path add_rules add_rule add_advice add_all add_new takes
    path_match host_manifest_gates spec_fixture_gates all_rules
route_test = (refl, refl)

abbrev changed : List String
changed = "src/lexer.zig" ∷ "tests/spec/a.mc" ∷ "README.md" ∷ []

select_gates-eq-expected_example :
    select_gates all_rules manifest fixture changed
    ≡ expected changed (wants_paths all_rules manifest fixture changed)
select_gates-eq-expected_example = select_gates-eq-expected all_rules manifest fixture changed

select_gates-OnceEach_example : OnceEach (select_gates all_rules manifest fixture changed)
select_gates-OnceEach_example = select_gates-OnceEach all_rules manifest fixture changed

abbrev corpus_rule : Rule
corpus_rule = record {
  patterns = "tools/fuzz/corpus/*.mc" ∷ [];
  gates = "fuzz-corpus" ∷ [];
  reason = "persisted mcfuzz regression corpus changes need corpus replay";
  checks = [];
  excludes = [];
}

rule_gate-selected_example :
    has "fuzz-corpus"
      (select_gates
        (corpus_rule ∷ all_rules)
        manifest
        fixture
        ("README.md" ∷ "tools/fuzz/corpus/a.mc" ∷ [])).gates
    ≡ true
unfolding has path_match host_manifest_gates takes
rule_gate-selected_example =
    rule_gate-selected [] corpus_rule all_rules manifest fixture
      ("README.md" ∷ "tools/fuzz/corpus/a.mc" ∷ []) "tools/fuzz/corpus/a.mc" "fuzz-corpus" refl refl
      refl refl refl

commands-select_gates_example :
    is_cons (
      focused_run_commands
        (select_gates all_rules manifest fixture ("std/addr.mc" ∷ [])).gates
        (select_gates all_rules manifest fixture ("std/addr.mc" ∷ [])).checks)
    ≡ true
commands-select_gates_example = commands-select_gates all_rules manifest fixture "std/addr.mc" []

-- The state is the list of the commands that ran; the command `false` fails.
abbrev shell : String → List String → Code × List String
shell c log = (if same_text c "false" then exited 1 else exited 0, c ∷ log)

run_focused_commands_iff_example :
    (succeeded (run_focused_commands shell ("true" ∷ "make" ∷ []) []).0 ≡ true)
    ↔ AllSucceed shell ("true" ∷ "make" ∷ []) []
run_focused_commands_iff_example = run_focused_commands_iff shell ("true" ∷ "make" ∷ []) []

run_focused_commands-append_example :
    run_focused_commands shell ("true" ∷ "false" ∷ "make" ∷ []) []
    ≡ (exited 1, "false" ∷ "true" ∷ [])
run_focused_commands-append_example =
    run_focused_commands-append shell ("true" ∷ []) "false" ("make" ∷ []) [] (refl, tt) refl

-- A repository with one staged file and one that is changed and staged.
abbrev repository : Git
repository args =
    if has "--cached" args then some ("b.mc" ∷ " a.mc " ∷ "" ∷ []) else some ("a.mc" ∷ [])

empty_base_test : changed_files repository (some "") false false false ≡ some []
unfolding changed_files base_files update_files sorted_set
empty_base_test = refl

staged_files : changed_files repository none true true false ≡ some ("a.mc" ∷ "b.mc" ∷ [])
unfolding changed_files base_files update_files run_git clean_lines sorted_set insert_path has
staged_files = refl

changed_files-has_example : has "b.mc" ("a.mc" ∷ "b.mc" ∷ []) ≡ (
    printed_base repository "b.mc" none
    || ((true || false) && printed repository "b.mc" cached)
    || ((true || false)
        && (printed repository "b.mc" unstaged_diff || printed repository "b.mc" others)))
changed_files-has_example =
    changed_files-has repository "b.mc" none true true false ("a.mc" ∷ "b.mc" ∷ []) staged_files
