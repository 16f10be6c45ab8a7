-- ===== src/Gates/Route.antt =====
-- The two routes of tools/dev-gates.py that go by the content of a file: `host_manifest_gates` and
-- `spec_fixture_gates`. A file is what reading it gives: its lines, or nothing where that fails.
use modern_c.Prelude.{
  ℕ, zero, suc, String, true, false, ◌&&◌, ◌||◌, List, [], ◌∷◌, ◌++◌, map, Option, none, some, cat,
  split, drop, lstrip, rstrip, strip, has, same_text, starts_with, if◌then◌else◌,
}

-- Gates, and the reasons for them.
abbrev pub Advice : Type 0
Advice = List String × List String

pub row_reason : String → String → String
unfolding cat
row_reason path name = cat (
    path ∷ " is owned by tools/lib/host-tests.tsv row " ∷ name
    ∷ "; run the exact host-harness gate instead of broad QEMU/freestanding confidence tiers" ∷ [])

-- One row of the manifest: `none` where the loop goes on to the next.
pub manifest_row : String → List String → Option Advice
unfolding row_reason cat
manifest_row path (name ∷ fixture ∷ mode ∷ more) =
    let driver = cat ("tools/lib/host-drivers/" ∷ name ∷ ".c" ∷ []) in
    if same_text fixture path || (same_text mode "driver" && same_text driver path)
    then some (name ∷ [], row_reason path name ∷ [])
    else none
manifest_row path _ = none

pub manifest_line : String → String → Option Advice
unfolding manifest_row lstrip rstrip split
manifest_line path line =
    let stripped = strip line in
    if same_text stripped "" || starts_with stripped "#"
    then none
    else manifest_row path (split b'\t' stripped)

pub manifest_rows : String → List String → Advice
unfolding manifest_line
manifest_rows path [] = ([], [])
manifest_rows path (line ∷ lines) = elim (manifest_line path line) [
  | none ↦ manifest_rows path lines
  | some advice ↦ advice
]

-- `host_manifest_gates(path)`, over the content of tools/lib/host-tests.tsv.
unfoldable pub host_manifest_gates : Option (List String) → String → Advice
unfolding manifest_rows
host_manifest_gates manifest path =
    if starts_with path "tests/qemu/" || starts_with path "tools/lib/host-drivers/"
    then elim manifest [ none ↦ ([], []) | some lines ↦ manifest_rows path lines ]
    else ([], [])

abbrev pub phase_prefix : String
phase_prefix = "// SPEC: phase="

-- The gates and reasons that the phases of a fixture add.
pub phase_gates : List String → Advice
unfolding has
phase_gates phases =
    let sweeps = has "lower-c" phases in
    let llvm = has "lower-ir" phases || has "llvm" phases in
    (
      (if sweeps then "sweep" ∷ [] else []) ++ (if llvm then "llvm-sweep" ∷ [] else []),
      (if sweeps
            then "lower-c spec fixtures need the spec emit-C sweep, not the tests/c_emit c-test corpus"
              ∷ []
            else [])
          ++ (if llvm then "lower-ir/LLVM spec fixtures need the spec LLVM IR sweep" ∷ [] else []),
    )

-- The phases of the first of `n` lines that names them.
pub spec_phases : ℕ → List String → Option (List String)
unfolding lstrip rstrip split drop
spec_phases zero lines = none
spec_phases (suc n) [] = none
spec_phases (suc n) (line ∷ lines) = elim (starts_with (strip line) phase_prefix) [
  | true ↦ some (map strip (split b',' (drop 15 (strip line))))
  | false ↦ spec_phases n lines
]

abbrev pub spec_reason : String
spec_reason =
    "spec fixture metadata and inline EXPECT contracts are checked by compiler unit/spec tests"

abbrev pub no_phase_reason : String
no_phase_reason =
    "missing or unreadable SPEC phase metadata defaults to the conservative unit/spec gate"

pub spec_advice : Option (List String) → Advice
unfolding phase_gates
spec_advice none = ("test" ∷ [], spec_reason ∷ no_phase_reason ∷ [])
spec_advice (some phases) =
    let (gates, reasons) = phase_gates phases in ("test" ∷ gates, spec_reason ∷ reasons)

-- `spec_fixture_gates(path)`, over the content of the fixture.
unfoldable pub spec_fixture_gates : Option (List String) → Advice
unfolding spec_phases spec_advice
spec_fixture_gates source =
    spec_advice (elim source [ none ↦ none | some lines ↦ spec_phases 20 lines ])
