-- ===== src/PassGates/Check.antt =====
-- `check_static` of tools/ci/pass-gates.py: the manifest, the build tiers and the CI workflow agree.
pub mod Deps
pub mod Wired
use modern_c.Prelude.{
  ℕ, String, Bool, true, false, not, List, [], ◌∷◌, Option, none, some, ltb, length, is_cons, has,
  same_text, minus, mentions, ◌⊎◌, inl, inr, if◌then◌else◌,
}
use modern_c.Fuzz.Result.{◌>>=◌}
use modern_c.Json.{Json}
use modern_c.PassGates.Scan.{
  Failure, empty_array, below_floor, unsupported_build_tier, not_dependencies, missing_snippet,
  stale_snippet, names_in_array, m0_dependencies,
}
use modern_c.PassGates.Manifest.{
  require, require_unique, read, ci_pass_assertion_names, ci_pass_assertion_build_tier,
  require_manifest_count_floor,
}

-- `ARRAYS` and `MIN_GATE_COUNTS`, which are empty.
abbrev pub arrays : List (String × String)
arrays = []

abbrev pub min_gate_counts : List (String × ℕ)
min_gate_counts = []

abbrev pub min_m0_dependencies : ℕ
min_m0_dependencies = 14

abbrev pub tiers_path : String
tiers_path = "build/tiers.zig"

abbrev pub ci_path : String
ci_path = ".github/workflows/ci.yml"

abbrev pub required_snippets : List String
required_snippets =
    "python3 tools/ci/pass-gates.py assert --tier ci-m0-pass --log m0.log"
    ∷ "python3 tools/ci/pass-gates.py names --tier ci-m0-pass" ∷ []

abbrev pub stale_fragments : List String
stale_fragments = "for g in async-test async-irq-test" ∷ []

-- `require_count_floor(tier, zig_name, names)`, on the table of floors.
unfoldable pub require_count_floor :
    List (String × ℕ) → String → String → List String → Failure ⊎ Unit {0}
unfolding require
require_count_floor [] tier zig_name names = inr tt
require_count_floor ((t, minimum) ∷ floors) tier zig_name names =
    let rest = require_count_floor floors tier zig_name names in
    if same_text tier t
    then require (not (ltb (length names) minimum)) (below_floor zig_name (length names) minimum)
    else rest

-- `for tier, zig_name in ARRAYS.items()`.
unfoldable pub check_arrays : String → List (String × String) → Failure ⊎ Unit {0}
unfolding require require_unique require_count_floor names_in_array ◌>>=◌
check_arrays source [] = inr tt
check_arrays source ((tier, zig_name) ∷ rest) = do
  names ← names_in_array source zig_name
  filled ← require (is_cons names) (empty_array zig_name)
  unique ← require_unique zig_name names
  floor ← require_count_floor min_gate_counts tier zig_name names
  check_arrays source rest

-- `for snippet in required_snippets`.
unfoldable pub check_snippets : String → List String → Failure ⊎ Unit {0}
unfolding require mentions ◌>>=◌
check_snippets ci [] = inr tt
check_snippets ci (snippet ∷ rest) = do
  found ← require (mentions snippet ci) (missing_snippet snippet)
  check_snippets ci rest

-- `for fragment in stale_fragments`.
unfoldable pub check_fragments : String → List String → Failure ⊎ Unit {0}
unfolding require mentions ◌>>=◌
check_fragments ci [] = inr tt
check_fragments ci (fragment ∷ rest) = do
  gone ← require (not (mentions fragment ci)) (stale_snippet fragment)
  check_fragments ci rest

module _ (files : String → Option String) (loads : String → Option Json) where
  -- `check_static()`.
  unfoldable pub check_static : Failure ⊎ Unit {0}
  unfolding minus
  check_static = do
    source ← read files tiers_path
    deps ← m0_dependencies source
    enough ←
        require (not (ltb (length deps) min_m0_dependencies))
          (below_floor "m0" (length deps) min_m0_dependencies)
    names ← ci_pass_assertion_names files loads "ci-m0-pass"
    unique ← require_unique "ci_pass_assertions.ci-m0-pass" names
    floor ← require_manifest_count_floor files loads "ci-m0-pass" names
    build_tier ← ci_pass_assertion_build_tier files loads "ci-m0-pass"
    supported ← require (same_text build_tier "m0") (unsupported_build_tier build_tier)
    known ← require (not (is_cons (minus names deps))) (not_dependencies (minus names deps))
    built ← check_arrays source arrays
    ci ← read files ci_path
    wired ← check_snippets ci required_snippets
    check_fragments ci stale_fragments
