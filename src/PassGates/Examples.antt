-- ===== src/PassGates/Examples.antt =====
-- Runs of tools/ci/pass-gates.py on small files, and the theorems at them.
use modern_c.Prelude.{
  ◌≡◌, refl, ◌↔◌, inl, inr, String, [], ◌∷◌, Option, none, some, same_text, if◌then◌else◌,
}
use modern_c.Fuzz.Numbers.{pos}
use modern_c.Fuzz.Result.{◌>>=◌, need}
use modern_c.Json.{Json, number, text, array, object, item, last_item, field, last_field, get_field}
use modern_c.PassGates.Scan.{
  names_in_array, m0_dependencies, missing_file, below_floor, duplicate_gates, unknown_tier,
}
use modern_c.PassGates.Manifest.{require, require_unique, read, ci_pass_assertion_names}
use modern_c.PassGates.Check.{tiers_path, check_static}
use modern_c.PassGates.Check.Wired.{Wired, check_static_iff}
use modern_c.PassGates.Log.{check, names, run_command, tier_names, assert_log, missing_passes}
use modern_c.PassGates.Log.Reported.{Passed, assert_log_iff}

abbrev tiers : String
tiers =
    "const gates = [_][]const u8{\n  \"a-test\", \"b-test\",\n};\nconst m0_step = b.step(\"m0\", x);\nm0_step.dependOn(ctx.cmd(\"a-test\"));\nm0_step.dependOn(ctx.cmd(\"a-test\"));\nconst fast_step = b.step(\"fast\", y);"

abbrev log : String
log = "start\nPASS: a-test - done\nPASS: b-test\n"

abbrev files : String → Option String
files path =
    if same_text path tiers_path
    then some tiers
    else if same_text path "m0.log"
    then some log
    else if same_text path "docs/gate-manifest.json"
    then some "{}"
    else none

abbrev spec : Json
spec = object (
    field "gates" (array (item (text "a-test") (item (text "b-test") last_item)))
      (field "min_count" (number (pos 2)) (field "build_tier" (text "m0") last_field)))

abbrev loads : String → Option Json
loads source =
    some
      (object (field "ci_pass_assertions" (object (field "ci-m0-pass" spec last_field)) last_field))

scan_test :
    (names_in_array tiers "gates" ≡ inr ("a-test" ∷ "b-test" ∷ []))
    × (m0_dependencies tiers ≡ inr ("a-test" ∷ []))
unfolding names_in_array m0_dependencies
scan_test = (refl, refl)

names_test :
    (run_command files loads (names "ci-m0-pass") ≡ inr ("a-test" ∷ "b-test" ∷ []))
    × (run_command files loads (names "x") ≡ inl (unknown_tier "x"))
    × (run_command files loads check ≡ inl (below_floor "m0" 1 14))
unfolding run_command ci_pass_assertion_names check_static m0_dependencies ◌>>=◌ need require
    get_field read
names_test = (refl, refl, refl)

assert_log_test :
    (assert_log files loads "ci-m0-pass" "m0.log" ≡ inr 2)
    × (assert_log files loads "ci-m0-pass" "other.log" ≡ inl (missing_file "other.log"))
    × (require_unique "t" ("a" ∷ "b" ∷ "a" ∷ []) ≡ inl (duplicate_gates "t" ("a" ∷ [])))
unfolding assert_log tier_names ci_pass_assertion_names require_unique ◌>>=◌ need require get_field
    missing_passes
assert_log_test = (refl, refl, refl)

check_static_iff_example : (check_static files loads ≡ inr tt) ↔ Wired files loads
check_static_iff_example = check_static_iff files loads

assert_log_iff_example :
    (assert_log files loads "ci-m0-pass" "m0.log" ≡ inr 2)
    ↔ Passed files loads "ci-m0-pass" "m0.log" 2
assert_log_iff_example = assert_log_iff files loads "ci-m0-pass" "m0.log" 2
