-- ===== src/PassGates/Log.antt =====
-- `tier_names`, `assert_log`, `print_names` and the commands of tools/ci/pass-gates.py.
pub mod Reported
use Prim.Native.Char.{Char, code}
use modern_c.Prelude.{
  ℕ, String, Bool, true, false, not, ◌&&◌, ◌||◌, List, [], ◌∷◌, Option, none, some, ◌==◌, is_space,
  length, is_cons, same_text, behind, ◌⊎◌, inl, inr, if◌then◌else◌,
}
use modern_c.Fuzz.Result.{◌>>=◌, need}
use modern_c.Json.{Json}
use modern_c.PassGates.Scan.{
  Failure, missing_file, unknown_tier, missing_pass_lines, names_in_array,
}
use modern_c.PassGates.Manifest.{require, require_unique, read, ci_pass_assertion_names}
use modern_c.PassGates.Check.{arrays, tiers_path, check_static}

-- `(?:\s|$)`.
abbrev pub breaks : String → Bool
breaks String.[] = true
breaks (String.◌∷◌ c s) = is_space (code c)

-- `PASS: name(?:\s|$)` at the start of a text.
unfoldable pub pass_at : String → String → Bool
unfolding behind
pass_at name s = elim (behind "PASS: " s) [
  | none ↦ false
  | some s' ↦ elim (behind name s') [ none ↦ false | some rest ↦ breaks rest ]
]

-- `re.search` of it where a line starts.
unfoldable pub has_pass : String → Bool → String → Bool
unfolding pass_at
has_pass name starts String.[] = false
has_pass name starts (String.◌∷◌ c s) =
    (starts && pass_at name (String.◌∷◌ c s)) || has_pass name (code c == 10) s

-- The names with no such line.
unfoldable pub missing_passes : String → List String → List String
unfolding has_pass
missing_passes log [] = []
missing_passes log (name ∷ names) =
    let rest = missing_passes log names in if has_pass name true log then rest else name ∷ rest

-- `ARRAYS.get(tier)`.
unfoldable pub array_of : List (String × String) → String → Option String
array_of [] tier = none
array_of ((t, zig_name) ∷ rest) tier =
    let later = array_of rest tier in if same_text tier t then some zig_name else later

pub data Command : Type 0 where
  check : Command
  names : String → Command
  assert : String → String → Command

module _ (files : String → Option String) (loads : String → Option Json) where
  array_names : String → String → Failure ⊎ List String
  array_names tier zig_name = do source ← read files tiers_path; names_in_array source zig_name

  -- `tier_names(tier)`.
  unfoldable pub tier_names : String → Failure ⊎ List String
  unfolding array_of array_names
  tier_names tier =
      if same_text tier "ci-m0-pass"
      then ci_pass_assertion_names files loads tier
      else elim (array_of arrays tier) [
        | none ↦ inl (unknown_tier tier)
        | some zig_name ↦ array_names tier zig_name
      ]

  -- `assert_log(tier, log_path)`: the number of lines that were required.
  unfoldable pub assert_log : String → String → Failure ⊎ ℕ
  assert_log tier log_path = do
    required ← tier_names tier
    unique ← require_unique tier required
    log ← need (missing_file log_path) (files log_path)
    passed ←
        require (not (is_cons (missing_passes log required)))
          (missing_pass_lines log_path (missing_passes log required))
    inr (length required)

  -- `main()`: the names that are printed.
  unfoldable pub run_command : Command → Failure ⊎ List String
  unfolding tier_names
  run_command check = do done ← check_static files loads; inr []
  run_command (names tier) = tier_names tier
  run_command (assert tier log_path) = do count ← assert_log tier log_path; inr []
