-- ===== src/PassGates/Manifest.antt =====
-- What tools/ci/pass-gates.py takes from docs/gate-manifest.json: `ci_pass_assertions` and the functions
-- on it, with `read`, `read_json` and `require_unique`. The files are an argument, and so is `json.loads`.
use modern_c.Prelude.{
  ℕ, zero, suc, String, Bool, true, false, not, List, [], ◌∷◌, Option, none, some, ltb, length,
  is_cons, has, same_text, ◌⊎◌, inl, inr, if◌then◌else◌,
}
use modern_c.Fuzz.Numbers.{ℤ, pos, negsuc}
use modern_c.Fuzz.Result.{◌>>=◌, need}
use modern_c.Json.{
  Json, Items, last_item, item, Fields, get_field, as_dict, as_list, as_text, as_int,
}
use modern_c.PassGates.Scan.{
  Failure, missing_file, invalid_json, duplicate_gates, manifest_not_object, no_assertions, no_tier,
  no_gates, gate_not_text, no_build_tier, no_min_count, below_floor,
}

-- The test of an `if ...: fail(...)`, which must be true to go on.
unfoldable pub require : Bool → Failure → Failure ⊎ Unit {0}
require true failure = inr tt
require false failure = inl failure

-- The values that `dict.get` and `isinstance` leave.
abbrev pub get_dict : String → Fields → Option Fields
get_dict key fs = elim (get_field key fs) [ none ↦ none | some j ↦ as_dict j ]

abbrev pub get_list : String → Fields → Option Items
get_list key fs = elim (get_field key fs) [ none ↦ none | some j ↦ as_list j ]

-- A text that is not empty.
abbrev pub get_name : Json → Option String
get_name j = elim (as_text j) [ none ↦ none | some s ↦ if same_text s "" then none else some s ]

abbrev pub get_text : String → Fields → Option String
get_text key fs = elim (get_field key fs) [ none ↦ none | some j ↦ get_name j ]

-- An integer that is not less than one.
abbrev pub at_least_one : ℤ → Option ℕ
at_least_one (pos zero) = none
at_least_one (pos (suc n)) = some (suc n)
at_least_one (negsuc n) = none

abbrev pub get_count : String → Fields → Option ℕ
get_count key fs = elim (get_field key fs) [
  | none ↦ none
  | some j ↦ elim (as_int j) [ none ↦ none | some n ↦ at_least_one n ]
]

abbrev pub nonempty_list : Items → Bool
nonempty_list last_item = false
nonempty_list (item j js) = true

-- `for gate in gates`.
unfoldable pub gate_names : String → Items → Failure ⊎ List String
gate_names tier last_item = inr []
gate_names tier (item j js) = elim (get_name j) [
  | none ↦ inl (gate_not_text tier)
  | some name ↦ elim (gate_names tier js) [
    | inl failure ↦ inl failure
    | inr names ↦ inr (name ∷ names)
  ]
]

-- The names that were seen before, in their order.
unfoldable pub repeated : List String → List String → List String
unfolding has
repeated seen [] = []
repeated seen (name ∷ names) =
    let rest = repeated (name ∷ seen) names in if has name seen then name ∷ rest else rest

-- `require_unique(label, names)`.
unfoldable pub require_unique : String → List String → Failure ⊎ Unit {0}
unfolding repeated require
require_unique label names =
    require (not (is_cons (repeated [] names))) (duplicate_gates label (repeated [] names))

abbrev pub manifest_path : String
manifest_path = "docs/gate-manifest.json"

-- `read(path)`.
unfoldable pub read : (String → Option String) → String → Failure ⊎ String
unfolding need
read files path = need (missing_file path) (files path)

module _ (files : String → Option String) (loads : String → Option Json) where
  -- `read_json(path)`.
  unfoldable pub read_json : String → Failure ⊎ Json
  unfolding need ◌>>=◌
  read_json path = do
    source ← need (missing_file path) (files path)
    need (invalid_json path) (loads source)

  -- `ci_pass_assertions()`.
  unfoldable pub ci_pass_assertions : Failure ⊎ Fields
  unfolding read_json need ◌>>=◌
  ci_pass_assertions = do
    manifest ← read_json manifest_path
    fields ← need manifest_not_object (as_dict manifest)
    need no_assertions (get_dict "ci_pass_assertions" fields)

  -- `ci_pass_assertion_spec(tier)`.
  unfoldable pub ci_pass_assertion_spec : String → Failure ⊎ Fields
  unfolding ci_pass_assertions need ◌>>=◌
  ci_pass_assertion_spec tier = do
    assertions ← ci_pass_assertions
    need (no_tier tier) (get_dict tier assertions)

  -- `ci_pass_assertion_names(tier)`.
  unfoldable pub ci_pass_assertion_names : String → Failure ⊎ List String
  unfolding ci_pass_assertion_spec need ◌>>=◌ require gate_names
  ci_pass_assertion_names tier = do
    spec ← ci_pass_assertion_spec tier
    gates ← need (no_gates tier) (get_list "gates" spec)
    done ← require (nonempty_list gates) (no_gates tier)
    gate_names tier gates

  -- `ci_pass_assertion_build_tier(tier)`.
  unfoldable pub ci_pass_assertion_build_tier : String → Failure ⊎ String
  unfolding ci_pass_assertion_spec need ◌>>=◌
  ci_pass_assertion_build_tier tier = do
    spec ← ci_pass_assertion_spec tier
    need (no_build_tier tier) (get_text "build_tier" spec)

  -- `ci_pass_assertion_min_count(tier)`.
  unfoldable pub ci_pass_assertion_min_count : String → Failure ⊎ ℕ
  unfolding ci_pass_assertion_spec need ◌>>=◌
  ci_pass_assertion_min_count tier = do
    spec ← ci_pass_assertion_spec tier
    need (no_min_count tier) (get_count "min_count" spec)

  -- `require_manifest_count_floor(tier, names)`.
  unfoldable pub require_manifest_count_floor : String → List String → Failure ⊎ Unit {0}
  unfolding ci_pass_assertion_min_count ◌>>=◌ require
  require_manifest_count_floor tier names = do
    minimum ← ci_pass_assertion_min_count tier
    require (not (ltb (length names) minimum)) (below_floor tier (length names) minimum)
