-- ===== src/Gates/Select.antt =====
-- `select_gates` of tools/dev-gates.py. `RULES` and the files that are read are arguments: `manifest`
-- is the content of tools/lib/host-tests.tsv, and `read` gives the content of a fixture.
pub mod Seen
pub mod Wants
pub mod Laws
use modern_c.Prelude.{
  String, Bool, true, false, List, [], ◌∷◌, ◌++◌, Option, has, if◌then◌else◌, is_cons, not, ◌&&◌,
}
use modern_c.Gates.Match.{path_match}
use modern_c.Gates.Route.{Advice, host_manifest_gates, spec_fixture_gates}
use modern_c.Gates.Rule.{Rule, takes}

-- A list that is built without repetition, with the set of what was seen.
pub record Picked : Type 0 where
  pub items : List String
  pub seen : List String

abbrev pub no_items : Picked
no_items = record { items = []; seen = [] }

-- `if x not in seen: seen.add(x); items.append(x)`.
unfoldable pub add_new : String → Picked → Picked
unfolding has
add_new x p = if has x p.seen then p else record { items = p.items ++ x ∷ []; seen = x ∷ p.seen }

unfoldable pub add_all : List String → Picked → Picked
add_all [] p = p
add_all (x ∷ xs) p = add_all xs (add_new x p)

-- The three lists of the loop.
pub record Choices : Type 0 where
  pub gates : Picked
  pub checks : Picked
  pub reasons : Picked

abbrev pub no_choices : Choices
no_choices = record { gates = no_items; checks = no_items; reasons = no_items }

unfoldable pub add_advice : Advice → Choices → Choices
add_advice (gates, reasons) c = record {
  gates = add_all gates c.gates;
  checks = c.checks;
  reasons = add_all reasons c.reasons;
}

unfoldable pub add_rule : Rule → Choices → Choices
add_rule rule c = record {
  gates = add_all rule.gates c.gates;
  checks = add_all rule.checks c.checks;
  reasons = add_new rule.reason c.reasons;
}

unfoldable pub add_rules : String → List Rule → Choices → Choices
add_rules path [] c = c
add_rules path (rule ∷ rules) c =
    add_rules path rules (if takes rule path then add_rule rule c else c)

module _ (rules : List Rule) (manifest : Option (List String))
    (read : String → Option (List String)) where
  -- One path: a spec fixture by its phases, a host fixture by its row, any other by the rules.
  unfoldable pub add_path : String → Choices → Choices
  add_path path c =
      let host = host_manifest_gates manifest path in
      if path_match path "tests/spec/*.mc"
      then add_advice (spec_fixture_gates (read path)) c
      else if is_cons host.0
      then add_advice host c
      else add_rules path rules c

  unfoldable pub add_paths : List String → Choices → Choices
  add_paths [] c = c
  add_paths (path ∷ paths) c = add_paths paths (add_path path c)

-- What `select_gates` returns.
pub record Selection : Type 0 where
  pub gates : List String
  pub checks : List String
  pub reasons : List String

abbrev pub default_reason : String
default_reason = "unmapped changes default to compiler unit/spec tests"

unfoldable pub finish : List String → Choices → Selection
finish paths c =
    if is_cons paths && not (is_cons c.gates.items) && not (is_cons c.checks.items)
    then record { gates = "test" ∷ []; checks = c.checks.items; reasons = default_reason ∷ [] }
    else record { gates = c.gates.items; checks = c.checks.items; reasons = c.reasons.items }

unfoldable pub select_gates :
    List Rule → Option (List String) → (String → Option (List String)) → List String → Selection
select_gates rules manifest read paths =
    finish paths (add_paths rules manifest read paths no_choices)
