-- ===== src/Gates/Select/Wants.antt =====
-- What each path asks of the selection, apart from the loop that collects it.
use modern_c.Prelude.{
  String, List, [], ◌∷◌, ◌++◌, ◌≡◌, refl, ◌∙◌, Option, is_cons, if◌then◌else◌, Bool-cases, inl, inr,
  ap, sym,
}
use modern_c.Gates.Match.{path_match}
use modern_c.Gates.Route.{Advice, host_manifest_gates, spec_fixture_gates}
use modern_c.Gates.Rule.{Rule, takes}
use modern_c.Gates.Select.{
  Picked, add_new, add_all, Choices, add_advice, add_rule, add_rules, add_path, add_paths,
}

pub record Wants : Type 0 where
  pub gates : List String
  pub checks : List String
  pub reasons : List String

abbrev pub no_wants : Wants
no_wants = record { gates = []; checks = []; reasons = [] }

abbrev pub both : Wants → Wants → Wants
both a b = record {
  gates = a.gates ++ b.gates;
  checks = a.checks ++ b.checks;
  reasons = a.reasons ++ b.reasons;
}

-- Of every rule that takes the path: its gates, its checks and its reason.
abbrev pub wants_rules : String → List Rule → Wants
wants_rules path [] = no_wants
wants_rules path (rule ∷ rules) =
    let rest = wants_rules path rules in
    if takes rule path
    then both (record { gates = rule.gates; checks = rule.checks; reasons = rule.reason ∷ [] }) rest
    else rest

abbrev pub wants_advice : Advice → Wants
wants_advice (gates, reasons) = record { gates = gates; checks = []; reasons = reasons }

module _ (rules : List Rule) (manifest : Option (List String))
    (read : String → Option (List String)) where
  abbrev pub wants_path : String → Wants
  wants_path path =
      let host = host_manifest_gates manifest path in
      if path_match path "tests/spec/*.mc"
      then wants_advice (spec_fixture_gates (read path))
      else if is_cons host.0
      then wants_advice host
      else wants_rules path rules

  abbrev pub wants_paths : List String → Wants
  wants_paths [] = no_wants
  wants_paths (path ∷ paths) = both (wants_path path) (wants_paths paths)

abbrev pub add_wants : Wants → Choices → Choices
add_wants w c = record {
  gates = add_all w.gates c.gates;
  checks = add_all w.checks c.checks;
  reasons = add_all w.reasons c.reasons;
}

add_all-append :
    (xs ys : List String) (p : Picked) → add_all (xs ++ ys) p ≡ add_all ys (add_all xs p)
unfolding add_all
add_all-append [] ys p = refl
add_all-append (x ∷ xs) ys p = add_all-append xs ys (add_new x p)

add_wants-both : (a b : Wants) (c : Choices) → add_wants (both a b) c ≡ add_wants b (add_wants a c)
add_wants-both a b c = rw (
  add_all-append a.gates b.gates c.gates,
  add_all-append a.checks b.checks c.checks,
  add_all-append a.reasons b.reasons c.reasons,
)

add_rules-eq-add_wants :
    (path : String) (rules : List Rule) (c : Choices)
    → add_rules path rules c ≡ add_wants (wants_rules path rules) c
unfolding add_rules add_all add_rule
add_rules-eq-add_wants path [] c = refl
add_rules-eq-add_wants path (rule ∷ rules) c = elim (Bool-cases (takes rule path)) [
  | inl e ↦
      let w : Wants = record {
        gates = rule.gates;
        checks = rule.checks;
        reasons = rule.reason ∷ [];
      } in
      rw e (
        add_rules-eq-add_wants path rules (add_rule rule c)
        ∙ sym (add_wants-both w (wants_rules path rules) c))
  | inr e ↦ rw e (add_rules-eq-add_wants path rules c)
]

module _ (rules : List Rule) (manifest : Option (List String))
    (read : String → Option (List String)) where
  add_path-eq-add_wants :
      (path : String) (c : Choices)
      → add_path rules manifest read path c ≡ add_wants (wants_path rules manifest read path) c
  unfolding add_path add_advice add_all
  add_path-eq-add_wants path c = elim (Bool-cases (path_match path "tests/spec/*.mc")) [
    | inl e ↦ rw e
    | inr e ↦ elim (Bool-cases (is_cons (host_manifest_gates manifest path).0)) [
      | inl h ↦ rw (e, h)
      | inr h ↦ rw (e, h) (add_rules-eq-add_wants path rules c)
    ]
  ]

  pub add_paths-eq-add_wants :
      (paths : List String) (c : Choices)
      → add_paths rules manifest read paths c ≡ add_wants (wants_paths rules manifest read paths) c
  unfolding add_paths add_all
  add_paths-eq-add_wants [] c = refl
  add_paths-eq-add_wants (path ∷ paths) c =
      add_paths-eq-add_wants paths (add_path rules manifest read path c)
      ∙ (ap (add_wants (wants_paths rules manifest read paths)) (add_path-eq-add_wants path c)
          ∙ sym (
              add_wants-both (wants_path rules manifest read path)
                (wants_paths rules manifest read paths) c))
