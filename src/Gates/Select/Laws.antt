-- ===== src/Gates/Select/Laws.antt =====
-- What `select_gates` of tools/dev-gates.py returns: the first occurrences of all that is asked for.
use modern_c.Prelude.{
  String, true, false, not, ◌&&◌, ◌||◌, List, [], ◌∷◌, ◌++◌, ◌≡◌, refl, ◌∙◌, ap, Option, is_cons,
  if◌then◌else◌, has, has-append, same_text, same_text_iff, NoRepeats, Bool-cases, inl, inr, arith,
}
use modern_c.Gates.Match.{path_match}
use modern_c.Gates.Route.{host_manifest_gates}
use modern_c.Gates.Rule.{Rule, takes}
use modern_c.Gates.Select.{no_choices, finish, default_reason, Selection, select_gates}
use modern_c.Gates.Select.Seen.{
  first_seen, add_all-first_seen, has-first_seen, NoRepeats-first_seen,
}
use modern_c.Gates.Select.Wants.{
  Wants, wants_rules, wants_path, wants_paths, add_wants, add_paths-eq-add_wants,
}

-- The selection that the wants of a list of paths call for.
abbrev pub expected : List String → Wants → Selection
expected paths w =
    if is_cons paths && not (is_cons w.gates) && not (is_cons w.checks)
    then record { gates = "test" ∷ []; checks = []; reasons = default_reason ∷ [] }
    else record {
      gates = first_seen w.gates;
      checks = first_seen w.checks;
      reasons = first_seen w.reasons;
    }

is_cons-first_seen : (xs : List String) → is_cons (first_seen xs) ≡ is_cons xs
is_cons-first_seen [] = refl
is_cons-first_seen (x ∷ xs) = refl

is_cons_of_has : (x : String) (xs : List String) → has x xs ≡ true → is_cons xs ≡ true
unfolding has
is_cons_of_has x [] h = cc
is_cons_of_has x (y ∷ xs) h = refl

empty_of : (xs : List String) → is_cons xs ≡ false → first_seen xs ≡ []
empty_of [] h = refl
empty_of (x ∷ xs) h = cc

finish-add_wants :
    (paths : List String) (w : Wants) → finish paths (add_wants w no_choices) ≡ expected paths w
unfolding finish
finish-add_wants paths w =
    rw
      (
        add_all-first_seen w.gates,
        add_all-first_seen w.checks,
        add_all-first_seen w.reasons,
        is_cons-first_seen w.gates,
        is_cons-first_seen w.checks,
      )
      (elim (Bool-cases (is_cons w.checks)) [
        | inl e ↦ rw e (ground arith)
        | inr e ↦ rw (e, empty_of w.checks e) refl
      ])

pub expected-busy :
    (path : String) (paths : List String) (w : Wants)
    → (is_cons (expected (path ∷ paths) w).gates || is_cons (expected (path ∷ paths) w).checks)
      ≡ true
expected-busy path paths w = ground (arith, is_cons-first_seen w.gates, is_cons-first_seen w.checks)

-- Nothing is selected twice.
abbrev pub OnceEach : Selection → Type 0
OnceEach s = NoRepeats s.gates × NoRepeats s.checks × NoRepeats s.reasons

expected-OnceEach : (paths : List String) (w : Wants) → OnceEach (expected paths w)
unfolding has
expected-OnceEach paths w =
    elim (Bool-cases (is_cons paths && not (is_cons w.gates) && not (is_cons w.checks))) [
      | inl e ↦ rw e ((refl, tt), tt, (refl, tt))
      | inr e ↦ rw e (
        NoRepeats-first_seen w.gates,
        NoRepeats-first_seen w.checks,
        NoRepeats-first_seen w.reasons,
      )
    ]

-- A gate of a rule that takes the path is wanted.
has-wants_rules :
    (path gate : String) (before : List Rule) (rule : Rule) (after : List Rule)
    → takes rule path ≡ true
    → has gate rule.gates ≡ true
    → has gate (wants_rules path (before ++ rule ∷ after)).gates ≡ true
has-wants_rules path gate [] rule after t h =
    rw (t, has-append gate rule.gates (wants_rules path after).gates, h) refl
has-wants_rules path gate (r ∷ before) rule after t h = elim (Bool-cases (takes r path)) [
  | inl e ↦ rw e (
      ground (
        arith,
        has-append gate r.gates (wants_rules path (before ++ rule ∷ after)).gates,
        has-wants_rules path gate before rule after t h,
      ))
  | inr e ↦ rw e (has-wants_rules path gate before rule after t h)
]

module _ (rules : List Rule) (manifest : Option (List String))
    (read : String → Option (List String)) where
  -- For every rule table, manifest and reading of files, the selection is the default gate where there
  -- are paths and no path wants a gate or a check, and else the gates, checks and reasons that the
  -- paths want, one path after the other, each at its first occurrence.
  pub select_gates-eq-expected :
      (paths : List String)
      → select_gates rules manifest read paths
        ≡ expected paths (wants_paths rules manifest read paths)
  unfolding select_gates
  select_gates-eq-expected paths =
      ap (finish paths) (add_paths-eq-add_wants rules manifest read paths no_choices)
      ∙ finish-add_wants paths (wants_paths rules manifest read paths)

  -- No gate, check or reason is selected twice.
  pub select_gates-OnceEach :
      (paths : List String) → OnceEach (select_gates rules manifest read paths)
  select_gates-OnceEach paths =
      rw (select_gates-eq-expected paths)
        (expected-OnceEach paths (wants_paths rules manifest read paths))

  has-wants_paths :
      (path gate : String) (paths : List String)
      → has path paths ≡ true
      → has gate (wants_path rules manifest read path).gates ≡ true
      → has gate (wants_paths rules manifest read paths).gates ≡ true
  unfolding has
  has-wants_paths path gate [] h w = cc
  has-wants_paths path gate (p ∷ paths) h w = elim (Bool-cases (same_text path p)) [
    | inl e ↦
        let same = (same_text_iff path p).0 e in
        rw (
          has-append gate (wants_path rules manifest read p).gates
              (wants_paths rules manifest read paths).gates,
          ← same,
          w,
        )
    | inr e ↦
        let rest = has-wants_paths path gate paths (ground (arith)) w in
        rw
          (
            has-append gate (wants_path rules manifest read p).gates
                (wants_paths rules manifest read paths).gates,
            rest,
          )
          (ground arith)
  ]

  -- A gate that a changed path wants is selected.
  has-select_gates :
      (path gate : String) (paths : List String)
      → has path paths ≡ true
      → has gate (wants_path rules manifest read path).gates ≡ true
      → has gate (select_gates rules manifest read paths).gates ≡ true
  unfolding has
  has-select_gates path gate paths h w =
      let all = has-wants_paths path gate paths h w in
      let some_gate = is_cons_of_has gate (wants_paths rules manifest read paths).gates all in
      rw (select_gates-eq-expected paths, some_gate, is_cons_of_has path paths h)
        (has-first_seen gate (wants_paths rules manifest read paths).gates ∙ all)

-- A gate of a rule is selected where the rule takes a changed path, whatever the other paths and rules
-- are, unless that path is a spec fixture or has a row in the manifest of host tests.
pub rule_gate-selected :
    (before : List Rule) (rule : Rule) (after : List Rule) (manifest : Option (List String))
    (read : String → Option (List String)) (paths : List String) (path gate : String)
    → has path paths ≡ true
    → path_match path "tests/spec/*.mc" ≡ false
    → is_cons (host_manifest_gates manifest path).0 ≡ false
    → takes rule path ≡ true
    → has gate rule.gates ≡ true
    → has gate (select_gates (before ++ rule ∷ after) manifest read paths).gates ≡ true
rule_gate-selected before rule after manifest read paths path gate h spec host t g =
    has-select_gates (before ++ rule ∷ after) manifest read path gate paths h
      (rw (spec, host) (has-wants_rules path gate before rule after t g))
