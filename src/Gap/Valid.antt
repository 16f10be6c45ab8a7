-- ===== src/Gap/Valid.antt =====
-- What `cause_problem` of tools/toolchain/backend_gap_lib.py accepts.
use modern_c.Prelude.{
  ◌≡◌, refl, ap, ◌∙◌, String, false, inl, inr, ◌↔◌, List, [], ◌∷◌, none, some, some-bind, arith,
  is_cons, minus, minus-Within, all_chars-and, mentions-one, Bool-cases, Option-cases,
}
use modern_c.Json.{Json, Fields, text, object, get_field, keys, as_text}
use modern_c.Gap.{
  Cause, cause_fields, not_tick, parse_cause, render_cause, field_text, field_problem,
  first_problem, cause_of, round_trips, fields_problem, cause_problem,
}
use modern_c.Gap.Found.{not_newline, parse_cause-Found}
use modern_c.Gap.RoundTrip.{IsClear, parse_cause-render_cause}
use modern_c.Gap.Causes.{
  HasText, IsCause, as_text-text, stored-keys, shown-named, same_cause_refl, round_trips-Found,
  accepted-round_trips,
}

module _ (fs : Fields) where
  HasText-text : (name s : String) → HasText fs name s → field_text fs name ≡ some s
  unfolding field_text
  HasText-text name s h = rw h.stored refl

  text-stored : (name s : String) → field_text fs name ≡ some s → get_field name fs ≡ some (text s)
  unfolding field_text
  text-stored name s e =
      let (j, found, is_text) = some-bind (get_field name fs) as_text s e in
      found ∙ ap some (as_text-text j s is_text)

  HasText-problem : (name s : String) → HasText fs name s → field_problem fs name ≡ none
  unfolding field_problem
  HasText-problem name s h =
      rw (HasText-text name s h, field_problem)
        (ground (arith, h.shown, h.unticked, mentions-one "`" s))

  problem-HasText :
      (name : String)
      → field_problem fs name ≡ none
      → (s : String) × (field_text fs name ≡ some s) × HasText fs name s
  unfolding field_problem
  problem-HasText name h = elim (Option-cases (field_text fs name)) [
    | inl e ↦ let some_problem = rw (e, field_problem) at h in absurd cc
    | inr (s, e) ↦
        let tests = rw (e, field_problem) at h in
        (
          s,
          e,
          record {
            stored = text-stored name s e;
            shown = ground (arith, tests);
            unticked = ground (arith, tests, mentions-one "`" s);
          },
        )
  ]

  first_problem_iff :
      (name : String) (names : List String)
      → (first_problem fs (name ∷ names) ≡ none)
        ↔ ((field_problem fs name ≡ none) × (first_problem fs names ≡ none))
  unfolding first_problem
  first_problem_iff name names = elim (Option-cases (field_problem fs name)) [
    | inl e ↦ rw (e, first_problem) (λ h. (refl, h), λ h. h.1)
    | inr (p, e) ↦ rw (e, first_problem) (λ h. absurd cc, λ h. let never = h.0 in absurd cc)
  ]

  abbrev Texts : Cause → Type 0
  Texts c =
      HasText fs "category" c.category
      × HasText fs "construct" c.construct
      × HasText fs "function" c.function
      × HasText fs "phase" c.phase

  Texts-problems :
      (c : Cause)
      → Texts c
      → (first_problem fs cause_fields ≡ none)
        × (cause_of fs ≡ some c)
        × (is_cons (minus cause_fields (keys fs)) ≡ false)
  unfolding cause_of first_problem minus
  Texts-problems c (a, b, f, p) = (
    rw
        (
          HasText-problem "category" c.category a,
          HasText-problem "construct" c.construct b,
          HasText-problem "function" c.function f,
          HasText-problem "phase" c.phase p,
          first_problem,
        )
        refl,
    rw (a.stored, b.stored, f.stored, p.stored) refl,
    rw
        (
          stored-keys fs "category" (text c.category) a.stored,
          stored-keys fs "construct" (text c.construct) b.stored,
          stored-keys fs "function" (text c.function) f.stored,
          stored-keys fs "phase" (text c.phase) p.stored,
          minus,
        )
        refl,
  )

  problems-Texts :
      first_problem fs cause_fields ≡ none → (c : Cause) × (cause_of fs ≡ some c) × Texts c
  unfolding cause_of
  problems-Texts h =
      let (h1, r1) = (first_problem_iff "category" ("construct" ∷ "function" ∷ "phase" ∷ [])).0 h in
      let (h2, r2) = (first_problem_iff "construct" ("function" ∷ "phase" ∷ [])).0 r1 in
      let (h3, r3) = (first_problem_iff "function" ("phase" ∷ [])).0 r2 in
      let (h4, r4) = (first_problem_iff "phase" []).0 r3 in
      let (a, fa, ta) = problem-HasText "category" h1 in
      let (b, fb, tb) = problem-HasText "construct" h2 in
      let (f, ff, tf) = problem-HasText "function" h3 in
      let (p, fp, tp) = problem-HasText "phase" h4 in
      (
        record { category = a; construct = b; function = f; phase = p },
        rw (ta.stored, tb.stored, tf.stored, tp.stored) refl,
        (ta, tb, tf, tp),
      )

  IsCause-IsClear : (c : Cause) → IsCause fs c → IsClear c
  IsCause-IsClear c h = record {
    named = shown-named c.category h.has_category.shown;
    category_plain =
        ground (
          arith,
          all_chars-and not_tick not_newline c.category,
          h.has_category.unticked,
          h.one_line,
        );
    construct_plain = h.has_construct.unticked;
    function_plain = h.has_function.unticked;
    phase_plain = h.open_phase;
  }

  IsCause-problem : (c : Cause) → IsCause fs c → fields_problem fs ≡ none
  unfolding fields_problem round_trips
  IsCause-problem c h =
      let texts : Texts c = (h.has_category, h.has_construct, h.has_function, h.has_phase) in
      let (fp, co, missing) = Texts-problems c texts in
      rw
        (
          missing,
          (minus-Within (keys fs) cause_fields).1 h.only,
          fp,
          co,
          parse_cause-render_cause c (IsCause-IsClear c h),
          same_cause_refl c,
        )
        refl

  problem-IsCause : fields_problem fs ≡ none → (c : Cause) × IsCause fs c
  unfolding fields_problem
  problem-IsCause h = elim (Bool-cases (is_cons (minus cause_fields (keys fs)))) [
    | inl e ↦ let never = rw e at h in absurd cc
    | inr e ↦ elim (Bool-cases (is_cons (minus (keys fs) cause_fields))) [
      | inl f ↦ let never = rw (e, f) at h in absurd cc
      | inr f ↦ elim (Option-cases (first_problem fs cause_fields)) [
        | inr (p, g) ↦ let never = rw (e, f, g) at h in absurd cc
        | inl g ↦
            let (c, co, (ta, tb, tf, tp)) = problems-Texts g in
            let passed =
              accepted-round_trips (round_trips (parse_cause (render_cause c)) (some c))
                (rw (e, f, g, co) at h) in
            let found =
              round_trips-Found (parse_cause (render_cause c)) c
                (parse_cause-Found (render_cause c)) passed in
            (
              c,
              record {
                has_category = ta;
                has_construct = tb;
                has_function = tf;
                has_phase = tp;
                only = (minus-Within (keys fs) cause_fields).0 f;
                one_line = found.0;
                open_phase = found.1;
              },
            )
      ]
    ]
  ]

cause_problem-object :
    (j : Json)
    → cause_problem j ≡ none
    → (fs : Fields) × (j ≡ object fs) × (fields_problem fs ≡ none)
unfolding cause_problem
cause_problem-object (object fs) h = (fs, refl, h)
cause_problem-object _ h = absurd cc

-- `cause_problem` accepts an object if and only if it has the four fields and no other, each a text that
-- is not blank and has no backtick, with no newline in the category and no closing parenthesis in the
-- phase. It refuses all other JSON values.
pub cause_problem_iff :
    (j : Json)
    → (cause_problem j ≡ none) ↔ ((fs : Fields) × (c : Cause) × (j ≡ object fs) × IsCause fs c)
unfolding cause_problem
cause_problem_iff j = (
  λ h.
      let (fs, e, accepted) = cause_problem-object j h in
      let (c, good) = problem-IsCause fs accepted in (fs, c, e, good),
  λ (fs, c, e, good). rw e (IsCause-problem fs c good),
)
