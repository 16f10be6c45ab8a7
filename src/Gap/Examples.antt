-- ===== src/Gap/Examples.antt =====
-- Causes of a refusal as tools/toolchain/backend_gap_lib.py prints, parses and validates them, and the
-- theorems at them.
use modern_c.Prelude.{◌≡◌, refl, ◌↔◌, [], ◌∷◌, none, some, all_chars}
use modern_c.Json.{Fields, last_field, field, text, object}
use modern_c.Gap.{
  Cause, render_cause, parse_cause, missing_fields, unknown_fields, ticked_field, no_round_trip,
  cause_problem,
}
use modern_c.Gap.RoundTrip.{IsClear, parse_cause-render_cause}
use modern_c.Gap.Causes.{IsCause}
use modern_c.Gap.Valid.{cause_problem_iff}

abbrev expression_gap : Cause
expression_gap = record {
  category = "expression";
  construct = "a ? b : c";
  function = "f (main)";
  phase = "mir-build";
}

abbrev expression_fields : Fields
expression_fields = field "phase" (text "mir-build") (
    field "category" (text "expression")
      (field "construct" (text "a ? b : c") (field "function" (text "f (main)") last_field)))

parse_cause_test :
    (parse_cause
        "x.mc:3: E_BACKEND_UNSUPPORTED: C backend does not yet support a `b` in `` (declined by ) etc"
      ≡ some (record { category = "a"; construct = "b"; function = ""; phase = "" }))
    × (parse_cause "E_BACKEND_UNSUPPORTED: C backend does not yet support a" ≡ none)
unfolding parse_cause
parse_cause_test = (refl, refl)

cause_problem_test :
    (cause_problem (object expression_fields) ≡ none)
    × (cause_problem (object (field "phase" (text "a") last_field))
        ≡ some (missing_fields ("category" ∷ "construct" ∷ "function" ∷ [])))
    × (cause_problem (object (field "line" (text "3") expression_fields))
        ≡ some (unknown_fields ("line" ∷ [])))
    × (cause_problem (object (field "construct" (text "`") expression_fields))
        ≡ some (ticked_field "construct"))
    × (cause_problem (object (field "phase" (text "a)") expression_fields)) ≡ some no_round_trip)
unfolding cause_problem
cause_problem_test = (refl, refl, refl, refl, refl)

expression_gap-IsClear : IsClear expression_gap
unfolding all_chars
expression_gap-IsClear = record {
  named = refl;
  category_plain = refl;
  construct_plain = refl;
  function_plain = refl;
  phase_plain = refl;
}

parse_cause-render_cause_example : parse_cause (render_cause expression_gap) ≡ some expression_gap
parse_cause-render_cause_example = parse_cause-render_cause expression_gap expression_gap-IsClear

cause_problem_iff_example :
    (cause_problem (object expression_fields) ≡ none)
    ↔ ((fs : Fields) × (c : Cause) × (object expression_fields ≡ object fs) × IsCause fs c)
cause_problem_iff_example = cause_problem_iff (object expression_fields)
