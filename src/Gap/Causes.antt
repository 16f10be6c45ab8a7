-- ===== src/Gap/Causes.antt =====
-- The causes that `cause_problem` of tools/toolchain/backend_gap_lib.py is to accept.
use modern_c.Prelude.{
  ◌≡◌, String, Bool, true, false, Option, none, some, IfSome, arith, lstrip, rstrip, strip,
  same_text, same_text_iff, nonempty_cons, has, Within, all_chars, if◌then◌else◌,
}
use modern_c.Json.{Json, Fields, last_field, field, text, object, get_field, keys, as_text}
use modern_c.Gap.{Cause, CauseProblem, cause_fields, not_tick, not_paren, same_cause, round_trips}
use modern_c.Gap.Found.{not_newline, Found}

-- A field of the object, with a text that is not blank and has no backtick.
pub record HasText (fs : Fields) (name s : String) : Type 0 where
  pub stored : get_field name fs ≡ some (text s)
  pub shown : same_text (strip s) "" ≡ false
  pub unticked : all_chars not_tick s ≡ true

-- An object that is a cause: these four fields and no other.
pub record IsCause (fs : Fields) (c : Cause) : Type 0 where
  pub has_category : HasText fs "category" c.category
  pub has_construct : HasText fs "construct" c.construct
  pub has_function : HasText fs "function" c.function
  pub has_phase : HasText fs "phase" c.phase
  pub only : Within (keys fs) cause_fields
  pub one_line : all_chars not_newline c.category ≡ true
  pub open_phase : all_chars not_paren c.phase ≡ true

pub as_text-text : (j : Json) (s : String) → as_text j ≡ some s → j ≡ text s
as_text-text (text s') s e = cc
as_text-text Json.null s e = absurd cc
as_text-text (Json.boolean b) s e = absurd cc
as_text-text (Json.number n) s e = absurd cc
as_text-text (Json.real r) s e = absurd cc
as_text-text (Json.array js) s e = absurd cc
as_text-text (object fs) s e = absurd cc

pub stored-keys :
    (fs : Fields) (name : String) (j : Json)
    → get_field name fs ≡ some j
    → has name (keys fs) ≡ true
unfolding get_field keys has
stored-keys last_field name j h = absurd cc
stored-keys (field k i fs) name j h = ground (arith, stored-keys fs name j)

pub shown-named : (s : String) → same_text (strip s) "" ≡ false → same_text s "" ≡ false
unfolding lstrip rstrip
shown-named String.[] h = absurd cc
shown-named (String.◌∷◌ c s) h = nonempty_cons c s

same_cause-round_trips :
    (c d : Cause) → same_cause c d ≡ true → (c.category ≡ d.category) × (c.phase ≡ d.phase)
same_cause-round_trips c d h = (
  ground (arith, h, same_text_iff c.category d.category),
  ground (arith, h, same_text_iff c.phase d.phase),
)

pub same_cause_refl : (c : Cause) → same_cause c c ≡ true
same_cause_refl c = ground (
  arith,
  same_text_iff c.category c.category,
  same_text_iff c.construct c.construct,
  same_text_iff c.function c.function,
  same_text_iff c.phase c.phase,
)

-- A parse that gives back the cause shows that the two texts the expression limits are in order.
pub round_trips-Found :
    (o : Option Cause) (c : Cause) → IfSome Found o → round_trips o (some c) ≡ true → Found c
unfolding round_trips
round_trips-Found none c h e = absurd cc
round_trips-Found (some d) c h e =
    let (same_category, same_phase) = same_cause-round_trips d c e in
    (rw (← same_category) h.0, rw (← same_phase) h.1)

pub accepted-round_trips :
    (b : Bool) → (if b then none else some CauseProblem.no_round_trip) ≡ none → b ≡ true
accepted-round_trips b h = ground (arith, h)
