-- ===== src/Gap.antt =====
-- tools/toolchain/backend_gap_lib.py: the structured cause in a refusal of the C backend, printed,
-- parsed and validated.
pub mod RoundTrip
pub mod Found
pub mod Causes
pub mod Valid
pub mod Examples
use Prim.Native.Char.{Char, code}
use modern_c.Prelude.{
  ℕ, String, Bool, true, false, not, ◌&&◌, List, [], ◌∷◌, Option, none, some, ◌>>=◌, ◌==◌, cat,
  is_cons, lstrip, rstrip, strip, same_text, has, minus, mentions, behind, span, if◌then◌else◌,
}
use modern_c.Json.{Json, Fields, get_field, keys, as_dict, as_text}

-- A `cause` object whose fields are texts.
pub record Cause : Type 0 where
  pub category : String
  pub construct : String
  pub function : String
  pub phase : String

-- `CAUSE_FIELDS`.
abbrev pub cause_fields : List String
cause_fields = "category" ∷ "construct" ∷ "function" ∷ "phase" ∷ []

abbrev pub refusal : String
refusal = "E_BACKEND_UNSUPPORTED: C backend does not yet support "

-- `render_cause(cause)`.
unfoldable pub render_cause : Cause → String
unfolding cat
render_cause c = cat (
    refusal ∷ c.category ∷ " `" ∷ c.construct ∷ "` in `" ∷ c.function ∷ "` (declined by " ∷ c.phase
    ∷ ")" ∷ [])

-- `[^`]` and `[^)]`.
abbrev pub not_tick : ℕ → Bool
not_tick n = not (n == 96)

abbrev pub not_paren : ℕ → Bool
not_paren n = not (n == 41)

-- The expression behind the category: the construct, the function and the phase. Each run ends at the
-- first character that it excludes, which the next piece of the expression begins with.
unfoldable pub details : String → Option (String × (String × String))
unfolding behind span
details s = do
  s' ← behind " `" s
  let (construct, s2) = span not_tick s'
  s3 ← behind "` in `" s2
  let (function, s4) = span not_tick s3
  s5 ← behind "` (declined by " s4
  let (phase, s6) = span not_paren s5
  rest ← behind ")" s6
  some (construct, (function, phase))

-- A category of this character alone, where the rest of the expression follows, else a longer one.
unfoldable pub grow : Char → Option (String × (String × String)) → Option Cause → Option Cause
grow ch (some (con, (fn, ph))) longer =
    some (record { category = String.◌∷◌ ch ""; construct = con; function = fn; phase = ph })
grow ch none none = none
grow ch none (some c) = some (record c { category = String.◌∷◌ ch c.category })

-- `(?P<category>.+?)` and what follows: the shortest category, within its line.
unfoldable pub shortest : String → Option Cause
unfolding details grow
shortest String.[] = none
shortest (String.◌∷◌ ch s) = elim (code ch == 10) [
  | true ↦ none
  | false ↦ grow ch (details s) (shortest s)
]

-- `_CAUSE_RE` at the start of a text.
unfoldable pub cause_at : String → Option Cause
unfolding behind shortest
cause_at s = do s' ← behind refusal s; shortest s'

-- `parse_cause(message)`: the first place where the expression matches.
unfoldable pub parse_cause : String → Option Cause
unfolding cause_at
parse_cause String.[] = none
parse_cause (String.◌∷◌ ch s) = elim (cause_at (String.◌∷◌ ch s)) [
  | some c ↦ some c
  | none ↦ parse_cause s
]

-- Why a cause is refused. The names of unknown fields stand in the order of the object, and the message
-- sorts them.
pub data CauseProblem : Type 0 where
  not_object : CauseProblem
  missing_fields : List String → CauseProblem
  unknown_fields : List String → CauseProblem
  empty_field : String → CauseProblem
  ticked_field : String → CauseProblem
  no_round_trip : CauseProblem

-- `cause[field]` where it is a text.
unfoldable pub field_text : Fields → String → Option String
unfolding get_field
field_text fs name = do j ← get_field name fs; as_text j

unfoldable pub field_problem : Fields → String → Option CauseProblem
unfolding field_text lstrip rstrip mentions
field_problem fs name = elim (field_text fs name) [
  | none ↦ some (empty_field name)
  | some s ↦
      if same_text (strip s) ""
      then some (empty_field name)
      else if mentions "`" s
      then some (ticked_field name)
      else none
]

-- `for field in CAUSE_FIELDS`.
unfoldable pub first_problem : Fields → List String → Option CauseProblem
unfolding field_problem
first_problem fs [] = none
first_problem fs (name ∷ names) = elim (field_problem fs name) [
  | some p ↦ some p
  | none ↦ first_problem fs names
]

-- The texts of the four fields.
unfoldable pub cause_of : Fields → Option Cause
unfolding field_text
cause_of fs = do
  category ← field_text fs "category"
  construct ← field_text fs "construct"
  function ← field_text fs "function"
  phase ← field_text fs "phase"
  some (record { category = category; construct = construct; function = function; phase = phase })

abbrev pub same_cause : Cause → Cause → Bool
same_cause c d =
    same_text c.category d.category
    && same_text c.construct d.construct
    && same_text c.function d.function
    && same_text c.phase d.phase

-- `parse_cause(render_cause(cause)) == dict(cause)`.
unfoldable pub round_trips : Option Cause → Option Cause → Bool
round_trips (some c) (some d) = same_cause c d
round_trips _ _ = false

unfoldable pub fields_problem : Fields → Option CauseProblem
unfolding minus keys first_problem cause_of render_cause parse_cause round_trips
fields_problem fs =
    if is_cons (minus cause_fields (keys fs))
    then some (missing_fields (minus cause_fields (keys fs)))
    else if is_cons (minus (keys fs) cause_fields)
    then some (unknown_fields (minus (keys fs) cause_fields))
    else elim (first_problem fs cause_fields) [
      | some p ↦ some p
      | none ↦
          let parsed = cause_of fs >>= λ c. parse_cause (render_cause c) in
          if round_trips parsed (cause_of fs) then none else some no_round_trip
    ]

-- `cause_problem(cause)`.
unfoldable pub cause_problem : Json → Option CauseProblem
unfolding fields_problem
cause_problem j = elim (as_dict j) [ none ↦ some not_object | some fs ↦ fields_problem fs ]
