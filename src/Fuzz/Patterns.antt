-- ===== src/Fuzz/Patterns.antt =====
-- The regular expressions of `finding_signature` in tools/fuzz/mcfuzz.py. The characters of `\w` are an
-- argument.
use Prim.Native.Char.{Char, code}
use Prim.Native.String as Texts
use modern_c.Prelude.{
  ℕ, String, Bool, true, false, not, ◌&&◌, ◌||◌, [], ◌∷◌, Option, none, some, ◌>>=◌, leb, ◌==◌,
  is_space, lstrip, rstrip, strip, behind, span, cat, if◌then◌else◌,
}
use modern_c.Fuzz.Signature.{is_digit, run1, squeeze, strip_dashes, starts_word}

abbrev pub is_upper : ℕ → Bool
is_upper n = leb 65 n && leb n 90

abbrev pub is_lower : ℕ → Bool
is_lower n = leb 97 n && leb n 122

-- `[a-z0-9]` and `[a-z0-9_-]`.
abbrev pub in_slug : ℕ → Bool
in_slug n = is_lower n || is_digit n

abbrev pub in_tag : ℕ → Bool
in_tag n = in_slug n || n == 95 || n == 45

-- `re.sub(r"[^a-z0-9]+", "-", text).strip("-")`.
unfoldable pub slug : String → String
unfolding squeeze strip_dashes
slug s = strip_dashes (squeeze in_slug "-" false s)

-- `re.search`: the first place where the expression matches; it is told whether a word character stands
-- in front.
unfoldable pub search_word :
    {A : Type 0} → (ℕ → Bool) → (String → Option A) → Bool → String → Option A
search_word is_word match before String.[] = none
search_word is_word match true (String.◌∷◌ c s) = search_word is_word match (is_word (code c)) s
search_word is_word match false (String.◌∷◌ c s) = elim (match (String.◌∷◌ c s)) [
  | some a ↦ some a
  | none ↦ search_word is_word match (is_word (code c)) s
]

unfoldable pub search_any : {A : Type 0} → (String → Option A) → String → Option A
search_any match String.[] = none
search_any match (String.◌∷◌ c s) = elim (match (String.◌∷◌ c s)) [
  | some a ↦ some a
  | none ↦ search_any match s
]

-- `[A-Z0-9_]`, `[A-Za-z0-9_-]`, `[^:\n]`, `[^ \n]`, `[^)]` and `[A-Z ]`.
abbrev pub in_code : ℕ → Bool
in_code n = is_upper n || is_digit n || n == 95

abbrev pub in_stage : ℕ → Bool
in_stage n = is_upper n || in_tag n

abbrev pub in_report : ℕ → Bool
in_report n = not (n == 58) && not (n == 10)

abbrev pub in_kind : ℕ → Bool
in_kind n = not (n == 32) && not (n == 10)

abbrev pub in_parens : ℕ → Bool
in_parens n = not (n == 41)

abbrev pub in_title : ℕ → Bool
in_title n = is_upper n || n == 32

-- `E_[A-Z0-9_]+\b`, where no word character stands in front.
unfoldable pub error_code : (ℕ → Bool) → String → Option String
unfolding behind run1
error_code is_word s = do
  s1 ← behind "E_" s
  (name, rest) ← run1 in_code s1
  if starts_word is_word rest then none else some (Texts.◌++◌ "E_" name)

-- Some character of a text passes.
unfoldable pub some_char : (ℕ → Bool) → String → Bool
some_char p String.[] = false
some_char p (String.◌∷◌ c s) = p (code c) || some_char p s

-- `\s*([...]+)`, its group stripped: where the white space is all there is, the group takes the end of it
-- back, if the class has such a character.
unfoldable pub group_behind : (ℕ → Bool) → String → Option String
unfolding run1 span some_char lstrip rstrip
group_behind p s = elim (run1 p (span is_space s).1) [
  | some (group, rest) ↦ some (strip group)
  | none ↦ if some_char p (span is_space s).0 then some "" else none
]

unfoldable pub ubsan_kind : String → Option String
unfolding behind group_behind
ubsan_kind s = do s1 ← behind "runtime error:" s; group_behind in_report s1

unfoldable pub asan_kind : String → Option String
unfolding behind group_behind
asan_kind s = do s1 ← behind "ERROR: AddressSanitizer:" s; group_behind in_kind s1

-- `DIVERGENCE \(([^)]+)\)` behind a word and a space.
unfoldable pub divergence_kind : String → Option String
unfolding behind run1
divergence_kind s = do
  s1 ← behind " DIVERGENCE (" s
  (kind, s2) ← run1 in_parens s1
  rest ← behind ")" s2
  some kind

abbrev pub in_family : ℕ → Bool
in_family n = is_upper n || n == 45

abbrev pub with_first : Char → Option (String × String) → Option (String × String)
with_first c none = none
with_first c (some (family, kind)) = some (String.◌∷◌ c family, kind)

-- `([A-Z-]+(?: [A-Z-]+)*) DIVERGENCE \(([^)]+)\)` at the start of a text; `inside` is whether a word has
-- begun. The words end in one place only, since `(` is in none.
unfoldable pub family_kind : Bool → String → Option (String × String)
unfolding divergence_kind
family_kind inside String.[] = none
family_kind false (String.◌∷◌ c s) = elim (in_family (code c)) [
  | true ↦ with_first c (family_kind true s)
  | false ↦ none
]
family_kind true (String.◌∷◌ c s) = elim (divergence_kind (String.◌∷◌ c s)) [
  | some kind ↦ some ("", kind)
  | none ↦ elim (in_family (code c)) [
    | true ↦ with_first c (family_kind true s)
    | false ↦ elim (code c == 32) [ true ↦ with_first c (family_kind false s) | false ↦ none ]
  ]
]

-- `mcc ([A-Za-z0-9_-]+)` and what follows it.
unfoldable pub stage_behind : String → String → Option (String × String)
unfolding behind run1
stage_behind intro s = do s1 ← behind intro s; run1 in_stage s1

unfoldable pub crash_bucket : String → Option String
unfolding stage_behind behind run1 cat
crash_bucket s = do
  (stage, s1) ← stage_behind "mcc " s
  s2 ← behind " CRASHED (signal " s1
  (signal, s3) ← run1 is_digit s2
  rest ← behind ")" s3
  some (cat ("crash:mcc-" ∷ stage ∷ ":signal-" ∷ signal ∷ []))

unfoldable pub hang_bucket : String → Option String
unfolding stage_behind behind cat
hang_bucket s = do
  (stage, s1) ← stage_behind "mcc " s
  rest ← behind " HANGS" s1
  some (cat ("hang:mcc-" ∷ stage ∷ []))

unfoldable pub inconsistency : String → Option String
unfolding stage_behind cat
inconsistency s = do
  (stage, rest) ← stage_behind "INTERNAL INCONSISTENCY: mcc " s
  some (cat ("internal-inconsistency:mcc-" ∷ stage ∷ []))

-- `body.split("(", 1)[0]`.
abbrev pub before_paren : String → String
before_paren s = (span (λ n. not (n == 40)) s).0

-- `ROUNDTRIP ([A-Z ]+):` at the start of a text.
unfoldable pub roundtrip_kind : String → Option String
unfolding behind run1
roundtrip_kind s = do
  s1 ← behind "ROUNDTRIP " s
  (kind, s2) ← run1 in_title s1
  rest ← behind ":" s2
  some kind

-- `text.lower().replace(" ", "-")`, behind `lower`.
unfoldable pub dashed : String → String
dashed String.[] = ""
dashed (String.◌∷◌ c s) = Texts.◌++◌ (if code c == 32 then "-" else String.◌∷◌ c "") (dashed s)
