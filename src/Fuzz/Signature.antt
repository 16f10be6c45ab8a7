-- ===== src/Fuzz/Signature.antt =====
-- Findings and their buckets in tools/fuzz/mcfuzz.py: `_split_finding`, `_finding_body`,
-- `_signature_fallback` and `finding_signature`. The characters of `\w` and `str.lower` stand in tables of
-- Unicode and are arguments; digits are the ASCII ones.
use Prim.Native.Char.{Char, code}
use Prim.Native.String as Texts
use modern_c.Prelude.{
  ℕ, zero, suc, String, Bool, true, false, not, ◌&&◌, ◌||◌, Option, none, some, ◌>>=◌, leb, ◌==◌,
  is_space, lstrip, rstrip, strip, same_text, behind, span, size, if◌then◌else◌,
}
use modern_c.Fuzz.Numbers.{digits_from}
use modern_c.Fuzz.Format.{take_text}

abbrev pub is_digit : ℕ → Bool
is_digit n = leb 48 n && leb n 57

abbrev is_upper : ℕ → Bool
is_upper n = leb 65 n && leb n 90

abbrev is_lower : ℕ → Bool
is_lower n = leb 97 n && leb n 122

-- A run of one character or more, and the rest.
unfoldable pub run1 : (ℕ → Bool) → String → Option (String × String)
unfolding span
run1 p s = if same_text (span p s).0 "" then none else some (span p s)

-- `FAIL seed=(\d+):\s*(.*)` at the start of a text.
unfoldable pub seed_prefix : String → Option (ℕ × String)
unfolding behind run1 span digits_from
seed_prefix text = do
  s1 ← behind "FAIL seed=" text
  (digits, s2) ← run1 is_digit s1
  s3 ← behind ":" s2
  seed ← digits_from false 0 digits
  some (seed, (span is_space s3).1)

-- `_split_finding(finding)`.
unfoldable pub split_finding : String → Option ℕ × String
unfolding seed_prefix lstrip rstrip
split_finding finding = elim (seed_prefix (strip finding)) [
  | some (seed, body) ↦ (some seed, body)
  | none ↦ (none, strip finding)
]

-- Whether a text is white space.
unfoldable pub is_blank : String → Bool
is_blank String.[] = true
is_blank (String.◌∷◌ c s) = is_space (code c) && is_blank s

-- `re.sub(r"\s+...\s*$", "", text)`: the tail is tried behind the white space.
unfoldable pub cut_tail : (String → Bool) → String → String
unfolding span
cut_tail tail String.[] = ""
cut_tail tail (String.◌∷◌ c s) = elim (is_space (code c) && tail (span is_space s).1) [
  | true ↦ ""
  | false ↦ String.◌∷◌ c (cut_tail tail s)
]

-- `\[confirmed on serial re-verify\]\s*$`.
unfoldable pub confirmed_tail : String → Bool
unfolding behind is_blank
confirmed_tail s = elim (behind "[confirmed on serial re-verify]" s) [
  | none ↦ false
  | some rest ↦ is_blank rest
]

-- `\(reproduce: tools/fuzz/mcfuzz\.py gen \d+\)\s*$`.
unfoldable pub reproduce_tail : String → Bool
unfolding behind run1 is_blank
reproduce_tail s = elim (behind "(reproduce: tools/fuzz/mcfuzz.py gen " s) [
  | none ↦ false
  | some s1 ↦ elim (run1 is_digit s1) [
    | none ↦ false
    | some (digits, s2) ↦ elim (behind ")" s2) [ none ↦ false | some rest ↦ is_blank rest ]
  ]
]

-- `_finding_body(finding)`.
unfoldable pub finding_body : String → String
unfolding split_finding cut_tail confirmed_tail reproduce_tail lstrip rstrip
finding_body finding =
    strip (cut_tail reproduce_tail (cut_tail confirmed_tail (split_finding finding).1))

-- `re.sub(r"[^...]+", sep, text)`: a run of characters outside the class becomes one separator; `inside`
-- is whether the run has begun.
unfoldable pub squeeze : (ℕ → Bool) → String → Bool → String → String
squeeze keeps sep inside String.[] = ""
squeeze keeps sep inside (String.◌∷◌ c s) = elim (keeps (code c)) [
  | true ↦ String.◌∷◌ c (squeeze keeps sep false s)
  | false ↦ let rest = squeeze keeps sep true s in if inside then rest else Texts.◌++◌ sep rest
]

abbrev is_dash : ℕ → Bool
is_dash n = n == 45

unfoldable pub strip_left_dashes : String → String
strip_left_dashes String.[] = ""
strip_left_dashes (String.◌∷◌ c s) = elim (is_dash (code c)) [
  | true ↦ strip_left_dashes s
  | false ↦ String.◌∷◌ c s
]

abbrev shorten_dash : Char → String → String
shorten_dash c String.[] = if is_dash (code c) then "" else String.◌∷◌ c ""
shorten_dash c (String.◌∷◌ d s) = String.◌∷◌ c (String.◌∷◌ d s)

unfoldable pub strip_right_dashes : String → String
strip_right_dashes String.[] = ""
strip_right_dashes (String.◌∷◌ c s) = shorten_dash c (strip_right_dashes s)

-- `text.strip("-")`.
unfoldable pub strip_dashes : String → String
unfolding strip_left_dashes strip_right_dashes
strip_dashes s = strip_left_dashes (strip_right_dashes s)

-- `re.sub` with an expression that sees whether a word character stands in front; behind a match one does.
-- The fuel is the length of the text.
unfoldable pub sub_all :
    (is_word : ℕ → Bool) → (Bool → String → Option String) → String → ℕ → Bool → String → String
sub_all is_word match repl zero before s = s
sub_all is_word match repl (suc fuel) before String.[] = ""
sub_all is_word match repl (suc fuel) before (String.◌∷◌ c s) =
    elim (match before (String.◌∷◌ c s)) [
      | some rest ↦ Texts.◌++◌ repl (sub_all is_word match repl fuel true rest)
      | none ↦ String.◌∷◌ c (sub_all is_word match repl fuel (is_word (code c)) s)
    ]

-- `[^\s:)]`.
abbrev in_path : ℕ → Bool
in_path n = not (is_space n) && not (n == 58) && not (n == 41)

-- `/(?:private/)?tmp/[^\s:)]+`.
unfoldable pub tmp_path : Bool → String → Option String
unfolding behind run1
tmp_path before s = do
  s1 ← behind "/" s
  s2 ← elim (behind "private/" s1) [ none ↦ behind "tmp/" s1 | some s' ↦ behind "tmp/" s' ]
  (path, rest) ← run1 in_path s2
  some rest

abbrev pub starts_word : (ℕ → Bool) → String → Bool
starts_word is_word String.[] = false
starts_word is_word (String.◌∷◌ c s) = is_word (code c)

module _ (is_word : ℕ → Bool) where
  -- `\b\d+\b`, with a digit at the left boundary.
  unfoldable pub whole_number : Bool → String → Option String
  unfolding run1
  whole_number before s = do
    (digits, rest) ← run1 is_digit s
    if before || starts_word is_word rest then none else some rest

  -- `\bseed=\d+\b`.
  unfoldable pub seed_text : Bool → String → Option String
  unfolding behind run1
  seed_text before s = do
    s1 ← behind "seed=" s
    (digits, rest) ← run1 is_digit s1
    if before || starts_word is_word rest then none else some rest

abbrev in_fallback : ℕ → Bool
in_fallback n =
    is_lower n || is_digit n || n == 95 || n == 60 || n == 62 || n == 35 || n == 46 || n == 45

module _ (is_word : ℕ → Bool) (lower : String → String) where
  -- `_signature_fallback(text)`.
  unfoldable pub signature_fallback : String → String
  unfolding sub_all tmp_path seed_text whole_number squeeze strip_dashes take_text
  signature_fallback text =
      let s0 = lower text in
      let s1 = sub_all is_word tmp_path "<tmp>" (size s0) false s0 in
      let s2 = sub_all is_word (seed_text is_word) "seed=#" (size s1) false s1 in
      let s3 = sub_all is_word (whole_number is_word) "#" (size s2) false s2 in
      let s4 = take_text 96 (strip_dashes (squeeze in_fallback "-" false s3)) in
      Texts.◌++◌ "fallback:" (if same_text s4 "" then "empty" else s4)
