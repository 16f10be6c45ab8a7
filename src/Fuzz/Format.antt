-- ===== src/Fuzz/Format.antt =====
-- `oracle_roundtrip` of tools/fuzz/mcfuzz.py, with `_run_mcc`, `_check_file`, `_stripped_lex_stream`,
-- `_emit_c_bytes` and `_roundtrip_c_body`. What a stage of the compiler gives for a file is an argument.
-- Outputs are bytes, one to a character, and decoding them is an argument too.
pub mod Stable
use Prim.Native.Char.{code}
use modern_c.Prelude.{
  ℕ, zero, suc, ◌+◌, String, Bool, true, false, not, ◌&&◌, List, [], ◌∷◌, map, Option, none, some,
  leb, ◌==◌, is_cons, is_space, join, lstrip, rstrip, strip, same_text, begins, mentions, behind,
  span, size, ◌⊎◌, inl, inr, if◌then◌else◌,
}
use modern_c.Fuzz.Keys.{splitlines}
use modern_c.Fuzz.Numbers.{ℤ, pos, negsuc}
use modern_c.Fuzz.Result.{◌>>=◌}
use modern_c.Fuzz.Artifacts.{Process, timeout_expired, completed}

-- The stage, the label of the source, and what the message carries.
pub data FormatFinding : Type 0 where
  hangs : (stage label : String) → FormatFinding
  crashed : (stage : String) → ℕ → (label : String) → FormatFinding
  rejected : (stage label err : String) → FormatFinding
  not_idempotent : FormatFinding
  tokens_differ : FormatFinding
  lowering_differs : FormatFinding

-- `text[:n]`.
unfoldable pub take_text : ℕ → String → String
take_text zero s = ""
take_text (suc n) String.[] = ""
take_text (suc n) (String.◌∷◌ c s) = String.◌∷◌ c (take_text n s)

unfoldable pub first_error_line : List String → Option String
unfolding mentions lstrip rstrip
first_error_line [] = none
first_error_line (l ∷ ls) =
    let rest = first_error_line ls in if mentions "error:" l then some (strip l) else rest

-- `_first_error(text)`.
unfoldable pub first_error : String → String
unfolding first_error_line splitlines take_text lstrip rstrip
first_error text = elim (first_error_line (splitlines text)) [
  | some l ↦ l
  | none ↦ take_text 120 (strip text)
]

abbrev is_digit : ℕ → Bool
is_digit n = leb 48 n && leb n 57

-- `[0-9]+:`, and what follows.
unfoldable pub number_colon : String → Option String
unfolding span behind
number_colon s = if same_text (span is_digit s).0 "" then none else behind ":" (span is_digit s).1

-- `:[0-9]+:[0-9]+:\s*`, and what follows.
unfoldable pub position : String → Option String
unfolding behind number_colon span
position s = elim (behind ":" s) [
  | none ↦ none
  | some s1 ↦ elim (number_colon s1) [
    | none ↦ none
    | some s2 ↦ elim (number_colon s2) [ none ↦ none | some s3 ↦ some (span is_space s3).1 ]
  ]
]

-- `.*?` in front of it: the first place where it matches. A line has no newline.
unfoldable pub behind_position : String → Option String
unfolding position
behind_position String.[] = none
behind_position (String.◌∷◌ c s) = elim (position (String.◌∷◌ c s)) [
  | some rest ↦ some rest
  | none ↦ elim (code c == 10) [ true ↦ none | false ↦ behind_position s ]
]

-- `re.sub(r"^.*?:[0-9]+:[0-9]+:\s*", "", line)`.
unfoldable pub without_position : String → String
unfolding behind_position
without_position line = elim (behind_position line) [ none ↦ line | some rest ↦ rest ]

unfoldable pub strip_positions : String → String
unfolding join without_position splitlines
strip_positions text = join "\n" (map without_position (splitlines text))

unfoldable pub drop_directives : List String → List String
unfolding begins
drop_directives [] = []
drop_directives (l ∷ ls) =
    let rest = drop_directives ls in if begins "#line " l then rest else l ∷ rest

-- A comparison whose texts must be the same.
unfoldable pub agree : String → String → FormatFinding → FormatFinding ⊎ Unit {0}
agree s t finding = if same_text s t then inr tt else inl finding

module _ (decode : String → String) where
  -- `_roundtrip_c_body(c_bytes)`, before it is encoded again.
  unfoldable pub roundtrip_c_body : String → String
  unfolding drop_directives splitlines join
  roundtrip_c_body c_bytes = join "\n" (drop_directives (splitlines (decode c_bytes)))

  -- What the stages have in common: the output, or why there is none.
  unfoldable pub outcome : String → String → Process → FormatFinding ⊎ String
  unfolding first_error
  outcome stage label timeout_expired = inl (hangs stage label)
  outcome stage label (completed (negsuc n) out err) = inl (crashed stage (n + 1) label)
  outcome stage label (completed (pos zero) out err) = inr out
  outcome stage label (completed (pos (suc n)) out err) =
      inl (rejected stage label (first_error (decode err)))

  -- `_stripped_lex_stream(env, src_path)` from what the compiler gave, before it is encoded again.
  unfoldable pub stripped_lex_stream : Process → FormatFinding ⊎ String
  unfolding strip_positions first_error
  stripped_lex_stream timeout_expired = inl (hangs "lex" "")
  stripped_lex_stream (completed (negsuc n) out err) = inl (crashed "lex" (n + 1) "")
  stripped_lex_stream (completed (pos zero) out err) =
      inr (strip_positions (decode (if same_text err "" then out else err)))
  stripped_lex_stream (completed (pos (suc n)) out err) =
      inl (rejected "lex" "source" (first_error (decode (if same_text err "" then out else err))))

  module _ (run_mcc : String → String → Process) (src : String) where
    -- `oracle_roundtrip(env, seed, src_path, work)` on the bytes of the source; the formatted file holds
    -- what `fmt` printed.
    unfoldable pub oracle_roundtrip : FormatFinding ⊎ Unit {0}
    oracle_roundtrip = do
      checked ← outcome "check" "generated source" (run_mcc "check" src)
      fmt1 ← outcome "fmt" "generated source" (run_mcc "fmt" src)
      checked1 ← outcome "check" "formatted source" (run_mcc "check" fmt1)
      fmt2 ← outcome "fmt" "its own output" (run_mcc "fmt" fmt1)
      idempotent ← agree fmt2 fmt1 not_idempotent
      toks_a ← stripped_lex_stream (run_mcc "lex" src)
      toks_b ← stripped_lex_stream (run_mcc "lex" fmt1)
      tokens ← agree toks_a toks_b tokens_differ
      c_a ← outcome "emit-c" "generated source" (run_mcc "emit-c" src)
      c_b ← outcome "emit-c" "formatted source" (run_mcc "emit-c" fmt1)
      agree (roundtrip_c_body c_a) (roundtrip_c_body c_b) lowering_differs
