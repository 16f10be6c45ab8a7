-- ===== src/MapVerify/Bundle.antt =====
-- `parse_bundle` of tools/toolchain/mcmap-verify.py, and how it reads one header. A text stands for bytes,
-- each character for one of them.
use Prim.Native.Char.{Char, code}
use modern_c.Prelude.{
  ℕ, String, Bool, true, false, not, ◌&&◌, ◌||◌, List, [], ◌∷◌, Option, none, some, ltb, leb, ◌==◌,
  size, same_text, begins, behind, span, all_chars, cat, ◌⊎◌, inl, inr, if◌then◌else◌,
}
use modern_c.Fuzz.Result.{◌>>=◌, need}

-- The messages of `VerifyError`.
pub data VerifyError : Type 0 where
  no_input : VerifyError
  cannot_read : String → VerifyError
  empty_bundle : VerifyError
  wrong_magic : (expected actual : String) → VerifyError
  non_ascii_header : VerifyError
  no_payload_marker : VerifyError
  missing_header : String → VerifyError
  not_digest : String → VerifyError
  wrong_value : (name actual expected : String) → VerifyError
  map_digests_differ : VerifyError
  payload_mismatch : (header actual : String) → VerifyError
  artifact_mismatch : (header actual : String) → VerifyError
  map_artifact_mismatch : (header actual : String) → VerifyError
  source_mismatch : (header actual : String) → VerifyError

-- A condition, or the message where it fails.
unfoldable pub expect : Bool → VerifyError → VerifyError ⊎ Unit {0}
expect true e = inr tt
expect false e = inl e

abbrev pub with_head : Char → List String → List String
with_head c [] = String.◌∷◌ c "" ∷ []
with_head c (line ∷ lines) = String.◌∷◌ c line ∷ lines

-- Whether a line ends with this character, before that text.
unfoldable pub ends_line : Char → String → Bool
unfolding begins
ends_line c s = code c == 10 || (code c == 13 && not (begins "\n" s))

-- `data.splitlines(keepends=True)`.
unfoldable pub keep_lines : String → List String
unfolding ends_line
keep_lines String.[] = []
keep_lines (String.◌∷◌ c s) =
    let rest = keep_lines s in if ends_line c s then String.◌∷◌ c "" ∷ rest else with_head c rest

abbrev is_break : ℕ → Bool
is_break n = n == 10 || n == 13

abbrev put_before : Char → String → String
put_before c String.[] = if is_break (code c) then "" else String.◌∷◌ c ""
put_before c (String.◌∷◌ d s) = String.◌∷◌ c (String.◌∷◌ d s)

-- `line.rstrip(b"\r\n")`.
unfoldable pub strip_break : String → String
strip_break String.[] = ""
strip_break (String.◌∷◌ c s) = put_before c (strip_break s)

abbrev pub is_ascii : String → Bool
is_ascii s = all_chars (λ n. ltb n 128) s

abbrev decode_actual : String → String
decode_actual line = if is_ascii line then line else "<non-ascii>"

-- The headers, the latest first.
abbrev pub Headers : Type 0
Headers = List (String × String)

-- `headers.get(name)`.
unfoldable pub header : Headers → String → Option String
header [] name = none
header ((key, value) ∷ headers) name =
    let earlier = header headers name in if same_text name key then some value else earlier

-- `body.split(b"=", 1)` and the decoding, where there is a `=`.
unfoldable pub add_body : String × String → Headers → VerifyError ⊎ Headers
add_body (key, String.[]) headers = inr headers
add_body (key, String.◌∷◌ c value) headers =
    if is_ascii key && is_ascii value then inr ((key, value) ∷ headers) else inl non_ascii_header

-- One line of the header.
unfoldable pub add_header : String → Headers → VerifyError ⊎ Headers
unfolding behind span add_body strip_break
add_header line headers = elim (behind "# " line) [
  | none ↦ inr headers
  | some rest ↦ add_body (span (λ n. not (n == 61)) (strip_break rest)) headers
]

pub record Bundle : Type 0 where
  pub headers : Headers
  pub payload : Option String

-- The loop over the lines.
unfoldable pub parse_lines : List String → Headers → VerifyError ⊎ Bundle
unfolding begins add_header cat ◌>>=◌
parse_lines [] headers = inr (record { headers = headers; payload = none })
parse_lines (line ∷ lines) headers = elim (begins "# columns:" line) [
  | true ↦ inr (record { headers = headers; payload = some (cat (line ∷ lines)) })
  | false ↦ add_header line headers >>= parse_lines lines
]

-- The payload, which may have to be there.
unfoldable pub with_payload :
    (require_payload : Bool) → Headers → Option String → VerifyError ⊎ (Headers × String)
with_payload require_payload headers (some payload) = inr (headers, payload)
with_payload true headers none = inl no_payload_marker
with_payload false headers none = inr (headers, "")

-- What is left of `parse_bundle` behind its first test.
unfoldable pub parse_from :
    (require_payload : Bool)
    → (magic first : String) → List String
    → VerifyError ⊎ (Headers × String)
unfolding parse_lines expect strip_break with_payload
parse_from require_payload magic first lines = do
  known ←
      expect (same_text (strip_break first) magic)
        (wrong_magic magic (decode_actual (strip_break first)))
  bundle ← parse_lines (first ∷ lines) []
  with_payload require_payload bundle.headers bundle.payload

abbrev pub parse_first : Bool → String → List String → VerifyError ⊎ (Headers × String)
parse_first require_payload magic [] = inl empty_bundle
parse_first require_payload magic (first ∷ lines) = parse_from require_payload magic first lines

-- `parse_bundle(data, require_payload=..., expected_magic=...)`.
unfoldable pub parse_bundle :
    String → (require_payload : Bool) → (magic : String) → VerifyError ⊎ (Headers × String)
unfolding keep_lines parse_from
parse_bundle bytes require_payload magic = parse_first require_payload magic (keep_lines bytes)

-- `HEX64_RE.fullmatch(value)`.
abbrev pub is_hex : ℕ → Bool
is_hex n = (leb 48 n && leb n 57) || (leb 97 n && leb n 102)

unfoldable pub is_digest : String → Bool
unfolding all_chars
is_digest s = size s == 64 && all_chars is_hex s

-- `require_header(headers, name)`.
unfoldable pub require_header : Headers → String → VerifyError ⊎ String
unfolding header need
require_header headers name = need (missing_header name) (header headers name)

-- `require_sha256_header(headers, name)`.
unfoldable pub require_sha256_header : Headers → String → VerifyError ⊎ String
unfolding require_header expect is_digest
require_sha256_header headers name = do
  value ← require_header headers name
  hex ← expect (is_digest value) (not_digest name)
  inr value

-- `require_header_value(headers, name, expected)`.
unfoldable pub require_header_value : Headers → (name expected : String) → VerifyError ⊎ Unit {0}
unfolding require_header expect
require_header_value headers name expected = do
  actual ← require_header headers name
  expect (same_text actual expected) (wrong_value name actual expected)
