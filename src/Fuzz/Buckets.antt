-- ===== src/Fuzz/Buckets.antt =====
-- `finding_signature` of tools/fuzz/mcfuzz.py: the bucket of a finding, by the first of its tests that
-- applies. The texts of `str.lower` and the characters of `\w` are arguments.
use Prim.Native.String as Texts
use modern_c.Prelude.{
  ℕ, String, Bool, false, not, ◌||◌, List, [], ◌∷◌, Option, none, some, ◌>>=◌, is_space, same_text,
  begins, mentions, behind, drop, cat, if◌then◌else◌,
}
use modern_c.Fuzz.Signature.{finding_body, squeeze, signature_fallback}
use modern_c.Fuzz.Patterns.{
  in_tag, slug, search_word, search_any, error_code, ubsan_kind, asan_kind, divergence_kind,
  family_kind, crash_bucket, hang_bucket, inconsistency, before_paren, roundtrip_kind, dashed,
}

abbrev not_space : ℕ → Bool
not_space n = not (is_space n)

unfoldable pub artifact_bucket : String → Option String
unfolding begins
artifact_bucket body =
    if begins "emit-map " body
    then some "artifacts:emit-map"
    else if begins "mir " body
    then some "artifacts:lower-mir"
    else if begins "ir " body
    then some "artifacts:inspect-ir"
    else if begins "fact " body || begins "checked " body
    then some "artifacts:facts"
    else none

-- The first result of a list.
unfoldable pub first_bucket : String → List (Option String) → String
first_bucket last [] = last
first_bucket last (some s ∷ rest) = s
first_bucket last (none ∷ rest) = first_bucket last rest

unfoldable pub if_begins : String → String → String → Option String
unfolding begins
if_begins start body bucket = if begins start body then some bucket else none

unfoldable pub if_mentions : String → String → String → Option String
unfolding mentions
if_mentions part body bucket = if mentions part body then some bucket else none

module _ (is_word : ℕ → Bool) (lower : String → String) where
  sanitizer_bucket :
      (start label : String) → (ℕ → Bool) → (String → Option String) → String → Option String
  sanitizer_bucket start label keeps kind body =
      if begins start body
      then some (elim (search_any kind body) [
        | none ↦ Texts.◌++◌ label "abort"
        | some group ↦ Texts.◌++◌ label (squeeze keeps "-" false (lower group))
      ])
      else none

  divergence_bucket : String → Option String
  divergence_bucket body = do
    (family, kind) ← family_kind false body
    some (cat ("divergence:" ∷ dashed (lower family) ∷ ":" ∷ slug (lower kind) ∷ []))

  -- This test is never reached: the one before applies wherever it would.
  backend_bucket : String → Option String
  backend_bucket body = do
    s ← behind "BACKEND" body
    kind ← divergence_kind s
    some (cat ("divergence:backend:" ∷ slug (lower kind) ∷ []))

  soundness_bucket : String → Option String
  soundness_bucket body =
      if_begins "SOUNDNESS:" body (Texts.◌++◌ "soundness:" (slug (lower (before_paren body))))

  roundtrip_bucket : String → Option String
  roundtrip_bucket body = do
    kind ← roundtrip_kind body
    some (Texts.◌++◌ "roundtrip:" (slug (lower kind)))

  error_bucket : String → Option String
  error_bucket body = do
    name ← search_word is_word (error_code is_word) false body
    some (Texts.◌++◌ "compiler-error:" name)

  -- The tests in their order.
  bucket_tests : (oracle_name body : String) → List (Option String)
  bucket_tests oracle_name body =
      error_bucket body
      ∷ sanitizer_bucket "UBSan:" "ubsan:" not_space ubsan_kind body
      ∷ sanitizer_bucket "ASan:" "asan:" in_tag asan_kind body
      ∷ divergence_bucket body
      ∷ backend_bucket body
      ∷ if_begins "TRAPSITE DIVERGENCE:" body "divergence:trapsite"
      ∷ search_word is_word crash_bucket false body
      ∷ search_word is_word hang_bucket false body
      ∷ search_any inconsistency body
      ∷ soundness_bucket body
      ∷ roundtrip_bucket body
      ∷ (if same_text oracle_name "artifacts" then artifact_bucket body else none)
      ∷ if_mentions "emit/compile failed" body "compile:emit-compile-failed"
      ∷ if_mentions "link failed" body "compile:link-failed"
      ∷ if_mentions "mcc check rejected a generated program" body
          "generator:mcc-check-rejected-generated-program"
      ∷ if_mentions "failed to execute" body
          (Texts.◌++◌ "tool-exec:" (drop 9 (signature_fallback is_word lower body)))
      ∷ []

  -- The bucket of a finding's body.
  unfoldable pub body_signature : (oracle_name body : String) → String
  unfolding bucket_tests sanitizer_bucket divergence_bucket backend_bucket soundness_bucket
      roundtrip_bucket error_bucket
  body_signature oracle_name body =
      first_bucket (signature_fallback is_word lower body) (bucket_tests oracle_name body)

  -- `finding_signature(finding, oracle_name)`.
  unfoldable pub finding_signature : (oracle_name finding : String) → String
  unfolding body_signature finding_body
  finding_signature oracle_name finding = body_signature oracle_name (finding_body finding)
