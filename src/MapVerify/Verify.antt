-- ===== src/MapVerify/Verify.antt =====
-- `verify` of tools/toolchain/mcmap-verify.py. The files and SHA-256 are arguments.
use modern_c.Prelude.{
  String, Bool, false, ◌||◌, List, [], ◌∷◌, Option, none, some, is_some, same_text, ◌⊎◌, inr,
  if◌then◌else◌,
}
use modern_c.Fuzz.Result.{◌>>=◌, need}
use modern_c.MapVerify.Bundle.{
  VerifyError, no_input, cannot_read, map_digests_differ, payload_mismatch, artifact_mismatch,
  map_artifact_mismatch, source_mismatch, Headers, expect, header, parse_bundle,
  require_sha256_header, require_header_value,
}

-- The command line.
pub record VerifyArgs : Type 0 where
  pub map_path : Option String
  pub metadata : Option String
  pub artifact : Option String
  pub source : Option String
  pub source_map_artifact : Option String
  pub artifact_kind : Option String
  pub backend : Option String

abbrev pub either : Option String → Option String → Option String
either none second = second
either (some first) second = some first

abbrev pub magic_of : Option String → String
magic_of none = "# mcmeta v1"
magic_of (some path) = "# mcmap v1"

abbrev pub source_map_headers : List String
source_map_headers =
    "source_map_generated_artifact_sha256" ∷ "source_map_payload_sha256" ∷ "mir_facts_sha256" ∷ []

-- Some of the names are there.
unfoldable pub any_present : Headers → List String → Bool
unfolding header
any_present headers [] = false
any_present headers (name ∷ names) = is_some (header headers name) || any_present headers names

unfoldable pub require_digests : Headers → List String → VerifyError ⊎ Unit {0}
unfolding require_sha256_header ◌>>=◌
require_digests headers [] = inr tt
require_digests headers (name ∷ names) =
    require_sha256_header headers name >>= (λ value. require_digests headers names)

-- The branch of `verify` for a metadata file.
unfoldable pub check_sidecar : Headers → VerifyError ⊎ Unit {0}
unfolding any_present require_digests
check_sidecar headers =
    if any_present headers source_map_headers
    then require_digests headers source_map_headers
    else inr tt

-- A header that is compared where the command line gives a value.
unfoldable pub check_value : Headers → String → Option String → VerifyError ⊎ Unit {0}
unfolding require_header_value
check_value headers name none = inr tt
check_value headers name (some expected) = require_header_value headers name expected

module _ (sha256_bytes : String → String) (files : String → Option String) where
  -- The branch for a source map.
  unfoldable pub check_map : Headers → (payload digest : String) → VerifyError ⊎ Unit {0}
  unfolding require_header_value require_sha256_header expect
  check_map headers payload digest = do
    kind ← require_header_value headers "artifact_kind" "c-source-map"
    backend ← require_header_value headers "backend" "c"
    map_digest ← require_sha256_header headers "source_map_generated_artifact_sha256"
    same ← expect (same_text map_digest digest) map_digests_differ
    payload_digest ← require_sha256_header headers "source_map_payload_sha256"
    unchanged ←
        expect (same_text (sha256_bytes payload) payload_digest)
          (payload_mismatch payload_digest (sha256_bytes payload))
    facts ← require_sha256_header headers "mir_facts_sha256"
    inr tt

  unfoldable pub check_branch :
      Option String → Headers → (payload digest : String) → VerifyError ⊎ Unit {0}
  unfolding check_map check_sidecar
  check_branch none headers payload digest = check_sidecar headers
  check_branch (some path) headers payload digest = check_map headers payload digest

  -- A file whose digest is compared.
  unfoldable pub compare_digest :
      (mismatch : String → String → VerifyError) → (expected path : String) → VerifyError ⊎ Unit {0}
  unfolding need expect
  compare_digest mismatch expected path = do
    bytes ← need (cannot_read path) (files path)
    expect (same_text (sha256_bytes bytes) expected) (mismatch expected (sha256_bytes bytes))

  unfoldable pub check_artifact : (digest : String) → Option String → VerifyError ⊎ Unit {0}
  unfolding compare_digest
  check_artifact digest none = inr tt
  check_artifact digest (some path) = compare_digest artifact_mismatch digest path

  unfoldable pub check_paired :
      (mismatch : String → String → VerifyError)
      → Headers
      → String
      → Option String
      → VerifyError ⊎ Unit {0}
  unfolding compare_digest require_sha256_header
  check_paired mismatch headers name none = inr tt
  check_paired mismatch headers name (some path) = do
    expected ← require_sha256_header headers name
    compare_digest mismatch expected path

  -- What `verify` does with the headers and the payload.
  unfoldable pub verify_bundle : VerifyArgs → Headers × String → VerifyError ⊎ Unit {0}
  unfolding check_branch check_value check_artifact check_paired require_sha256_header
  verify_bundle args (headers, payload) = do
    digest ← require_sha256_header headers "generated_artifact_sha256"
    branch ← check_branch args.map_path headers payload digest
    kind ← check_value headers "artifact_kind" args.artifact_kind
    backend ← check_value headers "backend" args.backend
    artifact ← check_artifact digest args.artifact
    described ←
        check_paired map_artifact_mismatch headers "source_map_generated_artifact_sha256"
          args.source_map_artifact
    check_paired source_mismatch headers "source_sha256" args.source

  -- `verify(args)`.
  unfoldable pub verify : VerifyArgs → VerifyError ⊎ Unit {0}
  unfolding verify_bundle parse_bundle need
  verify args = do
    input_path ← need no_input (either args.map_path args.metadata)
    bytes ← need (cannot_read input_path) (files input_path)
    bundle ← parse_bundle bytes (is_some args.map_path) (magic_of args.map_path)
    verify_bundle args bundle
