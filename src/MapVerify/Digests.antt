-- ===== src/MapVerify/Digests.antt =====
-- The digests that `verify` of tools/toolchain/mcmap-verify.py compares where it accepts.
use modern_c.Prelude.{◌≡◌, refl, ◌↔◌, String, inr, Option, none, some, IfSome}
use modern_c.Fuzz.Result.{◌>>=◌, bind-inr, need-inr, inr-need}
use modern_c.MapVerify.Bundle.{
  VerifyError, cannot_read, map_digests_differ, artifact_mismatch, Headers, header,
}
use modern_c.MapVerify.Verify.{check_map, compare_digest, check_artifact, check_paired}
use modern_c.MapVerify.Steps.{
  HasDigest, same-expect, require_sha256_header_iff, require_header_value_iff, Digest,
}

module _ (sha256_bytes : String → String) (files : String → Option String) where
  -- The digest of a file.
  pub record HashesTo (digest path : String) : Type 0 where
    pub bytes : String
    pub file_read : files path ≡ some bytes
    pub hash : sha256_bytes bytes ≡ digest

  compare_digest_iff :
      (mismatch : String → String → VerifyError) (expected path : String)
      → (compare_digest sha256_bytes files mismatch expected path ≡ inr tt) ↔ HashesTo expected path
  unfolding compare_digest ◌>>=◌
  compare_digest_iff mismatch expected path = (
    λ e.
        let (bytes, e1, e2) = bind-inr e in
        record {
          bytes = bytes;
          file_read = need-inr _ e1;
          hash = (same-expect (sha256_bytes bytes) expected _).0 e2;
        },
    λ h.
        rw (inr-need (cannot_read path) h.file_read, ◌>>=◌)
          ((same-expect (sha256_bytes h.bytes) expected _).1 h.hash),
  )

  pub check_artifact_iff :
      (digest : String) (path : Option String)
      → (check_artifact sha256_bytes files digest path ≡ inr tt) ↔ IfSome (HashesTo digest) path
  unfolding check_artifact
  check_artifact_iff digest none = (λ e. tt, λ h. refl)
  check_artifact_iff digest (some path) = compare_digest_iff artifact_mismatch digest path

  -- A file has the digest of a header.
  pub record Paired (headers : Headers) (name path : String) : Type 0 where
    pub digest : String
    pub listed : HasDigest headers name digest
    pub hashed : HashesTo digest path

  pub check_paired_iff :
      (mismatch : String → String → VerifyError) (headers : Headers) (name : String)
      (path : Option String)
      → (check_paired sha256_bytes files mismatch headers name path ≡ inr tt)
        ↔ IfSome (Paired headers name) path
  unfolding check_paired ◌>>=◌
  check_paired_iff mismatch headers name none = (λ e. tt, λ h. refl)
  check_paired_iff mismatch headers name (some path) = (
    λ e.
        let (digest, e1, e2) = bind-inr e in
        record {
          digest = digest;
          listed = (require_sha256_header_iff headers name digest).0 e1;
          hashed = (compare_digest_iff mismatch digest path).0 e2;
        },
    λ h.
        rw ((require_sha256_header_iff headers name h.digest).1 h.listed, ◌>>=◌)
          ((compare_digest_iff mismatch h.digest path).1 h.hashed),
  )

  -- A source map names its kind and the backend, the generated file twice with one digest, its own
  -- payload, and facts.
  pub record MapPart (headers : Headers) (payload digest : String) : Type 0 where
    pub kind : header headers "artifact_kind" ≡ some "c-source-map"
    pub backend : header headers "backend" ≡ some "c"
    pub described : HasDigest headers "source_map_generated_artifact_sha256" digest
    pub unchanged : HasDigest headers "source_map_payload_sha256" (sha256_bytes payload)
    pub facts : Digest headers "mir_facts_sha256"

  pub check_map_iff :
      (headers : Headers) (payload digest : String)
      → (check_map sha256_bytes files headers payload digest ≡ inr tt)
        ↔ MapPart headers payload digest
  unfolding check_map ◌>>=◌
  check_map_iff headers payload digest = (
    λ e.
        let (kind, e1, f1) = bind-inr e in
        let (backend, e2, f2) = bind-inr f1 in
        let (map_digest, e3, f3) = bind-inr f2 in
        let (same, e4, f4) = bind-inr f3 in
        let (payload_digest, e5, f5) = bind-inr f4 in
        let (paid, e6, f6) = bind-inr f5 in
        let (facts, e7, f7) = bind-inr f6 in
        let one : map_digest ≡ digest = (same-expect map_digest digest _).0 e4 in
        let own : sha256_bytes payload ≡ payload_digest =
          (same-expect (sha256_bytes payload) payload_digest _).0 e6 in
        record {
          kind = (require_header_value_iff headers _ _).0 e1;
          backend = (require_header_value_iff headers _ _).0 e2;
          described = rw⁻¹ (one) ((require_sha256_header_iff headers _ _).0 e3);
          unchanged = rw (own) ((require_sha256_header_iff headers _ _).0 e5);
          facts = (facts, (require_sha256_header_iff headers _ _).0 e7);
        },
    λ h.
        rw
          (
            (require_header_value_iff headers "artifact_kind" "c-source-map").1 h.kind,
            ◌>>=◌,
            (require_header_value_iff headers "backend" "c").1 h.backend,
            (require_sha256_header_iff headers _ digest).1 h.described,
            (same-expect digest digest map_digests_differ).1 refl,
            (require_sha256_header_iff headers _ (sha256_bytes payload)).1 h.unchanged,
            (same-expect (sha256_bytes payload) (sha256_bytes payload) _).1 refl,
            (require_sha256_header_iff headers _ h.facts.0).1 h.facts.1,
          )
          refl,
  )
