-- ===== src/MapVerify/Accepted.antt =====
-- What `verify` of tools/toolchain/mcmap-verify.py has found where it accepts.
use modern_c.Prelude.{◌≡◌, ◌↔◌, String, inr, Option, none, some, is_some, IfSome}
use modern_c.Fuzz.Result.{◌>>=◌, bind-inr, need-inr, inr-need}
use modern_c.MapVerify.Bundle.{
  no_input, cannot_read, map_artifact_mismatch, source_mismatch, Headers, header, parse_bundle,
}
use modern_c.MapVerify.Verify.{VerifyArgs, either, magic_of, check_branch, verify_bundle, verify}
use modern_c.MapVerify.Steps.{
  HasDigest, require_sha256_header_iff, SidecarPart, check_sidecar_iff, check_value_iff,
}
use modern_c.MapVerify.Digests.{
  HashesTo, check_artifact_iff, Paired, check_paired_iff, MapPart, check_map_iff,
}

module _ (sha256_bytes : String → String) (files : String → Option String) where
  -- What is asked of a source map, and of a metadata file.
  unfoldable pub Part : Option String → Headers → (payload digest : String) → Type 0
  Part none headers payload digest = SidecarPart headers
  Part (some path) headers payload digest = MapPart sha256_bytes files headers payload digest

  check_branch_iff :
      (path : Option String) (headers : Headers) (payload digest : String)
      → (check_branch sha256_bytes files path headers payload digest ≡ inr tt)
        ↔ Part path headers payload digest
  unfolding check_branch Part
  check_branch_iff none headers payload digest = check_sidecar_iff headers
  check_branch_iff (some path) headers payload digest =
      check_map_iff sha256_bytes files headers payload digest

  -- The headers are what the files say.
  pub record Sound (args : VerifyArgs) (headers : Headers) (payload : String) : Type 0 where
    pub digest : String
    pub listed : HasDigest headers "generated_artifact_sha256" digest
    pub part : Part args.map_path headers payload digest
    pub kind : IfSome (λ k. header headers "artifact_kind" ≡ some k) args.artifact_kind
    pub backend : IfSome (λ b. header headers "backend" ≡ some b) args.backend
    pub artifact : IfSome (HashesTo sha256_bytes files digest) args.artifact
    pub described :
        IfSome
          (Paired sha256_bytes files headers "source_map_generated_artifact_sha256")
          args.source_map_artifact
    pub source : IfSome (Paired sha256_bytes files headers "source_sha256") args.source

  pub verify_bundle_iff :
      (args : VerifyArgs) (headers : Headers) (payload : String)
      → (verify_bundle sha256_bytes files args (headers, payload) ≡ inr tt)
        ↔ Sound args headers payload
  unfolding verify_bundle ◌>>=◌
  verify_bundle_iff args headers payload = (
    λ e.
        let (digest, e1, f1) = bind-inr e in
        let (branch, e2, f2) = bind-inr f1 in
        let (kind, e3, f3) = bind-inr f2 in
        let (backend, e4, f4) = bind-inr f3 in
        let (artifact, e5, f5) = bind-inr f4 in
        let (described, e6, e7) = bind-inr f5 in
        record {
          digest = digest;
          listed = (require_sha256_header_iff headers _ digest).0 e1;
          part = (check_branch_iff args.map_path headers payload digest).0 e2;
          kind = (check_value_iff headers _ args.artifact_kind).0 e3;
          backend = (check_value_iff headers _ args.backend).0 e4;
          artifact = (check_artifact_iff sha256_bytes files digest args.artifact).0 e5;
          described =
              (check_paired_iff sha256_bytes files map_artifact_mismatch headers _
                  args.source_map_artifact).0
                e6;
          source = (check_paired_iff sha256_bytes files source_mismatch headers _ args.source).0 e7;
        },
    λ h.
        rw
          (
            (require_sha256_header_iff headers _ h.digest).1 h.listed,
            ◌>>=◌,
            (check_branch_iff args.map_path headers payload h.digest).1 h.part,
            (check_value_iff headers _ args.artifact_kind).1 h.kind,
            (check_value_iff headers _ args.backend).1 h.backend,
            (check_artifact_iff sha256_bytes files h.digest args.artifact).1 h.artifact,
            (check_paired_iff sha256_bytes files map_artifact_mismatch headers _
                  args.source_map_artifact).1
                h.described,
          )
          ((check_paired_iff sha256_bytes files source_mismatch headers _ args.source).1 h.source),
  )

  -- The bundle that is checked, and what is found in it.
  pub record Accepted (args : VerifyArgs) : Type 0 where
    pub input : String
    pub input_given : either args.map_path args.metadata ≡ some input
    pub bytes : String
    pub bytes_read : files input ≡ some bytes
    pub headers : Headers
    pub payload : String
    pub parsed :
        parse_bundle bytes (is_some args.map_path) (magic_of args.map_path) ≡ inr (headers, payload)
    pub sound : Sound args headers payload

  -- A bundle is accepted if and only if it is given, can be read and parsed, its headers hold the digests
  -- that its kind asks for, among them a source map's digest of its own payload, and each file and value
  -- that the command line gives is the one of the header.
  pub verify_iff : (args : VerifyArgs) → (verify sha256_bytes files args ≡ inr tt) ↔ Accepted args
  unfolding verify ◌>>=◌
  verify_iff args = (
    λ e.
        let (input, e1, f1) = bind-inr e in
        let (bytes, e2, f2) = bind-inr f1 in
        let (bundle, e3, e4) = bind-inr {A = Headers × String} f2 in
        record {
          input = input;
          input_given = need-inr _ e1;
          bytes = bytes;
          bytes_read = need-inr _ e2;
          headers = bundle.0;
          payload = bundle.1;
          parsed = e3;
          sound = (verify_bundle_iff args bundle.0 bundle.1).0 e4;
        },
    λ h.
        rw
          (
            inr-need no_input h.input_given,
            ◌>>=◌,
            inr-need (cannot_read h.input) h.bytes_read,
            h.parsed,
          )
          ((verify_bundle_iff args h.headers h.payload).1 h.sound),
  )
