-- ===== src/MapVerify/Steps.antt =====
-- What the parts of `verify` in tools/toolchain/mcmap-verify.py have found where they accept.
use modern_c.Prelude.{
  ◌≡◌, refl, ◌↔◌, String, Bool, true, false, ◌&&◌, inl, inr, List, [], ◌∷◌, Option, none, some,
  arith, IfSome, size, same_text, same_text_iff, all_chars, All, Bool-cases, Option-cases, ◌==◌,
  ◌⊎◌,
}
use modern_c.Fuzz.Result.{◌>>=◌, bind-inr, need-inr, inr-need}
use modern_c.MapVerify.Bundle.{
  VerifyError, missing_header, not_digest, wrong_value, Headers, expect, header, is_hex, is_digest,
  require_header, require_sha256_header, require_header_value,
}
use modern_c.MapVerify.Verify.{
  source_map_headers, any_present, require_digests, check_sidecar, check_value,
}

-- A header that is a SHA-256 digest: 64 characters, each a digit or one of `a` to `f`.
pub record HasDigest (headers : Headers) (name digest : String) : Type 0 where
  pub given : header headers name ≡ some digest
  pub long : size digest ≡ 64
  pub in_hex : all_chars is_hex digest ≡ true

pub expect_iff : (b : Bool) (e : VerifyError) → (expect b e ≡ inr tt) ↔ (b ≡ true)
unfolding expect
expect_iff true e = (λ h. refl, λ h. refl)
expect_iff false e = (λ h. absurd cc, λ h. absurd cc)

pub same-expect : (s t : String) (e : VerifyError) → (expect (same_text s t) e ≡ inr tt) ↔ (s ≡ t)
same-expect s t e = (
  λ h. (same_text_iff s t).0 ((expect_iff _ e).0 h),
  λ h. (expect_iff _ e).1 ((same_text_iff s t).1 h),
)

pub require_sha256_header_iff :
    (headers : Headers) (name digest : String)
    → (require_sha256_header headers name ≡ inr digest) ↔ HasDigest headers name digest
unfolding require_sha256_header require_header is_digest ◌>>=◌
require_sha256_header_iff headers name digest = (
  λ e.
      let (value, e1, e2) = bind-inr e in
      let (done, e3, e4) = bind-inr e2 in
      let hex : (size value == 64 && all_chars is_hex value) ≡ true = (expect_iff _ _).0 e3 in
      let long : size value ≡ 64 = ground (arith, hex) in
      let in_hex : all_chars is_hex value ≡ true = ground (arith, hex) in
      let same : value ≡ digest = cc in
      rw⁻¹ (same) (record { given = need-inr _ e1; long = long; in_hex = in_hex }),
  λ h.
      let hex : (size digest == 64 && all_chars is_hex digest) ≡ true =
        ground (arith, h.long, h.in_hex) in
      rw (inr-need (missing_header name) h.given, ◌>>=◌, (expect_iff _ (not_digest name)).1 hex)
        refl,
)

pub require_header_value_iff :
    (headers : Headers) (name expected : String)
    → (require_header_value headers name expected ≡ inr tt) ↔ (header headers name ≡ some expected)
unfolding require_header_value require_header ◌>>=◌
require_header_value_iff headers name expected = (
  λ e.
      let (actual, e1, e2) = bind-inr e in
      let same = (same-expect actual expected _).0 e2 in rw⁻¹ (same) (need-inr _ e1),
  λ h.
      rw (inr-need (missing_header name) h, ◌>>=◌)
        ((same-expect expected expected (wrong_value name expected expected)).1 refl),
)

abbrev pub Digest : Headers → String → Type 0
Digest headers name = (digest : String) × HasDigest headers name digest

require_digests_iff :
    (headers : Headers) (names : List String)
    → (require_digests headers names ≡ inr tt) ↔ All (Digest headers) names
unfolding require_digests ◌>>=◌
require_digests_iff headers [] = (λ e. tt, λ h. refl)
require_digests_iff headers (name ∷ names) = (
  λ e.
      let (digest, e1, e2) = bind-inr e in
      (
        (digest, (require_sha256_header_iff headers name digest).0 e1),
        (require_digests_iff headers names).0 e2,
      ),
  λ ((digest, h), rest).
      rw ((require_sha256_header_iff headers name digest).1 h, ◌>>=◌)
        ((require_digests_iff headers names).1 rest),
)

abbrev pub Missing : Headers → String → Type 0
Missing headers name = header headers name ≡ none

any_present_iff :
    (headers : Headers) (names : List String)
    → (any_present headers names ≡ false) ↔ All (Missing headers) names
unfolding any_present
any_present_iff headers [] = (λ e. tt, λ h. refl)
any_present_iff headers (name ∷ names) = elim (Option-cases (header headers name)) [
  | inl e ↦ rw (e) (
    λ h. (refl, (any_present_iff headers names).0 h),
    λ (h, rest). (any_present_iff headers names).1 rest,
  )
  | inr (value, e) ↦ rw (e) (λ h. absurd cc, λ (h, rest). absurd cc)
]

-- A metadata file has none of the headers of a source map, or the digests in all of them.
pub SidecarPart : Headers → Type 0
SidecarPart headers =
    All (Missing headers) source_map_headers ⊎ All (Digest headers) source_map_headers

pub check_sidecar_iff : (headers : Headers) → (check_sidecar headers ≡ inr tt) ↔ SidecarPart headers
unfolding check_sidecar SidecarPart
check_sidecar_iff headers = elim (Bool-cases (any_present headers source_map_headers)) [
  | inl e ↦ rw (e) (
    λ h. inr ((require_digests_iff headers source_map_headers).0 h),
    λ h. elim h [
      | inl absent ↦ let never = (any_present_iff headers source_map_headers).1 absent in absurd cc
      | inr all ↦ (require_digests_iff headers source_map_headers).1 all
    ],
  )
  | inr e ↦ rw (e) (λ h. inl ((any_present_iff headers source_map_headers).0 e), λ h. refl)
]

pub check_value_iff :
    (headers : Headers) (name : String) (given : Option String)
    → (check_value headers name given ≡ inr tt)
      ↔ IfSome (λ expected. header headers name ≡ some expected) given
unfolding check_value
check_value_iff headers name none = (λ e. tt, λ h. refl)
check_value_iff headers name (some expected) = require_header_value_iff headers name expected
