-- ===== src/MapVerify/Examples.antt =====
-- Runs of tools/toolchain/mcmap-verify.py on small files, and the theorems at them.
use Prim.Native.String as Texts
use modern_c.Prelude.{
  ℕ, zero, suc, ◌≡◌, refl, ◌↔◌, String, true, [], ◌∷◌, Option, none, some, same_text, mentions,
  begins, inl, inr, if◌then◌else◌,
}
use modern_c.Fuzz.Result.{◌>>=◌}
use modern_c.MapVerify.Bundle.{payload_mismatch, keep_lines}
use modern_c.MapVerify.Verify.{VerifyArgs, verify}
use modern_c.MapVerify.Accepted.{Accepted, verify_iff}
use modern_c.MapVerify.Lines.{is_ended}
use modern_c.MapVerify.Body.{IsHeader, verify-payloads}

abbrev repeat : ℕ → String
repeat zero = ""
repeat (suc n) = Texts.◌++◌ "a" (repeat n)

-- A digest that tells texts with a `z` from the others.
abbrev digest : String → String
digest s = Texts.◌++◌ (repeat 63) (if mentions "z" s then "0" else "1")

abbrev one : String
one = digest ""

abbrev head : String
head =
    Texts.◌++◌
      "# mcmap v1\n# artifact_kind=c-source-map\r\n# backend=c\nskipped\n# generated_artifact_sha256="
      (Texts.◌++◌ one (
        Texts.◌++◌ "\n# source_map_generated_artifact_sha256=" (
          Texts.◌++◌ one (
            Texts.◌++◌ "\n# source_map_payload_sha256="
              (Texts.◌++◌ one (Texts.◌++◌ "\n# mir_facts_sha256=" (Texts.◌++◌ one "\n")))))))

abbrev body : String → String
body row = Texts.◌++◌ "# columns: x\n" row

abbrev files : String → String → Option String
files row path =
    if same_text path "p.mcmap" then some (Texts.◌++◌ head (body row)) else some "int main(void);"

abbrev args : VerifyArgs
args = record {
  map_path = some "p.mcmap";
  metadata = none;
  artifact = some "p.c";
  source = none;
  source_map_artifact = none;
  artifact_kind = none;
  backend = some "c";
}

verify_test :
    (verify digest (files "entry\n") args ≡ inr tt)
    × (verify digest (files "z\n") args ≡ inl (payload_mismatch one (digest "z")))
    × (keep_lines "a\r\nb\n\rc" ≡ ("a\r\n" ∷ "b\n" ∷ "\r" ∷ "c" ∷ []))
unfolding verify ◌>>=◌ keep_lines mentions
verify_test = (refl, refl, refl)

verify_iff_example :
    (verify digest (files "entry\n") args ≡ inr tt) ↔ Accepted digest (files "entry\n") args
verify_iff_example = verify_iff digest (files "entry\n") args

head-IsHeader : IsHeader head
unfolding is_ended keep_lines mentions begins
head-IsHeader = record {
  ended = refl;
  before_columns = (refl, (refl, (refl, (refl, (refl, (refl, (refl, (refl, tt))))))));
}

accepts :
    (verify digest (files "entry\n") args ≡ inr tt) × (verify digest (files "row\n") args ≡ inr tt)
unfolding verify ◌>>=◌ mentions
accepts = (refl, refl)

body-begins :
    (begins "# columns:" (body "entry\n") ≡ true) × (begins "# columns:" (body "row\n") ≡ true)
unfolding begins
body-begins = (refl, refl)

verify-payloads_example : digest (body "entry\n") ≡ digest (body "row\n")
verify-payloads_example =
    verify-payloads digest args "p.mcmap" head (files "entry\n") (files "row\n") (body "entry\n")
      (body "row\n") refl head-IsHeader refl refl (body-begins.0) (body-begins.1) accepts.0
      accepts.1
