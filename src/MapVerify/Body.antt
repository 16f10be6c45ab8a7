-- ===== src/MapVerify/Body.antt =====
-- The payload of a source map in tools/toolchain/mcmap-verify.py, which stands behind the header.
use Prim.Native.String as Texts
use modern_c.Prelude.{
  ◌≡◌, refl, sym, ap, ◌∙◌, String, true, false, inr, List, [], ◌∷◌, ◌++◌, Option, none, some,
  begins, all_chars, cat, All, ◌⊎◌,
}
use modern_c.Fuzz.Result.{◌>>=◌, bind-inr}
use modern_c.MapVerify.Bundle.{
  keep_lines, Headers, VerifyError, header, add_header, Bundle, parse_lines, parse_from,
  parse_first, parse_bundle, with_payload,
}
use modern_c.MapVerify.Verify.{VerifyArgs, verify}
use modern_c.MapVerify.Lines.{
  cat-keep_lines, is_ended, keep_lines-Nonempty, keep_lines-append, begins-first_line,
}
use modern_c.MapVerify.Digests.{MapPart}
use modern_c.MapVerify.Accepted.{Part, Accepted, verify_iff}

Inside : String → Type 0
Inside line = begins "# columns:" line ≡ false

-- The lines of a header: the last one is ended, and none starts the payload.
pub record IsHeader (head : String) : Type 0 where
  pub ended : is_ended head ≡ true
  pub before_columns : All (λ line. begins "# columns:" line ≡ false) (keep_lines head)

-- The headers that some lines give.
headers_of : List String → Headers → VerifyError ⊎ Headers
headers_of [] headers = inr headers
headers_of (line ∷ lines) headers = add_header line headers >>= headers_of lines

parse_lines-append :
    (head : List String) (line : String) (lines : List String) (headers : Headers) (bundle : Bundle)
    → All (λ line. begins "# columns:" line ≡ false) head
    → begins "# columns:" line ≡ true
    → parse_lines (head ++ (line ∷ lines)) headers ≡ inr bundle
    → (headers_of head headers ≡ inr bundle.headers) × (bundle.payload ≡ some (cat (line ∷ lines)))
unfolding parse_lines headers_of ◌>>=◌
parse_lines-append [] line lines headers bundle all start e =
    let found = rw (start, parse_lines) at e in
    let same : record { headers = headers; payload = some (cat (line ∷ lines)) } ≡ bundle = cc in
    (ap (λ (b : Bundle). inr b.headers) same, sym (ap (λ (b : Bundle). b.payload) same))
parse_lines-append (first ∷ head) line lines headers bundle (out, all) start e =
    let (next, e1, e2) =
      bind-inr {r = add_header first headers} {f = parse_lines (head ++ (line ∷ lines))}
        (rw (out, parse_lines) at e) in
    let (h, p) = parse_lines-append head line lines next bundle all start e2 in (rw (e1) h, p)

with_payload-inr :
    {headers : Headers} {payload : String} (found : Headers) (o : Option String)
    → with_payload true found o ≡ inr (headers, payload)
    → (found ≡ headers) × (o ≡ some payload)
unfolding with_payload
with_payload-inr found none e = absurd cc
with_payload-inr {headers} {payload} found (some p) e =
    let pair : (found, p) ≡ (headers, payload) = cc in
    (ap (λ (x : Headers × String). x.0) pair, ap (λ (x : Headers × String). some x.1) pair)

-- What is parsed with a payload is the lines' headers and payload.
parse_first-parse_lines :
    (magic : String) (lines : List String) (headers : Headers) (payload : String)
    → parse_first true magic lines ≡ inr (headers, payload)
    → (bundle : Bundle) × (parse_lines lines [] ≡ inr bundle)
      × (bundle.headers ≡ headers)
      × (bundle.payload ≡ some payload)
unfolding parse_from
parse_first-parse_lines magic [] headers payload e = absurd cc
parse_first-parse_lines magic (first ∷ lines) headers payload e =
    let (known, e1, f1) =
      bind-inr
        {f = λ (known : Unit {0}).
          parse_lines (first ∷ lines) []
          >>= (λ (b : Bundle). with_payload true b.headers b.payload)}
        e in
    let (bundle, e2, e3) =
      bind-inr {f = λ (b : Bundle). with_payload true b.headers b.payload} f1 in
    let (h, p) = with_payload-inr bundle.headers bundle.payload e3 in (bundle, e2, h, p)

-- What `parse_bundle` makes of a header and what stands behind it.
parse_bundle-body :
    (magic head body : String) (headers : Headers) (payload : String)
    → IsHeader head
    → begins "# columns:" body ≡ true
    → parse_bundle (Texts.◌++◌ head body) true magic ≡ inr (headers, payload)
    → (headers_of (keep_lines head) [] ≡ inr headers) × (payload ≡ body)
unfolding parse_bundle begins
parse_bundle-body magic head String.[] headers payload h start e = absurd cc
parse_bundle-body magic head (String.◌∷◌ d body) headers payload h start e =
    let (line, lines, e1) = keep_lines-Nonempty d body in
    let (bundle, e2, e3, e4) =
      parse_first-parse_lines magic (keep_lines (Texts.◌++◌ head (String.◌∷◌ d body))) headers
        payload e in
    let first : begins "# columns:" line ≡ true =
      rw (e1) at
        (begins-first_line "# columns:" (String.◌∷◌ d body) (unfold all_chars in refl) start) in
    let (e5, e6) =
      parse_lines-append (keep_lines head) line lines [] bundle h.before_columns first
        (rw (keep_lines-append head (String.◌∷◌ d body) h.ended, e1) at e2) in
    let same : payload ≡ cat (line ∷ lines) = cc in
    (e5 ∙ ap inr e3, same ∙ ap cat (sym e1) ∙ cat-keep_lines (String.◌∷◌ d body))

module _ (sha256_bytes : String → String) (args : VerifyArgs) (path head : String) where
  -- What an accepted source map says of its payload, at its header.
  Accepted-payload :
      (files : String → Option String) (body : String)
      → args.map_path ≡ some path
      → files path ≡ some (Texts.◌++◌ head body)
      → IsHeader head
      → begins "# columns:" body ≡ true
      → Accepted sha256_bytes files args
      → (headers : Headers) × (headers_of (keep_lines head) [] ≡ inr headers)
        × (header headers "source_map_payload_sha256" ≡ some (sha256_bytes body))
  unfolding Part
  Accepted-payload files body given read h start a =
      let first = rw (given) at a.input_given in
      let input : path ≡ a.input = cc in
      let again = rw (sym input) at a.bytes_read in
      let same : a.bytes ≡ Texts.◌++◌ head body = cc in
      let (listed, own) =
        parse_bundle-body "# mcmap v1" head body a.headers a.payload h start
          (rw (given, same) at a.parsed) in
      let part : MapPart sha256_bytes files a.headers a.payload a.sound.digest =
        rw (given) at a.sound.part in
      (a.headers, listed, part.unchanged.given ∙ ap (λ (s : String). some (sha256_bytes s)) own)

  -- The body of a source map cannot be substituted: where two files have the same header, one with this
  -- payload and one with that, and both are accepted, the payloads have the same SHA-256 digest.
  pub verify-payloads :
      (files files' : String → Option String) (body body' : String)
      → args.map_path ≡ some path
      → IsHeader head
      → files path ≡ some (Texts.◌++◌ head body)
      → files' path ≡ some (Texts.◌++◌ head body')
      → begins "# columns:" body ≡ true
      → begins "# columns:" body' ≡ true
      → verify sha256_bytes files args ≡ inr tt
      → verify sha256_bytes files' args ≡ inr tt
      → sha256_bytes body ≡ sha256_bytes body'
  verify-payloads files files' body body' given h read read' start start' e e' =
      let (headers, f1, f2) =
        Accepted-payload files body given read h start ((verify_iff sha256_bytes files args).0 e) in
      let (headers', g1, g2) =
        Accepted-payload files' body' given read' h start'
          ((verify_iff sha256_bytes files' args).0 e') in
      let same : headers ≡ headers' = cc in let both = rw (same) at f2 in cc
