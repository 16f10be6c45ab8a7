-- ===== src/Sweep/Valid/Extern.antt =====
-- What `normalize_valid_chunk` of tools/toolchain/spec_sweep_lib.py makes of a chunk that is kept.
use Prim.Native.Char.{Char, code}
use Prim.Native.String as Texts
use text.Mathlib.TextLemmas.{nil-append, cons-append}
use modern_c.Prelude.{
  ℕ, ◌≡◌, refl, sym, ap, ◌∙◌, ◌⊎◌, inl, inr, String, Bool, true, false, none, some, arith, ◌==◌,
  strip, line_starts, Bool-cases, Option-cases,
}
use modern_c.Sweep.Valid.{
  ends_with, fn_head, add_extern, prototype_at, has_prototype, extern_prototype,
}
use modern_c.Sweep.Valid.Heads.{FnHead, fn_head-FnHead}
use modern_c.Sweep.Valid.Prototype.{HasPrototype, Apart, has_prototype_iff}

-- A line of the chunk begins with `fn`, which becomes `extern fn ` with the white space behind it, and
-- what stands before and behind stays.
pub record Externed (starts : Bool) (chunk out : String) : Type 0 where
  pub before : String
  pub line : String
  pub indent : String
  pub rest : String
  pub at_line : line_starts starts before ≡ true
  pub joined : chunk ≡ Texts.◌++◌ before line
  pub head : FnHead line indent rest
  pub changed : out ≡ Texts.◌++◌ before (Texts.◌++◌ indent (Texts.◌++◌ "extern fn " rest))

Externed-cons :
    (starts : Bool) (c : Char) (s out : String)
    → Externed (code c == 10) s out
    → Externed starts (String.◌∷◌ c s) (String.◌∷◌ c out)
Externed-cons starts c s out h = record {
  before = String.◌∷◌ c h.before;
  line = h.line;
  indent = h.indent;
  rest = h.rest;
  at_line = h.at_line;
  joined = ap (λ (t : String). String.◌∷◌ c t) h.joined ∙ sym (cons-append c h.before h.line);
  head = h.head;
  changed =
      ap (λ (t : String). String.◌∷◌ c t) h.changed
      ∙ sym (cons-append c h.before (Texts.◌++◌ h.indent (Texts.◌++◌ "extern fn " h.rest)));
}

module _ (is_word : ℕ → Bool) where
  prototype_at-none : (s : String) → fn_head s ≡ none → prototype_at is_word s ≡ false
  unfolding prototype_at
  prototype_at-none s f = rw (f, prototype_at) refl

  add_extern-head :
      (c : Char) (s indent rest : String)
      → fn_head (String.◌∷◌ c s) ≡ some (indent, rest)
      → add_extern true (String.◌∷◌ c s) ≡ Texts.◌++◌ indent (Texts.◌++◌ "extern fn " rest)
  unfolding add_extern
  add_extern-head c s indent rest f = rw (f, add_extern) refl

  add_extern-none :
      (c : Char) (s : String)
      → fn_head (String.◌∷◌ c s) ≡ none
      → add_extern true (String.◌∷◌ c s) ≡ String.◌∷◌ c (add_extern (code c == 10) s)
  unfolding add_extern
  add_extern-none c s f = rw (f, add_extern) refl

  add_extern-later :
      (c : Char) (s : String)
      → add_extern false (String.◌∷◌ c s) ≡ String.◌∷◌ c (add_extern (code c == 10) s)
  unfolding add_extern
  add_extern-later c s = refl

  add_extern-Externed :
      (starts : Bool) (s : String)
      → has_prototype is_word starts s ≡ true
      → Externed starts s (add_extern starts s)
  unfolding has_prototype
  add_extern-Externed starts String.[] e = absurd cc
  add_extern-Externed false (String.◌∷◌ c s) e =
      rw (add_extern-later c s)
        (Externed-cons false c s _ (add_extern-Externed (code c == 10) s (ground (arith, e))))
  add_extern-Externed true (String.◌∷◌ c s) e = elim (Option-cases (fn_head (String.◌∷◌ c s))) [
    | inr ((indent, rest), f) ↦ rw (add_extern-head c s indent rest f) (record {
      before = "";
      line = String.◌∷◌ c s;
      indent = indent;
      rest = rest;
      at_line = refl;
      joined = sym (nil-append (String.◌∷◌ c s));
      head = fn_head-FnHead (String.◌∷◌ c s) indent rest f;
      changed = sym (nil-append (Texts.◌++◌ indent (Texts.◌++◌ "extern fn " rest)));
    })
    | inl f ↦
        let later = prototype_at-none (String.◌∷◌ c s) f in
        rw (add_extern-none c s f) (
          Externed-cons true c s _
            (add_extern-Externed (code c == 10) s (ground (arith, e, later))))
  ]

  -- A declaration without a body: it ends with `;`, and some line of it starts a prototype.
  abbrev pub IsDeclaration : String → Type 0
  IsDeclaration chunk = (ends_with b';' (strip chunk) ≡ true) × HasPrototype is_word true chunk

  -- In such a chunk one `fn` at the start of a line becomes `extern fn`; any other chunk stays.
  abbrev pub IsNormal : String → String → Type 0
  IsNormal chunk out =
      (IsDeclaration chunk × Externed true chunk out) ⊎ ((IsDeclaration chunk → ⊥) × (out ≡ chunk))

  extern_prototype-declaration :
      (chunk : String)
      → ends_with b';' (strip chunk) ≡ true
      → has_prototype is_word true chunk ≡ true
      → extern_prototype is_word chunk ≡ add_extern true chunk
  unfolding extern_prototype
  extern_prototype-declaration chunk e f = rw (e, f) refl

  extern_prototype-open :
      (chunk : String)
      → ends_with b';' (strip chunk) ≡ false
      → extern_prototype is_word chunk ≡ chunk
  unfolding extern_prototype
  extern_prototype-open chunk e = rw (e) refl

  extern_prototype-plain :
      (chunk : String)
      → has_prototype is_word true chunk ≡ false
      → extern_prototype is_word chunk ≡ chunk
  unfolding extern_prototype
  extern_prototype-plain chunk f = elim (Bool-cases (ends_with b';' (strip chunk))) [
    | inl e ↦ rw (e, f) refl
    | inr e ↦ rw (e) refl
  ]

  pub extern_prototype-IsNormal :
      (chunk : String) → Apart is_word → IsNormal chunk (extern_prototype is_word chunk)
  extern_prototype-IsNormal chunk a =
      let (to, from) = has_prototype_iff is_word chunk a in
      elim (Bool-cases (ends_with b';' (strip chunk))) [
        | inr e ↦ inr ((λ (ended, h). absurd cc), extern_prototype-open chunk e)
        | inl e ↦ elim (Bool-cases (has_prototype is_word true chunk)) [
          | inl f ↦
              rw (extern_prototype-declaration chunk e f)
                (inl ((e, to f), add_extern-Externed true chunk f))
          | inr f ↦
              inr ((λ (ended, h). let found = from h in absurd cc), extern_prototype-plain chunk f)
        ]
      ]
