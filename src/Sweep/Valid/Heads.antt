-- ===== src/Sweep/Valid/Heads.antt =====
-- What the regular expression `\s*fn\s+` of `normalize_valid_chunk` matches.
use Prim.Native.Char.{code}
use Prim.Native.String as Texts
use text.Mathlib.TextLemmas.{nil-append, cons-append}
use modern_c.Prelude.{
  ℕ, ◌≡◌, refl, sym, ap, ◌∙◌, inl, inr, String, Bool, true, some, some-bind, arith, is_space,
  behind, behind-append, behind-some, span, span-append, stops, stops-append, all_chars,
  all_chars-span, Bool-cases,
}
use modern_c.Sweep.Names.{spaces, spaces1}
use modern_c.Sweep.Valid.{fn_head, nonempty}

pub span-append_whole : (p : ℕ → Bool) (s : String) → s ≡ Texts.◌++◌ (span p s).0 (span p s).1
unfolding span
span-append_whole p String.[] = sym (nil-append "")
span-append_whole p (String.◌∷◌ c s) = elim (Bool-cases (p (code c))) [
  | inl e ↦
      rw (e, span)
        (ap (λ (t : String). String.◌∷◌ c t) (span-append_whole p s)
          ∙ sym (cons-append c (span p s).0 (span p s).1))
  | inr e ↦ rw (e, span) (sym (nil-append (String.◌∷◌ c s)))
]

-- `\s*fn\s+` at the start of a text, with the rest behind it.
pub record FnHead (s indent rest : String) : Type 0 where
  pub gap : String
  pub placed : s ≡ Texts.◌++◌ indent (Texts.◌++◌ "fn" (Texts.◌++◌ gap rest))
  pub blank_indent : all_chars is_space indent ≡ true
  pub blank_gap : all_chars is_space gap ≡ true
  pub gap_there : nonempty gap ≡ true

spaces1-gap :
    (s rest : String)
    → spaces1 s ≡ some rest
    → (gap : String) × (s ≡ Texts.◌++◌ gap rest)
      × (all_chars is_space gap ≡ true)
      × (nonempty gap ≡ true)
unfolding spaces1 spaces all_chars
spaces1-gap String.[] rest e = absurd cc
spaces1-gap (String.◌∷◌ c s) rest e = elim (Bool-cases (is_space (code c))) [
  | inr f ↦ let never = rw (f, spaces1) at e in absurd cc
  | inl f ↦
      let found = rw (f, spaces1) at e in
      let same : (span is_space s).1 ≡ rest = cc in
      let inside = all_chars-span is_space s in
      (
        String.◌∷◌ c (span is_space s).0,
        rw (← same) (
            ap (λ (t : String). String.◌∷◌ c t) (span-append_whole is_space s)
            ∙ sym (cons-append c (span is_space s).0 (span is_space s).1)),
        ground (arith, f, inside),
        refl,
      )
]

pub fn_head-FnHead :
    (s indent rest : String) → fn_head s ≡ some (indent, rest) → FnHead s indent rest
unfolding fn_head
fn_head-FnHead s indent rest e =
    let (rest1, e1, f1) = some-bind (behind "fn" (span is_space s).1) _ (indent, rest) e in
    let (rest2, e2, f2) = some-bind (spaces1 rest1) _ (indent, rest) f1 in
    let pair : ((span is_space s).0, rest2) ≡ (indent, rest) = cc in
    let (gap, p, q, r) = spaces1-gap rest1 rest2 e2 in
    let front : (span is_space s).0 ≡ indent = ap (λ (x : String × String). x.0) pair in
    let tail : rest2 ≡ rest = ap (λ (x : String × String). x.1) pair in
    rw⁻¹ (front, tail)
      (record {
        gap = gap;
        placed =
            span-append_whole is_space s
            ∙ ap (λ (t : String). Texts.◌++◌ (span is_space s).0 t)
                (behind-some "fn" (span is_space s).1 rest1 e1
                  ∙ ap (λ (t : String). Texts.◌++◌ "fn" t) p);
        blank_indent = all_chars-span is_space s;
        blank_gap = q;
        gap_there = r;
      })

pub spaces-append :
    (gap rest : String)
    → all_chars is_space gap ≡ true
    → stops is_space rest ≡ true
    → spaces (Texts.◌++◌ gap rest) ≡ rest
unfolding spaces
spaces-append gap rest h g = ap (λ (p : String × String). p.1) (span-append is_space gap rest h g)

gap-spaces1 :
    (gap rest : String)
    → all_chars is_space gap ≡ true
    → nonempty gap ≡ true
    → stops is_space rest ≡ true
    → spaces1 (Texts.◌++◌ gap rest) ≡ some rest
unfolding spaces1 all_chars
gap-spaces1 String.[] rest h n g = absurd cc
gap-spaces1 (String.◌∷◌ c gap) rest h n g =
    let first : is_space (code c) ≡ true = ground (arith, h) in
    let others : all_chars is_space gap ≡ true = ground (arith, h) in
    rw (cons-append c gap rest, first, spaces-append gap rest others g) refl

parts-fn_head :
    (indent gap rest : String)
    → all_chars is_space indent ≡ true
    → all_chars is_space gap ≡ true
    → nonempty gap ≡ true
    → stops is_space rest ≡ true
    → fn_head (Texts.◌++◌ indent (Texts.◌++◌ "fn" (Texts.◌++◌ gap rest))) ≡ some (indent, rest)
unfolding fn_head
parts-fn_head indent gap rest h k n g =
    let tail = Texts.◌++◌ "fn" (Texts.◌++◌ gap rest) in
    let split : span is_space (Texts.◌++◌ indent tail) ≡ (indent, tail) =
      span-append is_space indent tail h
        (stops-append is_space "f" "n" (Texts.◌++◌ gap rest) refl) in
    rw (split, behind-append "fn" (Texts.◌++◌ gap rest), gap-spaces1 gap rest k n g) refl

pub FnHead-fn_head :
    (s indent rest : String)
    → FnHead s indent rest
    → stops is_space rest ≡ true
    → fn_head s ≡ some (indent, rest)
FnHead-fn_head s indent rest h g =
    ap fn_head h.placed ∙ parts-fn_head indent h.gap rest h.blank_indent h.blank_gap h.gap_there g
