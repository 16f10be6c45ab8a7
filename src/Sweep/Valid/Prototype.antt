-- ===== src/Sweep/Valid/Prototype.antt =====
-- The chunks in which a line starts a prototype, for `normalize_valid_chunk` of
-- tools/toolchain/spec_sweep_lib.py.
use Prim.Native.Char.{code}
use Prim.Native.String as Texts
use text.Mathlib.TextLemmas.{nil-append, cons-append}
use modern_c.Prelude.{
  ℕ, ◌≡◌, refl, sym, ap, ◌∙◌, ◌↔◌, inl, inr, String, Bool, true, false, ◌&&◌, some, is_some, arith,
  ◌==◌, is_space, line_starts, behind, behind-append, behind-some, span, span-append, stops,
  stops-append, all_chars, all_chars-span, Bool-cases, Option-cases,
}
use modern_c.Sweep.Names.{spaces}
use modern_c.Sweep.Valid.{fn_head, nonempty, prototype_at, has_prototype}
use modern_c.Sweep.Valid.Heads.{
  span-append_whole, FnHead, fn_head-FnHead, FnHead-fn_head, spaces-append,
}

module _ (is_word : ℕ → Bool) where
  -- `\s*fn\s+\w+\s*\(` at the start of a text.
  pub record Prototype (s : String) : Type 0 where
    pub indent : String
    pub rest : String
    pub head : FnHead s indent rest
    pub name : String
    pub named : nonempty name ≡ true
    pub name_chars : all_chars is_word name ≡ true
    pub blank : String
    pub blank_chars : all_chars is_space blank ≡ true
    pub arguments : String
    pub behind_head : rest ≡ Texts.◌++◌ name (Texts.◌++◌ blank (Texts.◌++◌ "(" arguments))

  prototype_at-Prototype : (s : String) → prototype_at is_word s ≡ true → Prototype s
  unfolding prototype_at spaces
  prototype_at-Prototype s e = elim (Option-cases (fn_head s)) [
    | inl f ↦ let never = rw (f, prototype_at) at e in absurd cc
    | inr ((indent, rest), f) ↦
        let found = rw (f, prototype_at) at e in
        let named : nonempty (span is_word rest).0 ≡ true = ground (arith, found) in
        let name = (span is_word rest).0 in
        let tail = (span is_word rest).1 in
        let there : is_some (behind "(" (span is_space tail).1) ≡ true = ground (arith, found) in
        elim (Option-cases (behind "(" (span is_space tail).1)) [
          | inl g ↦ let never = rw (g) at there in absurd cc
          | inr (arguments, g) ↦ record {
            indent = indent;
            rest = rest;
            head = fn_head-FnHead s indent rest f;
            name = name;
            named = named;
            name_chars = all_chars-span is_word rest;
            blank = (span is_space tail).0;
            blank_chars = all_chars-span is_space tail;
            arguments = arguments;
            behind_head =
                span-append_whole is_word rest
                ∙ ap (λ (t : String). Texts.◌++◌ name t)
                    (span-append_whole is_space tail
                      ∙ ap (λ (t : String). Texts.◌++◌ (span is_space tail).0 t)
                          (behind-some "(" (span is_space tail).1 arguments g));
          }
        ]
  ]

  -- Some line of a text starts so.
  pub record HasPrototype (starts : Bool) (chunk : String) : Type 0 where
    pub before : String
    pub line : String
    pub at_line : line_starts starts before ≡ true
    pub joined : chunk ≡ Texts.◌++◌ before line
    pub prototype : Prototype line

  has_prototype-HasPrototype :
      (starts : Bool) (s : String) → has_prototype is_word starts s ≡ true → HasPrototype starts s
  unfolding has_prototype
  has_prototype-HasPrototype starts String.[] e = absurd cc
  has_prototype-HasPrototype starts (String.◌∷◌ c s) e =
      elim (Bool-cases (starts && prototype_at is_word (String.◌∷◌ c s))) [
        | inl f ↦ record {
          before = "";
          line = String.◌∷◌ c s;
          at_line = ground (arith, f);
          joined = sym (nil-append (String.◌∷◌ c s));
          prototype = prototype_at-Prototype (String.◌∷◌ c s) (ground (arith, f));
        }
        | inr f ↦
            let h = has_prototype-HasPrototype (code c == 10) s (ground (arith, e, f)) in
            record {
              before = String.◌∷◌ c h.before;
              line = h.line;
              at_line = h.at_line;
              joined =
                  ap (λ (t : String). String.◌∷◌ c t) h.joined
                  ∙ sym (cons-append c h.before h.line);
              prototype = h.prototype;
            }
      ]

  -- Of characters, a space is no word character, and neither is an opening parenthesis.
  pub record Apart : Type 0 where
    pub no_space : (n : ℕ) → is_word n ≡ true → is_space n ≡ false
    pub no_paren : is_word 40 ≡ false

  named-stops :
      (name rest : String)
      → Apart
      → nonempty name ≡ true
      → all_chars is_word name ≡ true
      → stops is_space (Texts.◌++◌ name rest) ≡ true
  unfolding all_chars
  named-stops String.[] rest a n h = absurd cc
  named-stops (String.◌∷◌ c name) rest a n h =
      stops-append is_space c name rest (a.no_space (code c) (ground (arith, h)))

  blank-stops :
      (blank arguments : String)
      → Apart
      → all_chars is_space blank ≡ true
      → stops is_word (Texts.◌++◌ blank (Texts.◌++◌ "(" arguments)) ≡ true
  unfolding all_chars
  blank-stops String.[] arguments a h =
      rw (nil-append (Texts.◌++◌ "(" arguments)) (stops-append is_word "(" "" arguments a.no_paren)
  blank-stops (String.◌∷◌ c blank) arguments a h =
      stops-append is_word c blank (Texts.◌++◌ "(" arguments)
        (ground (arith, h, a.no_space (code c)))

  parts-prototype_at :
      (s indent name blank arguments : String)
      → Apart
      → fn_head s ≡ some (indent, Texts.◌++◌ name (Texts.◌++◌ blank (Texts.◌++◌ "(" arguments)))
      → nonempty name ≡ true
      → all_chars is_word name ≡ true
      → all_chars is_space blank ≡ true
      → prototype_at is_word s ≡ true
  unfolding prototype_at
  parts-prototype_at s indent name blank arguments a e n h k =
      let tail = Texts.◌++◌ blank (Texts.◌++◌ "(" arguments) in
      rw
        (
          e,
          prototype_at,
          span-append is_word name tail h (blank-stops blank arguments a k),
          spaces-append blank (Texts.◌++◌ "(" arguments) k
              (stops-append is_space "(" "" arguments refl),
          behind-append "(" arguments,
          n,
        )
        refl

  Prototype-prototype_at : (s : String) → Apart → Prototype s → prototype_at is_word s ≡ true
  Prototype-prototype_at s a p =
      let tail = Texts.◌++◌ p.blank (Texts.◌++◌ "(" p.arguments) in
      let stopped : stops is_space p.rest ≡ true =
        ap (stops is_space) p.behind_head ∙ named-stops p.name tail a p.named p.name_chars in
      parts-prototype_at s p.indent p.name p.blank p.arguments a
        (FnHead-fn_head s p.indent p.rest p.head stopped
          ∙ ap (λ (t : String). some (p.indent, t)) p.behind_head)
        p.named p.name_chars p.blank_chars

  has_prototype-here :
      (s : String) → prototype_at is_word s ≡ true → has_prototype is_word true s ≡ true
  unfolding has_prototype
  has_prototype-here String.[] h = unfold prototype_at in unfold fn_head in h
  has_prototype-here (String.◌∷◌ c s) h = ground (arith, h)

  has_prototype-append :
      (starts : Bool) (before line : String)
      → line_starts starts before ≡ true
      → prototype_at is_word line ≡ true
      → has_prototype is_word starts (Texts.◌++◌ before line) ≡ true
  unfolding has_prototype
  has_prototype-append starts String.[] line h g =
      rw (nil-append line, h) (has_prototype-here line g)
  has_prototype-append starts (String.◌∷◌ c before) line h g =
      rw (cons-append c before line)
        (ground (arith, has_prototype-append (code c == 10) before line h g))

  pub has_prototype_iff :
      (s : String) → Apart → (has_prototype is_word true s ≡ true) ↔ HasPrototype true s
  has_prototype_iff s a = (
    has_prototype-HasPrototype true s,
    λ h.
        ap (has_prototype is_word true) h.joined
        ∙ has_prototype-append true h.before h.line h.at_line
            (Prototype-prototype_at h.line a h.prototype),
  )
