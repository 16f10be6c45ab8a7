-- ===== src/Sweep/Chunks/Lossless.antt =====
-- The chunks of `split_top_level` in tools/toolchain/spec_sweep_lib.py, put together again.
use Prim.Native.Char.{Char, code}
use Prim.Native.String as Texts
use text.Mathlib.TextLemmas.{nil-append, cons-append, append_assoc, append-nil}
use modern_c.Prelude.{
  ℕ, zero, suc, ◌≤◌, ◌≡◌, refl, sym, ap, ◌∙◌, String, ◌&&◌, ◌||◌, inl, inr, List, ◌∷◌, Option, none,
  some, arith, ◌==◌, cat, strip, same_text, same_text_iff, size, with_char, Splits, nil-Splits,
  with_char-Splits, Bool-cases, Option-cases,
}
use modern_c.Fuzz.Numbers.{ℤ, pos}
use modern_c.Sweep.Chunks.{
  to_newline, to_comment_end, to_quote, comment, literal, verbatim, depth_behind, ends_chunk,
  last_chunk, split_from, split_top_level,
}

one-Splits : (c : Char) (s : String) → Splits (String.◌∷◌ c s) (String.◌∷◌ c "", s)
one-Splits c s = with_char-Splits c s ("", s) (nil-Splits s)

to_newline-Splits : (s : String) → Splits s (to_newline s)
unfolding to_newline
to_newline-Splits String.[] = nil-Splits ""
to_newline-Splits (String.◌∷◌ c s) = elim (Bool-cases (code c == 10)) [
  | inl e ↦ rw (e, to_newline) (one-Splits c s)
  | inr e ↦ rw (e, to_newline) (with_char-Splits c s (to_newline s) (to_newline-Splits s))
]

to_comment_end-Splits : (s : String) → Splits s (to_comment_end s)
unfolding to_comment_end
to_comment_end-Splits String.[] = nil-Splits ""
to_comment_end-Splits (String.◌∷◌ c String.[]) = one-Splits c ""
to_comment_end-Splits (String.◌∷◌ c (String.◌∷◌ d s)) =
    elim (Bool-cases (code c == b'*' && code d == b'/')) [
      | inl e ↦
          rw (e, to_comment_end)
            (with_char-Splits c (String.◌∷◌ d s) (String.◌∷◌ d "", s) (one-Splits d s))
      | inr e ↦
          rw (e, to_comment_end)
            (with_char-Splits c (String.◌∷◌ d s) (to_comment_end (String.◌∷◌ d s))
              (to_comment_end-Splits (String.◌∷◌ d s)))
    ]

to_quote-Splits : (q : ℕ) (s : String) → Splits s (to_quote q s)
unfolding to_quote
to_quote-Splits q String.[] = nil-Splits ""
to_quote-Splits q (String.◌∷◌ c String.[]) = one-Splits c ""
to_quote-Splits q (String.◌∷◌ c (String.◌∷◌ d s)) = elim (Bool-cases (code c == 92)) [
  | inl e ↦
      rw (e, to_quote)
        (with_char-Splits c (String.◌∷◌ d s) (with_char d (to_quote q s))
          (with_char-Splits d s (to_quote q s) (to_quote-Splits q s)))
  | inr e ↦ elim (Bool-cases (code c == q)) [
    | inl f ↦ rw (e, f, to_quote) (one-Splits c (String.◌∷◌ d s))
    | inr f ↦
        rw (e, f, to_quote)
          (with_char-Splits c (String.◌∷◌ d s) (to_quote q (String.◌∷◌ d s))
            (to_quote-Splits q (String.◌∷◌ d s)))
  ]
]

-- A piece that is copied takes its first character at least.
record Copies (c : Char) (s : String) (p : String × String) : Type 0 where
  joined : Texts.◌++◌ p.0 p.1 ≡ String.◌∷◌ c s
  shorter : size p.1 ≤ size s

with_char-Copies :
    (c : Char) (s : String) (p : String × String) → Splits s p → Copies c s (with_char c p)
with_char-Copies c s (a, b) h = record {
  joined = cons-append c a b ∙ ap (λ (t : String). String.◌∷◌ c t) h.joined;
  shorter = h.shorter;
}

IfCopies : Char → String → Option (String × String) → Type 0
IfCopies c s none = Unit
IfCopies c s (some p) = Copies c s p

comment-IfCopies : (c : Char) (s : String) → IfCopies c s (comment (String.◌∷◌ c s))
unfolding comment IfCopies
comment-IfCopies c String.[] = tt
comment-IfCopies c (String.◌∷◌ d s) = elim (Bool-cases (code c == b'/')) [
  | inr e ↦ rw (e, comment) tt
  | inl e ↦ elim (Bool-cases (code d == b'/')) [
    | inl f ↦
        rw (e, f, comment)
          (with_char-Copies c (String.◌∷◌ d s) (with_char d (to_newline s))
            (with_char-Splits d s (to_newline s) (to_newline-Splits s)))
    | inr f ↦ elim (Bool-cases (code d == b'*')) [
      | inl g ↦
          rw (e, f, g, comment)
            (with_char-Copies c (String.◌∷◌ d s) (with_char d (to_comment_end s))
              (with_char-Splits d s (to_comment_end s) (to_comment_end-Splits s)))
      | inr g ↦ rw (e, f, g, comment) tt
    ]
  ]
]

literal-IfCopies : (c : Char) (s : String) → IfCopies c s (literal (String.◌∷◌ c s))
unfolding literal IfCopies
literal-IfCopies c s = elim (Bool-cases (code c == 34 || code c == 39)) [
  | inl e ↦
      rw (e, literal) (with_char-Copies c s (to_quote (code c) s) (to_quote-Splits (code c) s))
  | inr e ↦ rw (e, literal) tt
]

verbatim-IfCopies : (c : Char) (s : String) → IfCopies c s (verbatim (String.◌∷◌ c s))
unfolding verbatim
verbatim-IfCopies c s = elim (Option-cases (comment (String.◌∷◌ c s))) [
  | inl e ↦ rw (e, verbatim) (literal-IfCopies c s)
  | inr (p, e) ↦ rw (e, verbatim) (rw e at (comment-IfCopies c s))
]

verbatim-Copies :
    (c : Char) (s : String) (p : String × String)
    → verbatim (String.◌∷◌ c s) ≡ some p
    → Copies c s p
unfolding IfCopies
verbatim-Copies c s p e = rw e at (verbatim-IfCopies c s)

-- A text as chunks, and a blank rest.
pub record Covers (text : String) (chunks : List String) : Type 0 where
  pub rest : String
  pub blank : strip rest ≡ ""
  pub joined : Texts.◌++◌ (cat chunks) rest ≡ text

last_chunk-Covers : (buf : String) → Covers buf (last_chunk buf)
unfolding last_chunk cat
last_chunk-Covers buf = elim (Bool-cases (same_text (strip buf) "")) [
  | inl e ↦
      rw (e, last_chunk)
        (record { rest = buf; blank = (same_text_iff (strip buf) "").0 e; joined = nil-append buf })
  | inr e ↦
      rw (e, last_chunk)
        (record {
          rest = "";
          blank = refl;
          joined = append-nil (Texts.◌++◌ buf "") ∙ append-nil buf;
        })
]

chunk-Covers :
    (chunk text : String) (chunks : List String)
    → Covers text chunks
    → Covers (Texts.◌++◌ chunk text) (chunk ∷ chunks)
unfolding cat
chunk-Covers chunk text chunks h = record {
  rest = h.rest;
  blank = h.blank;
  joined =
      append_assoc chunk (cat chunks) h.rest ∙ ap (λ (t : String). Texts.◌++◌ chunk t) h.joined;
}

Covers-to : {s t : String} (chunks : List String) → s ≡ t → Covers s chunks → Covers t chunks
Covers-to chunks e h = record { rest = h.rest; blank = h.blank; joined = h.joined ∙ e }

behind_one :
    (buf s : String) (c : Char)
    → Texts.◌++◌ (Texts.◌++◌ buf (String.◌∷◌ c "")) s ≡ Texts.◌++◌ buf (String.◌∷◌ c s)
behind_one buf s c =
    append_assoc buf (String.◌∷◌ c "") s
    ∙ ap (λ (t : String). Texts.◌++◌ buf t)
        (cons-append c "" s ∙ ap (λ (t : String). String.◌∷◌ c t) (nil-append s))

split_from-Covers :
    (fuel : ℕ) (depth : ℤ) (buf s : String)
    → size s ≤ fuel
    → Covers (Texts.◌++◌ buf s) (split_from fuel depth buf s)
unfolding split_from
split_from-Covers zero depth buf String.[] h =
    Covers-to (last_chunk buf) (sym (append-nil buf)) (last_chunk-Covers buf)
split_from-Covers zero depth buf (String.◌∷◌ c s) h = absurd (omega (arith, h))
split_from-Covers (suc fuel) depth buf String.[] h =
    Covers-to (last_chunk buf) (sym (append-nil buf)) (last_chunk-Covers buf)
split_from-Covers (suc fuel) depth buf (String.◌∷◌ c s) h =
    elim (Option-cases (verbatim (String.◌∷◌ c s))) [
      | inr ((piece, rest), e) ↦
          let copied = verbatim-Copies c s (piece, rest) e in
          rw (e, split_from)
            (Covers-to (split_from fuel depth (Texts.◌++◌ buf piece) rest)
              (append_assoc buf piece rest ∙ ap (λ (t : String). Texts.◌++◌ buf t) copied.joined)
              (split_from-Covers fuel depth (Texts.◌++◌ buf piece) rest
                (omega (arith, copied.shorter, h))))
      | inl e ↦
          let d = depth_behind (code c) depth in
          elim (Bool-cases (ends_chunk (code c) d)) [
            | inl f ↦
                rw (e, f, split_from)
                  (Covers-to (Texts.◌++◌ buf (String.◌∷◌ c "") ∷ split_from fuel d "" s)
                    (ap (λ (t : String). Texts.◌++◌ (Texts.◌++◌ buf (String.◌∷◌ c "")) t)
                        (nil-append s)
                      ∙ behind_one buf s c)
                    (chunk-Covers (Texts.◌++◌ buf (String.◌∷◌ c "")) (Texts.◌++◌ "" s)
                      (split_from fuel d "" s) (split_from-Covers fuel d "" s (omega (arith, h)))))
            | inr f ↦
                rw (e, f, split_from)
                  (Covers-to (split_from fuel d (Texts.◌++◌ buf (String.◌∷◌ c "")) s)
                    (behind_one buf s c)
                    (split_from-Covers fuel d (Texts.◌++◌ buf (String.◌∷◌ c "")) s
                      (omega (arith, h))))
          ]
    ]

-- The chunks of a source, one behind the other, are the source up to a rest of blanks: no character of
-- it is lost, added or moved.
pub split_top_level-Covers : (src : String) → Covers src (split_top_level src)
unfolding split_top_level
split_top_level-Covers src =
    Covers-to (split_top_level src) (nil-append src)
      (split_from-Covers (size src) (pos 0) "" src (omega arith))
