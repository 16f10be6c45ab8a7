-- ===== src/MapVerify/Lines.antt =====
-- The lines of a text, `data.splitlines(keepends=True)` in tools/toolchain/mcmap-verify.py.
use Prim.Native.Char.{Char, code}
use Prim.Native.String as Texts
use text.Mathlib.TextLemmas.{nil-append, cons-append}
use modern_c.Prelude.{
  ◌≡◌, refl, ap, ◌∙◌, String, Bool, true, false, not, ◌||◌, inl, inr, List, [], ◌∷◌, ◌++◌, arith,
  ◌==◌, begins, all_chars, cat, Bool-cases, if◌then◌else◌,
}
use modern_c.MapVerify.Bundle.{with_head, ends_line, keep_lines}

keep_lines-step :
    (c : Char) (s : String)
    → keep_lines (String.◌∷◌ c s)
      ≡ (if ends_line c s then String.◌∷◌ c "" ∷ keep_lines s else with_head c (keep_lines s))
unfolding keep_lines
keep_lines-step c s = refl

cat-with_head :
    (c : Char) (lines : List String) → cat (with_head c lines) ≡ String.◌∷◌ c (cat lines)
unfolding cat
cat-with_head c [] = cons-append c "" ""
cat-with_head c (line ∷ lines) = cons-append c line (cat lines)

-- The lines are the text.
pub cat-keep_lines : (s : String) → cat (keep_lines s) ≡ s
unfolding keep_lines cat
cat-keep_lines String.[] = refl
cat-keep_lines (String.◌∷◌ c s) = elim (Bool-cases (ends_line c s)) [
  | inl e ↦ rw (e) (
      cons-append c "" (cat (keep_lines s))
      ∙ ap (λ (t : String). String.◌∷◌ c t) (nil-append (cat (keep_lines s)) ∙ cat-keep_lines s))
  | inr e ↦
      rw (e)
        (cat-with_head c (keep_lines s) ∙ ap (λ (t : String). String.◌∷◌ c t) (cat-keep_lines s))
]

-- A text whose last line is ended by a newline.
unfoldable pub is_ended : String → Bool
is_ended String.[] = false
is_ended (String.◌∷◌ c String.[]) = code c == 10
is_ended (String.◌∷◌ c (String.◌∷◌ d s)) = is_ended (String.◌∷◌ d s)

abbrev pub Nonempty : List String → Type 0
Nonempty lines = (line : String) × (others : List String) × (lines ≡ line ∷ others)

with_head-Nonempty : (c : Char) (lines : List String) → Nonempty (with_head c lines)
with_head-Nonempty c [] = (String.◌∷◌ c "", [], refl)
with_head-Nonempty c (line ∷ lines) = (String.◌∷◌ c line, lines, refl)

pub keep_lines-Nonempty : (c : Char) (s : String) → Nonempty (keep_lines (String.◌∷◌ c s))
keep_lines-Nonempty c s = rw (keep_lines-step c s) (elim (Bool-cases (ends_line c s)) [
  | inl e ↦ rw (e) ((String.◌∷◌ c "", keep_lines s, refl))
  | inr e ↦ rw (e) (with_head-Nonempty c (keep_lines s))
])

ends_line-append :
    (c d : Char) (s body : String)
    → ends_line c (Texts.◌++◌ (String.◌∷◌ d s) body) ≡ ends_line c (String.◌∷◌ d s)
unfolding ends_line begins
ends_line-append c d s body = rw (cons-append d s body) refl

newline-ends_line : (c : Char) (s : String) → (code c == 10) ≡ true → ends_line c s ≡ true
unfolding ends_line
newline-ends_line c s h = rw (h) refl

with_head-append :
    (c : Char) (xs ys : List String) → Nonempty xs → with_head c (xs ++ ys) ≡ with_head c xs ++ ys
with_head-append c xs ys (line, others, e) = rw (e) refl

-- Behind a text that is ended, new lines begin.
pub keep_lines-append :
    (head body : String)
    → is_ended head ≡ true
    → keep_lines (Texts.◌++◌ head body) ≡ keep_lines head ++ keep_lines body
unfolding is_ended
keep_lines-append String.[] body h = absurd cc
keep_lines-append (String.◌∷◌ c String.[]) body h =
    rw
      (
        cons-append c "" body,
        nil-append body,
        keep_lines-step c body,
        keep_lines-step c "",
        newline-ends_line c body h,
        newline-ends_line c "" h,
      )
      (unfold keep_lines in refl)
keep_lines-append (String.◌∷◌ c (String.◌∷◌ d s)) body h =
    let rest = keep_lines-append (String.◌∷◌ d s) body h in
    let start = keep_lines-Nonempty d s in
    rw
      (
        cons-append c (String.◌∷◌ d s) body,
        keep_lines-step c (Texts.◌++◌ (String.◌∷◌ d s) body),
        keep_lines-step c (String.◌∷◌ d s),
        ends_line-append c d s body,
        rest,
      )
      (elim (Bool-cases (ends_line c (String.◌∷◌ d s))) [
        | inl e ↦ rw (e) refl
        | inr e ↦ rw (e) (with_head-append c (keep_lines (String.◌∷◌ d s)) (keep_lines body) start)
      ])

abbrev pub first_line : List String → String
first_line [] = ""
first_line (line ∷ lines) = line

first_line-with_head :
    (c : Char) (lines : List String)
    → first_line (with_head c lines) ≡ String.◌∷◌ c (first_line lines)
first_line-with_head c [] = refl
first_line-with_head c (line ∷ lines) = refl

not_break-ends_line :
    (c : Char) (s : String) → not (code c == 10 || code c == 13) ≡ true → ends_line c s ≡ false
unfolding ends_line
not_break-ends_line c s h = ground (arith, h)

-- A text without line ends that a text starts with starts its first line.
pub begins-first_line :
    (p s : String)
    → all_chars (λ n. not (n == 10 || n == 13)) p ≡ true
    → begins p s ≡ true
    → begins p (first_line (keep_lines s)) ≡ true
unfolding begins all_chars
begins-first_line String.[] s h b = refl
begins-first_line (String.◌∷◌ c p) String.[] h b = absurd cc
begins-first_line (String.◌∷◌ c p) (String.◌∷◌ d s) h b =
    let plain : not (code d == 10 || code d == 13) ≡ true = ground (arith, h, b) in
    let here : (code c == code d) ≡ true = ground (arith, b) in
    let others : all_chars (λ n. not (n == 10 || n == 13)) p ≡ true = ground (arith, h) in
    let after : begins p s ≡ true = ground (arith, b) in
    rw
      (
        keep_lines-step d s,
        not_break-ends_line d s plain,
        first_line-with_head d (keep_lines s),
        here,
      )
      (begins-first_line p s others after)
