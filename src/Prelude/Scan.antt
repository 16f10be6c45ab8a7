-- ===== src/Prelude/Scan.antt =====
-- How the tools read a text from left to right: Python's `in`, removal of a prefix, and maximal runs of
-- characters.
use Prim.Native.Nat.{ℕ, zero, suc, ◌≤◌}
use Prim.Native.Char.{Char, code}
use Prim.Native.String.{String}
use Prim.Native.String as Texts
use text.Mathlib.TextLemmas.{nil-append, cons-append, append_assoc}
use mathlib.Core.Path.{◌≡◌, refl, sym, ap, ◌∙◌}
use mathlib.Core.Bool.{Bool, true, false, not, ◌&&◌, ◌||◌}
use mathlib.Core.Logic.{inl, inr}
use mathlib.Core.List.{List, [], ◌∷◌, ◌++◌}
use mathlib.Core.Option.{Option, none, some}
use native.Mathlib.Omega.{arith}
use text.Mathlib.TextEquality.{Char-path}
use modern_c.Prelude.Tests.{◌==◌, ==_iff, Bool-cases}
use modern_c.Prelude.Text.{cat}

-- `len(text)`.
abbrev pub size : String → ℕ
size String.[] = 0
size (String.◌∷◌ c s) = suc (size s)

-- `text.startswith(part)`, by the characters.
unfoldable pub begins : String → String → Bool
begins String.[] s = true
begins (String.◌∷◌ c p) String.[] = false
begins (String.◌∷◌ c p) (String.◌∷◌ d s) = code c == code d && begins p s

-- `part in text`.
unfoldable pub mentions : String → String → Bool
unfolding begins
mentions part String.[] = begins part ""
mentions part (String.◌∷◌ c s) = begins part (String.◌∷◌ c s) || mentions part s

-- The text behind a prefix.
unfoldable pub behind : String → String → Option String
behind String.[] s = some s
behind (String.◌∷◌ c p) String.[] = none
behind (String.◌∷◌ c p) (String.◌∷◌ d s) = elim (code c == code d) [
  | true ↦ behind p s
  | false ↦ none
]

abbrev pub with_char : Char → String × String → String × String
with_char c (s, rest) = (String.◌∷◌ c s, rest)

-- The longest prefix whose characters pass the test, and the rest.
unfoldable pub span : (ℕ → Bool) → String → String × String
span p String.[] = ("", "")
span p (String.◌∷◌ c s) = elim (p (code c)) [
  | true ↦ with_char c (span p s)
  | false ↦ ("", String.◌∷◌ c s)
]

-- `re.findall`: where the expression matches, the search goes on behind the match, else one character
-- on. The fuel is the length of the text.
unfoldable pub find_all : (String → Option (String × String)) → ℕ → String → List String
find_all match zero s = []
find_all match (suc fuel) String.[] = []
find_all match (suc fuel) (String.◌∷◌ c s) = elim (match (String.◌∷◌ c s)) [
  | some (found, rest) ↦ found ∷ find_all match fuel rest
  | none ↦ find_all match fuel s
]

-- A piece and the rest are the text, and the rest is no longer.
pub record Splits (s : String) (p : String × String) : Type 0 where
  pub joined : Texts.◌++◌ p.0 p.1 ≡ s
  pub shorter : size p.1 ≤ size s

pub nil-Splits : (s : String) → Splits s ("", s)
nil-Splits s = record { joined = nil-append s; shorter = omega arith }

pub all-Splits : (s : String) → Texts.◌++◌ s "" ≡ s → Splits s (s, "")
all-Splits s e = record { joined = e; shorter = omega arith }

pub with_char-Splits :
    (c : Char) (s : String) (p : String × String)
    → Splits s p
    → Splits (String.◌∷◌ c s) (with_char c p)
with_char-Splits c s (a, b) h = record {
  joined = cons-append c a b ∙ ap (λ (t : String). String.◌∷◌ c t) h.joined;
  shorter = omega (arith, h.shorter);
}

pub cat-append : (xs ys : List String) → cat (xs ++ ys) ≡ Texts.◌++◌ (cat xs) (cat ys)
unfolding cat
cat-append [] ys = sym (nil-append (cat ys))
cat-append (x ∷ xs) ys =
    ap (λ (t : String). Texts.◌++◌ x t) (cat-append xs ys) ∙ sym (append_assoc x (cat xs) (cat ys))

-- Every character passes the test.
unfoldable pub all_chars : (ℕ → Bool) → String → Bool
all_chars p String.[] = true
all_chars p (String.◌∷◌ c s) = p (code c) && all_chars p s

-- Where a run of passing characters ends.
abbrev pub stops : (ℕ → Bool) → String → Bool
stops p String.[] = true
stops p (String.◌∷◌ c s) = not (p (code c))

-- Whether a line starts behind a text.
abbrev pub line_starts : Bool → String → Bool
line_starts starts String.[] = starts
line_starts starts (String.◌∷◌ c s) = line_starts (code c == 10) s

pub behind-append : (w s : String) → behind w (Texts.◌++◌ w s) ≡ some s
unfolding behind
behind-append String.[] s = rw (nil-append s) refl
behind-append (String.◌∷◌ c w) s =
    let same : (code c == code c) ≡ true = ground arith in
    rw (cons-append c w s, same, behind) (behind-append w s)

pub span-append :
    (p : ℕ → Bool) (a s : String)
    → all_chars p a ≡ true
    → stops p s ≡ true
    → span p (Texts.◌++◌ a s) ≡ (a, s)
unfolding span all_chars
span-append p String.[] String.[] h g = rw (nil-append "") refl
span-append p String.[] (String.◌∷◌ c s) h g =
    let fails : p (code c) ≡ false = ground arith in
    rw (nil-append (String.◌∷◌ c s), fails, span) refl
span-append p (String.◌∷◌ c a) s h g =
    let passes : p (code c) ≡ true = ground arith in
    let others : all_chars p a ≡ true = ground arith in
    rw (cons-append c a s, passes, span) (ap (with_char c) (span-append p a s others g))

pub all_chars-span : (p : ℕ → Bool) (s : String) → all_chars p (span p s).0 ≡ true
unfolding span all_chars
all_chars-span p String.[] = refl
all_chars-span p (String.◌∷◌ c s) = elim (Bool-cases (p (code c))) [
  | inl e ↦ rw (e, span) (ground (arith, e, all_chars-span p s))
  | inr e ↦ rw (e, span) refl
]

pub stops-append :
    (p : ℕ → Bool) (c : Char) (w s : String)
    → p (code c) ≡ false
    → stops p (Texts.◌++◌ (String.◌∷◌ c w) s) ≡ true
stops-append p c w s h = rw (cons-append c w s) (ground (arith, h))

-- `chr(n) not in text`, for a text of the one character.
pub mentions-one :
    (d : Char) (s : String)
    → mentions (String.◌∷◌ d "") s ≡ not (all_chars (λ n. not (n == code d)) s)
unfolding mentions all_chars
mentions-one d String.[] = refl
mentions-one d (String.◌∷◌ c s) = ground (arith, mentions-one d s)

pub all_chars-and :
    (p q : ℕ → Bool) (s : String) → all_chars (λ n. p n && q n) s ≡ (all_chars p s && all_chars q s)
unfolding all_chars
all_chars-and p q String.[] = refl
all_chars-and p q (String.◌∷◌ c s) = ground (arith, all_chars-and p q s)

pub behind-some : (w s rest : String) → behind w s ≡ some rest → s ≡ Texts.◌++◌ w rest
unfolding behind
behind-some String.[] s rest e = let same : s ≡ rest = cc in same ∙ sym (nil-append rest)
behind-some (String.◌∷◌ c w) String.[] rest e = absurd cc
behind-some (String.◌∷◌ c w) (String.◌∷◌ d s) rest e = elim (Bool-cases (code c == code d)) [
  | inr f ↦ let never = rw (f, behind) at e in absurd cc
  | inl f ↦
      let same = Char-path c d ((==_iff (code c) (code d)).0 f) in
      ap (λ (b : Char). String.◌∷◌ b s) (sym same)
      ∙ ap (λ (t : String). String.◌∷◌ c t) (behind-some w s rest (rw (f, behind) at e))
      ∙ sym (cons-append c w rest)
]
