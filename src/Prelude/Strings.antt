-- ===== src/Prelude/Strings.antt =====
-- Python's operations on texts, over the native `String`: equality, splitting, stripping, and lists
-- of texts without repetition.
use Prim.Native.Nat.{ℕ, zero, suc}
use Prim.Native.Char.{Char, code}
use Prim.Native.String.{String}
use Prim.Native.String as Texts
use text.Mathlib.TextLemmas.{nil-append, cons-append}
use modern_c.Prelude.Lists.{is_cons}
use modern_c.Prelude.Text.{join}
use text.Mathlib.Text as Native
use text.Mathlib.TextEquality.{eq_iff, Char-path}
use mathlib.Core.Path.{◌≡◌, refl, sym, ap, ◌∙◌}
use mathlib.Core.Logic.{◌↔◌, inl, inr}
use mathlib.Core.Bool.{Bool, true, false, not, ◌&&◌, ◌||◌}
use mathlib.Core.List.{List, [], ◌∷◌, ◌++◌}
use native.Mathlib.Omega.{arith}
use modern_c.Prelude.Tests.{◌==◌, ==_iff, leb, if◌then◌else◌, Bool-cases}

abbrev pub same_text : String → String → Bool
same_text s t = Native.◌==◌ s t

pub same_text_iff : (s t : String) → (same_text s t ≡ true) ↔ (s ≡ t)
same_text_iff s t = eq_iff s t

pub nonempty_cons : (c : Char) (s : String) → same_text (String.◌∷◌ c s) "" ≡ false
nonempty_cons c s = elim (Bool-cases (same_text (String.◌∷◌ c s) "")) [
  | inl e ↦ let same = (same_text_iff (String.◌∷◌ c s) "").0 e in absurd cc
  | inr e ↦ e
]

-- `text.startswith(prefix)`.
abbrev pub starts_with : String → String → Bool
starts_with s t = Native.starts_with s t

-- `text[n:]`.
unfoldable pub drop : ℕ → String → String
drop zero s = s
drop (suc n) String.[] = ""
drop (suc n) (String.◌∷◌ c s) = drop n s

abbrev push : Char → List String → List String
push c [] = String.◌∷◌ c "" ∷ []
push c (w ∷ ws) = String.◌∷◌ c w ∷ ws

-- `text.split(sep)` for a separator of one character.
unfoldable pub split : ℕ → String → List String
split sep String.[] = "" ∷ []
split sep (String.◌∷◌ c s) = elim (code c == sep) [
  | true ↦ "" ∷ split sep s
  | false ↦ push c (split sep s)
]

-- The white space of `str.strip`.
abbrev pub is_space : ℕ → Bool
is_space n =
    (leb 9 n && leb n 13)
    || (leb 28 n && leb n 32)
    || n == 133
    || n == 160
    || n == 5760
    || (leb 8192 n && leb n 8202)
    || n == 8232
    || n == 8233
    || n == 8239
    || n == 8287
    || n == 12288

unfoldable pub lstrip : String → String
lstrip String.[] = ""
lstrip (String.◌∷◌ c s) = elim (is_space (code c)) [ true ↦ lstrip s | false ↦ String.◌∷◌ c s ]

abbrev shorten : Char → String → String
shorten c String.[] = if is_space (code c) then "" else String.◌∷◌ c ""
shorten c (String.◌∷◌ d s) = String.◌∷◌ c (String.◌∷◌ d s)

unfoldable pub rstrip : String → String
rstrip String.[] = ""
rstrip (String.◌∷◌ c s) = shorten c (rstrip s)

-- `text.strip()`.
abbrev pub strip : String → String
strip s = lstrip (rstrip s)

-- `x in xs`.
unfoldable pub has : String → List String → Bool
has x [] = false
has x (y ∷ ys) = same_text x y || has x ys

-- `xs - ys`.
unfoldable pub minus : List String → List String → List String
unfolding has
minus [] ys = []
minus (x ∷ xs) ys = let rest = minus xs ys in if has x ys then rest else x ∷ rest

pub has-append : (x : String) (xs ys : List String) → has x (xs ++ ys) ≡ (has x xs || has x ys)
unfolding has
has-append x [] ys = refl
has-append x (z ∷ xs) ys = ground (arith, has-append x xs ys)

pub has-minus :
    (x : String) (ys zs : List String) → has x (minus ys zs) ≡ (has x ys && not (has x zs))
unfolding minus has
has-minus x [] zs = refl
has-minus x (y ∷ ys) zs = ground (arith, same_text_iff x y, has-minus x ys zs)

abbrev pub Within : List String → List String → Type 0
Within xs ys = (x : String) → has x xs ≡ true → has x ys ≡ true

-- Nothing is left of a list whose texts are all in the other.
pub minus-Within : (xs ys : List String) → (is_cons (minus xs ys) ≡ false) ↔ Within xs ys
unfolding minus has
minus-Within [] ys = (λ h x e. cc, λ h. refl)
minus-Within (x ∷ xs) ys = elim (Bool-cases (has x ys)) [
  | inl e ↦
      rw (e, minus)
        (
          λ h z hz. ground (arith, e, same_text_iff z x, (minus-Within xs ys).0 h z),
          λ h. (minus-Within xs ys).1 (λ z hz. h z (ground (arith, hz))),
        )
  | inr e ↦ rw (e, minus) (λ h. absurd cc, λ h. absurd (ground (arith, e, same_text_iff x x, h x)))
]

-- No text twice.
abbrev pub NoRepeats : List String → Type 0
NoRepeats [] = Unit
NoRepeats (x ∷ xs) = (has x xs ≡ false) × NoRepeats xs

pub NoRepeats-snoc :
    (xs : List String) (x : String) → NoRepeats xs → has x xs ≡ false → NoRepeats (xs ++ x ∷ [])
unfolding has
NoRepeats-snoc [] x h n = (refl, tt)
NoRepeats-snoc (y ∷ ys) x (hy, hs) n = (
  ground (arith, has-append y ys (x ∷ []), same_text_iff x y, same_text_iff y x),
  NoRepeats-snoc ys x hs (ground (arith)),
)

join-push :
    (sep : String) (c : Char) (ws : List String)
    → is_cons ws ≡ true
    → join sep (push c ws) ≡ String.◌∷◌ c (join sep ws)
unfolding join
join-push sep c [] h = cc
join-push sep c (w ∷ []) h = refl
join-push sep c (w ∷ (v ∷ ws)) h = cons-append c w (Texts.◌++◌ sep (join sep (v ∷ ws)))

push-cons : (c : Char) (ws : List String) → is_cons (push c ws) ≡ true
push-cons c [] = refl
push-cons c (w ∷ ws) = refl

split-cons : (sep : ℕ) (s : String) → is_cons (split sep s) ≡ true
unfolding split
split-cons sep String.[] = refl
split-cons sep (String.◌∷◌ c s) = elim (Bool-cases (code c == sep)) [
  | inl e ↦ rw (e, split) refl
  | inr e ↦ rw (e, split) (push-cons c (split sep s))
]

join-nil :
    (sep : String) (ws : List String)
    → is_cons ws ≡ true
    → join sep ("" ∷ ws) ≡ Texts.◌++◌ sep (join sep ws)
unfolding join
join-nil sep [] h = cc
join-nil sep (w ∷ ws) h = nil-append (Texts.◌++◌ sep (join sep (w ∷ ws)))

-- `sep.join(text.split(sep))` is the text.
pub join-split : (d : Char) (s : String) → join (String.◌∷◌ d "") (split (code d) s) ≡ s
unfolding split
join-split d String.[] = unfold join in refl
join-split d (String.◌∷◌ c s) = elim (Bool-cases (code c == code d)) [
  | inl e ↦
      let same = Char-path c d ((==_iff (code c) (code d)).0 e) in
      rw (e, split)
        (join-nil (String.◌∷◌ d "") (split (code d) s) (split-cons (code d) s)
          ∙ (cons-append d "" (join (String.◌∷◌ d "") (split (code d) s))
              ∙ (ap (λ (t : String). String.◌∷◌ d t)
                    (nil-append (join (String.◌∷◌ d "") (split (code d) s)) ∙ join-split d s)
                  ∙ ap (λ (b : Char). String.◌∷◌ b s) (sym same))))
  | inr e ↦
      rw (e, split)
        (join-push (String.◌∷◌ d "") c (split (code d) s) (split-cons (code d) s)
          ∙ ap (λ (t : String). String.◌∷◌ c t) (join-split d s))
]
