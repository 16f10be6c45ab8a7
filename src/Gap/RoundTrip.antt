-- ===== src/Gap/RoundTrip.antt =====
-- `render_cause` and `parse_cause` of tools/toolchain/backend_gap_lib.py against each other.
use Prim.Native.Char.{Char, code}
use Prim.Native.String as Texts
use text.Mathlib.TextLemmas.{nil-append, cons-append}
use modern_c.Prelude.{
  ℕ, ◌≡◌, refl, String, Bool, true, false, not, ◌&&◌, none, some, arith, ◌==◌, behind, all_chars,
  behind-append, span-append, stops-append, same_text, nonempty_cons,
}
use modern_c.Gap.{
  Cause, refusal, render_cause, not_tick, not_paren, details, shortest, cause_at, parse_cause,
}

-- A character of a category that ends neither the line nor the category.
abbrev pub plain : ℕ → Bool
plain n = not_tick n && not (n == 10)

-- What the four texts of a cause have to be for the expression to find them again.
pub record IsClear (c : Cause) : Type 0 where
  pub named : same_text c.category "" ≡ false
  pub category_plain : all_chars plain c.category ≡ true
  pub construct_plain : all_chars not_tick c.construct ≡ true
  pub function_plain : all_chars not_tick c.function ≡ true
  pub phase_plain : all_chars not_paren c.phase ≡ true

details-none :
    (d e : Char) (s : String)
    → not_tick (code e) ≡ true
    → details (String.◌∷◌ d (String.◌∷◌ e s)) ≡ none
unfolding details behind
details-none d e s h = ground arith

parse_here : (s : String) (c : Cause) → cause_at s ≡ some c → parse_cause s ≡ some c
unfolding cause_at parse_cause
parse_here String.[] c e = absurd cc
parse_here (String.◌∷◌ ch s) c e = rw (e, parse_cause) refl

module _ (c : Cause) where
  behind_phase : String
  behind_phase = Texts.◌++◌ "` (declined by " (Texts.◌++◌ c.phase ")")

  behind_construct : String
  behind_construct = Texts.◌++◌ "` in `" (Texts.◌++◌ c.function behind_phase)

  behind_category : String
  behind_category = Texts.◌++◌ " `" (Texts.◌++◌ c.construct behind_construct)

  details-behind_category :
      IsClear c → details behind_category ≡ some (c.construct, (c.function, c.phase))
  unfolding details behind_category behind_construct behind_phase
  details-behind_category h =
      rw
        (
          behind-append " `" (Texts.◌++◌ c.construct behind_construct),
          span-append not_tick c.construct behind_construct h.construct_plain
              (stops-append not_tick "`" " in `" (Texts.◌++◌ c.function behind_phase) refl),
          behind-append "` in `" (Texts.◌++◌ c.function behind_phase),
          span-append not_tick c.function behind_phase h.function_plain
              (stops-append not_tick "`" " (declined by " (Texts.◌++◌ c.phase ")") refl),
          behind-append "` (declined by " (Texts.◌++◌ c.phase ")"),
          span-append not_paren c.phase ")" h.phase_plain refl,
        )
        refl

  shorter-none :
      (d : Char) (w : String)
      → all_chars plain (String.◌∷◌ d w) ≡ true
      → details (Texts.◌++◌ (String.◌∷◌ d w) behind_category) ≡ none
  unfolding behind_category all_chars
  shorter-none d String.[] h =
      let rest = Texts.◌++◌ "`" (Texts.◌++◌ c.construct behind_construct) in
      rw
        (
          cons-append d "" (Texts.◌++◌ " `" (Texts.◌++◌ c.construct behind_construct)),
          nil-append (Texts.◌++◌ " `" (Texts.◌++◌ c.construct behind_construct)),
          cons-append " " "`" (Texts.◌++◌ c.construct behind_construct),
        )
        (details-none d " " rest refl)
  shorter-none d (String.◌∷◌ e w) h =
      rw (cons-append d (String.◌∷◌ e w) behind_category, cons-append e w behind_category)
        (details-none d e (Texts.◌++◌ w behind_category) (ground arith))

  shortest-append :
      (w : String)
      → same_text w "" ≡ false
      → all_chars plain w ≡ true
      → IsClear c
      → shortest (Texts.◌++◌ w behind_category) ≡ some (record c { category = w })
  unfolding shortest all_chars
  shortest-append String.[] n h clear = absurd cc
  shortest-append (String.◌∷◌ ch String.[]) n h clear =
      let inside : (code ch == 10) ≡ false = ground arith in
      rw
        (
          cons-append ch "" behind_category,
          inside,
          nil-append behind_category,
          details-behind_category clear,
          shortest,
        )
        refl
  shortest-append (String.◌∷◌ ch (String.◌∷◌ d w)) n h clear =
      let inside : (code ch == 10) ≡ false = ground arith in
      let others : all_chars plain (String.◌∷◌ d w) ≡ true = ground arith in
      rw
        (
          cons-append ch (String.◌∷◌ d w) behind_category,
          inside,
          shorter-none d w others,
          shortest-append (String.◌∷◌ d w) (nonempty_cons d w) others clear,
          shortest,
        )
        refl

  -- The refusal that a cause stands for is parsed back to the cause, where its category is a text of one
  -- line without a backtick and not empty, its construct and its function have no backtick, and its
  -- phase no closing parenthesis.
  pub parse_cause-render_cause : IsClear c → parse_cause (render_cause c) ≡ some c
  unfolding render_cause cause_at behind_category behind_construct behind_phase
  parse_cause-render_cause h = parse_here (render_cause c) c (
      rw (behind-append refusal (Texts.◌++◌ c.category behind_category))
        (shortest-append c.category h.named h.category_plain h))
