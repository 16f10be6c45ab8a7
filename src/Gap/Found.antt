-- ===== src/Gap/Found.antt =====
-- What the expression of tools/toolchain/backend_gap_lib.py finds in a message.
use Prim.Native.Char.{Char, code}
use modern_c.Prelude.{
  ℕ, ◌≡◌, String, Bool, true, false, not, inl, inr, Option, none, some, IfSome, bind-IfSome,
  some-IfSome, arith, ◌==◌, behind, span, all_chars, all_chars-span, Bool-cases, Option-cases,
}
use modern_c.Gap.{
  Cause, refusal, not_tick, not_paren, details, grow, shortest, cause_at, parse_cause,
}

abbrev pub not_newline : ℕ → Bool
not_newline n = not (n == 10)

-- What a search finds has no newline in its category and no parenthesis that ends its phase.
abbrev pub Found : Cause → Type 0
Found c = (all_chars not_newline c.category ≡ true) × (all_chars not_paren c.phase ≡ true)

Open : String × (String × String) → Type 0
Open (con, (fn, ph)) = all_chars not_paren ph ≡ true

details-Open : (s : String) → IfSome Open (details s)
unfolding Open details
details-Open s = bind-IfSome Open (behind " `" s) _ (λ s2.
    let s3 = (span not_tick s2).1 in
    bind-IfSome Open (behind "` in `" s3) _ (λ s4.
      let s5 = (span not_tick s4).1 in
      bind-IfSome Open (behind "` (declined by " s5) _ (λ s6.
        bind-IfSome Open (behind ")" (span not_paren s6).1) _
          (λ rest. all_chars-span not_paren s6))))

grow-Found :
    (ch : Char) (d : Option (String × (String × String))) (o : Option Cause)
    → (code ch == 10) ≡ false
    → IfSome Open d
    → IfSome Found o
    → IfSome Found (grow ch d o)
unfolding Open grow all_chars
grow-Found ch none none e h g = tt
grow-Found ch none (some c) e h g = (ground (arith, e, g.0), g.1)
grow-Found ch (some (con, (fn, ph))) o e h g = (ground (arith, e), h)

shortest-Found : (s : String) → IfSome Found (shortest s)
unfolding shortest
shortest-Found String.[] = tt
shortest-Found (String.◌∷◌ ch s) = elim (Bool-cases (code ch == 10)) [
  | inl e ↦ rw (e, shortest) tt
  | inr e ↦
      rw (e, shortest)
        (grow-Found ch (details s) (shortest s) e (details-Open s) (shortest-Found s))
]

pub parse_cause-Found : (s : String) → IfSome Found (parse_cause s)
unfolding parse_cause cause_at
parse_cause-Found String.[] = tt
parse_cause-Found (String.◌∷◌ ch s) = elim (Option-cases (cause_at (String.◌∷◌ ch s))) [
  | inl e ↦ rw (e, parse_cause) (parse_cause-Found s)
  | inr (c, e) ↦
      rw (e, parse_cause)
        (some-IfSome Found (cause_at (String.◌∷◌ ch s)) c e
          (bind-IfSome Found (behind refusal (String.◌∷◌ ch s)) shortest shortest-Found))
]
