-- ===== src/Fuzz/Triage/Seed.antt =====
-- The seed in the findings that `run_one` of tools/fuzz/mcfuzz.py reports, which `_seed_of` reads again.
use Prim.Native.Char.{Char, code}
use Prim.Native.String as Texts
use text.Mathlib.TextLemmas.{cons-append}
use modern_c.Prelude.{
  ℕ, ◌≡◌, refl, sym, ap, ◌∙◌, ◌⊎◌, inl, inr, String, Bool, false, List, [], ◌∷◌, Option, none, some,
  IfSome, some-IfSome, cat, decimal, same_text, nonempty_cons, span, span-append, stops-append,
  behind, behind-append, Bool-cases, if◌then◌else◌,
}
use modern_c.Fuzz.Numbers.{ℤ}
use modern_c.Fuzz.Differential.{succeeds}
use modern_c.Fuzz.Signature.{is_digit, run1}
use modern_c.Fuzz.Digits.{digits_from-decimal, all_chars-decimal, decimal-Char}
use modern_c.Fuzz.Patterns.{search_any}
use modern_c.Fuzz.Triage.{seed_of_text, seed_of, fail_text, report_run, run_one}

abbrev behind_seed : String → String
behind_seed rest = Texts.◌++◌ ": " rest

decimal_named : (n : ℕ) → same_text (decimal n) "" ≡ false
decimal_named n = let (c, s, e, d) = decimal-Char n in rw (e) (nonempty_cons c s)

run1-decimal :
    (n : ℕ) (rest : String)
    → run1 is_digit (Texts.◌++◌ (decimal n) (behind_seed rest)) ≡ some (decimal n, behind_seed rest)
unfolding run1
run1-decimal n rest =
    let split : span is_digit (Texts.◌++◌ (decimal n) (behind_seed rest))
        ≡ (decimal n, behind_seed rest) =
      span-append is_digit (decimal n) (behind_seed rest) (all_chars-decimal n)
        (stops-append is_digit ":" " " rest refl) in
    rw (split, decimal_named n) refl

seed_of_text-seed :
    (n : ℕ) (rest : String)
    → seed_of_text (Texts.◌++◌ "seed=" (Texts.◌++◌ (decimal n) (behind_seed rest))) ≡ some n
seed_of_text-seed n rest =
    let X = Texts.◌++◌ (decimal n) (behind_seed rest) in
    rw (behind-append "seed=" X, run1-decimal n rest, digits_from-decimal n) refl

spelled :
    (X : String)
    → Texts.◌++◌ "FAIL seed=" X
      ≡ String.◌∷◌ "F"
          (String.◌∷◌ "A" (String.◌∷◌ "I" (String.◌∷◌ "L" (String.◌∷◌ " " (Texts.◌++◌ "seed=" X)))))
spelled X =
    rw
      (
        cons-append "F" "AIL seed=" X,
        cons-append "A" "IL seed=" X,
        cons-append "I" "L seed=" X,
        cons-append "L" " seed=" X,
        cons-append " " "seed=" X,
      )
      refl

search_any-here :
    (match : String → Option ℕ) (c : Char) (s : String) (n : ℕ)
    → match (String.◌∷◌ c s) ≡ some n
    → search_any match (String.◌∷◌ c s) ≡ some n
unfolding search_any
search_any-here match c s n e = rw (e, search_any) refl

pub seed_of-fail_text : (n : ℕ) (parts : List String) → seed_of (fail_text n parts) ≡ some n
unfolding seed_of search_any cat behind
seed_of-fail_text n parts =
    let X = Texts.◌++◌ (decimal n) (behind_seed (cat parts)) in
    let here : Texts.◌++◌ "seed=" X ≡ String.◌∷◌ "s" (Texts.◌++◌ "eed=" X) =
      cons-append "s" "eed=" X in
    let found : seed_of_text (String.◌∷◌ "s" (Texts.◌++◌ "eed=" X)) ≡ some n =
      ap seed_of_text (sym here) ∙ seed_of_text-seed n (cat parts) in
    rw (spelled X, here) (search_any-here seed_of_text "s" (Texts.◌++◌ "eed=" X) n found)

-- A finding of a seed.
abbrev pub Says : ℕ → String → Type 0
Says seed res = (parts : List String) × (res ≡ fail_text seed parts)

module _ (async_mode : Bool) (check : String → String ⊎ ℤ)
    (oracle : ℕ → String → String ⊎ Option String) where
  report_run-Says :
      (seed : ℕ) (r : String ⊎ Option String)
      → IfSome (Says seed) (report_run async_mode check oracle seed r)
  unfolding report_run
  report_run-Says seed (inl e) = ("tool failed to execute: " ∷ e ∷ [], refl)
  report_run-Says seed (inr none) = tt
  report_run-Says seed (inr (some res)) = (
    res
        ∷ " (reproduce: tools/fuzz/mcfuzz.py gen "
        ∷ decimal seed
        ∷ (if async_mode then " --async" else "")
        ∷ ")"
        ∷ [],
    refl,
  )

  check-cases : (r : String ⊎ ℤ) → ((e : String) × (r ≡ inl e)) ⊎ ((code : ℤ) × (r ≡ inr code))
  check-cases (inl e) = inl (e, refl)
  check-cases (inr code) = inr (code, refl)

  run_one-Says :
      (seed : ℕ) (source res : String)
      → run_one async_mode check oracle seed source ≡ some res
      → Says seed res
  unfolding run_one
  run_one-Says seed source res e = elim (check-cases (check source)) [
    | inl (err, f) ↦
        let parts = "mcc check failed to execute: " ∷ err ∷ [] in
        let found = rw (f, run_one) at e in
        let same : res ≡ fail_text seed parts = cc in (parts, same)
    | inr (code, f) ↦ elim (Bool-cases (succeeds code)) [
      | inl g ↦
          some-IfSome (Says seed) (report_run async_mode check oracle seed (oracle seed source)) res
            (rw (f, run_one, g) at e) (report_run-Says seed (oracle seed source))
      | inr g ↦
          let parts = "mcc check rejected a generated program" ∷ [] in
          let found = rw (f, run_one, g) at e in
          let same : res ≡ fail_text seed parts = cc in (parts, same)
    ]
  ]

  -- The seed of what a run reports is the one it ran.
  pub seed_of-run_one :
      (seed : ℕ) (source res : String)
      → run_one async_mode check oracle seed source ≡ some res
      → seed_of res ≡ some seed
  seed_of-run_one seed source res e =
      let (parts, same) = run_one-Says seed source res e in
      ap seed_of same ∙ seed_of-fail_text seed parts
