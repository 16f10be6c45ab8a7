-- ===== src/Fuzz/Differential/Outcome.antt =====
-- The texts of `_trapsite_outcome` in tools/fuzz/mcfuzz.py tell the return codes of failed runs apart.
use Prim.Native.Char.{code}
use Prim.Native.String as Texts
use text.Mathlib.TextLemmas.{nil-append, cons-append, append-nil}
use modern_c.Prelude.{
  ℕ, suc, ◌+◌, ◌≡◌, refl, sym, ap, ◌∙◌, ◌↔◌, ◌⊎◌, inl, inr, String, true, false, List, [], ◌∷◌,
  Option, none, some, arith, ◌==◌, same_text, same_text_iff, has, NoRepeats, cat, decimal, behind,
  behind-append, strip, Bool-cases, Option-cases, if◌then◌else◌,
}
use modern_c.Fuzz.Numbers.{ℤ, pos, negsuc, digits_from, signed}
use modern_c.Fuzz.Digits.{digits_from-decimal, decimal-Char}
use modern_c.Fuzz.Differential.{
  Ran, succeeds, trap_kinds, trapsite_exit_base, kind_from, code_to_kind, int_text, outcome_of,
  trapsite_outcome,
}

signed-int_text : (z : ℤ) → signed (int_text z) ≡ some z
unfolding int_text signed cat
signed-int_text (pos n) =
    let (c, s, e, d) = decimal-Char n in
    let no_minus : (code c == b'-') ≡ false = ground (arith, d) in
    let no_plus : (code c == b'+') ≡ false = ground (arith, d) in
    let whole = digits_from-decimal n in
    let read : digits_from false 0 (String.◌∷◌ c s) ≡ some n = rw (e) at whole in
    rw (e, no_minus, signed, no_plus, read) refl
signed-int_text (negsuc n) =
    let one : n + 1 ≡ suc n = omega arith in
    rw
      (
        one,
        append-nil (decimal (suc n)),
        cons-append "-" "" (decimal (suc n)),
        nil-append (decimal (suc n)),
        digits_from-decimal (suc n),
      )
      refl

-- The number of a kind.
code_of : ℕ → List String → String → Option ℕ
code_of next [] kind = none
code_of next (k ∷ ks) kind = if same_text kind k then some next else code_of (next + 1) ks kind

kind_from-has :
    (next : ℕ) (ks : List String) (n : ℕ) (kind : String)
    → kind_from next ks n ≡ some kind
    → has kind ks ≡ true
unfolding kind_from has
kind_from-has next [] n kind e = absurd cc
kind_from-has next (k ∷ ks) n kind e = elim (Bool-cases (n == next)) [
  | inl f ↦
      let found = rw (f, kind_from) at e in
      let same : kind ≡ k = cc in let here = (same_text_iff kind k).1 same in ground (arith, here)
  | inr f ↦
      let there = kind_from-has (next + 1) ks n kind (rw (f, kind_from) at e) in
      ground (arith, there)
]

code_of-kind_from :
    (next : ℕ) (ks : List String) (n : ℕ) (kind : String)
    → NoRepeats ks
    → kind_from next ks n ≡ some kind
    → code_of next ks kind ≡ some n
unfolding kind_from code_of
code_of-kind_from next [] n kind h e = absurd cc
code_of-kind_from next (k ∷ ks) n kind (fresh, h) e = elim (Bool-cases (n == next)) [
  | inl f ↦
      let found = rw (f, kind_from) at e in
      let same : kind ≡ k = cc in
      let here = (same_text_iff kind k).1 same in
      let number : next ≡ n = ground (arith, f) in rw (here) (ap some number)
  | inr f ↦
      let later = rw (f, kind_from) at e in
      let there = kind_from-has (next + 1) ks n kind later in
      let other : same_text kind k ≡ false = elim (Bool-cases (same_text kind k)) [
        | inr apart ↦ apart
        | inl same ↦
            let named = (same_text_iff kind k).0 same in
            let again = rw (named) at there in absurd (ground (arith, again, fresh))
      ] in
      rw (other) (code_of-kind_from (next + 1) ks n kind h later)
]

-- What a text says of the return code of a failed run.
read_outcome : String → Option ℤ
read_outcome s = elim (behind "status:" s) [
  | some shown ↦ signed shown
  | none ↦ elim (behind "trap:" s) [
    | some kind ↦ elim (code_of (trapsite_exit_base + 1) trap_kinds kind) [
      | some n ↦ some (pos n)
      | none ↦ none
    ]
    | none ↦ none
  ]
]

trap_kinds-NoRepeats : NoRepeats trap_kinds
unfolding has
trap_kinds-NoRepeats = (refl, (refl, (refl, (refl, (refl, (refl, (refl, (refl, tt))))))))

read_outcome-status : (s : String) → read_outcome (Texts.◌++◌ "status:" s) ≡ signed s
unfolding read_outcome
read_outcome-status s = rw (behind-append "status:" s, read_outcome) refl

no_status : (s : String) → behind "status:" (Texts.◌++◌ "trap:" s) ≡ none
unfolding behind
no_status s = rw (cons-append "t" "rap:" s) refl

read_outcome-trap :
    (s : String) (n : ℕ)
    → code_of (trapsite_exit_base + 1) trap_kinds s ≡ some n
    → read_outcome (Texts.◌++◌ "trap:" s) ≡ some (pos n)
unfolding read_outcome
read_outcome-trap s n e = rw (no_status s, read_outcome, behind-append "trap:" s, e) refl

read_outcome-ok : (s : String) → read_outcome (Texts.◌++◌ "ok:" s) ≡ none
unfolding read_outcome behind
read_outcome-ok s = rw (cons-append "o" "k:" s) refl

read_outcome-outcome_of : (z : ℤ) → read_outcome (outcome_of z (code_to_kind z)) ≡ some z
unfolding code_to_kind cat
read_outcome-outcome_of (negsuc n) =
    rw (append-nil (int_text (negsuc n)), read_outcome-status (int_text (negsuc n)))
      (signed-int_text (negsuc n))
read_outcome-outcome_of (pos n) =
    elim (Option-cases (kind_from (trapsite_exit_base + 1) trap_kinds n)) [
      | inl e ↦
          rw (e, append-nil (int_text (pos n)), read_outcome-status (int_text (pos n)))
            (signed-int_text (pos n))
      | inr (kind, e) ↦
          let found =
            code_of-kind_from (trapsite_exit_base + 1) trap_kinds n kind trap_kinds-NoRepeats e in
          rw (e, append-nil kind) (read_outcome-trap kind n found)
    ]

module _ (decode : String → String) where
  -- Two runs that succeed and print the same text up to white space at its ends, or two that fail with the
  -- same code.
  pub SameOutcome : Ran → Ran → Type 0
  SameOutcome c l =
      ((succeeds c.returncode ≡ true)
        × (succeeds l.returncode ≡ true)
        × (strip (decode c.stdout) ≡ strip (decode l.stdout)))
      ⊎ ((succeeds c.returncode ≡ false) × (c.returncode ≡ l.returncode))

  outcome_ok :
      (p : Ran)
      → succeeds p.returncode ≡ true
      → trapsite_outcome decode p ≡ Texts.◌++◌ "ok:" (strip (decode p.stdout))
  unfolding trapsite_outcome cat
  outcome_ok p e = rw (e, append-nil (strip (decode p.stdout))) refl

  outcome_failed :
      (p : Ran)
      → succeeds p.returncode ≡ false
      → trapsite_outcome decode p ≡ outcome_of p.returncode (code_to_kind p.returncode)
  unfolding trapsite_outcome
  outcome_failed p e = rw (e) refl

  read_ok :
      (p : Ran) → succeeds p.returncode ≡ true → read_outcome (trapsite_outcome decode p) ≡ none
  read_ok p e = ap read_outcome (outcome_ok p e) ∙ read_outcome-ok (strip (decode p.stdout))

  read_failed :
      (p : Ran)
      → succeeds p.returncode ≡ false
      → read_outcome (trapsite_outcome decode p) ≡ some p.returncode
  read_failed p e = ap read_outcome (outcome_failed p e) ∙ read_outcome-outcome_of p.returncode

  behind_ok :
      (p : Ran)
      → succeeds p.returncode ≡ true
      → behind "ok:" (trapsite_outcome decode p) ≡ some (strip (decode p.stdout))
  behind_ok p e = ap (behind "ok:") (outcome_ok p e) ∙ behind-append "ok:" (strip (decode p.stdout))

  same-SameOutcome :
      (c l : Ran) → trapsite_outcome decode c ≡ trapsite_outcome decode l → SameOutcome c l
  unfolding SameOutcome
  same-SameOutcome c l h =
      let codes = ap read_outcome h in
      elim (Bool-cases (succeeds c.returncode)) [
        | inl e ↦ elim (Bool-cases (succeeds l.returncode)) [
          | inl f ↦
              let texts = ap (behind "ok:") h in
              let p = behind_ok c e in let q = behind_ok l f in inl (e, f, cc)
          | inr f ↦ let p = read_ok c e in let q = read_failed l f in absurd cc
        ]
        | inr e ↦ elim (Bool-cases (succeeds l.returncode)) [
          | inl f ↦ let p = read_failed c e in let q = read_ok l f in absurd cc
          | inr f ↦ let p = read_failed c e in let q = read_failed l f in inr (e, cc)
        ]
      ]

  SameOutcome-same :
      (c l : Ran) → SameOutcome c l → trapsite_outcome decode c ≡ trapsite_outcome decode l
  unfolding SameOutcome
  SameOutcome-same c l (inl (e, f, same)) =
      outcome_ok c e ∙ ap (λ (t : String). Texts.◌++◌ "ok:" t) same ∙ sym (outcome_ok l f)
  SameOutcome-same c l (inr (e, same)) =
      let f : succeeds l.returncode ≡ false = ap succeeds (sym same) ∙ e in
      outcome_failed c e
      ∙ ap (λ (z : ℤ). outcome_of z (code_to_kind z)) same
      ∙ sym (outcome_failed l f)

  -- The texts of two runs are equal exactly where the outcomes are the same.
  pub trapsite_outcome_iff :
      (c l : Ran) → (trapsite_outcome decode c ≡ trapsite_outcome decode l) ↔ SameOutcome c l
  trapsite_outcome_iff c l = (same-SameOutcome c l, SameOutcome-same c l)
