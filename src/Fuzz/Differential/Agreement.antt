-- ===== src/Fuzz/Differential/Agreement.antt =====
-- When the backend comparisons of tools/fuzz/mcfuzz.py have no finding.
use modern_c.Prelude.{
  ◌≡◌, refl, ◌↔◌, ◌⊎◌, inl, inr, String, true, false, Option, none, some, same_text, same_text_iff,
  Bool-cases, Option-cases, arith,
}
use modern_c.Fuzz.Differential.Outcome.{SameOutcome, trapsite_outcome_iff}
use modern_c.Fuzz.Differential.{
  Ran, Built, Divergence, succeeds, compare_runs, compare_built, differential_compare,
  trapsite_outcome, compare_outcomes, oracle_trapsite,
}

-- Both programs fail, or both succeed and print the same.
abbrev pub SameRun : Ran → Ran → Type 0
SameRun c l =
    (succeeds c.returncode ≡ succeeds l.returncode)
    × (succeeds c.returncode ≡ true → c.stdout ≡ l.stdout)

compare_runs_iff : (c l : Ran) → (compare_runs c l ≡ none) ↔ SameRun c l
unfolding compare_runs
compare_runs_iff c l = ground (arith, same_text_iff c.stdout l.stdout)

-- Both backends reject the source, or both build it and the runs are alike.
abbrev pub SameBuild : (Ran → Ran → Type 0) → Built → Type 0
SameBuild Same b =
    ((err : String) × (b.c_error ≡ some err) × (b.llvm_accepts ≡ false))
    ⊎ ((b.c_error ≡ none)
        × (b.llvm_built ≡ true)
        × (b.c_linked ≡ true)
        × (b.llvm_linked ≡ true)
        × Same b.c_ran b.llvm_ran)

compare_built_iff :
    (runs : Ran → Ran → Option Divergence) (Same : Ran → Ran → Type 0)
    → ((c l : Ran) → (runs c l ≡ none) ↔ Same c l)
    → (b : Built) → (compare_built runs b ≡ none) ↔ SameBuild Same b
unfolding compare_built
compare_built_iff runs Same iff b = elim (Option-cases b.c_error) [
  | inr (err, e) ↦ elim (Bool-cases b.llvm_accepts) [
    | inl acc ↦
        rw (e, acc)
          (
            (λ h. absurd cc),
            (λ h. elim h [ inl (x, p, q) ↦ absurd cc | inr (p, x, y, z, same) ↦ absurd cc ]),
          )
    | inr rej ↦ rw (e, rej) ((λ h. inl (err, refl, refl)), (λ h. refl))
  ]
  | inl e ↦
      let (to, from) = iff b.c_ran b.llvm_ran in
      rw e (
        (λ h.
            let ran : runs b.c_ran b.llvm_ran ≡ none = ground arith in
            inr (refl, ground arith, ground arith, ground arith, to ran)),
        (λ h. elim h [
          | inl (err, p, q) ↦ absurd cc
          | inr (p, x, y, z, same) ↦ rw (x, y, z) (from same)
        ]),
      )
]

-- The differential oracle has no finding exactly where both backends reject the source, or both build
-- and link it and the two programs either both fail, or both succeed and print the same.
pub differential_compare_iff : (b : Built) → (differential_compare b ≡ none) ↔ SameBuild SameRun b
unfolding differential_compare
differential_compare_iff b = compare_built_iff compare_runs SameRun compare_runs_iff b

module _ (decode : String → String) where
  compare_outcomes_iff : (c l : Ran) → (compare_outcomes decode c l ≡ none) ↔ SameOutcome decode c l
  unfolding compare_outcomes
  compare_outcomes_iff c l =
      let (to, from) = trapsite_outcome_iff decode c l in
      let (there, back) = same_text_iff (trapsite_outcome decode c) (trapsite_outcome decode l) in
      elim (Bool-cases (same_text (trapsite_outcome decode c) (trapsite_outcome decode l))) [
        | inl e ↦ rw (e) (λ h. to (there e), λ h. refl)
        | inr e ↦ rw (e) (λ h. absurd cc, λ h. let never = back (from h) in absurd cc)
      ]

  -- Once the C text is emitted and instrumented, the trap-site oracle has no finding exactly where both
  -- backends reject the source, or both build and link it and the two programs either both succeed and
  -- print, decoded, the same up to white space at the ends, or both fail with the same return code.
  pub oracle_trapsite_iff :
      (b : Built) → (oracle_trapsite decode none none b ≡ none) ↔ SameBuild (SameOutcome decode) b
  unfolding oracle_trapsite
  oracle_trapsite_iff b =
      compare_built_iff (compare_outcomes decode) (SameOutcome decode) compare_outcomes_iff b
