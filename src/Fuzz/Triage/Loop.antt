-- ===== src/Fuzz/Triage/Loop.antt =====
-- The loop of `main` over the seeds in tools/fuzz/mcfuzz.py, and the code it returns.
use modern_c.Prelude.{
  some_not_none, ℕ, ◌≡◌, refl, ◌↔◌, inl, inr, ◌⊎◌, String, Bool, true, List, [], ◌∷◌, ◌++◌, map,
  Option, none, some, arith, All, mentions, Bool-cases, Option-cases,
}
use modern_c.Fuzz.Numbers.{ℤ}
use modern_c.Fuzz.Triage.{run_one, sort_results, recheck, confirm, findings, exit_code}
use modern_c.Fuzz.Triage.Seed.{seed_of-run_one}

exit_code-append :
    (xs ys : List (String × Bool))
    → (exit_code (xs ++ ys) ≡ 0) ↔ ((exit_code xs ≡ 0) × (exit_code ys ≡ 0))
unfolding exit_code
exit_code-append [] ys = (λ h. (refl, h), λ h. h.1)
exit_code-append (x ∷ xs) ys = (λ h. absurd (omega (arith, h)), λ h. h.0)

module _ (alone : ℕ → Option String) where
  -- A run in the pool is clean if it has no finding, or one that speaks of a hang and does not come again
  -- when the seed runs alone.
  Clean : Option String → Type 0
  Clean none = Unit
  Clean (some res) = (mentions "HANGS" res ≡ true) × (recheck alone res ≡ none)

  confirm_iff :
      (suspects : List String)
      → (exit_code (confirm alone suspects) ≡ 0) ↔ All (λ res. recheck alone res ≡ none) suspects
  unfolding confirm exit_code
  confirm_iff [] = (λ h. tt, λ h. refl)
  confirm_iff (res ∷ suspects) = elim (Option-cases (recheck alone res)) [
    | inl e ↦
        rw (e, confirm) (λ h. (refl, (confirm_iff suspects).0 h), λ h. (confirm_iff suspects).1 h.1)
    | inr (again, e) ↦ elim (Bool-cases (mentions "HANGS" again)) [
      | inl f ↦
          rw (e, f, confirm) (λ h. absurd (omega (arith, h)), λ h. absurd (some_not_none refl h.0))
      | inr f ↦
          rw (e, f, confirm) (λ h. absurd (omega (arith, h)), λ h. absurd (some_not_none refl h.0))
    ]
  ]

  sort_results_iff :
      (results : List (Option String))
      → ((exit_code (sort_results results).0 ≡ 0)
          × All (λ res. recheck alone res ≡ none) (sort_results results).1)
        ↔ All Clean results
  unfolding sort_results exit_code Clean
  sort_results_iff [] = (λ h. tt, λ h. (refl, tt))
  sort_results_iff (none ∷ results) =
      (λ h. (tt, (sort_results_iff results).0 h), λ h. (sort_results_iff results).1 h.1)
  sort_results_iff (some res ∷ results) = elim (Bool-cases (mentions "HANGS" res)) [
    | inl e ↦
        rw (e, sort_results)
          (
            λ (fails, (again, suspects)).
                ((refl, again), (sort_results_iff results).0 (fails, suspects)),
            λ ((hang, again), rest).
                let (fails, suspects) = (sort_results_iff results).1 rest in
                (fails, (again, suspects)),
          )
    | inr e ↦
        rw (e, sort_results) (λ h. absurd (omega (arith, h.0)), λ h. absurd (ground (arith, h.0.0)))
  ]

  module _ (pooled : ℕ → Option String) where
    findings_iff :
        (seeds : List ℕ)
        → (exit_code (findings pooled alone seeds) ≡ 0) ↔ All Clean (map pooled seeds)
    unfolding findings
    findings_iff seeds =
        let results = map pooled seeds in
        let sorted = sort_results results in
        (
          λ h.
              let (fails, confirmed) = (exit_code-append sorted.0 (confirm alone sorted.1)).0 h in
              (sort_results_iff results).0 (fails, (confirm_iff sorted.1).0 confirmed),
          λ clean.
              let (fails, gone) = (sort_results_iff results).1 clean in
              (exit_code-append sorted.0 (confirm alone sorted.1)).1
                (fails, (confirm_iff sorted.1).1 gone),
        )

-- The runs of a seed: in the pool, and alone. Their checks and oracles may answer differently, as a
-- loaded machine makes them.
module _ (async_mode : Bool) (generate : ℕ → String) (check check' : String → String ⊎ ℤ)
    (oracle oracle' : ℕ → String → String ⊎ Option String) where
  abbrev pub pooled_run : ℕ → Option String
  pooled_run seed = run_one async_mode check oracle seed (generate seed)

  abbrev pub alone_run : ℕ → Option String
  alone_run seed = run_one async_mode check' oracle' seed (generate seed)

  -- A seed is clean if its run in the pool has no finding, or one that speaks of a hang while its run
  -- alone has none.
  abbrev pub CleanSeed : ℕ → Type 0
  CleanSeed seed =
      (pooled_run seed ≡ none)
      ⊎ ((res : String) × (pooled_run seed ≡ some res)
          × (mentions "HANGS" res ≡ true)
          × (alone_run seed ≡ none))

  Clean-CleanSeed : (seed : ℕ) → Clean alone_run (pooled_run seed) ↔ CleanSeed seed
  unfolding Clean recheck
  Clean-CleanSeed seed = elim (Option-cases (pooled_run seed)) [
    | inl e ↦ rw (e) (λ h. inl refl, λ h. tt)
    | inr (res, e) ↦
        let own = seed_of-run_one async_mode check oracle seed (generate seed) res e in
        (
          λ h. let (hang, again) = rw (e) at h in inr (res, e, hang, rw (own, recheck) at again),
          λ h. elim h [
            | inl quiet ↦ absurd (some_not_none e quiet)
            | inr (res', e', hang, gone) ↦
                let same : res' ≡ res = cc in rw (e) (rw (← same) hang, rw (own, recheck) gone)
          ],
        )
  ]

  Clean-All : (seeds : List ℕ) → All (Clean alone_run) (map pooled_run seeds) ↔ All CleanSeed seeds
  Clean-All [] = (λ h. tt, λ h. tt)
  Clean-All (seed ∷ seeds) = (
    λ (h, hs). ((Clean-CleanSeed seed).0 h, (Clean-All seeds).0 hs),
    λ (h, hs). ((Clean-CleanSeed seed).1 h, (Clean-All seeds).1 hs),
  )

  -- The run over the seeds returns zero if and only if each seed is clean: its program has no finding in
  -- the pool, or one that speaks of a hang, and then the same seed and program have none alone. So a
  -- finding that is no hang is never dropped, and a hang only where the second run has no finding at all.
  pub exit_code-findings :
      (seeds : List ℕ) → (exit_code (findings pooled_run alone_run seeds) ≡ 0) ↔ All CleanSeed seeds
  exit_code-findings seeds =
      let (to, from) = findings_iff alone_run pooled_run seeds in
      let (there, back) = Clean-All seeds in (λ h. there (to h), λ h. from (back h))
