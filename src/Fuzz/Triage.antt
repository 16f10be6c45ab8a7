-- ===== src/Fuzz/Triage.antt =====
-- From runs to findings in tools/fuzz/mcfuzz.py: `run_one`, `oracle_on_source`, and the loop of `main` with
-- its second look at hangs. The generated programs, `mcc check` and the oracle are arguments; `inl` is the
-- text of an `OSError`.
pub mod Seed
pub mod Loop
use Prim.Native.Char.{Char, code}
use Prim.Native.String as Texts
use modern_c.Prelude.{
  ℕ, zero, suc, ◌+◌, String, Bool, true, false, not, ◌&&◌, ◌||◌, List, [], ◌∷◌, ◌++◌, map, Option,
  none, some, ◌>>=◌, leb, ◌==◌, cat, join, decimal, has, same_text, mentions, behind, ◌⊎◌, inl, inr,
  if◌then◌else◌,
}
use modern_c.Fuzz.Numbers.{ℤ, digits_from}
use modern_c.Fuzz.Differential.{succeeds}
use modern_c.Fuzz.Signature.{is_digit, run1, split_finding, squeeze}
use modern_c.Fuzz.Patterns.{search_any}
use modern_c.Fuzz.Shrink.{shrink_source}

abbrev pub seed_of_text : String → Option ℕ
seed_of_text s = do
  s1 ← behind "seed=" s
  (digits, rest) ← run1 is_digit s1
  digits_from false 0 digits

-- `_seed_of(finding)`.
unfoldable pub seed_of : String → Option ℕ
unfolding search_any behind run1 digits_from
seed_of finding = search_any seed_of_text finding

abbrev fail_text : ℕ → List String → String
fail_text seed parts = cat ("FAIL seed=" ∷ decimal seed ∷ ": " ∷ parts)

module _ (async_mode : Bool) (check : String → String ⊎ ℤ)
    (oracle : ℕ → String → String ⊎ Option String) where
  -- The oracle's part of `run_one`.
  unfoldable pub report_run : ℕ → String ⊎ Option String → Option String
  unfolding cat decimal
  report_run seed (inl e) = some (fail_text seed ("tool failed to execute: " ∷ e ∷ []))
  report_run seed (inr none) = none
  report_run seed (inr (some res)) = some (
      fail_text seed (
        res
        ∷ " (reproduce: tools/fuzz/mcfuzz.py gen "
        ∷ decimal seed
        ∷ (if async_mode then " --async" else "")
        ∷ ")"
        ∷ []))

  -- `run_one(env, oracle, seed)` on the generated program.
  unfoldable pub run_one : ℕ → String → Option String
  unfolding report_run cat decimal
  run_one seed source = elim (check source) [
    | inl e ↦ some (fail_text seed ("mcc check failed to execute: " ∷ e ∷ []))
    | inr code ↦
        if succeeds code
        then report_run seed (oracle seed source)
        else some (fail_text seed ("mcc check rejected a generated program" ∷ []))
  ]

-- `oracle_on_source(env, oracle, source, seed)` from what the oracle gave.
unfoldable pub oracle_on_source : String ⊎ Option String → Option String
unfolding cat
oracle_on_source (inl e) = some (cat ("tool failed to execute: " ∷ e ∷ []))
oracle_on_source (inr res) = res

-- The findings of the pool of runs: those that are no hang, and the suspects.
unfoldable pub sort_results : List (Option String) → List (String × Bool) × List String
unfolding mentions
sort_results [] = ([], [])
sort_results (none ∷ results) = sort_results results
sort_results (some res ∷ results) =
    let (fails, suspects) = sort_results results in
    if mentions "HANGS" res then (fails, res ∷ suspects) else ((res, false) ∷ fails, suspects)

-- A suspect runs again, alone.
unfoldable pub recheck : (ℕ → Option String) → String → Option String
unfolding seed_of
recheck run res = elim (seed_of res) [ none ↦ some res | some seed ↦ run seed ]

-- `for res in suspects`.
unfoldable pub confirm : (ℕ → Option String) → List String → List (String × Bool)
unfolding recheck mentions cat
confirm run [] = []
confirm run (res ∷ suspects) = elim (recheck run res) [
  | none ↦ confirm run suspects
  | some again ↦
      let rest = confirm run suspects in
      if mentions "HANGS" again
      then (cat (again ∷ " [confirmed on serial re-verify]" ∷ []), true) ∷ rest
      else (again, false) ∷ rest
]

-- `range(start, start + count)`.
unfoldable pub seeds_from : ℕ → ℕ → List ℕ
seeds_from start zero = []
seeds_from start (suc n) = start ∷ seeds_from (start + 1) n

-- The findings of `main`, from the run of a seed in the pool and the run alone.
unfoldable pub findings : (pooled alone : ℕ → Option String) → List ℕ → List (String × Bool)
unfolding sort_results confirm
findings pooled alone seeds =
    let (fails, suspects) = sort_results (map pooled seeds) in fails ++ confirm alone suspects

-- The code that `main` returns from them.
unfoldable pub exit_code : List (String × Bool) → ℕ
exit_code [] = 0
exit_code (f ∷ fs) = 1
