-- ===== src/Fuzz/Reference.antt =====
-- `oracle_reference` of tools/fuzz/mcfuzz.py: a generated reference program, its compiled output and
-- its reference value. What `mcc check` and `_compile_run_c` give for a source is an argument.
pub mod Verdict
use modern_c.Prelude.{
  ℕ, String, Bool, true, false, not, Option, none, some, decimal, same_text, if◌then◌else◌,
}
use modern_c.Ref.Random.{Draw, ◌>>=◌, pure, lift}
use modern_c.Ref.Gen.State.{RefGen}
use modern_c.Ref.Gen.Constructs.{build}
use modern_c.Ref.Digest.{evaluate}
use modern_c.Ref.Render.{source}
use modern_c.Fuzz.Numbers.{ℤ}
use modern_c.Fuzz.Differential.{Ran, succeeds, lstrip_bytes, rstrip_bytes, strip_bytes}

pub data RefDivergence : Type 0 where
  trapped : ℤ → ℕ → RefDivergence
  value_differs : ℕ → String → RefDivergence

-- The compiled run against the value; a program that was not built is another oracle's concern.
unfoldable pub compare_value : ℕ → Option Ran → Option RefDivergence
unfolding decimal lstrip_bytes rstrip_bytes
compare_value expected none = none
compare_value expected (some ran) =
    if not (succeeds ran.returncode)
    then some (trapped ran.returncode expected)
    else if same_text (strip_bytes ran.stdout) (decimal expected)
    then none
    else some (value_differs expected (strip_bytes ran.stdout))

module _ (check : String → ℤ) (compile_run_c : String → Option Ran) where
  -- The program is rendered, checked, and evaluated where the check accepts it.
  unfoldable pub judge : ℕ → RefGen → Draw (Option RefDivergence)
  unfolding compare_value
  judge fuel g = do
    src ← lift (source g)
    if succeeds (check src)
        then (do
          expected ← lift (evaluate fuel g)
          pure (compare_value expected (compile_run_c src)))
        else pure none

  -- `oracle_reference(env, seed, src_path, work)`; `fuel` grants rounds to the loops of the program.
  unfoldable pub oracle_reference : ℕ → Draw (Option RefDivergence)
  unfolding judge
  oracle_reference fuel = do g ← build; judge fuel g
