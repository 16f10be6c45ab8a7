-- ===== src/Fuzz/Reference/Verdict.antt =====
-- What the verdict of `oracle_reference` of tools/fuzz/mcfuzz.py means, on every tape of draws.
use modern_c.Prelude.{ℕ, ◌<◌, ◌^◌, ◌≡◌, ◌↔◌, ◌⊎◌, String, true, false, Option, none, some, decimal}
use modern_c.Ref.Gen.State.{RefGen}
use modern_c.Ref.Gen.Constructs.Safe.{BuiltCore}
use modern_c.Ref.Digest.{evaluate}
use modern_c.Ref.Render.{source}
use modern_c.Fuzz.Numbers.{ℤ}
use modern_c.Fuzz.Differential.{Ran, succeeds, strip_bytes}
use modern_c.Fuzz.Reference.{RefDivergence}

-- The run, where there is one, succeeded and printed the value.
abbrev pub Printed : ℕ → Option Ran → Type 0
Printed x none = Unit
Printed x (some ran) = (succeeds ran.returncode ≡ true) × (strip_bytes ran.stdout ≡ decimal x)

module _ (check : String → ℤ) (compile_run_c : String → Option Ran) where
  -- The check rejects the program, or its run, where there is one, printed the value.
  abbrev pub Agreed : String → ℕ → Type 0
  Agreed src x =
      (succeeds (check src) ≡ false)
      ⊎ ((succeeds (check src) ≡ true) × Printed x (compile_run_c src))

  -- A generated program with its text and its value, and what the verdict says of them.
  pub record Verdict (fuel : ℕ) (o : Option RefDivergence) : Type 0 where
    pub g : RefGen
    pub src : String
    pub x : ℕ
    pub built : BuiltCore g
    pub text : source g ≡ some src
    pub value : evaluate fuel g ≡ some x
    pub below : x < 2 ^ 64
    pub none_iff : (o ≡ none) ↔ Agreed src x
