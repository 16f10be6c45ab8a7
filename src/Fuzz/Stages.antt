-- ===== src/Fuzz/Stages.antt =====
-- Oracles of tools/fuzz/mcfuzz.py on single stages of the compiler: `oracle_failclosed`,
-- `oracle_determinism` and `oracle_pipeline`. What a stage gives is an argument.
pub mod Closed
use Prim.Native.String as Texts
use modern_c.Prelude.{
  ℕ, zero, suc, ◌+◌, String, Bool, true, false, List, [], ◌∷◌, Option, none, some, same_text,
  begins, behind, mentions, if◌then◌else◌,
}
use modern_c.Ref.Random.{Draw, ◌>>=◌, pure, choice}
use modern_c.Fuzz.Numbers.{ℤ, pos, negsuc}
use modern_c.Fuzz.Artifacts.{Process, timeout_expired, completed}

-- `INVALIDATIONS`.
abbrev pub invalidations : List (String × String)
invalidations =
    ("    var mcfuzz_bad: bool = 12345;", "int literal assigned to bool")
    ∷ ("    var mcfuzz_bad: u32 = 1.5;", "float literal assigned to int")
    ∷ ("    var mcfuzz_bad: u32 = mcfuzz_undeclared_zzz;", "use of an undeclared identifier")
    ∷ (
      "    var mcfuzz_bad: bool = true; var mcfuzz_bad: bool = false;",
      "duplicate local declaration",
    )
    ∷ ("    var mcfuzz_bad: u32 = (true + 1);", "arithmetic on a bool operand")
    ∷ ("    mcfuzz_undeclared_fn(1, 2, 3);", "call of an undeclared function")
    ∷ (
      "    var mcfuzz_bad: u8 = ((0 as usize) as UserPtr<u8>).*;",
      "kernel deref of a UserPtr (user/kernel trust boundary)",
    )
    ∷ []

abbrev pub marker : String
marker = "export fn harness() -> u64 {\n"

-- `source.replace(old, old + new, 1)`, where `old` is in the source.
unfoldable pub insert_behind : String → String → String → Option String
unfolding behind
insert_behind old new String.[] = none
insert_behind old new (String.◌∷◌ c s) = elim (behind old (String.◌∷◌ c s)) [
  | some rest ↦ some (Texts.◌++◌ old (Texts.◌++◌ new rest))
  | none ↦ elim (insert_behind old new s) [ none ↦ none | some t ↦ some (String.◌∷◌ c t) ]
]

pub data ClosedFinding : Type 0 where
  hangs : String → ClosedFinding
  crashed : ℕ → String → ClosedFinding
  accepted : String → ClosedFinding

-- What is to be found in a check of a program that must be rejected.
unfoldable pub judge_rejection : String → Process → Option ClosedFinding
judge_rejection desc timeout_expired = some (hangs desc)
judge_rejection desc (completed (negsuc n) out err) = some (crashed (n + 1) desc)
judge_rejection desc (completed (pos zero) out err) = some (accepted desc)
judge_rejection desc (completed (pos (suc n)) out err) = none

unfoldable pub check_injected : (String → Process) → String → String × String → Option ClosedFinding
unfolding insert_behind judge_rejection
check_injected check source (inj, desc) = elim (insert_behind marker (Texts.◌++◌ inj "\n") source) [
  | none ↦ none
  | some bad ↦ judge_rejection desc (check bad)
]

-- `oracle_failclosed(env, seed, src_path, work)` on the text of the program.
unfoldable pub oracle_failclosed : (String → Process) → String → Draw (Option ClosedFinding)
unfolding check_injected
oracle_failclosed check source = do
  invalid ← choice invalidations
  pure (check_injected check source invalid)

pub data StageFinding : Type 0 where
  stage_hangs : String → StageFinding
  stage_crashed : String → ℕ → StageFinding
  stage_rejected : String → String → StageFinding
  not_deterministic : String → StageFinding

abbrev pub pipeline_stages : List String
pipeline_stages =
    "inspect-hir" ∷ "verify-inspect-hir" ∷ "lower-mir" ∷ "verify" ∷ "inspect-ir" ∷ "facts"
    ∷ "emit-c" ∷ "emit-map" ∷ "emit-llvm" ∷ []

-- One stage; the message names a line of the errors.
unfoldable pub judge_stage : String → Process → Option StageFinding
judge_stage stage timeout_expired = some (stage_hangs stage)
judge_stage stage (completed (negsuc n) out err) = some (stage_crashed stage (n + 1))
judge_stage stage (completed (pos zero) out err) = none
judge_stage stage (completed (pos (suc n)) out err) = some (stage_rejected stage err)

-- `for stage in (...)`.
unfoldable pub run_stages : (String → Process) → List String → Option StageFinding
unfolding judge_stage
run_stages mcc [] = none
run_stages mcc (stage ∷ stages) = elim (judge_stage stage (mcc stage)) [
  | some finding ↦ some finding
  | none ↦ run_stages mcc stages
]

-- `oracle_pipeline(env, seed, src_path, work)`.
unfoldable pub oracle_pipeline : (String → Process) → Option StageFinding
unfolding run_stages
oracle_pipeline mcc = run_stages mcc pipeline_stages

-- The runs that are left of a stage, against the output of the first: a run that fails ends the loop.
unfoldable pub same_outputs : String → Option String → List Process → Option StageFinding
same_outputs stage first (completed (pos zero) out err ∷ runs) = elim first [
  | none ↦ same_outputs stage (some out) runs
  | some before ↦
      let rest = same_outputs stage (some before) runs in
      if same_text out before then rest else some (not_deterministic stage)
]
same_outputs stage first _ = none

-- `oracle_determinism(env, seed, src_path, work)` from the three runs of both stages; they have no time
-- limit.
unfoldable pub oracle_determinism : (c_runs llvm_runs : List Process) → Option StageFinding
unfolding same_outputs
oracle_determinism c_runs llvm_runs = elim (same_outputs "emit-c" none c_runs) [
  | some finding ↦ some finding
  | none ↦ same_outputs "emit-llvm" none llvm_runs
]
