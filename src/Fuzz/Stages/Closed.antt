-- ===== src/Fuzz/Stages/Closed.antt =====
-- The injection of `oracle_failclosed` and the stages of `oracle_pipeline` in tools/fuzz/mcfuzz.py.
use modern_c.Prelude.{
  some_not_none, zero, suc, ◌≡◌, refl, ◌↔◌, inl, inr, String, List, [], ◌∷◌, none, All,
  Option-cases,
}
use modern_c.Fuzz.Numbers.{pos, negsuc}
use modern_c.Fuzz.Artifacts.{Process, timeout_expired, completed}
use modern_c.Fuzz.Stages.{judge_stage, run_stages, pipeline_stages, oracle_pipeline}

-- The stage ended with code zero.
pub Passes : Process → Type 0
Passes timeout_expired = ⊥
Passes (completed (negsuc n) out err) = ⊥
Passes (completed (pos zero) out err) = Unit
Passes (completed (pos (suc n)) out err) = ⊥

judge_stage_iff : (stage : String) (p : Process) → (judge_stage stage p ≡ none) ↔ Passes p
unfolding judge_stage Passes
judge_stage_iff stage timeout_expired = (λ e. absurd cc, λ h. absurd h)
judge_stage_iff stage (completed (negsuc n) out err) = (λ e. absurd cc, λ h. absurd h)
judge_stage_iff stage (completed (pos zero) out err) = (λ e. tt, λ h. refl)
judge_stage_iff stage (completed (pos (suc n)) out err) = (λ e. absurd cc, λ h. absurd h)

run_stages_iff :
    (mcc : String → Process) (stages : List String)
    → (run_stages mcc stages ≡ none) ↔ All (λ s. Passes (mcc s)) stages
unfolding run_stages
run_stages_iff mcc [] = (λ e. tt, λ h. refl)
run_stages_iff mcc (s ∷ ss) = elim (Option-cases (judge_stage s (mcc s))) [
  | inl e ↦
      rw (e, run_stages)
        (
          λ h. ((judge_stage_iff s (mcc s)).0 e, (run_stages_iff mcc ss).0 h),
          λ (p, h). (run_stages_iff mcc ss).1 h,
        )
  | inr (f, e) ↦
      rw (e, run_stages)
        (λ h. absurd cc, λ (p, h). absurd (some_not_none e ((judge_stage_iff s (mcc s)).1 p)))
]

-- The pipeline oracle has no finding if and only if each of the nine stages ends with code zero.
pub oracle_pipeline_iff :
    (mcc : String → Process)
    → (oracle_pipeline mcc ≡ none) ↔ All (λ s. Passes (mcc s)) pipeline_stages
unfolding oracle_pipeline
oracle_pipeline_iff mcc = run_stages_iff mcc pipeline_stages
