-- ===== src/Fuzz/Artifacts.antt =====
-- `_run_required_stage` and `oracle_artifacts` of tools/fuzz/mcfuzz.py. What running a stage of the
-- compiler gives is an argument.
pub mod Consistent
use modern_c.Prelude.{
  is_some, ℕ, zero, suc, ◌+◌, String, Bool, true, false, List, [], ◌∷◌, Option, none, some, ◌⊎◌,
  inl, inr, if◌then◌else◌,
}
use modern_c.Fuzz.Rows.{get}
use modern_c.Fuzz.Numbers.{ℤ, pos, negsuc}
use modern_c.Fuzz.Edges.{Complaint, Edges, parse_trap_edges, check_trap_edge_counts}
use modern_c.Fuzz.Facts.{check_checked_facts_reach_ir}
use modern_c.Fuzz.MapFile.{MapComplaint, check_emit_map}

-- What `subprocess.run` gives: the `TimeoutExpired`, or the code with the decoded output and errors.
pub data Process : Type 0 where
  timeout_expired : Process
  completed : (returncode : ℤ) → (stdout stderr : String) → Process

pub data Finding : Type 0 where
  hangs : String → Finding
  crashed : String → ℕ → Finding
  inconsistent : String → String → Finding
  edges_finding : Complaint → Finding
  map_finding : MapComplaint → Finding

-- `_run_required_stage(env, stage, src_path)`.
unfoldable pub run_required_stage : (String → Process) → String → Finding ⊎ String
run_required_stage mcc stage = elim (mcc stage) [
  | timeout_expired ↦ inl (hangs stage)
  | completed code out err ↦ elim code [
    | negsuc n ↦ inl (crashed stage (n + 1))
    | pos zero ↦ inr out
    | pos (suc n) ↦ inl (inconsistent stage err)
  ]
]

abbrev pub mapped : {C : Type 0} → (C → Finding) → Option C → Option Finding
mapped f none = none
mapped f (some c) = some (f c)

unfoldable pub first_finding : Option Finding → Option Finding → Option Finding
first_finding none d = d
first_finding (some c) d = some c

-- `mir_functions` of the last check.
unfoldable pub check_map_of : String → String → Complaint ⊎ Edges → Option Finding
check_map_of src_path map_text (inl c) = some (edges_finding c)
check_map_of src_path map_text (inr e) =
    mapped map_finding (check_emit_map src_path (λ fn. is_some (get fn e.functions)) map_text)

-- The checks on the four artifacts.
unfoldable pub check_artifacts : String → (facts mir ir map : String) → Option Finding
check_artifacts src_path facts mir ir map =
    first_finding (mapped edges_finding (check_trap_edge_counts mir "mir")) (
      first_finding (mapped edges_finding (check_trap_edge_counts ir "ir")) (
        first_finding (mapped edges_finding (check_checked_facts_reach_ir facts ir))
          (check_map_of src_path map (parse_trap_edges "mir" mir))))

abbrev pub with_output : Finding ⊎ String → (String → Option Finding) → Option Finding
with_output (inl c) k = some c
with_output (inr text) k = k text

-- `oracle_artifacts(env, seed, src_path, work)`.
unfoldable pub oracle_artifacts : (String → Process) → String → Option Finding
unfolding check_artifacts
oracle_artifacts mcc src_path = with_output (run_required_stage mcc "facts") λ facts.
    with_output (run_required_stage mcc "lower-mir") λ mir.
      with_output (run_required_stage mcc "inspect-ir") λ ir.
        with_output (run_required_stage mcc "emit-map")
          λ map. check_artifacts src_path facts mir ir map
