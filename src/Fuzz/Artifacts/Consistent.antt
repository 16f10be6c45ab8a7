-- ===== src/Fuzz/Artifacts/Consistent.antt =====
-- What it means that `oracle_artifacts` of tools/fuzz/mcfuzz.py has no finding.
use modern_c.Prelude.{is_some, ◌≡◌, refl, String, Option, none, some, ◌⊎◌, inl, inr}
use modern_c.Fuzz.Rows.{get}
use modern_c.Fuzz.Edges.{Complaint, Edges, parse_trap_edges}
use modern_c.Fuzz.Edges.Agree.{Agree, check_trap_edge_counts-Agree}
use modern_c.Fuzz.Keys.{splitlines}
use modern_c.Fuzz.Facts.Reach.{AllReached, check_checked_facts_reach_ir_iff}
use modern_c.Fuzz.MapFile.{parse_mcmap_entries}
use modern_c.Fuzz.MapFile.Accepted.{AcceptedMap, check_emit_map_iff}
use modern_c.Fuzz.Artifacts.{
  Process, Finding, map_finding, run_required_stage, mapped, first_finding, check_map_of,
  check_artifacts, with_output, oracle_artifacts,
}

-- The artifacts of a program: what the four stages print, the trap edges of both intermediate forms,
-- and how they fit together.
pub record Consistent (mcc : String → Process) (src_path : String) : Type 0 where
  pub facts : String
  pub mir : String
  pub ir : String
  pub map : String
  pub facts_run : run_required_stage mcc "facts" ≡ inr facts
  pub mir_run : run_required_stage mcc "lower-mir" ≡ inr mir
  pub ir_run : run_required_stage mcc "inspect-ir" ≡ inr ir
  pub map_run : run_required_stage mcc "emit-map" ≡ inr map
  pub mir_edges : Edges
  pub ir_edges : Edges
  pub mir_agree : Agree "mir" mir mir_edges
  pub ir_agree : Agree "ir" ir ir_edges
  pub reach : AllReached ir (splitlines facts)
  pub accepted :
      AcceptedMap src_path (λ fn. is_some (get fn mir_edges.functions)) (parse_mcmap_entries map)

first_finding-none : (a b : Option Finding) → first_finding a b ≡ none → (a ≡ none) × (b ≡ none)
unfolding first_finding
first_finding-none none b h = (refl, h)
first_finding-none (some c) b h = absurd cc

mapped-none : {C : Type 0} (f : C → Finding) (o : Option C) → mapped f o ≡ none → o ≡ none
mapped-none f none h = refl
mapped-none f (some c) h = absurd cc

with_output-none :
    (r : Finding ⊎ String) (k : String → Option Finding)
    → with_output r k ≡ none
    → (text : String) × (r ≡ inr text) × (k text ≡ none)
with_output-none (inl c) k h = absurd cc
with_output-none (inr text) k h = (text, refl, h)

check_map_of-none :
    (src_path text : String) (r : Complaint ⊎ Edges) (e : Edges)
    → r ≡ inr e
    → check_map_of src_path text r ≡ none
    → AcceptedMap src_path (λ fn. is_some (get fn e.functions)) (parse_mcmap_entries text)
unfolding check_map_of
check_map_of-none src_path text r e p h =
    (check_emit_map_iff src_path (λ fn. is_some (get fn e.functions)) text).0
      (mapped-none map_finding _ (rw p at h))

-- Where the oracle has no finding, the four stages of the compiler run, the trap edges of the lowered
-- MIR and of the IR are as many as their functions declare, every checked-trap fact is an edge of the
-- IR, and the source map is accepted with the functions of the lowered MIR.
pub oracle_artifacts-Consistent :
    (mcc : String → Process) (src_path : String)
    → oracle_artifacts mcc src_path ≡ none
    → Consistent mcc src_path
unfolding oracle_artifacts check_artifacts
oracle_artifacts-Consistent mcc src_path h =
    let (facts, fr, h₁) = with_output-none (run_required_stage mcc "facts") _ h in
    let (mir, mr, h₂) = with_output-none (run_required_stage mcc "lower-mir") _ h₁ in
    let (ir, ir_run, h₃) = with_output-none (run_required_stage mcc "inspect-ir") _ h₂ in
    let (map, map_run, h₄) = with_output-none (run_required_stage mcc "emit-map") _ h₃ in
    let (m, h₅) = first_finding-none _ _ h₄ in
    let (i, h₆) = first_finding-none _ _ h₅ in
    let (f, h₇) = first_finding-none _ _ h₆ in
    let (mir_edges, mir_agree) = check_trap_edge_counts-Agree mir "mir" (mapped-none _ _ m) in
    let (ir_edges, ir_agree) = check_trap_edge_counts-Agree ir "ir" (mapped-none _ _ i) in
    let (edges, parsed, reach) =
      (check_checked_facts_reach_ir_iff facts ir).0 (mapped-none _ _ f) in
    record {
      facts = facts;
      mir = mir;
      ir = ir;
      map = map;
      facts_run = fr;
      mir_run = mr;
      ir_run = ir_run;
      map_run = map_run;
      mir_edges = mir_edges;
      ir_edges = ir_edges;
      mir_agree = mir_agree;
      ir_agree = ir_agree;
      reach = reach;
      accepted =
          check_map_of-none src_path map (parse_trap_edges "mir" mir) mir_edges mir_agree.parsed h₇;
    }
