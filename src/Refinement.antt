-- ===== src/Refinement.antt =====
-- The refinement of violating witnesses: the data of goplint/cfa_refinement.go,
-- goplint/cfa_feasibility.go and goplint/cfa_interproc_result.go.
pub mod Check
pub mod Loop
pub mod Invariant
pub mod Rounds
pub mod Sound
use goplint.Base.{
  ℕ, String, Bool, true, false, Option, none, some, List, [], ◌∷◌, ◌==◌, length, if◌then◌else◌,
}
use goplint.Protocol.Reason.{PathOutcomeReason, no_reason, reason_eq}
use goplint.Protocol.EdgeFunc.{EdgeFuncTag}
use goplint.Feasibility.Evidence.{Evidence}
use goplint.Witness.Graph.{Supergraph, WitnessEdge, NodeId}
use goplint.Witness.Replay.{PathResult, ReplayRejection, missing_node, validate_replay}

pub data OutcomeClass : Type 0 where
  class_safe class_unsafe class_inconclusive : OutcomeClass
  other_class : String → OutcomeClass

pub data FeasibilityVerdict : Type 0 where
  sat unsat unknown : FeasibilityVerdict
  other_verdict : String → FeasibilityVerdict

pub data FeasibilityReason : Type 0 where
  no_feasibility_reason unsupported_predicate deadline_timeout solver_error evidence_rejected
        query_limit iteration_limit :
      FeasibilityReason
  other_feasibility_reason : String → FeasibilityReason

pub data RefinementStatus : Type 0 where
  status_violation status_inconclusive status_discharged_infeasible : RefinementStatus

pub data RefinementTrigger : Type 0 where
  unsafe_candidate : RefinementTrigger
  for_reason : PathOutcomeReason → RefinementTrigger

pub record WitnessRecord : Type 0 where
  pub category : String
  pub finding_id : String
  pub origin_anchors : List (String × String)
  pub fact_family : String
  pub fact_key : String
  pub edge_tag : EdgeFuncTag
  pub fact_origin_path : List ℕ
  pub cfg_path : List ℕ
  pub witness_edges : List WitnessEdge
  pub witness_terminal : NodeId
  pub call_chain : List String
  pub trigger_reason : RefinementTrigger
  pub witness_hash : String

-- `cfgProtocolRefinementResult`; `Enabled` is true of each that the controller makes.
pub record RefinementResult : Type 0 where
  pub feasibility_result : FeasibilityVerdict
  pub feasibility_reason : FeasibilityReason
  pub refinement_status : RefinementStatus
  pub refinement_iterations : ℕ
  pub refinement_trigger : RefinementTrigger
  pub witness_hash : String
  pub ssa_subjects : List String
  pub evidence : Evidence
  pub evidence_digest : String

-- `interprocPathResult`, with the fields that a replay reads in `replay`. A record or a refinement
-- that is not set yet is `none`.
pub record InterprocResult : Type 0 where
  pub class : OutcomeClass
  pub reason : PathOutcomeReason
  pub witness : List ℕ
  pub replay : PathResult
  pub witness_hash : String
  pub edge_function_tag : EdgeFuncTag
  pub witness_record : Option WitnessRecord
  pub refinement : Option RefinementResult
  pub witness_graph : Option Supergraph

pub record WitnessIdentity : Type 0 where
  pub category : String
  pub finding_id : String
  pub origin_anchors : List (String × String)
  pub synthetic_path : List ℕ

unfoldable pub effective_witness_path : List ℕ → List ℕ → List ℕ
effective_witness_path [] synthetic = synthetic
effective_witness_path (x ∷ path) synthetic = x ∷ path

unfoldable pub trigger_for_result : InterprocResult → RefinementTrigger
trigger_for_result result = elim result.class [
  | class_unsafe ↦ unsafe_candidate
  | _ ↦ if reason_eq result.reason no_reason then unsafe_candidate else for_reason result.reason
]

-- `hash` digests the fields of a record that is not hashed yet.
unfoldable pub build_witness_record :
    (WitnessRecord → String) → WitnessIdentity → List String → InterprocResult → WitnessRecord
unfolding effective_witness_path trigger_for_result
build_witness_record hash identity call_chain result =
    let record_without_hash : WitnessRecord = record {
      category = identity.category;
      finding_id = identity.finding_id;
      origin_anchors = identity.origin_anchors;
      fact_family = result.replay.fact_family;
      fact_key = result.replay.fact_key;
      edge_tag = result.edge_function_tag;
      fact_origin_path = identity.synthetic_path;
      cfg_path = effective_witness_path result.witness identity.synthetic_path;
      witness_edges = result.replay.witness_edges;
      witness_terminal = result.replay.witness_terminal;
      call_chain = call_chain;
      trigger_reason = trigger_for_result result;
      witness_hash = "";
    } in
    record record_without_hash { witness_hash = hash record_without_hash }

unfoldable pub replay_rejection : InterprocResult → Option ReplayRejection
replay_rejection result =
    if length result.replay.witness_edges == 0 then none else elim result.witness_graph [
      | none ↦ some missing_node
      | some graph ↦ validate_replay graph result.replay
    ]
