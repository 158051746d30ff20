-- ===== src/Samples/SolverRuns.antt =====
-- The tabulation of goplint/cfa_ifds_tabulation.go on a function that has its argument validated by a
-- function that it calls, twice.
use goplint.Base.{
  sort_by, str_less, ℕ, String, str_eq, Bool, true, false, not, ◌&&◌, Option, none, some, [], ◌∷◌,
  Memᴰ, pos, ◌≡◌, refl,
}
use goplint.Protocol.Reason.{PathOutcomeReason, no_reason, state_budget}
use goplint.Protocol.State.{
  AbstractState, new_required_state, validation_proven, with_uncertainty, path_outcome_reason,
}
use goplint.Protocol.EdgeFunc.{EdgeFuncTag, identity_tag, validate_tag, apply_edge, new_edge_func}
use goplint.Witness.Graph.{
  NodeId, node_key, node_eq, state_eq, InterprocEdgeKind, edge_intra, edge_call, edge_return,
  InterprocEdge, Supergraph,
}
use goplint.Refinement.{class_safe, class_unsafe}
use goplint.Tabulation.Result.{TabulationResult, result_from_outcome}
use goplint.Tabulation.Problem.{Problem, node_state, edge_state, pruned}
use goplint.Tabulation.State.{Solver}
use goplint.Tabulation.Facts.{contribution_eq, dependency_eq, summary_eq}
use goplint.Tabulation.Antichain.{enqueue, witness_identity}
use goplint.Tabulation.Edges.{leaves}
use goplint.Tabulation.Edges.Selected.{returning, selected}
use goplint.Tabulation.Solve.{run_propagation, empty_solver}
use goplint.Tabulation.Runs.{Run, begin, call, frame_at}
use goplint.Tabulation.Growth.Done.{IsQuiet}
use goplint.Tabulation.Growth.Outcome.{run_propagation_ends, run_propagation_safe}

abbrev node : String → ℕ → NodeId
node func index = record {
  func_key = func;
  block_index = pos 0;
  node_index = pos index;
  call_ordinal = pos 0;
  kind = "cfg-node";
}

abbrev edge : InterprocEdgeKind → NodeId → NodeId → String → InterprocEdge
edge kind from to site = record {
  from = from;
  to = to;
  kind = kind;
  call_site = site;
  reason = no_reason;
  predicate_provenance = [];
}

-- `main` calls `check` at two sites, and `check` validates before its exit.
abbrev call_edge : InterprocEdge
call_edge = edge edge_call (node "main" 0) (node "check" 0) "first"

abbrev sample_graph : Supergraph
sample_graph = record {
  nodes = λ key. some (node "main" 0);
  edges =
      call_edge
      ∷ edge edge_call (node "main" 1) (node "check" 0) "second"
      ∷ edge edge_intra (node "check" 0) (node "check" 1) ""
      ∷ edge edge_return (node "check" 1) (node "main" 1) "first"
      ∷ edge edge_return (node "check" 1) (node "main" 2) "second"
      ∷ [];
}

abbrev is_at : NodeId → String → Bool
is_at id func = str_eq id.func_key func

abbrev validating : NodeId → Option Bool → AbstractState → EdgeFuncTag × PathOutcomeReason
validating id ast state = elim (is_at id "check") [
  | true ↦ (validate_tag, no_reason)
  | false ↦ (identity_tag, no_reason)
]

abbrev ignoring : NodeId → Option Bool → AbstractState → EdgeFuncTag × PathOutcomeReason
ignoring id ast state = (identity_tag, no_reason)

-- The end of `main`, the third node, is where the object must be valid.
abbrev unless_valid : NodeId → Option Bool → AbstractState → Bool
unfolding validation_proven
unless_valid id ast state =
    str_eq (node_key id) (node_key (node "main" 2)) && not (validation_proven state)

abbrev problem_of :
    (NodeId → Option Bool → AbstractState → EdgeFuncTag × PathOutcomeReason) → Problem Bool
problem_of transfer = record {
  graph = sample_graph;
  ast_node = λ id. none;
  function_exit = λ id. false;
  start = node "main" 0;
  max_states = pos 50;
  discharged_witnesses = [];
  witness_hash = none;
  transfer = transfer;
  terminal_unsafe = unless_valid;
  unresolved_call_relevant = none;
  obligation_sink = none;
  sink_policy = record {
    terminal_can_observe = true;
    unresolved_identity_at_sink = false;
    must_alias_uncertainty_at_sink = false;
  };
  edge_transfer = none;
  initial_state = none;
  observe_exit = false;
  prune_edge = none;
}

abbrev outcome_or_empty : Option (TabulationResult × Solver) → TabulationResult × Solver
unfolding result_from_outcome
outcome_or_empty none = (result_from_outcome class_unsafe no_reason [], empty_solver)
outcome_or_empty (some r) = r

found : TabulationResult × Solver
found = outcome_or_empty (run_propagation (problem_of validating) none)

found_lem : run_propagation (problem_of validating) none ≡ some found
unfolding found run_propagation node_key validation_proven enqueue contribution_eq node_eq state_eq
    witness_identity with_uncertainty apply_edge new_edge_func path_outcome_reason str_less
    dependency_eq summary_eq
found_lem = refl

found_safe : found.0.class ≡ class_safe
unfolding found run_propagation node_key validation_proven enqueue contribution_eq node_eq state_eq
    witness_identity with_uncertainty apply_edge new_edge_func path_outcome_reason str_less
    dependency_eq summary_eq
found_safe = refl

-- A function that validates nothing leaves the end of `main` unsafe.
ignoring_unsafe :
    (outcome_or_empty (run_propagation (problem_of ignoring) none)).0.class ≡ class_unsafe
unfolding run_propagation node_key validation_proven enqueue contribution_eq node_eq state_eq
    witness_identity with_uncertainty apply_edge new_edge_func path_outcome_reason str_less
    dependency_eq summary_eq
ignoring_unsafe = refl

-- With the first two rounds it is out of its budget.
abbrev in_two_rounds : Problem Bool
in_two_rounds = record (problem_of validating) { max_states = pos 2 }

out_of_rounds : (outcome_or_empty (run_propagation in_two_rounds none)).0.reason ≡ state_budget
unfolding run_propagation node_key validation_proven enqueue contribution_eq node_eq state_eq
    witness_identity with_uncertainty apply_edge new_edge_func path_outcome_reason str_less
    dependency_eq summary_eq
out_of_rounds = refl

abbrev entry_state : AbstractState
entry_state =
    edge_state (problem_of validating) call_edge
      (node_state (problem_of validating) (node "main" 0) new_required_state)

-- The run that enters `check` from the first site.
entered : Run (problem_of validating) (node "check" 0) entry_state (frame_at call_edge ∷ [])
entered =
    call call_edge begin (unfold returning selected sort_by leaves str_less node_key in refl)
      (record {
        edge_in = Memᴰ.head refl;
        from_here = unfold leaves node_key in refl;
        not_return = refl;
        not_pruned = unfold pruned in refl;
      })
      refl

run_propagation_safe_example :
    IsQuiet
      (problem_of validating)
      (node "check" 0)
      entry_state
      (node_state (problem_of validating) (node "check" 0) entry_state)
run_propagation_safe_example =
    run_propagation_safe (problem_of validating) none found refl found_lem found_safe
      (node "check" 0) entry_state (frame_at call_edge ∷ []) entered

run_propagation_ends_example :
    (r : TabulationResult × Solver) × (run_propagation (problem_of ignoring) none ≡ some r)
run_propagation_ends_example = run_propagation_ends (problem_of ignoring) none
