-- ===== src/Tabulation/Visit.antt =====
-- One round of the loop of `runIFDSPropagationWithStatsOptions` in goplint/cfa_ifds_tabulation.go: what
-- it does with the path edge that it has taken off the queue.
use goplint.Base.{
  ℕ, ℤ, String, str_eq, Bool, true, false, ◌&&◌, ◌||◌, Option, none, some, List, [], ◌∷◌, ◌++◌,
  if◌then◌else◌,
}
use goplint.Protocol.Reason.{PathOutcomeReason, no_reason, timeout, reason_name}
use goplint.Protocol.State.{path_outcome_reason}
use goplint.Feasibility.Control.{Control}
use goplint.Witness.Graph.{InterprocEdge, WitnessEdge}
use goplint.Refinement.{OutcomeClass, class_unsafe, class_inconclusive}
use goplint.Tabulation.Antichain.{PathEdge}
use goplint.Tabulation.Edges.{
  is_return, is_call, outgoing_with_control, return_edges_from, return_edges_for_call,
}
use goplint.Tabulation.Result.{TabulationResult, result_from_outcome, prefer_result}
use goplint.Tabulation.Problem.{
  Problem, node_transfer, unsupported, surely_unsafe, relevant_uncertainty, terminal_is_unsafe,
  pruned, edge_state, witness_is_discharged,
}
use goplint.Tabulation.State.{
  Solver, Stepped, Step, ◌>>◌, each, regardless, exceed, out_of_budget, checkpoint_at, enqueue_edge,
}
use goplint.Tabulation.Calls.{register_dependency, publish_summary}
use goplint.Tabulation.Targets.{
  next_path, witness_to, state_after_node, call_dependency, callee_contribution, next_edge,
  exit_summary,
}

module _ {Ast : Type 0} (p : Problem Ast) (c : Control) where
  -- What follows a scan of the graph, which may expire.
  unfoldable pub after_edges :
      List ℤ
      → List WitnessEdge
      → (List InterprocEdge → Step)
      → Solver
      → Option (List InterprocEdge) × ℕ
      → Stepped
  unfolding exceed
  after_edges path witness k s (none, n) = ((false, exceed timeout path witness s), n)
  after_edges path witness k s (some edges, n) = k edges s n

  -- Once the dependencies of a call are registered, its callee is entered.
  unfoldable pub enter_callee : PathEdge → InterprocEdge → Stepped → Stepped
  unfolding enqueue_edge callee_contribution
  enter_callee snapshot edge ((b, s), n) =
      if out_of_budget s
      then ((false, s), n)
      else regardless (
          enqueue_edge p c
            (record {
              contribution = callee_contribution p snapshot.contribution edge;
              path = edge.to.block_index ∷ [];
              witness = [];
            })
            s n)

  unfoldable pub register_returns : PathEdge → InterprocEdge → List InterprocEdge → Step
  unfolding each checkpoint_at register_dependency call_dependency enter_callee
  register_returns snapshot edge return_edges s n = enter_callee snapshot edge (
      each
        (λ return_edge.
          let d = call_dependency p snapshot edge return_edge in
          checkpoint_at p c d.caller_path d.caller_witness >> register_dependency p c d)
        return_edges s n)

  unfoldable pub follow_call : PathEdge → InterprocEdge → Step
  unfolding after_edges register_returns return_edges_for_call next_path witness_to edge_state
      state_after_node
  follow_call snapshot edge s n =
      let state = state_after_node p snapshot.contribution in
      after_edges (next_path p snapshot edge)
        (witness_to p snapshot edge state (edge_state p edge state))
        (register_returns snapshot edge) s
        (return_edges_for_call c p.graph edge.call_site edge.to.func_key n)

  unfoldable pub follow_unpruned : PathEdge → InterprocEdge → Step
  unfolding follow_call enqueue_edge next_edge
  follow_unpruned snapshot edge s n =
      if is_call edge.kind
      then follow_call snapshot edge s n
      else enqueue_edge p c (next_edge p snapshot edge) s n

  unfoldable pub follow_edge : PathEdge → InterprocEdge → Step
  unfolding checkpoint_at pruned follow_unpruned state_after_node
  follow_edge snapshot edge = checkpoint_at p c snapshot.path snapshot.witness >> λ s n.
      if is_return edge.kind || pruned p edge (state_after_node p snapshot.contribution)
      then ((true, s), n)
      else follow_unpruned snapshot edge s n

  unfoldable pub follow_edges : PathEdge → List InterprocEdge → Step
  unfolding each follow_edge
  follow_edges snapshot edges s n = regardless (each (follow_edge snapshot) edges s n)

  unfoldable pub advance : PathEdge → List InterprocEdge → Step
  unfolding after_edges outgoing_with_control follow_edges publish_summary exit_summary
  advance snapshot [] s n =
      after_edges snapshot.path snapshot.witness (follow_edges snapshot) s
        (outgoing_with_control c p.graph snapshot.contribution.node n)
  advance snapshot (e ∷ es) s n = publish_summary p c (exit_summary p snapshot) s n

  unfoldable pub is_discharged : PathEdge → String → Bool
  unfolding witness_is_discharged
  is_discharged snapshot trigger =
      witness_is_discharged p.witness_hash snapshot.path snapshot.witness snapshot.contribution.node
        trigger p.discharged_witnesses

  unfoldable pub result_at : OutcomeClass → PathOutcomeReason → PathEdge → TabulationResult
  unfolding result_from_outcome
  result_at class why snapshot = record (result_from_outcome class why snapshot.path) {
    witness_edges = snapshot.witness;
    witness_terminal = snapshot.contribution.node;
  }

  unfoldable pub add_inconclusive : PathOutcomeReason → PathEdge → Solver → Solver
  unfolding result_at prefer_result
  add_inconclusive why snapshot s = record s {
    inconclusive_result =
        prefer_result s.inconclusive_result (result_at class_inconclusive why snapshot);
  }

  unfoldable pub report_unsafe : PathEdge → Step
  unfolding is_discharged result_at prefer_result
  report_unsafe snapshot s n =
      if is_discharged snapshot "unsafe-candidate" then ((true, s), n) else (
        (
          true,
          record s {
            unsafe_result =
                prefer_result s.unsafe_result (result_at class_unsafe no_reason snapshot);
          },
        ),
        n,
      )

  unfoldable pub report_unsupported : PathEdge → Step
  unfolding is_discharged add_inconclusive node_transfer reason_name
  report_unsupported snapshot s n =
      let why = (node_transfer p snapshot.contribution.node snapshot.contribution.state).1 in
      if is_discharged snapshot (reason_name why)
      then ((true, s), n)
      else ((true, add_inconclusive why snapshot s), n)

  -- An uncertain path goes on, unless its witness is discharged.
  unfoldable pub report_uncertain : PathEdge → List InterprocEdge → Step
  unfolding is_discharged add_inconclusive state_after_node reason_name advance
  report_uncertain snapshot return_edges s n =
      let why = path_outcome_reason (state_after_node p snapshot.contribution) in
      if is_discharged snapshot (reason_name why)
      then ((true, s), n)
      else advance snapshot return_edges (add_inconclusive why snapshot s) n

  unfoldable pub judge : PathEdge → List InterprocEdge → Step
  unfolding surely_unsafe relevant_uncertainty terminal_is_unsafe report_unsafe report_uncertain
      advance state_after_node
  judge snapshot return_edges s n =
      let node = snapshot.contribution.node in
      let state = state_after_node p snapshot.contribution in
      if surely_unsafe p node state
      then report_unsafe snapshot s n
      else if relevant_uncertainty p node state return_edges
      then report_uncertain snapshot return_edges s n
      else if terminal_is_unsafe p node state
      then report_unsafe snapshot s n
      else advance snapshot return_edges s n

  unfoldable pub observe : PathEdge → Solver → Solver
  unfolding state_after_node
  observe snapshot s =
      let node = snapshot.contribution.node in
      if p.observe_exit && str_eq node.func_key p.start.func_key && p.function_exit node
      then record s {
        observed = s.observed ++ (node, state_after_node p snapshot.contribution) ∷ [];
      }
      else s

  unfoldable pub visit : PathEdge → Step
  unfolding after_edges unsupported report_unsupported return_edges_from judge observe
  visit snapshot s n =
      let node = snapshot.contribution.node in
      if unsupported p node snapshot.contribution.state
      then report_unsupported snapshot s n
      else after_edges snapshot.path snapshot.witness (judge snapshot) (observe snapshot s)
          (return_edges_from c p.graph node n)
