-- ===== src/Tabulation/Targets.antt =====
-- What a round of the loop of `runIFDSPropagationWithStatsOptions` in
-- goplint/cfa_ifds_tabulation.go makes of a path edge: the path edges, the dependencies and the summary
-- that it hands on.
use goplint.Base.{ℤ, List}
use goplint.Protocol.State.{AbstractState}
use goplint.Witness.Graph.{InterprocEdge, WitnessEdge}
use goplint.Tabulation.Conditional.{identity_conditional, then_tag, ConditionalEdgeFunc}
use goplint.Tabulation.Facts.{EntryFact, Contribution, DependencyFact, SummaryFact}
use goplint.Tabulation.Antichain.{PathEdge}
use goplint.Tabulation.Problem.{
  Problem, node_transfer, node_state, edge_result, edge_state, next_state, append_witness_block,
  append_witness_edge, transition_tag,
}
use goplint.Tabulation.State.{Dependency, Summary}

module _ {Ast : Type 0} (p : Problem Ast) where
  unfoldable pub next_path : PathEdge → InterprocEdge → List ℤ
  unfolding append_witness_block
  next_path snapshot edge = append_witness_block snapshot.path edge.to.block_index

  unfoldable pub witness_to :
      PathEdge → InterprocEdge → AbstractState → AbstractState → List WitnessEdge
  unfolding edge_state transition_tag
  witness_to snapshot edge state after =
      append_witness_edge snapshot.witness edge snapshot.contribution.state after
        (transition_tag snapshot.contribution.state (edge_state p edge state))

  -- The state after the node of a path edge, and the effect of the path up to there.
  unfoldable pub state_after_node : Contribution → AbstractState
  unfolding node_state
  state_after_node x = node_state p x.node x.state

  unfoldable pub effect_after_node : Contribution → ConditionalEdgeFunc
  unfolding then_tag node_transfer
  effect_after_node x = then_tag x.edge_function (node_transfer p x.node x.state).0

  unfoldable pub effect_after_edge : Contribution → InterprocEdge → ConditionalEdgeFunc
  unfolding effect_after_node then_tag edge_result state_after_node
  effect_after_edge x edge =
      then_tag (effect_after_node x) (edge_result p edge (state_after_node x)).0

  unfoldable pub callee_entry : Contribution → InterprocEdge → EntryFact
  unfolding edge_state state_after_node
  callee_entry x edge = record { node = edge.to; state = edge_state p edge (state_after_node x) }

  unfoldable pub dependency_fact : Contribution → InterprocEdge → InterprocEdge → DependencyFact
  unfolding callee_entry effect_after_edge
  dependency_fact x edge return_edge = record {
    callee_entry = callee_entry x edge;
    callee_exit = return_edge.from;
    caller_entry = x.entry;
    call_site = edge.call_site;
    return_node = return_edge.to;
    caller_effect = effect_after_edge x edge;
  }

  unfoldable pub call_dependency : PathEdge → InterprocEdge → InterprocEdge → Dependency
  unfolding dependency_fact next_path witness_to edge_state state_after_node
  call_dependency snapshot edge return_edge =
      let state = state_after_node snapshot.contribution in
      record {
        fact = dependency_fact snapshot.contribution edge return_edge;
        caller_path = next_path snapshot edge;
        caller_witness = witness_to snapshot edge state (edge_state p edge state);
      }

  unfoldable pub callee_contribution : Contribution → InterprocEdge → Contribution
  unfolding callee_entry
  callee_contribution x edge = record {
    entry = callee_entry x edge;
    node = edge.to;
    state = (callee_entry x edge).state;
    edge_function = identity_conditional;
  }

  unfoldable pub next_contribution : Contribution → InterprocEdge → Contribution
  unfolding next_state state_after_node effect_after_edge
  next_contribution x edge = record {
    entry = x.entry;
    node = edge.to;
    state = next_state p x.node edge (state_after_node x);
    edge_function = effect_after_edge x edge;
  }

  unfoldable pub next_edge : PathEdge → InterprocEdge → PathEdge
  unfolding next_contribution next_path witness_to state_after_node
  next_edge snapshot edge =
      let next = next_contribution snapshot.contribution edge in
      record {
        contribution = next;
        path = next_path snapshot edge;
        witness = witness_to snapshot edge (state_after_node snapshot.contribution) next.state;
      }

  unfoldable pub summary_fact : Contribution → SummaryFact
  unfolding state_after_node effect_after_node
  summary_fact x = record {
    entry = x.entry;
    exit = x.node;
    state = state_after_node x;
    edge_function = effect_after_node x;
  }

  unfoldable pub exit_summary : PathEdge → Summary
  unfolding summary_fact node_transfer
  exit_summary snapshot = record {
    fact = summary_fact snapshot.contribution;
    path = snapshot.path;
    witness = snapshot.witness;
    exit_state_before = snapshot.contribution.state;
    exit_transfer_tag = (node_transfer p snapshot.contribution.node snapshot.contribution.state).0;
  }
