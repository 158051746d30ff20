-- ===== src/Samples/WitnessRuns.antt =====
-- goplint/cfa_witness_contribution.go at a concrete graph: a call, a validation in the callee, and
-- the return.
use goplint.Base.{String, str_eq, none, some, [], ◌∷◌, ◌≡◌, refl, pos, if◌then◌else◌}
use goplint.Protocol.Reason.{no_reason}
use goplint.Protocol.State.{AbstractState, new_required_state, valid}
use goplint.Protocol.EdgeFunc.{identity_tag, validate_tag, EdgeFuncTag, apply_edge, new_edge_func}
use goplint.Witness.Graph.{
  NodeId, InterprocEdge, Supergraph, WitnessEdge, edge_call, edge_intra, edge_return,
  InterprocEdgeKind, node_exists, transfer_matches, graph_has_edge,
}
use goplint.Witness.Replay.{PathResult, validate_replay, unmatched_return}
use goplint.Witness.Replay.Accepted.{IsGenuine, validate_replay_sound, validate_replay_complete}

abbrev node : String → NodeId
node f = record {
  func_key = f;
  block_index = pos 0;
  node_index = pos 3;
  call_ordinal = pos 0;
  kind = "cfg-node";
}

abbrev step : NodeId → NodeId → InterprocEdgeKind → String → InterprocEdge
step a b k site = record {
  from = a;
  to = b;
  kind = k;
  call_site = site;
  reason = no_reason;
  predicate_provenance = [];
}

abbrev pub graph : Supergraph
graph = record {
  nodes = λ k.
      if str_eq k "main|cfg-node|0|3|0"
      then some (node "main")
      else if str_eq k "f|cfg-node|0|3|0"
      then some (node "f")
      else none;
  edges =
      step (node "main") (node "f") edge_call "c1"
      ∷ step (node "f") (node "f") edge_intra ""
      ∷ step (node "f") (node "main") edge_return "c1"
      ∷ [];
}

abbrev proven : AbstractState
proven = record new_required_state { validation = 0; result = 1 }

abbrev witnessed : InterprocEdge → AbstractState → AbstractState → EdgeFuncTag → WitnessEdge
witnessed e before after t = record {
  from = e.from;
  to = e.to;
  kind = e.kind;
  call_site = e.call_site;
  fact_family = "cast-needs-validate";
  fact_key = "x";
  state_before = before;
  state_after = after;
  edge_function_tag = t;
  edge_reason = no_reason;
  predicate_provenance = [];
}

abbrev pub there_and_back : PathResult
there_and_back = record {
  witness_edges =
      witnessed (step (node "main") (node "f") edge_call "c1") new_required_state new_required_state
        identity_tag
      ∷ witnessed (step (node "f") (node "f") edge_intra "") new_required_state proven validate_tag
      ∷ witnessed (step (node "f") (node "main") edge_return "c1") proven proven identity_tag
      ∷ [];
  witness_terminal = node "main";
  fact_family = "cast-needs-validate";
  fact_key = "x";
}

abbrev only_back : PathResult
only_back = record there_and_back {
  witness_edges =
      witnessed (step (node "f") (node "main") edge_return "c1") proven proven identity_tag ∷ [];
}

accepted : validate_replay graph there_and_back ≡ none
unfolding validate_replay node_exists valid transfer_matches apply_edge new_edge_func graph_has_edge
accepted = refl

rejected : validate_replay graph only_back ≡ some unmatched_return
unfolding validate_replay node_exists valid transfer_matches apply_edge new_edge_func graph_has_edge
rejected = refl

validate_replay_sound_example : IsGenuine graph there_and_back
validate_replay_sound_example = validate_replay_sound graph there_and_back accepted

validate_replay_complete_example : validate_replay graph there_and_back ≡ none
validate_replay_complete_example =
    validate_replay_complete graph there_and_back
      (validate_replay_sound graph there_and_back accepted)
