-- ===== src/Witness/Replay.antt =====
-- `validateInterprocWitnessReplay` of goplint/cfa_witness_contribution.go. The call stack grows at
-- the head of the list here, at the end of the slice there.
pub mod Moves
pub mod Accepted
use goplint.Base.{
  String, str_eq, Bool, true, false, not, ◌&&◌, ◌||◌, if◌then◌else◌, Option, none, some, List, [],
  ◌∷◌,
}
use goplint.Protocol.State.{valid}
use goplint.Protocol.EdgeFunc.{new_edge_func, apply_edge}
use goplint.Witness.Graph.{
  NodeId, Supergraph, WitnessEdge, InterprocEdgeKind, edge_intra, edge_call, edge_return,
  edge_call_to_return, other_edge, node_eq, node_exists, state_eq, graph_has_edge, transfer_matches,
}

-- The empty string, an accepted replay, is `none` of an option.
pub data ReplayRejection : Type 0 where
  missing_node non_edge disconnected cross_procedure unmatched_return changed_fact changed_state
        invalid_state invalid_edge_kind missing_call_site :
      ReplayRejection

-- The fields of `interprocPathResult` that a replay reads.
pub record PathResult : Type 0 where
  pub witness_edges : List WitnessEdge
  pub witness_terminal : NodeId
  pub fact_family : String
  pub fact_key : String

pub record CallFrame : Type 0 where
  pub call_site : String
  pub caller : String
  pub callee : String

-- The tests on an edge and the one before it.
unfoldable pub check_previous : Option WitnessEdge → WitnessEdge → Option ReplayRejection
unfolding node_eq state_eq
check_previous none edge = none
check_previous (some previous) edge =
    if not (node_eq previous.to edge.from)
    then some disconnected
    else if not (state_eq previous.state_after edge.state_before)
    then some changed_state
    else none

abbrev pub or_non_edge : Bool → Option ReplayRejection → Option ReplayRejection
or_non_edge has_edge (some r) = some r
or_non_edge has_edge none = if not has_edge then some non_edge else none

-- The tests on an edge before the `switch` on its kind, in the order of the code.
unfoldable pub check_edge :
    Supergraph → PathResult → Option WitnessEdge → WitnessEdge → Option ReplayRejection
unfolding check_previous
check_edge graph result previous edge =
    if not (node_exists graph edge.from) || not (node_exists graph edge.to)
    then some missing_node
    else if not (str_eq edge.fact_family result.fact_family)
        || not (str_eq edge.fact_key result.fact_key)
    then some changed_fact
    else if not (valid edge.state_before) || not (valid edge.state_after)
    then some invalid_state
    else if not (
        transfer_matches (apply_edge (new_edge_func edge.edge_function_tag) edge.state_before)
          edge.state_after)
    then some changed_state
    else or_non_edge (graph_has_edge graph.edges edge) (check_previous previous edge)

pub data Moved : Type 0 where
  stopped : ReplayRejection → Moved
  moved : List CallFrame → Moved

abbrev pub frame_of : WitnessEdge → CallFrame
frame_of edge = record {
  call_site = edge.call_site;
  caller = edge.from.func_key;
  callee = edge.to.func_key;
}

unfoldable pub pop_frame : WitnessEdge → List CallFrame → Moved
pop_frame edge [] = stopped unmatched_return
pop_frame edge (frame ∷ stack) =
    if not (str_eq frame.call_site edge.call_site)
      || not (str_eq frame.callee edge.from.func_key)
      || not (str_eq frame.caller edge.to.func_key)
    then stopped unmatched_return
    else moved stack

-- The `switch` on the kind of the edge.
unfoldable pub move_stack : InterprocEdgeKind → WitnessEdge → List CallFrame → Moved
unfolding pop_frame
move_stack edge_intra edge stack =
    if not (str_eq edge.from.func_key edge.to.func_key)
    then stopped cross_procedure
    else if not (str_eq edge.call_site "")
    then stopped missing_call_site
    else moved stack
move_stack edge_call_to_return edge stack =
    if not (str_eq edge.from.func_key edge.to.func_key)
    then stopped cross_procedure
    else if str_eq edge.call_site ""
    then stopped missing_call_site
    else moved stack
move_stack edge_call edge stack =
    if str_eq edge.call_site "" then stopped missing_call_site else moved (frame_of edge ∷ stack)
move_stack edge_return edge stack =
    if str_eq edge.call_site "" then stopped missing_call_site else pop_frame edge stack
move_stack (other_edge s) edge stack = stopped invalid_edge_kind

unfoldable pub replay_loop :
    Supergraph
    → PathResult
    → Option WitnessEdge
    → List CallFrame
    → List WitnessEdge
    → Option ReplayRejection
unfolding check_edge move_stack
replay_loop graph result previous stack [] = none
replay_loop graph result previous stack (edge ∷ edges) =
    elim (check_edge graph result previous edge) [
      | some r ↦ some r
      | none ↦ elim (move_stack edge.kind edge stack) [
        | stopped r ↦ some r
        | moved next ↦ replay_loop graph result (some edge) next edges
      ]
    ]

-- The end of the last edge of a witness.
abbrev pub ends_at : List WitnessEdge → NodeId → Bool
ends_at [] node = true
ends_at (edge ∷ []) node = node_eq edge.to node
ends_at (edge ∷ next ∷ edges) node = ends_at (next ∷ edges) node

unfoldable pub validate_replay : Supergraph → PathResult → Option ReplayRejection
unfolding replay_loop
validate_replay graph result =
    if not (str_eq result.witness_terminal.func_key "")
      && not (node_exists graph result.witness_terminal)
    then some missing_node
    else if not (str_eq result.witness_terminal.func_key "")
        && not (ends_at result.witness_edges result.witness_terminal)
    then some disconnected
    else replay_loop graph result none [] result.witness_edges
