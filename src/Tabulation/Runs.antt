-- ===== src/Tabulation/Runs.antt =====
-- The runs of a supergraph that the tabulation in goplint/cfa_ifds_tabulation.go stands for: a walk
-- from the start with the stack of the calls that it is in.
use goplint.Base.{String, true, false, List, [], ◌∷◌, Memᴰ, ◌≡◌}
use goplint.Protocol.State.{AbstractState}
use goplint.Witness.Graph.{NodeId, InterprocEdge}
use goplint.Tabulation.Edges.{is_return, is_call, leaves}
use goplint.Tabulation.Edges.Selected.{returning}
use goplint.Tabulation.Problem.{Problem, start_state, node_state, pruned, edge_state, next_state}

-- A call that has not returned.
pub record Frame : Type 0 where
  pub call_site : String
  pub callee : String

abbrev pub frame_at : InterprocEdge → Frame
frame_at edge = record { call_site = edge.call_site; callee = edge.to.func_key }

module _ {Ast : Type 0} (p : Problem Ast) where
  -- An edge out of a node, at a state after it, that is not pruned.
  pub record Takes (node : NodeId) (after : AbstractState) (edge : InterprocEdge) : Type 0 where
    pub edge_in : Memᴰ edge p.graph.edges
    pub from_here : leaves node edge ≡ true
    pub not_return : is_return edge.kind ≡ false
    pub not_pruned : pruned p edge after ≡ false

  -- A node, the state before it, and the calls that the walk is in. An exit, which is a node with
  -- return edges, returns to where its call came from. The state is carried along.
  pub data Run : NodeId → AbstractState → List Frame → Type 0 where
    begin : Run p.start (start_state p) []
    move :
        {node : NodeId} {state : AbstractState} {stack : List Frame} (edge : InterprocEdge)
        → Run node state stack
        → returning p.graph node ≡ []
        → Takes node (node_state p node state) edge
        → is_call edge.kind ≡ false
        → Run edge.to (next_state p node edge (node_state p node state)) stack
    call :
        {node : NodeId} {state : AbstractState} {stack : List Frame} (edge : InterprocEdge)
        → Run node state stack
        → returning p.graph node ≡ []
        → Takes node (node_state p node state) edge
        → is_call edge.kind ≡ true
        → Run edge.to (edge_state p edge (node_state p node state)) (frame_at edge ∷ stack)
    back :
        {node : NodeId} {state : AbstractState} {frame : Frame} {stack : List Frame}
        (edge : InterprocEdge)
        → Run node state (frame ∷ stack)
        → Memᴰ edge p.graph.edges
        → leaves node edge ≡ true
        → is_return edge.kind ≡ true
        → edge.call_site ≡ frame.call_site
        → edge.from.func_key ≡ frame.callee
        → Run edge.to (node_state p node state) stack
