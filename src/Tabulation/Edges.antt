-- ===== src/Tabulation/Edges.antt =====
-- The edges that the tabulation asks a supergraph for, with its control: `outgoingWithControl` of
-- goplint/cfa_interproc_graph.go, `returnEdgesFromWithControl` and `returnEdgesForCallWithControl` of
-- goplint/cfa_ifds_tabulation.go.
pub mod Selected
use goplint.Base.{
  String, str_eq, append, join_texts, sort_by, Bool, true, false, ◌&&◌, List, [], ◌∷◌,
  if◌then◌else◌,
}
use goplint.Protocol.Reason.{reason_name}
use goplint.Feasibility.Control.{Control, Timed, pure, checkpoint, ◌>>=◌}
use goplint.Witness.Graph.{
  NodeId, node_key, InterprocEdgeKind, edge_intra, edge_call, edge_return, edge_call_to_return,
  InterprocEdge, Supergraph, kind_name,
}

abbrev pub is_return : InterprocEdgeKind → Bool
is_return edge_return = true
is_return _ = false

abbrev pub is_call : InterprocEdgeKind → Bool
is_call edge_call = true
is_call _ = false

abbrev pub is_call_to_return : InterprocEdgeKind → Bool
is_call_to_return edge_call_to_return = true
is_call_to_return _ = false

unfoldable pub leaves : NodeId → InterprocEdge → Bool
unfolding node_key
leaves node edge = str_eq (node_key edge.from) (node_key node)

abbrev pub returns : InterprocEdge → Bool
returns edge = is_return edge.kind

-- A return edge of a call site, out of the function that is called.
unfoldable pub returns_to : String → String → InterprocEdge → Bool
returns_to call_site callee edge =
    is_return edge.kind && str_eq edge.call_site call_site && str_eq edge.from.func_key callee

unfoldable pub outgoing_order : InterprocEdge → String
unfolding kind_name node_key reason_name
outgoing_order edge = join_texts "|" (
    kind_name edge.kind
    ∷ edge.call_site
    ∷ node_key edge.to
    ∷ reason_name edge.reason
    ∷ join_texts "," edge.predicate_provenance
    ∷ [])

unfoldable pub return_order : InterprocEdge → String
unfolding node_key
return_order edge = append (node_key edge.from) (append "|" (node_key edge.to))

module _ (c : Control) where
  -- A loop over edges that looks at the control before each.
  unfoldable pub edges_with :
      (InterprocEdge → Bool) → List InterprocEdge → Timed (List InterprocEdge)
  edges_with keep [] = pure []
  edges_with keep (e ∷ es) =
      checkpoint c (edges_with keep es >>= λ rest. pure (if keep e then e ∷ rest else rest))

  abbrev pub unless_expired : List InterprocEdge → Timed (List InterprocEdge)
  unless_expired out = checkpoint c (pure out)

  unfoldable pub outgoing_edges : NodeId → List InterprocEdge → Timed (List InterprocEdge)
  unfolding edges_with leaves outgoing_order sort_by
  outgoing_edges from [] = pure []
  outgoing_edges from (e ∷ es) =
      edges_with (leaves from) (e ∷ es) >>= λ out. unless_expired (sort_by outgoing_order out)

  unfoldable pub outgoing_with_control : Supergraph → NodeId → Timed (List InterprocEdge)
  unfolding outgoing_edges
  outgoing_with_control graph from = checkpoint c (outgoing_edges from graph.edges)

  unfoldable pub return_edges_from : Supergraph → NodeId → Timed (List InterprocEdge)
  unfolding outgoing_with_control edges_with
  return_edges_from graph node =
      outgoing_with_control graph node >>= λ out. edges_with returns out >>= unless_expired

  unfoldable pub return_edges_for_call : Supergraph → String → String → Timed (List InterprocEdge)
  unfolding edges_with returns_to return_order sort_by
  return_edges_for_call graph call_site callee =
      edges_with (returns_to call_site callee) graph.edges >>= λ out.
      unless_expired (sort_by return_order out)
