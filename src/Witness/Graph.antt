-- ===== src/Witness/Graph.antt =====
-- The supergraph of goplint/cfa_interproc_graph.go, as far as a replay reads it, and the witness
-- edges of goplint/cfa_witness_contribution.go with their comparison to it.
use goplint.Base.{
  ℕ, String, str_eq, append, texts_eq, Bool, false, ◌&&◌, ◌||◌, ◌==◌, leb, Option, none, some, List,
  [], ◌∷◌, bit_and, ℤ, int_eq, decimal,
}
use goplint.Protocol.Reason.{PathOutcomeReason, reason_eq}
use goplint.Protocol.State.{AbstractState}
use goplint.Protocol.EdgeFunc.{EdgeFuncTag}

pub record NodeId : Type 0 where
  pub func_key : String
  pub block_index : ℤ
  pub node_index : ℤ
  pub call_ordinal : ℤ
  pub kind : String

unfoldable pub node_key : NodeId → String
unfolding decimal
node_key id = append id.func_key (
    append "|" (
      append id.kind (
        append "|" (
          append (decimal id.block_index)
            (append "|" (append (decimal id.node_index) (append "|" (decimal id.call_ordinal))))))))

-- `==` on node identities.
unfoldable pub node_eq : NodeId → NodeId → Bool
unfolding int_eq
node_eq a b =
    str_eq a.func_key b.func_key
    && int_eq a.block_index b.block_index
    && int_eq a.node_index b.node_index
    && int_eq a.call_ordinal b.call_ordinal
    && str_eq a.kind b.kind

pub data InterprocEdgeKind : Type 0 where
  edge_intra edge_call edge_return edge_call_to_return : InterprocEdgeKind
  other_edge : String → InterprocEdgeKind

unfoldable pub kind_name : InterprocEdgeKind → String
kind_name edge_intra = "intra"
kind_name edge_call = "call"
kind_name edge_return = "return"
kind_name edge_call_to_return = "call-to-return"
kind_name (other_edge s) = s

abbrev kind_number : InterprocEdgeKind → ℕ
kind_number edge_intra = 0
kind_number edge_call = 1
kind_number edge_return = 2
kind_number edge_call_to_return = 3
kind_number (other_edge s) = 4

abbrev kind_text : InterprocEdgeKind → String
kind_text (other_edge s) = s
kind_text _ = ""

abbrev kind_eq : InterprocEdgeKind → InterprocEdgeKind → Bool
kind_eq a b = (kind_number a == kind_number b) && str_eq (kind_text a) (kind_text b)

pub record InterprocEdge : Type 0 where
  pub from : NodeId
  pub to : NodeId
  pub kind : InterprocEdgeKind
  pub call_site : String
  pub reason : PathOutcomeReason
  pub predicate_provenance : List String

-- The nodes by key, and the edges.
pub record Supergraph : Type 0 where
  pub nodes : String → Option NodeId
  pub edges : List InterprocEdge

pub record WitnessEdge : Type 0 where
  pub from : NodeId
  pub to : NodeId
  pub kind : InterprocEdgeKind
  pub call_site : String
  pub fact_family : String
  pub fact_key : String
  pub state_before : AbstractState
  pub state_after : AbstractState
  pub edge_function_tag : EdgeFuncTag
  pub edge_reason : PathOutcomeReason
  pub predicate_provenance : List String

-- `==` on states.
unfoldable pub state_eq : AbstractState → AbstractState → Bool
state_eq a b =
    (a.validation == b.validation)
    && (a.hazards == b.hazards)
    && (a.uncertainty == b.uncertainty)
    && (a.result == b.result)
    && (a.deferred_error == b.deferred_error)
    && (a.identity == b.identity)
    && (a.possible_effects == b.possible_effects)

abbrev is_stored : NodeId → Option NodeId → Bool
is_stored node none = false
is_stored node (some stored) = node_eq stored node

unfoldable pub node_exists : Supergraph → NodeId → Bool
unfolding node_key node_eq
node_exists graph node = is_stored node (graph.nodes (node_key node))

-- The test of one edge of the graph.
unfoldable pub edge_matches : InterprocEdge → WitnessEdge → Bool
unfolding node_eq texts_eq
edge_matches edge w =
    node_eq edge.from w.from
    && node_eq edge.to w.to
    && kind_eq edge.kind w.kind
    && str_eq edge.call_site w.call_site
    && reason_eq edge.reason w.edge_reason
    && texts_eq edge.predicate_provenance w.predicate_provenance

unfoldable pub graph_has_edge : List InterprocEdge → WitnessEdge → Bool
unfolding edge_matches
graph_has_edge [] w = false
graph_has_edge (edge ∷ edges) w = edge_matches edge w || graph_has_edge edges w

unfoldable pub transfer_matches : AbstractState → AbstractState → Bool
transfer_matches transferred observed =
    (transferred.validation == observed.validation)
    && (transferred.hazards == observed.hazards)
    && (bit_and transferred.uncertainty observed.uncertainty == transferred.uncertainty)
    && leb transferred.identity observed.identity
    && (bit_and transferred.possible_effects observed.possible_effects
        == transferred.possible_effects)
