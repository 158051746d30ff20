-- ===== src/Tabulation/Result.antt =====
-- The result of a tabulation and the choice between two of them: `interprocPathResult` of
-- goplint/cfa_interproc_result.go, `preferInterprocResult` of goplint/cfa_ifds_solver.go, and the
-- order of witnesses of goplint/cfa_witness_contribution.go.
use goplint.Base.{
  ℤ, int_eq, int_less, String, str_eq, str_less, Bool, true, false, ◌||◌, ◌&&◌, ◌==◌, ltb, Option,
  none, some, List, [], ◌∷◌, length, if◌then◌else◌, pos, compare, Ordering,
}
use goplint.Protocol.Reason.{PathOutcomeReason, no_reason, reason_name}
use goplint.Protocol.State.{AbstractState}
use goplint.Protocol.EdgeFunc.{tag_name}
use goplint.Witness.Graph.{NodeId, WitnessEdge, kind_name}
use goplint.Refinement.{OutcomeClass, class_inconclusive}

-- The fields of a result that the tabulation sets.
pub record TabulationResult : Type 0 where
  pub class : OutcomeClass
  pub reason : PathOutcomeReason
  pub witness : List ℤ
  pub witness_edges : List WitnessEdge
  pub witness_terminal : NodeId

abbrev pub no_node : NodeId
no_node = record {
  func_key = "";
  block_index = pos 0;
  node_index = pos 0;
  call_ordinal = pos 0;
  kind = "";
}

abbrev kept_reason : OutcomeClass → PathOutcomeReason → PathOutcomeReason
kept_reason class_inconclusive why = why
kept_reason _ why = no_reason

unfoldable pub result_from_outcome : OutcomeClass → PathOutcomeReason → List ℤ → TabulationResult
result_from_outcome class why path = record {
  class = class;
  reason = kept_reason class why;
  witness = path;
  witness_edges = [];
  witness_terminal = no_node;
}

abbrev compare_texts : String → String → Ordering
compare_texts a b =
    if str_eq a b then Ordering.eq else if str_less a b then Ordering.lt else Ordering.gt

abbrev compare_ints : ℤ → ℤ → Ordering
compare_ints a b =
    if int_eq a b then Ordering.eq else if int_less a b then Ordering.lt else Ordering.gt

-- The first comparison that tells two values apart.
first_difference : List Ordering → Ordering
first_difference [] = Ordering.eq
first_difference (Ordering.eq ∷ os) = first_difference os
first_difference (Ordering.lt ∷ os) = Ordering.lt
first_difference (Ordering.gt ∷ os) = Ordering.gt

-- `slices.Compare`
compare_lists : List String → List String → Ordering
compare_lists [] [] = Ordering.eq
compare_lists [] (y ∷ ys) = Ordering.lt
compare_lists (x ∷ xs) [] = Ordering.gt
compare_lists (x ∷ xs) (y ∷ ys) = first_difference (compare_texts x y ∷ compare_lists xs ys ∷ [])

compare_nodes : NodeId → NodeId → Ordering
unfolding first_difference
compare_nodes left right = first_difference (
    compare_texts left.func_key right.func_key
    ∷ compare_texts left.kind right.kind
    ∷ compare_ints left.block_index right.block_index
    ∷ compare_ints left.node_index right.node_index
    ∷ compare_ints left.call_ordinal right.call_ordinal
    ∷ [])

compare_states : AbstractState → AbstractState → Ordering
unfolding first_difference
compare_states left right = first_difference (
    compare left.validation right.validation
    ∷ compare left.hazards right.hazards
    ∷ compare left.uncertainty right.uncertainty
    ∷ compare left.result right.result
    ∷ compare left.deferred_error right.deferred_error
    ∷ compare left.identity right.identity
    ∷ compare left.possible_effects right.possible_effects
    ∷ [])

compare_witness_edge : WitnessEdge → WitnessEdge → Ordering
unfolding compare_nodes compare_states compare_lists
compare_witness_edge left right = first_difference (
    compare_nodes left.from right.from
    ∷ compare_nodes left.to right.to
    ∷ compare_texts (kind_name left.kind) (kind_name right.kind)
    ∷ compare_texts left.call_site right.call_site
    ∷ compare_texts left.fact_family right.fact_family
    ∷ compare_texts left.fact_key right.fact_key
    ∷ compare_states left.state_before right.state_before
    ∷ compare_states left.state_after right.state_after
    ∷ compare_texts (tag_name left.edge_function_tag) (tag_name right.edge_function_tag)
    ∷ compare_texts (reason_name left.edge_reason) (reason_name right.edge_reason)
    ∷ compare_lists left.predicate_provenance right.predicate_provenance
    ∷ [])

unfoldable pub compare_witness_edges : List WitnessEdge → List WitnessEdge → Ordering
unfolding compare_witness_edge first_difference
compare_witness_edges [] [] = Ordering.eq
compare_witness_edges [] (y ∷ ys) = Ordering.lt
compare_witness_edges (x ∷ xs) [] = Ordering.gt
compare_witness_edges (x ∷ xs) (y ∷ ys) =
    first_difference (compare_witness_edge x y ∷ compare_witness_edges xs ys ∷ [])

abbrev is_less : Ordering → Bool
is_less Ordering.lt = true
is_less _ = false

unfoldable pub prefer_result : Option TabulationResult → TabulationResult → Option TabulationResult
unfolding compare_witness_edges
prefer_result none candidate = some candidate
prefer_result (some current) candidate =
    if ltb (length candidate.witness) (length current.witness)
      || ((length candidate.witness == length current.witness)
          && is_less (compare_witness_edges candidate.witness_edges current.witness_edges))
    then some candidate
    else some current
