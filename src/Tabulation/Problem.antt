-- ===== src/Tabulation/Problem.antt =====
-- What `runIFDSPropagationWithStatsOptions` of goplint/cfa_ifds_tabulation.go is given, and what it
-- makes of one node and one edge. The functions of a problem are arguments there too: they read the
-- syntax and the types of the analysed program.
use goplint.Base.{
  ℕ, suc, ℤ, pos, int_eq, String, str_eq, append, has_prefix, Bool, true, false, not, ◌&&◌, ◌||◌,
  ◌==◌, ltb, Option, none, some, List, [], ◌∷◌, ◌++◌, if◌then◌else◌,
}
use goplint.Protocol.Reason.{PathOutcomeReason, no_reason, reason_eq}
use goplint.Protocol.Effects.{
  effects_for_uncertainty, identity_must_alias, identity_may_alias, identity_at_unresolved_sink,
}
use goplint.Protocol.State.{
  AbstractState, new_required_state, with_uncertainty, path_outcome_reason, validation_proven,
  validation_required, escaped_before_validation, consumed_before_validation, hazard_escaped,
  hazard_consumed, error_result_non_nil, deferred_error_nil, deferred_error_validation,
  deferred_error_other, deferred_error_unknown,
}
use goplint.Protocol.EdgeFunc.{
  EdgeFuncTag, identity_tag, validate_tag, validation_failed_tag, invalidate_tag, escape_tag,
  consume_tag, deferred_error_nil_tag, deferred_error_validation_tag, deferred_error_other_tag,
  deferred_error_unknown_tag, new_edge_func, apply_edge,
}
use goplint.Protocol.Relevance.{RelevanceQuery, relevant}
use goplint.Witness.Graph.{NodeId, InterprocEdge, Supergraph, WitnessEdge, state_eq}
use goplint.Tabulation.Edges.{is_call_to_return}

pub record SinkPolicy : Type 0 where
  pub terminal_can_observe : Bool
  pub unresolved_identity_at_sink : Bool
  pub must_alias_uncertainty_at_sink : Bool

-- `Ast` is the type of syntax nodes, and `none` is a nil function or node.
pub record Problem (Ast : Type 0) : Type 0 where
  pub graph : Supergraph
  pub ast_node : NodeId → Option Ast
  pub function_exit : NodeId → Bool
  pub start : NodeId
  pub max_states : ℤ
  pub discharged_witnesses : List String
  pub witness_hash : Option (List ℤ → List WitnessEdge → NodeId → String → String)
  pub transfer : NodeId → Option Ast → AbstractState → EdgeFuncTag × PathOutcomeReason
  pub terminal_unsafe : NodeId → Option Ast → AbstractState → Bool
  pub unresolved_call_relevant : Option (NodeId → Option Ast → AbstractState → Bool)
  pub obligation_sink : Option (NodeId → Option Ast → Bool)
  pub sink_policy : SinkPolicy
  pub edge_transfer : Option (InterprocEdge → AbstractState → EdgeFuncTag × PathOutcomeReason)
  pub initial_state : Option AbstractState
  pub observe_exit : Bool
  pub prune_edge : Option (InterprocEdge → AbstractState → Bool)

abbrev pub default_cfg_max_states : ℕ
default_cfg_max_states = 20000

abbrev pub state_limit : ℤ → ℕ
state_limit (pos (suc n)) = suc n
state_limit _ = default_cfg_max_states

abbrev any_prefixed : String → List String → Bool
any_prefixed prefix [] = false
any_prefixed prefix (token ∷ tokens) = has_prefix token prefix || any_prefixed prefix tokens

-- The test of one hash against the tokens.
unfoldable pub token_of_hash : String → List String → Bool
unfolding has_prefix
token_of_hash hash tokens =
    if str_eq hash "" then false else any_prefixed (append hash "|cfgd1_") tokens

unfoldable pub witness_is_discharged :
    Option (List ℤ → List WitnessEdge → NodeId → String → String)
    → List ℤ
    → List WitnessEdge
    → NodeId
    → String
    → List String
    → Bool
unfolding token_of_hash
witness_is_discharged hash path witness terminal trigger [] = false
witness_is_discharged hash [] witness terminal trigger (t ∷ ts) = false
witness_is_discharged none (b ∷ path) witness terminal trigger (t ∷ ts) = false
witness_is_discharged (some hash) (b ∷ path) witness terminal trigger (t ∷ ts) =
    token_of_hash (hash (b ∷ path) witness terminal trigger) (t ∷ ts)

unfoldable pub append_witness_block : List ℤ → ℤ → List ℤ
append_witness_block [] block = block ∷ []
append_witness_block (b ∷ []) block = if int_eq b block then b ∷ [] else b ∷ block ∷ []
append_witness_block (b ∷ b' ∷ bs) block = b ∷ append_witness_block (b' ∷ bs) block

unfoldable pub merge_tabulation_paths : List ℤ → List ℤ → ℤ → List ℤ
unfolding append_witness_block
merge_tabulation_paths prefix [] return_block = append_witness_block prefix return_block
merge_tabulation_paths prefix (b ∷ bs) return_block =
    merge_tabulation_paths (append_witness_block prefix b) bs return_block

-- `appendInterprocWitnessEdge`
abbrev pub append_witness_edge :
    List WitnessEdge
    → InterprocEdge
    → AbstractState
    → AbstractState
    → EdgeFuncTag
    → List WitnessEdge
append_witness_edge witness edge before after tag =
    witness
    ++ record {
      from = edge.from;
      to = edge.to;
      kind = edge.kind;
      call_site = edge.call_site;
      fact_family = "";
      fact_key = "";
      state_before = before;
      state_after = after;
      edge_function_tag = tag;
      edge_reason = edge.reason;
      predicate_provenance = edge.predicate_provenance;
    }
      ∷ []

deferred_error_tag : ℕ → EdgeFuncTag
deferred_error_tag result =
    if result == deferred_error_nil
    then deferred_error_nil_tag
    else if result == deferred_error_validation
    then deferred_error_validation_tag
    else if result == deferred_error_other
    then deferred_error_other_tag
    else if result == deferred_error_unknown
    then deferred_error_unknown_tag
    else identity_tag

unfoldable pub transition_tag : AbstractState → AbstractState → EdgeFuncTag
unfolding deferred_error_tag
transition_tag before after =
    if state_eq before after
    then identity_tag
    else if validation_required before && validation_proven after
    then validate_tag
    else if validation_required before
        && validation_required after
        && not (before.result == error_result_non_nil)
        && (after.result == error_result_non_nil)
    then validation_failed_tag
    else if validation_proven before && validation_required after
    then invalidate_tag
    else if not (escaped_before_validation before) && escaped_before_validation after
    then escape_tag
    else if not (consumed_before_validation before) && consumed_before_validation after
    then consume_tag
    else if not (before.deferred_error == after.deferred_error)
    then deferred_error_tag after.deferred_error
    else identity_tag

-- The states of `terminalCanObserveObligation`.
abbrev observable_states : List AbstractState
observable_states =
    new_required_state
    ∷ record new_required_state { result = error_result_non_nil }
    ∷ record new_required_state { hazards = hazard_escaped }
    ∷ record new_required_state { hazards = hazard_consumed }
    ∷ []

abbrev any_state : (AbstractState → Bool) → List AbstractState → Bool
any_state test [] = false
any_state test (s ∷ ss) = test s || any_state test ss

-- The state that a tag and a reason lead to.
unfoldable pub moved_state : EdgeFuncTag × PathOutcomeReason → AbstractState → AbstractState
moved_state (tag, why) s = with_uncertainty (apply_edge (new_edge_func tag) s) why

abbrev is_nil : List InterprocEdge → Bool
is_nil [] = true
is_nil (e ∷ es) = false

module _ {Ast : Type 0} (p : Problem Ast) where
  abbrev pub start_state : AbstractState
  start_state = elim (p.initial_state) [ none ↦ new_required_state | some s ↦ s ]

  unfoldable pub node_transfer : NodeId → AbstractState → EdgeFuncTag × PathOutcomeReason
  node_transfer node s = p.transfer node (p.ast_node node) s

  -- The state after a node.
  unfoldable pub node_state : NodeId → AbstractState → AbstractState
  unfolding moved_state node_transfer
  node_state node s = moved_state (node_transfer node s) s

  -- A reason that the analysis of the node cannot go on from.
  unfoldable pub unsupported : NodeId → AbstractState → Bool
  unfolding node_transfer
  unsupported node s =
      not (reason_eq (node_transfer node s).1 no_reason)
      && (effects_for_uncertainty (node_transfer node s).1 == 0)

  unfoldable pub terminal_is_unsafe : NodeId → AbstractState → Bool
  terminal_is_unsafe node state = p.terminal_unsafe node (p.ast_node node) state

  unfoldable pub terminal_can_observe_obligation : NodeId → Bool
  unfolding terminal_is_unsafe
  terminal_can_observe_obligation node = any_state (terminal_is_unsafe node) observable_states

  unfoldable pub sink_reached : NodeId → Bool
  sink_reached node = elim p.obligation_sink [
    | none ↦ false
    | some sink ↦ sink node (p.ast_node node)
  ]

  -- The first test of the terminal, of an object that is surely the one.
  unfoldable pub surely_unsafe : NodeId → AbstractState → Bool
  unfolding terminal_is_unsafe
  surely_unsafe node state =
      not (validation_proven state)
      && ltb state.identity identity_may_alias
      && terminal_is_unsafe node state

  unresolved_identity : NodeId → AbstractState → ℕ
  unfolding sink_reached
  unresolved_identity node state =
      if p.sink_policy.unresolved_identity_at_sink && sink_reached node
      then identity_at_unresolved_sink (path_outcome_reason state) state.identity
      else state.identity

  unfoldable pub query_identity : NodeId → AbstractState → ℕ
  unfolding sink_reached unresolved_identity
  query_identity node state =
      if p.sink_policy.must_alias_uncertainty_at_sink
        && sink_reached node
        && not (reason_eq (path_outcome_reason state) no_reason)
        && (unresolved_identity node state == identity_must_alias)
      then identity_may_alias
      else unresolved_identity node state

  unfoldable pub relevance_query : NodeId → AbstractState → List InterprocEdge → RelevanceQuery
  unfolding sink_reached query_identity terminal_can_observe_obligation
  relevance_query node state return_edges = record {
    forward_reachable = not (reason_eq (path_outcome_reason state) no_reason);
    sink_reachable =
        sink_reached node
        || (p.sink_policy.terminal_can_observe
            && is_nil return_edges
            && terminal_can_observe_obligation node);
    identity = query_identity node state;
    possible_effects = state.possible_effects;
  }

  unfoldable pub relevant_uncertainty : NodeId → AbstractState → List InterprocEdge → Bool
  unfolding relevance_query
  relevant_uncertainty node state return_edges =
      not (reason_eq (path_outcome_reason state) no_reason)
      && relevant (relevance_query node state return_edges) state

  unfoldable pub pruned : InterprocEdge → AbstractState → Bool
  pruned edge state = elim p.prune_edge [ none ↦ false | some prune ↦ prune edge state ]

  unfoldable pub edge_result : InterprocEdge → AbstractState → EdgeFuncTag × PathOutcomeReason
  edge_result edge state = elim p.edge_transfer [
    | none ↦ (identity_tag, no_reason)
    | some transfer ↦ transfer edge state
  ]

  -- The state after an edge.
  unfoldable pub edge_state : InterprocEdge → AbstractState → AbstractState
  unfolding edge_result moved_state
  edge_state edge state = moved_state (edge_result edge state) state

  abbrev origin_node : NodeId → InterprocEdge → Option Ast
  origin_node node edge = elim (p.ast_node node) [
    | some origin ↦ some origin
    | none ↦ p.ast_node (record {
      func_key = edge.from.func_key;
      block_index = edge.from.block_index;
      node_index = edge.from.node_index;
      call_ordinal = pos 0;
      kind = "cfg-node";
    })
  ]

  unfoldable pub unresolved_is_relevant : NodeId → InterprocEdge → AbstractState → Bool
  unresolved_is_relevant node edge state = elim p.unresolved_call_relevant [
    | none ↦ true
    | some asks ↦ asks node (origin_node node edge) state
  ]

  -- Past a call that could not be resolved, the state carries its reason.
  unfoldable pub next_state : NodeId → InterprocEdge → AbstractState → AbstractState
  unfolding edge_state unresolved_is_relevant
  next_state node edge state =
      if is_call_to_return edge.kind
        && not (reason_eq edge.reason no_reason)
        && unresolved_is_relevant node edge state
      then with_uncertainty (edge_state edge state) edge.reason
      else edge_state edge state
