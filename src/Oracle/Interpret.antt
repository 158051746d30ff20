-- ===== src/Oracle/Interpret.antt =====
-- The worklist of `interpretIdentity` in internal/protocoloracle/reference.go, past the check of the
-- program.
use goplint.Base.{
  sort_by, join_texts, ℕ, zero, suc, ◌+◌, String, str_eq, Bool, true, false, not, ◌&&◌, ◌||◌, ◌==◌,
  ltb, bit_or, Option, none, some, List, [], ◌∷◌, ◌++◌, length, set, get_elem?, if◌then◌else◌,
}
use goplint.Oracle.{
  InitialFact, validated_fact, NodeRef, Node, call, return, Edge, Program, outcome_none,
  inconclusive, IdentityResult, ReferenceState, ReferencePathEdge, ReferenceDependency,
  ReferenceSummary,
}
use goplint.Oracle.Keys.{TextMap, node_key, edge_key}
use goplint.Oracle.Effects.{
  apply_reference_node, reference_terminal_outcome, reference_uncertainty_names, join_outcome,
}
use goplint.Oracle.Worklist.{
  Interpretation, zero_state, zero_path_edge, zero_node, lookup_or, is_unsat, is_return,
  same_outcome, enqueue, each, register_dependency, publish_summary,
}

module _ (max_states : ℕ) where
  abbrev filter_edges : (Edge → Bool) → List Edge → List Edge
  filter_edges f [] = []
  filter_edges f (e ∷ es) = let rest = filter_edges f es in if f e then e ∷ rest else rest

  -- `edges`, sorted.
  abbrev pub sorted_edges : Program → List Edge
  unfolding sort_by edge_key
  sorted_edges program = sort_by edge_key program.edges

  abbrev pub outgoing : Program → NodeRef → List Edge
  unfolding sorted_edges node_key
  outgoing program ref =
      filter_edges (λ e. str_eq (node_key e.from) (node_key ref)) (sorted_edges program)

  abbrev reference_return_edges_from : List Edge → List Edge
  reference_return_edges_from = filter_edges (λ e. is_return e.kind)

  abbrev pub reference_return_edges_for_call : List Edge → ℕ → ℕ → List Edge
  unfolding sort_by edge_key
  reference_return_edges_for_call edges call_site callee_procedure = sort_by edge_key (
      filter_edges
        (λ e.
          is_return e.kind && (e.call_site == call_site) && (e.from.procedure == callee_procedure))
        edges)

  abbrev pub dependency_of :
      ReferencePathEdge → ReferenceState → Edge → List String → Edge → ReferenceDependency
  dependency_of path state edge next_witness return_edge = record {
    callee_entry = record { node = edge.to; state = state };
    callee_exit = return_edge.from;
    caller_entry = path.entry;
    call_site = edge.call_site;
    return_node = return_edge.to;
    caller_state = state;
    caller_witness = next_witness;
  }

  abbrev pub callee_edge : ReferenceState → Edge → List String → ReferencePathEdge
  callee_edge state edge next_witness = record {
    entry = record { node = edge.to; state = state };
    node = edge.to;
    state = state;
    witness = next_witness;
  }

  -- A call edge, past its dependencies.
  unfoldable pub enter_callee :
      ReferenceState → Edge → List String → Interpretation → Interpretation
  unfolding enqueue
  enter_callee state edge next_witness s =
      if s.budget_exceeded
      then s
      else (enqueue max_states (callee_edge state edge next_witness) s).1

  abbrev pub next_edge : ReferencePathEdge → ReferenceState → Edge → List String → ReferencePathEdge
  next_edge path state edge next_witness = record {
    entry = path.entry;
    node = edge.to;
    state = state;
    witness = next_witness;
  }

  -- The dependencies of a call edge.
  abbrev pub register_return :
      ReferencePathEdge
      → ReferenceState
      → Edge
      → List String
      → Edge
      → Interpretation
      → Bool × Interpretation
  unfolding register_dependency
  register_return path state edge next_witness return_edge =
      register_dependency max_states (dependency_of path state edge next_witness return_edge)

  -- The path is at a node, with `state` behind it.
  unfoldable pub follow_edge :
      Program → ReferencePathEdge → ReferenceState → Edge → Interpretation → Interpretation
  unfolding enter_callee each register_return reference_return_edges_for_call sorted_edges edge_key
      enqueue
  follow_edge program path state edge s =
      let next_witness = path.witness ++ edge_key edge ∷ [] in
      elim edge.kind [
        | return ↦ s
        | call ↦
            enter_callee state edge next_witness
              (each max_states (register_return path state edge next_witness)
                (reference_return_edges_for_call (sorted_edges program) edge.call_site
                  edge.to.procedure)
                s).1
        | _ ↦ (enqueue max_states (next_edge path state edge next_witness) s).1
      ]

  unfoldable pub follow_edges :
      Program → ReferencePathEdge → ReferenceState → List Edge → Interpretation → Interpretation
  unfolding follow_edge
  follow_edges program path state [] s = s
  follow_edges program path state (e ∷ es) s =
      follow_edges program path state es (follow_edge program path state e s)

  unfoldable pub reach_terminal :
      ℕ → ReferencePathEdge → ReferenceState → Interpretation → Interpretation
  unfolding join_outcome reference_terminal_outcome
  reach_terminal tracked path state s =
      let joined = join_outcome s.outcome (reference_terminal_outcome state tracked) in
      record s {
        witness =
            if not (same_outcome joined s.outcome) || (length s.witness == 0)
            then path.witness
            else s.witness;
        outcome = joined;
        uncertainty = bit_or s.uncertainty state.uncertainty;
      }

  abbrev pub exit_summary : ReferencePathEdge → ReferenceState → ReferenceSummary
  exit_summary path state = record {
    entry = path.entry;
    exit = path.node;
    state = state;
    witness = path.witness;
  }

  -- A node with a return edge.
  abbrev pub exits : Program → ReferencePathEdge → Bool
  unfolding outgoing
  exits program path = ltb 0 (length (reference_return_edges_from (outgoing program path.node)))

  -- The node of a path, with its operation applied. `publishSummary` fails only when the budget is
  -- spent, which ends the loop.
  unfoldable pub visit_node :
      Program → ℕ → ReferencePathEdge → Node → ReferenceState → Interpretation → Interpretation
  unfolding reach_terminal publish_summary follow_edges exits outgoing
  visit_node program tracked path node state s =
      if node.terminal
      then reach_terminal tracked path state s
      else if exits program path
      then (publish_summary max_states (exit_summary path state) s).1
      else follow_edges program path state (outgoing program path.node) s

  -- `nodes`, where a later node of the same key stands for an earlier one.
  unfoldable pub node_map : List Node → TextMap Node
  unfolding node_key
  node_map [] = []
  node_map (n ∷ ns) = node_map ns ++ (node_key n.ref, n) ∷ []

  abbrev pub path_at : String → Interpretation → ReferencePathEdge
  unfolding lookup_or
  path_at key s = lookup_or zero_path_edge key s.path_edges

  abbrev pub node_at : Program → NodeRef → Node
  unfolding lookup_or node_map node_key
  node_at program ref = lookup_or zero_node (node_key ref) (node_map program.nodes)

  -- The body of the loop, with `key` off the queue.
  unfoldable pub visit_key : Program → ℕ → String → Interpretation → Interpretation
  unfolding visit_node path_at node_at apply_reference_node
  visit_key program tracked key s =
      let path = path_at key s in
      let node = node_at program path.node in
      if is_unsat node.constraint
      then record s {
        refined_witnesses = s.refined_witnesses ++ join_texts " -> " path.witness ∷ [];
      }
      else visit_node program tracked path node (apply_reference_node path.state node tracked) s

  -- The loop, on fuel: `none` is spent fuel.
  unfoldable pub interpret_loop : Program → ℕ → ℕ → Interpretation → Option Interpretation
  unfolding visit_key
  interpret_loop program tracked zero s = none
  interpret_loop program tracked (suc fuel) s = elim s.budget_exceeded [
    | true ↦ some s
    | false ↦ elim s.queue [
      | [] ↦ some s
      | key ∷ rest ↦
          interpret_loop program tracked fuel
            (visit_key program tracked key (record s { queue = rest }))
    ]
  ]

  abbrev is_validated_fact : Option InitialFact → Bool
  is_validated_fact (some validated_fact) = true
  is_validated_fact _ = false

  -- The state at the entry, from the identity of the index on.
  unfoldable pub initial_state : Program → ℕ → List ℕ → ReferenceState → ReferenceState
  initial_state program index [] s = s
  initial_state program index (i ∷ identities) s =
      initial_state program (index + 1) identities (record s {
        aliases = set s.aliases index index;
        validated =
            set s.validated index (is_validated_fact (get_elem? program.initial_facts index));
      })

  abbrev pub nothing_done : Interpretation
  nothing_done = record {
    path_edges = [];
    queue = [];
    dependencies = [];
    dependencies_by_entry = [];
    summaries = [];
    summaries_by_entry = [];
    outcome = outcome_none;
    uncertainty = 0;
    witness = [];
    refined_witnesses = [];
    summary_reuses = 0;
    work_units = 0;
    budget_exceeded = false;
  }

  abbrev pub root_edge : Program → ReferencePathEdge
  unfolding initial_state
  root_edge program =
      let initial = initial_state program 0 program.identities zero_state in
      record {
        entry = record { node = program.entry; state = initial };
        node = program.entry;
        state = initial;
        witness = [];
      }

  unfoldable pub start : Program → Interpretation
  unfolding enqueue root_edge
  start program = (enqueue max_states (root_edge program) nothing_done).1

  -- What the budget adds to the outcome.
  unfoldable pub charge : Interpretation → Interpretation
  unfolding join_outcome
  charge s =
      if s.budget_exceeded
      then record s {
        outcome = join_outcome s.outcome inconclusive;
        uncertainty = bit_or s.uncertainty 16;
      }
      else s

  abbrev pub result_of : Interpretation → IdentityResult
  unfolding reference_uncertainty_names sort_by
  result_of s = record {
    outcome = s.outcome;
    uncertainty = reference_uncertainty_names s.uncertainty;
    witness = s.witness;
    refined_witnesses = sort_by (λ t. t) s.refined_witnesses;
    summaries = length s.summaries;
    summary_reuses = s.summary_reuses;
  }

  -- Each path off the queue has cost a unit of work, so this fuel is enough.
  unfoldable pub interpret_identity : Program → ℕ → Option IdentityResult
  unfolding interpret_loop start charge result_of
  interpret_identity program tracked =
      elim (interpret_loop program tracked (max_states + 1) (start program)) [
        | none ↦ none
        | some s ↦ some (result_of (charge s))
      ]
