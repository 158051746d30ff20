-- ===== src/Oracle/Worklist.antt =====
-- The variables of `interpretIdentity` in internal/protocoloracle/reference.go, and the closures that
-- change them.
use goplint.Base.{
  sort_by, ℕ, ◌+◌, String, Bool, true, false, not, ◌&&◌, ◌==◌, leb, bit_or, none, some, List, [],
  ◌∷◌, ◌++◌, if◌then◌else◌,
}
use goplint.Oracle.{
  NodeRef, Node, other_operation, other_condition, other_action, other_effect, ConstraintKind,
  constraint_unsat, other_constraint, EdgeKind, return, Outcome, outcome_none, inconclusive,
  ReferenceState, ReferenceEntryFact, ReferencePathEdge, ReferenceDependency, ReferenceSummary,
}
use goplint.Oracle.Keys.{TextMap, lookup, entry_key, path_key, dependency_key, summary_key}

-- The variables of the function.
pub record Interpretation : Type 0 where
  pub path_edges : TextMap ReferencePathEdge
  pub queue : List String
  pub dependencies : TextMap ReferenceDependency
  pub dependencies_by_entry : TextMap (List String)
  pub summaries : TextMap ReferenceSummary
  pub summaries_by_entry : TextMap (List String)
  pub outcome : Outcome
  pub uncertainty : ℕ
  pub witness : List String
  pub refined_witnesses : List String
  pub summary_reuses : ℕ
  pub work_units : ℕ
  pub budget_exceeded : Bool

-- The zero values that a missing key gives.
abbrev zero_ref : NodeRef
zero_ref = record { procedure = 0; node = 0 }

abbrev pub zero_state : ReferenceState
zero_state = record {
  validated = false ∷ false ∷ false ∷ false ∷ false ∷ false ∷ false ∷ false ∷ [];
  violated = false;
  uncertainty = 0;
  aliases = 0 ∷ 0 ∷ 0 ∷ 0 ∷ 0 ∷ 0 ∷ 0 ∷ 0 ∷ [];
}

abbrev zero_entry : ReferenceEntryFact
zero_entry = record { node = zero_ref; state = zero_state }

abbrev pub zero_path_edge : ReferencePathEdge
zero_path_edge = record { entry = zero_entry; node = zero_ref; state = zero_state; witness = [] }

abbrev pub zero_node : Node
zero_node = record {
  ref = zero_ref;
  operation = other_operation "";
  identity = 0;
  condition = other_condition "";
  alias_action = other_action "";
  alias_source = 0;
  unknown_effect = other_effect "";
  constraint = other_constraint "";
  terminal = false;
}

unfoldable pub lookup_or {ℓ} : {A : Type ℓ} → A → String → TextMap A → A
unfolding lookup
lookup_or d key entries = elim (lookup key entries) [ none ↦ d | some v ↦ v ]

abbrev pub has_key {ℓ} : {A : Type ℓ} → String → TextMap A → Bool
unfolding lookup
has_key key entries = elim (lookup key entries) [ none ↦ false | some v ↦ true ]

abbrev pub is_unsat : ConstraintKind → Bool
is_unsat constraint_unsat = true
is_unsat _ = false

abbrev pub is_return : EdgeKind → Bool
is_return return = true
is_return _ = false

abbrev same_ref : NodeRef → NodeRef → Bool
same_ref a b = (a.procedure == b.procedure) && (a.node == b.node)

abbrev pub same_outcome : Outcome → Outcome → Bool
same_outcome outcome_none outcome_none = true
same_outcome Outcome.violation Outcome.violation = true
same_outcome inconclusive inconclusive = true
same_outcome _ _ = false

-- The Boolean result of a closure comes first.
module _ (max_states : ℕ) where
  unfoldable pub reserve : Interpretation → Bool × Interpretation
  reserve s =
      if leb (s.work_units + 1) max_states
      then (true, record s { work_units = s.work_units + 1 })
      else (false, record s { work_units = s.work_units + 1; budget_exceeded = true })

  abbrev add_path_edge : ReferencePathEdge → Interpretation → Interpretation
  unfolding path_key
  add_path_edge edge s = record s {
    path_edges = (path_key edge, edge) ∷ s.path_edges;
    queue = s.queue ++ path_key edge ∷ [];
  }

  -- What follows a reservation.
  abbrev pub reserved :
      (Interpretation → Bool × Interpretation) → Bool × Interpretation → Bool × Interpretation
  reserved rest (true, s) = rest s
  reserved rest (false, s) = (false, s)

  unfoldable pub enqueue : ReferencePathEdge → Interpretation → Bool × Interpretation
  unfolding reserve has_key add_path_edge
  enqueue edge s =
      if has_key (path_key edge) s.path_edges
      then (true, s)
      else reserved (λ t. (true, add_path_edge edge t)) (reserve s)

  abbrev pub returned_edge : ReferenceDependency → ReferenceSummary → ReferencePathEdge
  returned_edge dependency summary = record {
    entry = dependency.caller_entry;
    node = dependency.return_node;
    state = record summary.state {
      uncertainty = bit_or summary.state.uncertainty dependency.caller_state.uncertainty;
    };
    witness = dependency.caller_witness ++ summary.witness;
  }

  unfoldable pub apply_summary :
      ReferenceDependency → ReferenceSummary → Interpretation → Bool × Interpretation
  unfolding enqueue
  apply_summary dependency summary s =
      if not (same_ref dependency.callee_exit summary.exit)
      then (true, s)
      else enqueue (returned_edge dependency summary)
          (record s { summary_reuses = s.summary_reuses + 1 })

  -- A loop that returns false at the first false.
  unfoldable pub each :
      {A : Type 0}
      → (A → Interpretation → Bool × Interpretation)
      → List A
      → Interpretation
      → Bool × Interpretation
  each f [] s = (true, s)
  each f (x ∷ xs) s = reserved (each f xs) (f x s)

  abbrev zero_dependency : ReferenceDependency
  zero_dependency = record {
    callee_entry = zero_entry;
    callee_exit = zero_ref;
    caller_entry = zero_entry;
    call_site = 0;
    return_node = zero_ref;
    caller_state = zero_state;
    caller_witness = [];
  }

  abbrev zero_summary : ReferenceSummary
  zero_summary = record { entry = zero_entry; exit = zero_ref; state = zero_state; witness = [] }

  abbrev texts_at : String → TextMap (List String) → List String
  unfolding lookup_or
  texts_at key entries = lookup_or [] key entries

  abbrev add_text : String → String → TextMap (List String) → TextMap (List String)
  unfolding texts_at sort_by
  add_text key text entries = (key, sort_by (λ t. t) (texts_at key entries ++ text ∷ [])) ∷ entries

  abbrev pub add_dependency : ReferenceDependency → Interpretation → Interpretation
  unfolding add_text dependency_key entry_key
  add_dependency d s = record s {
    dependencies = (dependency_key d, d) ∷ s.dependencies;
    dependencies_by_entry =
        add_text (entry_key d.callee_entry) (dependency_key d) s.dependencies_by_entry;
  }

  abbrev pub summary_at : String → Interpretation → ReferenceSummary
  unfolding lookup_or
  summary_at key t = lookup_or zero_summary key t.summaries

  abbrev pub dependency_at : String → Interpretation → ReferenceDependency
  unfolding lookup_or
  dependency_at key t = lookup_or zero_dependency key t.dependencies

  -- The summary of a key, applied.
  abbrev pub apply_known_summary :
      ReferenceDependency → Interpretation → String → Interpretation → Bool × Interpretation
  unfolding apply_summary summary_at
  apply_known_summary d t key = apply_summary d (summary_at key t)

  abbrev pub known_summaries : ReferenceEntryFact → Interpretation → List String
  unfolding texts_at entry_key
  known_summaries entry t = texts_at (entry_key entry) t.summaries_by_entry

  unfoldable pub register_dependency : ReferenceDependency → Interpretation → Bool × Interpretation
  unfolding reserve has_key dependency_key add_dependency each apply_known_summary known_summaries
  register_dependency d s =
      if has_key (dependency_key d) s.dependencies
      then (true, s)
      else reserved
          (λ t.
            each (apply_known_summary d t) (known_summaries d.callee_entry t) (add_dependency d t))
          (reserve s)

  abbrev pub add_summary : ReferenceSummary → Interpretation → Interpretation
  unfolding add_text summary_key entry_key
  add_summary summary s = record s {
    summaries = (summary_key summary, summary) ∷ s.summaries;
    summaries_by_entry =
        add_text (entry_key summary.entry) (summary_key summary) s.summaries_by_entry;
  }

  -- The dependency of a key, served.
  abbrev pub apply_known_dependency :
      ReferenceSummary → Interpretation → String → Interpretation → Bool × Interpretation
  unfolding apply_summary dependency_at
  apply_known_dependency summary t key = apply_summary (dependency_at key t) summary

  abbrev pub known_dependencies : ReferenceEntryFact → Interpretation → List String
  unfolding texts_at entry_key
  known_dependencies entry t = texts_at (entry_key entry) t.dependencies_by_entry

  unfoldable pub publish_summary : ReferenceSummary → Interpretation → Bool × Interpretation
  unfolding reserve has_key summary_key add_summary each apply_known_dependency known_dependencies
  publish_summary summary s =
      if has_key (summary_key summary) s.summaries
      then (true, s)
      else reserved
          (λ t.
            each (apply_known_dependency summary t) (known_dependencies summary.entry t)
              (add_summary summary t))
          (reserve s)
