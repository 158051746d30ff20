-- ===== src/Oracle.antt =====
-- The normalized programs of the reference oracle: internal/protocoloracle/ir.go, with the reference
-- states of internal/protocoloracle/reference.go.
pub mod Keys
pub mod Effects
pub mod Worklist
pub mod Interpret
pub mod Budget
pub mod Ends
use goplint.Base.{ℕ, String, Bool, List}

pub data InitialFact : Type 0 where
  needs_validation validated_fact : InitialFact
  other_fact : String → InitialFact

pub record NodeRef : Type 0 where
  pub procedure : ℕ
  pub node : ℕ

pub data Operation : Type 0 where
  noop validate consume mutate replace escape unresolved : Operation
  other_operation : String → Operation

pub data ConditionalResult : Type 0 where
  result_none result_nil result_non_nil result_unknown : ConditionalResult
  other_condition : String → ConditionalResult

pub data AliasAction : Type 0 where
  alias_none alias_copy alias_kill : AliasAction
  other_action : String → AliasAction

pub data UnknownEffect : Type 0 where
  unknown_none unknown_unresolved unknown_concurrent unknown_escaped : UnknownEffect
  other_effect : String → UnknownEffect

pub data ConstraintKind : Type 0 where
  constraint_none constraint_sat constraint_unsat : ConstraintKind
  other_constraint : String → ConstraintKind

-- Identities, procedures, nodes and call sites are bytes.
pub record Node : Type 0 where
  pub ref : NodeRef
  pub operation : Operation
  pub identity : ℕ
  pub condition : ConditionalResult
  pub alias_action : AliasAction
  pub alias_source : ℕ
  pub unknown_effect : UnknownEffect
  pub constraint : ConstraintKind
  pub terminal : Bool

pub data EdgeKind : Type 0 where
  intra call return : EdgeKind
  other_kind : String → EdgeKind

pub record Edge : Type 0 where
  pub from : NodeRef
  pub to : NodeRef
  pub kind : EdgeKind
  pub call_site : ℕ

-- A program, without its name and its declared shape.
pub record Program : Type 0 where
  pub entry : NodeRef
  pub nodes : List Node
  pub edges : List Edge
  pub identities : List ℕ
  pub initial_facts : List InitialFact

pub data Outcome : Type 0 where
  outcome_none violation inconclusive : Outcome

pub record IdentityResult : Type 0 where
  pub outcome : Outcome
  pub uncertainty : List String
  pub witness : List String
  pub refined_witnesses : List String
  pub summaries : ℕ
  pub summary_reuses : ℕ

-- `validated` and `aliases` are arrays of `max_reference_identities` elements.
pub record ReferenceState : Type 0 where
  pub validated : List Bool
  pub violated : Bool
  pub uncertainty : ℕ
  pub aliases : List ℕ

pub record ReferenceEntryFact : Type 0 where
  pub node : NodeRef
  pub state : ReferenceState

pub record ReferencePathEdge : Type 0 where
  pub entry : ReferenceEntryFact
  pub node : NodeRef
  pub state : ReferenceState
  pub witness : List String

pub record ReferenceDependency : Type 0 where
  pub callee_entry : ReferenceEntryFact
  pub callee_exit : NodeRef
  pub caller_entry : ReferenceEntryFact
  pub call_site : ℕ
  pub return_node : NodeRef
  pub caller_state : ReferenceState
  pub caller_witness : List String

pub record ReferenceSummary : Type 0 where
  pub entry : ReferenceEntryFact
  pub exit : NodeRef
  pub state : ReferenceState
  pub witness : List String
