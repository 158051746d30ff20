-- ===== src/Tabulation/Facts.antt =====
-- The facts that the tabulation tells apart: goplint/cfa_ifds_tabulation.go. Each has a key, the text
-- of its fields, under which the code keeps it. Here two of them are the same if their fields are,
-- whatever bars and signs a function key contains, and their keys order them.
pub mod Same
use goplint.Base.{String, Bool, ◌&&◌, ◌==◌, str_eq, append, pos, decimal, ℕ, [], ◌∷◌, join_texts}
use goplint.Protocol.State.{AbstractState}
use goplint.Witness.Graph.{NodeId, node_key, node_eq, state_eq}
use goplint.Tabulation.Conditional.{ConditionalEdgeFunc}

pub record EntryFact : Type 0 where
  pub node : NodeId
  pub state : AbstractState

-- The fields of a path edge that its key is made of.
pub record Contribution : Type 0 where
  pub entry : EntryFact
  pub node : NodeId
  pub state : AbstractState
  pub edge_function : ConditionalEdgeFunc

-- Those of a call dependency,
pub record DependencyFact : Type 0 where
  pub callee_entry : EntryFact
  pub callee_exit : NodeId
  pub caller_entry : EntryFact
  pub call_site : String
  pub return_node : NodeId
  pub caller_effect : ConditionalEdgeFunc

-- and those of a procedure summary.
pub record SummaryFact : Type 0 where
  pub entry : EntryFact
  pub exit : NodeId
  pub state : AbstractState
  pub edge_function : ConditionalEdgeFunc

field : String → ℕ → String
unfolding decimal
field name n = append name (append "=" (decimal (pos n)))

unfoldable pub state_key : AbstractState → String
unfolding field
state_key s = join_texts "," (
    field "validation" s.validation
    ∷ field "hazards" s.hazards
    ∷ field "uncertainty" s.uncertainty
    ∷ field "result" s.result
    ∷ field "deferred-error" s.deferred_error
    ∷ field "identity" s.identity
    ∷ field "effects" s.possible_effects
    ∷ [])

unfoldable pub effect_key : ConditionalEdgeFunc → String
unfolding state_key
effect_key effect = append (state_key effect.required) (append ">" (state_key effect.proven))

unfoldable pub entry_key : EntryFact → String
unfolding state_key node_key
entry_key fact =
    join_texts "|" (node_key fact.node ∷ append "entry-fact=" (state_key fact.state) ∷ [])

unfoldable pub dependency_key : DependencyFact → String
unfolding entry_key node_key effect_key
dependency_key d = join_texts "|" (
    entry_key d.callee_entry
    ∷ append "callee-exit=" (node_key d.callee_exit)
    ∷ append "caller-entry=" (entry_key d.caller_entry)
    ∷ append "call-site=" d.call_site
    ∷ append "return-node=" (node_key d.return_node)
    ∷ append "caller-effect=" (effect_key d.caller_effect)
    ∷ [])

unfoldable pub summary_key : SummaryFact → String
unfolding entry_key node_key effect_key
summary_key summary = join_texts "|" (
    entry_key summary.entry
    ∷ append "exit=" (node_key summary.exit)
    ∷ append "exit-fact=" (state_key summary.state)
    ∷ append "edge-function=" (effect_key summary.edge_function)
    ∷ [])

unfoldable pub effect_eq : ConditionalEdgeFunc → ConditionalEdgeFunc → Bool
effect_eq a b = state_eq a.required b.required && state_eq a.proven b.proven

unfoldable pub entry_eq : EntryFact → EntryFact → Bool
entry_eq a b = node_eq a.node b.node && state_eq a.state b.state

unfoldable pub contribution_eq : Contribution → Contribution → Bool
unfolding entry_eq effect_eq
contribution_eq a b =
    entry_eq a.entry b.entry
    && node_eq a.node b.node
    && state_eq a.state b.state
    && effect_eq a.edge_function b.edge_function

unfoldable pub dependency_eq : DependencyFact → DependencyFact → Bool
unfolding entry_eq effect_eq
dependency_eq a b =
    entry_eq a.callee_entry b.callee_entry
    && node_eq a.callee_exit b.callee_exit
    && entry_eq a.caller_entry b.caller_entry
    && str_eq a.call_site b.call_site
    && node_eq a.return_node b.return_node
    && effect_eq a.caller_effect b.caller_effect

unfoldable pub summary_eq : SummaryFact → SummaryFact → Bool
unfolding entry_eq effect_eq
summary_eq a b =
    entry_eq a.entry b.entry
    && node_eq a.exit b.exit
    && state_eq a.state b.state
    && effect_eq a.edge_function b.edge_function
