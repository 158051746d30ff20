-- ===== src/Tabulation/Facts/Same.antt =====
-- Two facts of goplint/cfa_ifds_tabulation.go pass the test for the same key if they are equal.
use goplint.Base.{eq_iff, true, ◌≡◌, arith}
use goplint.Witness.Replay.Moves.{node_eq-≡, node_eq_refl, state_eq-≡, state_eq_refl}
use goplint.Tabulation.Conditional.{ConditionalEdgeFunc}
use goplint.Tabulation.Facts.{
  EntryFact, Contribution, DependencyFact, SummaryFact, effect_eq, entry_eq, contribution_eq,
  dependency_eq, summary_eq,
}

pub effect_eq-≡ : (a b : ConditionalEdgeFunc) → effect_eq a b ≡ true → a ≡ b
unfolding effect_eq
effect_eq-≡ a b h = ground (arith, state_eq-≡ a.required b.required, state_eq-≡ a.proven b.proven)

pub effect_eq_refl : (a : ConditionalEdgeFunc) → effect_eq a a ≡ true
unfolding effect_eq
effect_eq_refl a = ground (arith, state_eq_refl a.required, state_eq_refl a.proven)

pub entry_eq-≡ : (a b : EntryFact) → entry_eq a b ≡ true → a ≡ b
unfolding entry_eq
entry_eq-≡ a b h = ground (arith, node_eq-≡ a.node b.node, state_eq-≡ a.state b.state)

pub entry_eq_refl : (a : EntryFact) → entry_eq a a ≡ true
unfolding entry_eq
entry_eq_refl a = ground (arith, node_eq_refl a.node, state_eq_refl a.state)

pub contribution_eq-≡ : (a b : Contribution) → contribution_eq a b ≡ true → a ≡ b
unfolding contribution_eq
contribution_eq-≡ a b h = ground (
  arith,
  entry_eq-≡ a.entry b.entry,
  node_eq-≡ a.node b.node,
  state_eq-≡ a.state b.state,
  effect_eq-≡ a.edge_function b.edge_function,
)

pub contribution_eq_refl : (a : Contribution) → contribution_eq a a ≡ true
unfolding contribution_eq
contribution_eq_refl a = ground (
  arith,
  entry_eq_refl a.entry,
  node_eq_refl a.node,
  state_eq_refl a.state,
  effect_eq_refl a.edge_function,
)

pub dependency_eq-≡ : (a b : DependencyFact) → dependency_eq a b ≡ true → a ≡ b
unfolding dependency_eq
dependency_eq-≡ a b h = ground (
  arith,
  entry_eq-≡ a.callee_entry b.callee_entry,
  node_eq-≡ a.callee_exit b.callee_exit,
  entry_eq-≡ a.caller_entry b.caller_entry,
  (eq_iff a.call_site b.call_site).0,
  node_eq-≡ a.return_node b.return_node,
  effect_eq-≡ a.caller_effect b.caller_effect,
)

pub summary_eq-≡ : (a b : SummaryFact) → summary_eq a b ≡ true → a ≡ b
unfolding summary_eq
summary_eq-≡ a b h = ground (
  arith,
  entry_eq-≡ a.entry b.entry,
  node_eq-≡ a.exit b.exit,
  state_eq-≡ a.state b.state,
  effect_eq-≡ a.edge_function b.edge_function,
)

pub dependency_eq_refl : (a : DependencyFact) → dependency_eq a a ≡ true
unfolding dependency_eq
dependency_eq_refl a = ground (
  arith,
  entry_eq_refl a.callee_entry,
  node_eq_refl a.callee_exit,
  entry_eq_refl a.caller_entry,
  eq_iff a.call_site a.call_site,
  node_eq_refl a.return_node,
  effect_eq_refl a.caller_effect,
)

pub summary_eq_refl : (a : SummaryFact) → summary_eq a a ≡ true
unfolding summary_eq
summary_eq_refl a = ground (
  arith,
  entry_eq_refl a.entry,
  node_eq_refl a.exit,
  state_eq_refl a.state,
  effect_eq_refl a.edge_function,
)
