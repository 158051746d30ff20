-- ===== src/Tabulation/State.antt =====
-- The variables of `runIFDSPropagationWithStatsOptions` in goplint/cfa_ifds_tabulation.go, and its
-- elementary steps. A step is false where the code's closure returns false or breaks.
use goplint.Base.{
  select, any, ℕ, suc, ◌+◌, ℤ, String, str_eq, Bool, true, false, Option, none, some, List, [], ◌∷◌,
  ◌++◌, insert_by,
}
use goplint.Protocol.Reason.{PathOutcomeReason, no_reason, timeout}
use goplint.Protocol.State.{AbstractState}
use goplint.Protocol.EdgeFunc.{EdgeFuncTag}
use goplint.Feasibility.Control.{Control, deadline_reached}
use goplint.Witness.Graph.{NodeId, node_key, edge_return, WitnessEdge}
use goplint.Tabulation.Conditional.{then_summary}
use goplint.Tabulation.Facts.{
  EntryFact, entry_eq, Contribution, DependencyFact, dependency_eq, dependency_key, SummaryFact,
  summary_eq, summary_key,
}
use goplint.Tabulation.Antichain.{
  PathEdge, Contributions, set_budget_exceeded, reserve_work_unit, enqueue,
}
use goplint.Tabulation.Result.{TabulationResult}
use goplint.Tabulation.Problem.{Problem, state_limit, merge_tabulation_paths, append_witness_edge}

pub record Dependency : Type 0 where
  pub fact : DependencyFact
  pub caller_path : List ℤ
  pub caller_witness : List WitnessEdge

pub record Summary : Type 0 where
  pub fact : SummaryFact
  pub path : List ℤ
  pub witness : List WitnessEdge
  pub exit_state_before : AbstractState
  pub exit_transfer_tag : EdgeFuncTag

-- The variables of the function. The dependencies and the summaries are in the order of their keys;
-- their numbers are `Dependencies` and `Summaries` of the statistics. `observed` are the calls of
-- `ObserveExit`.
pub record Solver : Type 0 where
  pub contributions : Contributions
  pub dependencies : List Dependency
  pub summaries : List Summary
  pub summary_reuses : ℕ
  pub unsafe_result : Option TabulationResult
  pub inconclusive_result : Option TabulationResult
  pub observed : List (NodeId × AbstractState)

abbrev pub Stepped : Type 0
Stepped = (Bool × Solver) × ℕ

abbrev pub Step : Type 0
Step = Solver → ℕ → Stepped

abbrev pub resume : Step → Stepped → Stepped
resume k ((true, s), n) = k s n
resume k ((false, s), n) = ((false, s), n)

-- The second step follows unless the first is false.
infixr 5 ◌>>◌
abbrev pub ◌>>◌ : Step → Step → Step
◌>>◌ m k s n = resume k (m s n)

-- A loop that breaks off where a step is false.
unfoldable pub each {ℓ} : {A : Type ℓ} → (A → Step) → List A → Step
each f [] s n = ((true, s), n)
each f (x ∷ xs) s n = resume (each f xs) (f x s n)

-- `_ = m`
abbrev pub regardless : Stepped → Stepped
regardless ((b, s), n) = ((true, s), n)

-- A step that changes the contributions.
abbrev pub lifted : Solver → (Bool × Contributions) × ℕ → Stepped
lifted s ((b, k), n) = ((b, record s { contributions = k }), n)

unfoldable pub exceed : PathOutcomeReason → List ℤ → List WitnessEdge → Solver → Solver
exceed why path witness s = record s {
  contributions = set_budget_exceeded why path witness s.contributions;
}

abbrev pub out_of_budget : Solver → Bool
out_of_budget s = elim (s.contributions.budget_result) [ none ↦ false | some r ↦ true ]

unfoldable pub has_dependency : DependencyFact → List Dependency → Bool
has_dependency fact ds = any (λ (d : Dependency). dependency_eq d.fact fact) ds

unfoldable pub has_summary : SummaryFact → List Summary → Bool
has_summary fact xs = any (λ (x : Summary). summary_eq x.fact fact) xs

-- `dependenciesByEntry` and `summariesByEntry`.
unfoldable pub dependencies_of : EntryFact → List Dependency → List Dependency
dependencies_of entry ds = select (λ (d : Dependency). entry_eq d.fact.callee_entry entry) ds

unfoldable pub summaries_of : EntryFact → List Summary → List Summary
summaries_of entry xs = select (λ (x : Summary). entry_eq x.fact.entry entry) xs

abbrev pub dependency_order : Dependency → String
unfolding dependency_key
dependency_order d = dependency_key d.fact

abbrev pub summary_order : Summary → String
unfolding summary_key
summary_order x = summary_key x.fact

unfoldable pub add_dependency : Dependency → Step
unfolding dependency_order
add_dependency d s n =
    ((true, record s { dependencies = insert_by dependency_order d s.dependencies }), n)

unfoldable pub add_summary : Summary → Step
unfolding summary_order
add_summary x s n = ((true, record s { summaries = insert_by summary_order x s.summaries }), n)

unfoldable pub count_reuse : Step
count_reuse s n = ((true, record s { summary_reuses = s.summary_reuses + 1 }), n)

-- The contribution that a summary makes after the call of a dependency.
unfoldable pub returned_contribution : DependencyFact → SummaryFact → Contribution
unfolding then_summary
returned_contribution d x = record {
  entry = d.caller_entry;
  node = d.return_node;
  state = x.state;
  edge_function = then_summary d.caller_effect x.edge_function;
}

unfoldable pub returned_edge : Dependency → Summary → PathEdge
unfolding returned_contribution merge_tabulation_paths
returned_edge d x = record {
  contribution = returned_contribution d.fact x.fact;
  path = merge_tabulation_paths d.caller_path x.path d.fact.return_node.block_index;
  witness =
      append_witness_edge (d.caller_witness ++ x.witness)
        (record {
          from = d.fact.callee_exit;
          to = d.fact.return_node;
          kind = edge_return;
          call_site = d.fact.call_site;
          reason = no_reason;
          predicate_provenance = [];
        })
        x.exit_state_before x.fact.state x.exit_transfer_tag;
}

unfoldable pub exits_agree : DependencyFact → SummaryFact → Bool
unfolding node_key
exits_agree d x = str_eq (node_key d.callee_exit) (node_key x.exit)

module _ {Ast : Type 0} (p : Problem Ast) (c : Control) where
  unfoldable pub checkpoint_at : List ℤ → List WitnessEdge → Step
  unfolding exceed
  checkpoint_at path witness s n = elim (deadline_reached c n) [
    | true ↦ ((false, exceed timeout path witness s), suc n)
    | false ↦ ((true, s), suc n)
  ]

  unfoldable pub reserve_at : List ℤ → List WitnessEdge → Step
  reserve_at path witness s n =
      lifted s (reserve_work_unit c (state_limit p.max_states) path witness s.contributions n)

  unfoldable pub enqueue_edge : PathEdge → Step
  enqueue_edge edge s n = lifted s (enqueue c (state_limit p.max_states) edge s.contributions n)
