-- ===== src/Tabulation/Calls.antt =====
-- The dependencies and the summaries of a tabulation: `applySummary`, `registerDependency` and
-- `publishSummary` of goplint/cfa_ifds_tabulation.go.
use goplint.Base.{true, if◌then◌else◌}
use goplint.Feasibility.Control.{Control}
use goplint.Tabulation.Problem.{Problem}
use goplint.Tabulation.State.{
  Dependency, Summary, Step, ◌>>◌, each, has_dependency, has_summary, dependencies_of, summaries_of,
  add_dependency, add_summary, count_reuse, returned_edge, exits_agree, checkpoint_at, reserve_at,
  enqueue_edge,
}

module _ {Ast : Type 0} (p : Problem Ast) (c : Control) where
  unfoldable pub apply_agreeing : Dependency → Summary → Step
  unfolding exits_agree enqueue_edge count_reuse returned_edge
  apply_agreeing d x s n =
      if exits_agree d.fact x.fact
      then (enqueue_edge p c (returned_edge d x) >> count_reuse) s n
      else ((true, s), n)

  unfoldable pub apply_summary : Dependency → Summary → Step
  unfolding checkpoint_at apply_agreeing
  apply_summary d x = checkpoint_at p c d.caller_path d.caller_witness >> apply_agreeing d x

  unfoldable pub apply_known_summaries : Dependency → Step
  unfolding each checkpoint_at apply_summary summaries_of
  apply_known_summaries d s n =
      each (λ x. checkpoint_at p c d.caller_path d.caller_witness >> apply_summary d x)
        (summaries_of d.fact.callee_entry s.summaries) s n

  unfoldable pub register_new : Dependency → Step
  unfolding has_dependency reserve_at add_dependency apply_known_summaries
  register_new d s n =
      if has_dependency d.fact s.dependencies
      then ((true, s), n)
      else (reserve_at p c d.caller_path d.caller_witness
            >> add_dependency d
            >> apply_known_summaries d)
          s n

  unfoldable pub register_dependency : Dependency → Step
  unfolding checkpoint_at register_new
  register_dependency d = checkpoint_at p c d.caller_path d.caller_witness >> register_new d

  unfoldable pub apply_to_known_dependencies : Summary → Step
  unfolding each checkpoint_at apply_summary dependencies_of
  apply_to_known_dependencies x s n =
      each (λ d. checkpoint_at p c x.path x.witness >> apply_summary d x)
        (dependencies_of x.fact.entry s.dependencies) s n

  unfoldable pub publish_new : Summary → Step
  unfolding has_summary reserve_at add_summary apply_to_known_dependencies
  publish_new x s n =
      if has_summary x.fact s.summaries
      then ((true, s), n)
      else (reserve_at p c x.path x.witness >> add_summary x >> apply_to_known_dependencies x) s n

  unfoldable pub publish_summary : Summary → Step
  unfolding checkpoint_at publish_new
  publish_summary x = checkpoint_at p c x.path x.witness >> publish_new x
