-- ===== src/Samples/TabulationRuns.antt =====
-- goplint/cfa_ifds_tabulation.go at concrete edge functions.
use goplint.Base.{◌≡◌}
use goplint.Protocol.State.{new_required_state}
use goplint.Protocol.EdgeFunc.{escape_tag, validate_tag, new_edge_func, apply_edge}
use goplint.Tabulation.Conditional.{
  ConditionalEdgeFunc, identity_conditional, then_tag, then_summary, apply_conditional,
}
use goplint.Tabulation.Conditional.Compose.{
  apply_conditional-then_summary, apply_conditional-then_tag, SameVerdict,
}

abbrev escaping_path : ConditionalEdgeFunc
escaping_path = then_tag identity_conditional escape_tag

abbrev validating_path : ConditionalEdgeFunc
validating_path = then_tag identity_conditional validate_tag

apply_conditional-then_summary_example :
    apply_conditional (then_summary escaping_path validating_path) new_required_state
    ≡ apply_conditional validating_path (apply_conditional escaping_path new_required_state)
apply_conditional-then_summary_example =
    apply_conditional-then_summary escaping_path validating_path new_required_state

apply_conditional-then_tag_example :
    SameVerdict
      (apply_conditional (then_tag validating_path escape_tag) new_required_state)
      (apply_edge (new_edge_func escape_tag) (apply_conditional validating_path new_required_state))
apply_conditional-then_tag_example =
    apply_conditional-then_tag validating_path escape_tag new_required_state
