-- ===== src/Tabulation/Conditional.antt =====
-- `interprocConditionalEdgeFunc`: the effect of a path as two states, what becomes of an object that
-- is not validated yet and of one that is.
pub mod Compose
use goplint.Base.{bit_or, if◌then◌else◌}
use goplint.Protocol.State.{
  AbstractState, new_required_state, validation_required, validation_proven_state, error_result_nil,
}
use goplint.Protocol.EdgeFunc.{EdgeFuncTag, new_edge_func, apply_edge}

pub record ConditionalEdgeFunc : Type 0 where
  pub required : AbstractState
  pub proven : AbstractState

-- `ideStateValidated`; the fields that it leaves out are zero.
abbrev pub state_validated : AbstractState
state_validated = record new_required_state {
  validation = validation_proven_state;
  result = error_result_nil;
}

abbrev pub identity_conditional : ConditionalEdgeFunc
identity_conditional = record { required = new_required_state; proven = state_validated }

unfoldable pub apply_conditional : ConditionalEdgeFunc → AbstractState → AbstractState
unfolding validation_required
apply_conditional effect state =
    let transformed = if validation_required state then effect.required else effect.proven in
    record state {
      validation = transformed.validation;
      hazards = bit_or state.hazards transformed.hazards;
      result = transformed.result;
    }

unfoldable pub then_tag : ConditionalEdgeFunc → EdgeFuncTag → ConditionalEdgeFunc
then_tag effect tag = record {
  required = apply_edge (new_edge_func tag) effect.required;
  proven = apply_edge (new_edge_func tag) effect.proven;
}

unfoldable pub then_summary : ConditionalEdgeFunc → ConditionalEdgeFunc → ConditionalEdgeFunc
unfolding apply_conditional
then_summary effect next = record {
  required = apply_conditional next effect.required;
  proven = apply_conditional next effect.proven;
}
