-- ===== src/Protocol/EdgeFunc.antt =====
-- goplint/cfa_ide_edgefunc.go: the edge functions of the interprocedural analysis.

pub mod Monotone
pub mod Compose
use goplint.Base.{ℕ, Bool, String, ◌==◌, if◌then◌else◌}
use text.Mathlib.Text.{◌==◌ as str_eq}
use goplint.Protocol.Effects.{identity_unknown}
use goplint.Protocol.State.{
  AbstractState, ConditionalEffect, EffectKind, effect_validate, effect_escape, effect_consume,
  apply, join, new_required_state, consumed_before_validation, escaped_before_validation,
  validation_proven, validation_required_state, error_result_nil, error_result_non_nil,
  error_result_unknown, deferred_error_nil, deferred_error_validation, deferred_error_other,
  deferred_error_unknown,
}

-- `other` stands for every string that is no declared tag, the empty one included.
pub data EdgeFuncTag : Type 0 where
  identity_tag validate_tag validation_failed_tag invalidate_tag escape_tag consume_tag
        deferred_error_nil_tag deferred_error_validation_tag deferred_error_other_tag
        deferred_error_unknown_tag :
      EdgeFuncTag
  other_tag : String → EdgeFuncTag

unfoldable pub tag_name : EdgeFuncTag → String
tag_name identity_tag = "identity"
tag_name validate_tag = "needs-to-validated"
tag_name validation_failed_tag = "needs-to-validation-failed"
tag_name invalidate_tag = "validated-to-needs"
tag_name escape_tag = "needs-to-escaped-before-validate"
tag_name consume_tag = "needs-to-consumed-before-validate"
tag_name deferred_error_nil_tag = "deferred-error-nil"
tag_name deferred_error_validation_tag = "deferred-error-validation"
tag_name deferred_error_other_tag = "deferred-error-other"
tag_name deferred_error_unknown_tag = "deferred-error-unknown"
tag_name (other_tag s) = s

pub record EdgeFunc : Type 0 where
  pub tag : EdgeFuncTag

unfoldable pub new_edge_func : EdgeFuncTag → EdgeFunc
new_edge_func (other_tag s) = record { tag = identity_tag }
new_edge_func identity_tag = record { tag = identity_tag }
new_edge_func t = record { tag = t }

unfoldable pub tag_of : EdgeFuncTag → EdgeFuncTag
tag_of (other_tag s) = if str_eq s "" then identity_tag else other_tag s
tag_of t = t

abbrev effect_of_kind : EffectKind → ConditionalEffect
effect_of_kind k = record {
  kind = k;
  relation = record { receiver_identity = 0; error_identity = 0 };
}

unfoldable pub invalidate : AbstractState → AbstractState
invalidate s = record s {
  validation = validation_required_state;
  result = error_result_unknown;
  deferred_error =
      if s.deferred_error == deferred_error_validation
      then deferred_error_other
      else s.deferred_error;
}

unfoldable pub apply_tag : EdgeFuncTag → AbstractState → AbstractState
unfolding apply invalidate
apply_tag validate_tag s = apply s (effect_of_kind effect_validate) error_result_nil 0
apply_tag validation_failed_tag s = apply s (effect_of_kind effect_validate) error_result_non_nil 0
apply_tag invalidate_tag s = invalidate s
apply_tag escape_tag s = apply s (effect_of_kind effect_escape) error_result_unknown 0
apply_tag consume_tag s = apply s (effect_of_kind effect_consume) error_result_unknown 0
apply_tag deferred_error_nil_tag s = record s { deferred_error = deferred_error_nil }
apply_tag deferred_error_validation_tag s = record s { deferred_error = deferred_error_validation }
apply_tag deferred_error_other_tag s = record s { deferred_error = deferred_error_other }
apply_tag deferred_error_unknown_tag s = record s {
  deferred_error = deferred_error_unknown;
  identity = identity_unknown;
}
apply_tag identity_tag s = s
apply_tag (other_tag t) s = s

unfoldable pub apply_edge : EdgeFunc → AbstractState → AbstractState
unfolding apply_tag tag_of
apply_edge f s = apply_tag (tag_of f.tag) s

unfoldable pub edge_func_for_state : AbstractState → EdgeFunc
unfolding consumed_before_validation escaped_before_validation validation_proven new_edge_func
edge_func_for_state s =
    if consumed_before_validation s
    then new_edge_func consume_tag
    else if escaped_before_validation s
    then new_edge_func escape_tag
    else if validation_proven s
    then new_edge_func validate_tag
    else if s.result == error_result_non_nil
    then new_edge_func validation_failed_tag
    else new_edge_func identity_tag

unfoldable pub compose_edge_funcs : EdgeFunc → EdgeFunc → EdgeFunc
unfolding apply_edge edge_func_for_state
compose_edge_funcs first second =
    edge_func_for_state (apply_edge second (apply_edge first new_required_state))

unfoldable pub join_edge_funcs : EdgeFunc → EdgeFunc → EdgeFunc
unfolding apply_edge edge_func_for_state join
join_edge_funcs left right =
    edge_func_for_state
      (join (apply_edge left new_required_state) (apply_edge right new_required_state))
