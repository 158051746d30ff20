-- ===== src/Protocol/State.antt =====
-- goplint/protocol_domain.go: the abstract state of one obligation on one path. The small enums of
-- the code are machine words there, and numbers here: `valid` tells the declared values apart.
use goplint.Base.{
  ℕ, Bool, false, ◌&&◌, ◌||◌, not, ◌==◌, ltb, leb, if◌then◌else◌, ◌^◌, ◌-◌, max, bit_and, bit_or,
  bit_xor,
}
use goplint.Protocol.Reason.{
  PathOutcomeReason, no_reason, reason_eq, path_reason_order, first_reason,
  uncertainty_for_path_reason, uncertainty_unresolved_call, uncertainty_ambiguous_identity,
  uncertainty_missing_ssa, uncertainty_state_budget, uncertainty_witness_budget,
  uncertainty_timeout, uncertainty_unsupported_instruction, uncertainty_reflection,
  uncertainty_unsafe, uncertainty_concurrent_mutation, uncertainty_escaped_heap_mutation,
  uncertainty_recursion_cycle, uncertainty_feasibility_unknown, uncertainty_call_mapping,
}
use goplint.Protocol.Effects.{
  effects_for_uncertainty, identity_for_uncertainty, join_identity_relevance, identity_unknown,
  identity_unrelated, unknown_call_effects,
}

abbrev pub validation_proven_state : ℕ
validation_proven_state = 0

abbrev pub validation_required_state : ℕ
validation_required_state = 1

abbrev pub hazard_escaped : ℕ
hazard_escaped = 2 ^ 0

abbrev pub hazard_consumed : ℕ
hazard_consumed = 2 ^ 1

abbrev pub error_result_unknown : ℕ
error_result_unknown = 0

abbrev pub error_result_nil : ℕ
error_result_nil = 1

abbrev pub error_result_non_nil : ℕ
error_result_non_nil = 2

abbrev pub deferred_error_unknown : ℕ
deferred_error_unknown = 0

abbrev pub deferred_error_nil : ℕ
deferred_error_nil = 1

abbrev pub deferred_error_validation : ℕ
deferred_error_validation = 2

abbrev pub deferred_error_other : ℕ
deferred_error_other = 3

pub record AbstractState : Type 0 where
  pub validation : ℕ
  pub hazards : ℕ
  pub uncertainty : ℕ
  pub result : ℕ
  pub deferred_error : ℕ
  pub identity : ℕ
  pub possible_effects : ℕ

abbrev pub new_required_state : AbstractState
new_required_state = record {
  validation = validation_required_state;
  hazards = 0;
  uncertainty = 0;
  result = error_result_unknown;
  deferred_error = deferred_error_unknown;
  identity = identity_unrelated;
  possible_effects = 0;
}

unfoldable pub error_result_less_equal : ℕ → ℕ → Bool
error_result_less_equal left right = left == right || right == error_result_unknown

unfoldable pub join_error_results : ℕ → ℕ → ℕ
join_error_results left right = if left == right then left else error_result_unknown

unfoldable pub deferred_error_less_equal : ℕ → ℕ → Bool
deferred_error_less_equal left right = left == right || right == deferred_error_unknown

unfoldable pub join_deferred_errors : ℕ → ℕ → ℕ
join_deferred_errors left right = if left == right then left else deferred_error_unknown

unfoldable pub less_equal : AbstractState → AbstractState → Bool
unfolding error_result_less_equal deferred_error_less_equal
less_equal s other =
    leb s.validation other.validation
    && (bit_and s.hazards other.hazards == s.hazards)
    && (bit_and s.uncertainty other.uncertainty == s.uncertainty)
    && error_result_less_equal s.result other.result
    && deferred_error_less_equal s.deferred_error other.deferred_error
    && leb s.identity other.identity
    && (bit_and s.possible_effects other.possible_effects == s.possible_effects)

unfoldable pub join : AbstractState → AbstractState → AbstractState
unfolding join_error_results join_deferred_errors join_identity_relevance
join s other = record {
  validation = max s.validation other.validation;
  hazards = bit_or s.hazards other.hazards;
  uncertainty = bit_or s.uncertainty other.uncertainty;
  result = join_error_results s.result other.result;
  deferred_error = join_deferred_errors s.deferred_error other.deferred_error;
  identity = join_identity_relevance s.identity other.identity;
  possible_effects = bit_or s.possible_effects other.possible_effects;
}

pub data EffectKind : Type 0 where
  effect_validate effect_escape effect_consume : EffectKind

-- The relation of an effect names two identities; `apply` reads its kind alone.
pub record ValidationRelation : Type 0 where
  pub receiver_identity : ℕ
  pub error_identity : ℕ

pub record ConditionalEffect : Type 0 where
  pub kind : EffectKind
  pub relation : ValidationRelation

unfoldable pub apply_validate : AbstractState → ℕ → ℕ → AbstractState
apply_validate s result unknown_reason =
    if result == error_result_nil
    then record s { validation = validation_proven_state; result = error_result_nil }
    else if result == error_result_non_nil
    then record s { result = error_result_non_nil }
    else if result == error_result_unknown
    then record s {
      result = error_result_unknown;
      uncertainty = bit_or s.uncertainty unknown_reason;
    }
    else s

unfoldable pub apply_hazard : AbstractState → ℕ → AbstractState
apply_hazard s hazard =
    if s.validation == validation_required_state
    then record s { hazards = bit_or s.hazards hazard }
    else s

unfoldable pub apply_kind : EffectKind → AbstractState → ℕ → ℕ → AbstractState
apply_kind effect_validate s result unknown_reason = apply_validate s result unknown_reason
apply_kind effect_escape s result unknown_reason = apply_hazard s hazard_escaped
apply_kind effect_consume s result unknown_reason = apply_hazard s hazard_consumed

unfoldable pub apply : AbstractState → ConditionalEffect → ℕ → ℕ → AbstractState
unfolding apply_kind apply_validate apply_hazard
apply s effect result unknown_reason = apply_kind effect.kind s result unknown_reason

unfoldable pub with_uncertainty : AbstractState → PathOutcomeReason → AbstractState
unfolding uncertainty_for_path_reason effects_for_uncertainty join_identity_relevance
    identity_for_uncertainty
with_uncertainty s reason = if reason_eq reason no_reason then s else record s {
  uncertainty = bit_or s.uncertainty (uncertainty_for_path_reason reason);
  possible_effects = bit_or s.possible_effects (effects_for_uncertainty reason);
  identity = join_identity_relevance s.identity (identity_for_uncertainty reason);
}

abbrev pub all_hazards : ℕ
all_hazards = bit_or hazard_escaped hazard_consumed

abbrev pub all_uncertainty : ℕ
all_uncertainty = bit_or uncertainty_unresolved_call (
    bit_or uncertainty_ambiguous_identity (
      bit_or uncertainty_missing_ssa (
        bit_or uncertainty_state_budget (
          bit_or uncertainty_witness_budget (
            bit_or uncertainty_timeout (
              bit_or uncertainty_unsupported_instruction (
                bit_or uncertainty_reflection (
                  bit_or uncertainty_unsafe (
                    bit_or uncertainty_concurrent_mutation (
                      bit_or uncertainty_escaped_heap_mutation (
                        bit_or uncertainty_recursion_cycle (
                          bit_or uncertainty_feasibility_unknown
                            uncertainty_call_mapping))))))))))))

-- `^mask` on a word of the given width.
abbrev pub complement : ℕ → ℕ → ℕ
complement width mask = bit_xor mask (2 ^ width - 1)

unfoldable pub valid : AbstractState → Bool
valid s =
    if ltb validation_required_state s.validation
      || not (bit_and s.hazards (complement 8 all_hazards) == 0)
      || ltb error_result_non_nil s.result
      || ltb deferred_error_other s.deferred_error
      || ltb identity_unknown s.identity
    then false
    else (bit_and s.uncertainty (complement 32 all_uncertainty) == 0)
      && (bit_and s.possible_effects (complement 16 unknown_call_effects) == 0)

unfoldable pub validation_proven : AbstractState → Bool
validation_proven s = s.validation == validation_proven_state

unfoldable pub validation_required : AbstractState → Bool
validation_required s = s.validation == validation_required_state

unfoldable pub escaped_before_validation : AbstractState → Bool
escaped_before_validation s = not (bit_and s.hazards hazard_escaped == 0)

unfoldable pub consumed_before_validation : AbstractState → Bool
consumed_before_validation s = not (bit_and s.hazards hazard_consumed == 0)

unfoldable pub path_outcome_reason : AbstractState → PathOutcomeReason
unfolding first_reason
path_outcome_reason s = first_reason s.uncertainty path_reason_order
