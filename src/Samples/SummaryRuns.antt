-- ===== src/Samples/SummaryRuns.antt =====
-- goplint/cfa_summary.go and goplint/protocol_recursive_validation.go at concrete summaries.
use goplint.Base.{◌≡◌, refl, true, false, [], ◌∷◌, some, ◌&&◌, ◌==◌}
use goplint.Protocol.Reason.{no_reason}
use goplint.Protocol.State.{AbstractState, validation_proven}
use goplint.Summary.Effect.{
  effect_validate, effect_consume, effect_mutate, new_target_effect, new_successful_return_effect,
}
use goplint.Summary.Continuation.{
  CalleeTargetSummary, continuation_state, conditionally_validates_without_hazard, flag_effects,
  flag_effect,
}
use goplint.Summary.Continuation.Agreement.{conditionally_validates-continuation_state}
use goplint.Summary.Transfer.{EffectTransfer, new_builder, apply_transfer, transfer_effects, finish}
use goplint.Summary.Transfer.Replay.{replay, apply_transfer-transfer_effects}
use goplint.Summary.Transfer.Survival.{finish-survives, apply_all, survives}

abbrev must_validate : CalleeTargetSummary
must_validate = record {
  effects =
      new_successful_return_effect "parameter" 0
      ∷ new_target_effect effect_consume "parameter" 0
      ∷ [];
  complete = true;
  outcome_reason = no_reason;
}

conditionally_validates-continuation_state_example :
    (t : AbstractState) × (continuation_state must_validate ≡ some t)
    × (validation_proven t ≡ true)
    × (t.hazards ≡ 0)
unfolding conditionally_validates_without_hazard flag_effects flag_effect
conditionally_validates-continuation_state_example =
    conditionally_validates-continuation_state must_validate (λ e. cc, (λ e. cc, tt)) refl

abbrev behind_call : AbstractState
behind_call = record {
  validation = 0;
  hazards = 0;
  uncertainty = 0;
  result = 1;
  deferred_error = 0;
  identity = 0;
  possible_effects = 16;
}

abbrev sample_transfer : EffectTransfer
sample_transfer = record {
  available = true;
  validation = true;
  pre_invalidations = 1;
  post_invalidations = 2;
  escape = true;
  consume_before_valid = false;
  consume_after_valid = true;
}

apply_transfer-transfer_effects_example :
    apply_transfer new_builder sample_transfer
    ≡ replay new_builder (transfer_effects sample_transfer "parameter" 0 (some 1))
apply_transfer-transfer_effects_example =
    apply_transfer-transfer_effects new_builder sample_transfer "parameter" 0 (some 1) refl

finish-survives_example :
    let t = finish (apply_all new_builder (effect_validate ∷ effect_mutate ∷ [])) in
    (t.validation && (t.post_invalidations == 0)) ≡ false
unfolding survives
finish-survives_example = finish-survives (effect_validate ∷ effect_mutate ∷ [])
