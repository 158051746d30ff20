-- ===== src/Summary/Continuation.antt =====
-- goplint/cfa_summary.go: the state of an obligation behind a call.
pub mod Agreement
pub mod Valid
use goplint.Base.{
  ℕ, Bool, true, false, ◌&&◌, ◌||◌, not, Option, none, some, List, [], ◌∷◌, if◌then◌else◌, bit_or,
}
use goplint.Protocol.Reason.{PathOutcomeReason}
use goplint.Protocol.Effects.{
  possible_effect_mutate, possible_effect_replace, possible_effect_escape, possible_effect_consume,
  possible_effect_terminate,
}
use goplint.Protocol.State as State
use goplint.Protocol.State.{
  AbstractState, EffectKind, ConditionalEffect, apply, new_required_state, validation_proven_state,
  validation_required_state, error_result_nil, error_result_unknown,
}
use goplint.Summary.Effect.{
  SummaryEffectKind, SummaryCondition, SummaryEffectFact, effect_pure, effect_preserve,
  effect_validate, effect_mutate, effect_replace, effect_escape, effect_consume, effect_terminal,
  other_effect, no_condition, condition_result_nil, condition_successful_return, other_condition,
}

pub record CalleeTargetSummary : Type 0 where
  pub effects : List SummaryEffectFact
  pub complete : Bool
  pub outcome_reason : PathOutcomeReason

abbrev effect_of : EffectKind → ConditionalEffect
effect_of k = record { kind = k; relation = record { receiver_identity = 0; error_identity = 0 } }

unfoldable pub continue_validate : SummaryCondition → AbstractState → Option AbstractState
unfolding apply
continue_validate condition_successful_return s =
    some (apply s (effect_of State.effect_validate) error_result_nil 0)
continue_validate condition_result_nil s =
    some (apply s (effect_of State.effect_validate) error_result_unknown 0)
continue_validate _ s = none

-- `state.Validation = required`, and one more possible effect.
abbrev revoke : AbstractState → ℕ → AbstractState
revoke s e = record s {
  validation = validation_required_state;
  possible_effects = bit_or s.possible_effects e;
}

abbrev may : AbstractState → ℕ → AbstractState
may s e = record s { possible_effects = bit_or s.possible_effects e }

-- The body of the loop; `none` is the early return of no state.
unfoldable pub continue_effect :
    SummaryEffectKind → SummaryCondition → AbstractState → Option AbstractState
unfolding continue_validate apply
continue_effect effect_pure c s = some s
continue_effect effect_preserve c s = some s
continue_effect effect_validate c s = continue_validate c s
continue_effect effect_mutate c s = some (revoke s possible_effect_mutate)
continue_effect effect_replace c s = some (revoke s possible_effect_replace)
continue_effect effect_escape c s =
    some (may (apply s (effect_of State.effect_escape) s.result 0) possible_effect_escape)
continue_effect effect_consume c s =
    some (may (apply s (effect_of State.effect_consume) s.result 0) possible_effect_consume)
continue_effect effect_terminal c s = some (may s possible_effect_terminate)
continue_effect (other_effect k) c s = none

unfoldable pub continue_effects : List SummaryEffectFact → AbstractState → Option AbstractState
continue_effects [] s = some s
continue_effects (e ∷ es) s = elim (continue_effect e.kind e.condition s) [
  | none ↦ none
  | some t ↦ continue_effects es t
]

unfoldable pub is_empty : List SummaryEffectFact → Bool
is_empty [] = true
is_empty (e ∷ es) = false

abbrev pub start_state : Bool → AbstractState
start_state validated =
    if validated
    then record new_required_state { validation = validation_proven_state }
    else new_required_state

unfoldable pub continuation_state_from : CalleeTargetSummary → Bool → Option AbstractState
unfolding is_empty
continuation_state_from summary validated =
    if not summary.complete || is_empty summary.effects
    then none
    else continue_effects summary.effects (start_state validated)

unfoldable pub continuation_state : CalleeTargetSummary → Option AbstractState
continuation_state summary = continuation_state_from summary false

-- The two flags of `conditionallyValidatesWithoutHazard`.
pub record Flags : Type 0 where
  pub validated : Bool
  pub hazard : Bool

abbrev pub no_flags : Flags
no_flags = record { validated = false; hazard = false }

unfoldable pub flag_effect : SummaryEffectKind → SummaryCondition → Flags → Option Flags
flag_effect effect_pure c f = some f
flag_effect effect_preserve c f = some f
flag_effect effect_validate condition_result_nil f = some (record f { validated = true })
flag_effect effect_validate condition_successful_return f = some (record f { validated = true })
flag_effect effect_validate _ f = none
flag_effect effect_mutate c f = some (record f { validated = false })
flag_effect effect_replace c f = some (record f { validated = false })
flag_effect effect_escape c f = some (record f { hazard = true })
flag_effect effect_consume c f = some (record f { hazard = f.hazard || not f.validated })
flag_effect effect_terminal c f = none
flag_effect (other_effect k) c f = none

unfoldable pub flag_effects : List SummaryEffectFact → Flags → Option Flags
flag_effects [] f = some f
flag_effects (e ∷ es) f = elim (flag_effect e.kind e.condition f) [
  | none ↦ none
  | some g ↦ flag_effects es g
]

unfoldable pub validates_without_hazard : Option Flags → Bool
validates_without_hazard none = false
validates_without_hazard (some f) = f.validated && not f.hazard

unfoldable pub conditionally_validates_without_hazard : CalleeTargetSummary → Bool
unfolding is_empty validates_without_hazard
conditionally_validates_without_hazard summary =
    if not summary.complete || is_empty summary.effects
    then false
    else validates_without_hazard (flag_effects summary.effects no_flags)

abbrev is_validate : SummaryEffectKind → Bool
is_validate effect_validate = true
is_validate _ = false

abbrev is_successful_return : SummaryCondition → Bool
is_successful_return condition_successful_return = true
is_successful_return _ = false

unfoldable pub has_successful_return_validation : List SummaryEffectFact → Bool
has_successful_return_validation [] = false
has_successful_return_validation (e ∷ es) =
    is_validate e.kind && is_successful_return e.condition || has_successful_return_validation es
