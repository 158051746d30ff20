-- ===== src/Summary/Continuation/Agreement.antt =====
-- The two readings of a callee summary agree: the flags and the state.
use goplint.Base.{
  true, false, ◌≡◌, ◌≢◌, refl, ◌||◌, not, some, List, [], ◌∷◌, arith, All, inl, inr, Option-cases,
  Bool-cases,
}
use goplint.Protocol.State.{AbstractState, new_required_state, validation_proven}
use goplint.Summary.Effect.{
  SummaryEffectKind, SummaryCondition, SummaryEffectFact, effect_pure, effect_preserve,
  effect_validate, effect_mutate, effect_replace, effect_escape, effect_consume, effect_terminal,
  other_effect, no_condition, condition_result_nil, condition_successful_return, other_condition,
}
use goplint.Summary.Continuation.{
  CalleeTargetSummary, continue_effect, continue_effects, Flags, flag_effect, flag_effects,
  continuation_state, conditionally_validates_without_hazard, continuation_state_from, is_empty,
  no_flags, validates_without_hazard,
}

-- The flags hold of the state: a raised `validated` means that the state is proven, and no hazard
-- of the flags that the state has none.
abbrev Agrees : Flags → AbstractState → Type 0
Agrees f s = (f.validated ≡ true → s.validation ≡ 0) × (f.hazard ≡ false → s.hazards ≡ 0)

step-Agrees :
    (k : SummaryEffectKind) (c : SummaryCondition) (f g : Flags) (s : AbstractState)
    → c ≢ condition_result_nil
    → Agrees f s
    → flag_effect k c f ≡ some g
    → (t : AbstractState) × (continue_effect k c s ≡ some t) × Agrees g t
unfolding flag_effect continue_effect
step-Agrees effect_pure c f g s ne h e = (s, refl, ground arith)
step-Agrees effect_preserve c f g s ne h e = (s, refl, ground arith)
step-Agrees effect_validate no_condition f g s ne h e = cc
step-Agrees effect_validate condition_result_nil f g s ne h e = absurd (ne refl)
step-Agrees effect_validate condition_successful_return f g s ne h e = (_, refl, ground arith)
step-Agrees effect_validate (other_condition x) f g s ne h e = cc
step-Agrees effect_mutate c f g s ne h e = (_, refl, ground arith)
step-Agrees effect_replace c f g s ne h e = (_, refl, ground arith)
step-Agrees effect_escape c f g s ne h e = (_, refl, ground arith)
step-Agrees effect_consume c f g s ne h e = (_, refl, ground arith)
step-Agrees effect_terminal c f g s ne h e = cc
step-Agrees (other_effect x) c f g s ne h e = cc

loop-Agrees :
    (es : List SummaryEffectFact) (f g : Flags) (s : AbstractState)
    → All (λ e. e.condition ≢ condition_result_nil) es
    → Agrees f s
    → flag_effects es f ≡ some g
    → (t : AbstractState) × (continue_effects es s ≡ some t) × Agrees g t
unfolding flag_effects continue_effects
loop-Agrees [] f g s ne h e = (s, refl, ground arith)
loop-Agrees (x ∷ es) f g s ne h e = elim (Option-cases (flag_effect x.kind x.condition f)) [
  | inl stop ↦ cc (rw (stop, flag_effects) at e)
  | inr (f', go) ↦
      let (t, next, agree) = step-Agrees x.kind x.condition f f' s ne.0 h go in
      rw (next, continue_effects) (loop-Agrees es f' g t ne.1 agree (rw (go, flag_effects) at e))
]

-- Of a summary none of whose effects waits for a nil result: if its flags say that it validates
-- without hazard, then the caller goes on in a state that is proven and meets no hazard.
pub conditionally_validates-continuation_state :
    (summary : CalleeTargetSummary)
    → All (λ e. e.condition ≢ condition_result_nil) summary.effects
    → conditionally_validates_without_hazard summary ≡ true
    → (t : AbstractState) × (continuation_state summary ≡ some t)
      × (validation_proven t ≡ true)
      × (t.hazards ≡ 0)
unfolding conditionally_validates_without_hazard continuation_state continuation_state_from
    validation_proven validates_without_hazard
conditionally_validates-continuation_state summary ne h =
    elim (Bool-cases (not summary.complete || is_empty summary.effects)) [
      | inl stop ↦ cc (rw (stop, conditionally_validates_without_hazard) at h)
      | inr go ↦ elim (Option-cases (flag_effects summary.effects no_flags)) [
        | inl none_left ↦ cc (rw (go, none_left, conditionally_validates_without_hazard) at h)
        | inr (g, flags) ↦
            let (t, run, agree) =
              loop-Agrees summary.effects no_flags g new_required_state ne (ground arith) flags in
            let raised : validates_without_hazard (some g) ≡ true =
              rw (go, flags, conditionally_validates_without_hazard) at h in
            (t, rw (go, continuation_state_from) run, ground arith, ground arith)
      ]
    ]
