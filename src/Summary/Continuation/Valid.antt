-- ===== src/Summary/Continuation/Valid.antt =====
-- The state behind a call has declared values only.
use goplint.Base.{
  ℕ, Bool, true, false, ◌≡◌, refl, subst, some, List, [], ◌∷◌, arith, inl, inr, Option-cases,
  Bool-cases, not, ◌||◌, bit_and, bit_or,
}
use goplint.Protocol.State.{AbstractState, valid, complement, all_hazards, all_uncertainty}
use goplint.Protocol.Effects.{unknown_call_effects}
use goplint.Protocol.Validity.{IsValid, IsValid→valid, avoids_or}
use goplint.Summary.Effect.{
  SummaryEffectKind, SummaryCondition, SummaryEffectFact, effect_pure, effect_preserve,
  effect_validate, effect_mutate, effect_replace, effect_escape, effect_consume, effect_terminal,
  other_effect, no_condition, condition_result_nil, condition_successful_return, other_condition,
}
use goplint.Summary.Continuation.{
  CalleeTargetSummary, continue_effect, continue_effects, continuation_state_from, start_state,
  is_empty,
}

module _ (s : AbstractState) (h : IsValid s) where
  hazards_with :
      (b : ℕ)
      → bit_and b (complement 8 all_hazards) ≡ 0
      → bit_and (bit_or s.hazards b) (complement 8 all_hazards) ≡ 0
  hazards_with b p = avoids_or s.hazards b (complement 8 all_hazards) h.1 p

  effects_with :
      (b : ℕ)
      → bit_and b (complement 16 unknown_call_effects) ≡ 0
      → bit_and (bit_or s.possible_effects b) (complement 16 unknown_call_effects) ≡ 0
  effects_with b p = avoids_or s.possible_effects b (complement 16 unknown_call_effects) h.6 p

  uncertainty_with : bit_and (bit_or s.uncertainty 0) (complement 32 all_uncertainty) ≡ 0
  uncertainty_with = avoids_or s.uncertainty 0 (complement 32 all_uncertainty) h.5 refl

step-IsValid :
    (k : SummaryEffectKind) (c : SummaryCondition) (s t : AbstractState)
    → IsValid s
    → continue_effect k c s ≡ some t
    → IsValid t
unfolding continue_effect
step-IsValid effect_pure c s t h e = ground arith
step-IsValid effect_preserve c s t h e = ground arith
step-IsValid effect_validate no_condition s t h e = cc
step-IsValid effect_validate condition_result_nil s t h e = ground (arith, uncertainty_with s h)
step-IsValid effect_validate condition_successful_return s t h e = ground arith
step-IsValid effect_validate (other_condition x) s t h e = cc
step-IsValid effect_mutate c s t h e = ground (arith, effects_with s h 2 refl)
step-IsValid effect_replace c s t h e = ground (arith, effects_with s h 4 refl)
step-IsValid effect_escape c s t h e =
    ground (arith, effects_with s h 8 refl, hazards_with s h 1 refl)
step-IsValid effect_consume c s t h e =
    ground (arith, effects_with s h 16 refl, hazards_with s h 2 refl)
step-IsValid effect_terminal c s t h e = ground (arith, effects_with s h 32 refl)
step-IsValid (other_effect x) c s t h e = cc

loop-IsValid :
    (es : List SummaryEffectFact) (s t : AbstractState)
    → IsValid s
    → continue_effects es s ≡ some t
    → IsValid t
unfolding continue_effects
loop-IsValid [] s t h e = subst IsValid (cc) h
loop-IsValid (x ∷ es) s t h e = elim (Option-cases (continue_effect x.kind x.condition s)) [
  | inl stop ↦ cc (rw (stop, continue_effects) at e)
  | inr (u, go) ↦
      loop-IsValid es u t (step-IsValid x.kind x.condition s u h go)
        (rw (go, continue_effects) at e)
]

start-IsValid : (validated : Bool) → IsValid (start_state validated)
start-IsValid true = omega arith
start-IsValid false = omega arith

-- Whatever a summary says, the state in which the caller goes on is valid.
pub valid-continuation_state_from :
    (summary : CalleeTargetSummary) (validated : Bool) (t : AbstractState)
    → continuation_state_from summary validated ≡ some t
    → valid t ≡ true
unfolding continuation_state_from
valid-continuation_state_from summary validated t e =
    elim (Bool-cases (not summary.complete || is_empty summary.effects)) [
      | inl stop ↦ cc (rw (stop, continuation_state_from) at e)
      | inr go ↦ IsValid→valid t (
          loop-IsValid summary.effects (start_state validated) t (start-IsValid validated)
            (rw (go, continuation_state_from) at e))
    ]
