-- ===== src/Summary/Effect.antt =====
-- goplint/protocol_summary_fact.go: the effects of a callee on one of its slots.
use goplint.Base.{ℕ, String, Option, none, some}

-- The strings of the code. `other_effect` is any string that is no declared kind.
pub data SummaryEffectKind : Type 0 where
  effect_pure effect_preserve effect_validate effect_mutate effect_replace effect_escape
        effect_consume effect_terminal :
      SummaryEffectKind
  other_effect : String → SummaryEffectKind

pub data SummaryCondition : Type 0 where
  no_condition condition_result_nil condition_successful_return : SummaryCondition
  other_condition : String → SummaryCondition

pub record SummaryEffectFact : Type 0 where
  pub kind : SummaryEffectKind
  pub target_kind : String
  pub target_slot : Option ℕ
  pub source_kind : String
  pub source_slot : Option ℕ
  pub condition_result_slot : Option ℕ
  pub condition : SummaryCondition

abbrev pub new_summary_effect : String → ℕ → Option ℕ → SummaryEffectFact
new_summary_effect target_kind target_slot condition_result_slot = record {
  kind = effect_validate;
  target_kind = target_kind;
  target_slot = some target_slot;
  source_kind = "";
  source_slot = none;
  condition_result_slot = condition_result_slot;
  condition = condition_result_nil;
}

abbrev pub new_successful_return_effect : String → ℕ → SummaryEffectFact
new_successful_return_effect target_kind target_slot = record {
  kind = effect_validate;
  target_kind = target_kind;
  target_slot = some target_slot;
  source_kind = "";
  source_slot = none;
  condition_result_slot = none;
  condition = condition_successful_return;
}

abbrev pub new_target_effect : SummaryEffectKind → String → ℕ → SummaryEffectFact
new_target_effect kind target_kind target_slot = record {
  kind = kind;
  target_kind = target_kind;
  target_slot = some target_slot;
  source_kind = "";
  source_slot = none;
  condition_result_slot = none;
  condition = no_condition;
}

abbrev pub new_call_effect : SummaryEffectKind → SummaryEffectFact
new_call_effect kind = record {
  kind = kind;
  target_kind = "";
  target_slot = none;
  source_kind = "";
  source_slot = none;
  condition_result_slot = none;
  condition = no_condition;
}
