-- ===== src/Samples/PolicyRuns.antt =====
-- goplint/semantic_inconclusive_policy.go at two categories.
use goplint.Base.{String, str_eq, texts_eq, Bool, List, [], ◌∷◌, some, none, ◌≡◌, ◌↔◌, refl, All}
use goplint.Policy.{
  CategorySpec, SemanticRule, suppressible, always_visible, baseline_suppressible,
  validate_protocol_inconclusive_policy,
}
use goplint.Policy.Visible.{IsVisible, validate_policy-IsVisible}

abbrev rules : List SemanticRule
rules =
    record {
      category = "use-before-validate";
      outcome_domain = "violation" ∷ [];
      baseline_policy = "suppressible";
    }
    ∷ record {
      category = "use-before-validate-inconclusive";
      outcome_domain = "inconclusive" ∷ [];
      baseline_policy = "always-visible";
    }
    ∷ []

abbrev violation : CategorySpec
violation = record {
  name = "use-before-validate";
  baseline_policy = suppressible;
  semantic_kind = "protocol";
  baseline_label = "Values used before Validate()";
}

abbrev inconclusive : CategorySpec
inconclusive = record {
  name = "use-before-validate-inconclusive";
  baseline_policy = always_visible;
  semantic_kind = "protocol";
  baseline_label = "";
}

abbrev classifier : String → Bool
classifier name = str_eq name "use-before-validate-inconclusive"

accepted :
    validate_protocol_inconclusive_policy rules (violation ∷ inconclusive ∷ []) classifier ≡ none
unfolding validate_protocol_inconclusive_policy texts_eq
accepted = refl

hidden :
    validate_protocol_inconclusive_policy rules
      (violation ∷ record inconclusive { baseline_policy = suppressible } ∷ [])
      classifier
    ≡ some (baseline_suppressible "use-before-validate-inconclusive")
unfolding validate_protocol_inconclusive_policy texts_eq
hidden = refl

validate_policy-IsVisible_example :
    (validate_protocol_inconclusive_policy rules (violation ∷ inconclusive ∷ []) classifier ≡ none)
    ↔ All (IsVisible rules classifier) (violation ∷ inconclusive ∷ [])
validate_policy-IsVisible_example =
    validate_policy-IsVisible rules classifier (violation ∷ inconclusive ∷ [])
