-- ===== src/Policy/Visible.antt =====
-- What `validateProtocolInconclusivePolicy` of goplint/semantic_inconclusive_policy.go accepts.
use goplint.Base.{
  String, str_eq, eq_iff, Bool, true, false, List, [], ◌∷◌, none, some, All, ◌≡◌, ◌⊎◌, refl, ap,
  ◌∙◌, arith, Bool-cases, Option-cases, inl, inr, ◌↔◌,
}
use goplint.Policy.{
  BaselinePolicy, CategorySpec, SemanticRule, always_visible, rule_of, is_always_visible, same_bool,
  exact_inconclusive, check_category, validate_protocol_inconclusive_policy,
}

-- A category that no baseline hides if it stands for an inconclusive outcome, and that the
-- classifier tells apart.
pub record IsVisible (rules : List SemanticRule) (classifier : String → Bool)
    (category : CategorySpec) : Type 0 where
  pub rule : SemanticRule
  pub registered : rule_of category.name rules ≡ some rule
  pub classified : classifier category.name ≡ exact_inconclusive category rule
  pub baseline :
      classifier category.name ≡ true
      → (category.baseline_policy ≡ always_visible)
        × (category.baseline_label ≡ "")
        × (rule.baseline_policy ≡ "always-visible")

only_visible : (p : BaselinePolicy) → is_always_visible p ≡ true → p ≡ always_visible
only_visible always_visible h = refl
only_visible BaselinePolicy.suppressible h = cc
only_visible BaselinePolicy.audit_only h = cc

same_bool-≡ : (a b : Bool) → same_bool a b ≡ true → a ≡ b
same_bool-≡ true true h = refl
same_bool-≡ true false h = cc
same_bool-≡ false true h = cc
same_bool-≡ false false h = refl

≡-same_bool : (a b : Bool) → a ≡ b → same_bool a b ≡ true
≡-same_bool true true h = refl
≡-same_bool true false h = cc
≡-same_bool false true h = cc
≡-same_bool false false h = refl

module _ (rules : List SemanticRule) (classifier : String → Bool) where
  checked_parts :
      (category : CategorySpec) (rule : SemanticRule)
      → check_category classifier category rule ≡ none
      → (same_bool (classifier category.name) (exact_inconclusive category rule) ≡ true)
        × ((exact_inconclusive category rule ≡ false)
            ⊎ ((is_always_visible category.baseline_policy ≡ true)
                × (str_eq category.baseline_label "" ≡ true)
                × (str_eq rule.baseline_policy "always-visible" ≡ true)))
  unfolding check_category
  checked_parts category rule h = ground arith

  checked_whole :
      (category : CategorySpec) (rule : SemanticRule)
      → same_bool (classifier category.name) (exact_inconclusive category rule) ≡ true
      → (exact_inconclusive category rule ≡ false)
        ⊎ ((is_always_visible category.baseline_policy ≡ true)
            × (str_eq category.baseline_label "" ≡ true)
            × (str_eq rule.baseline_policy "always-visible" ≡ true))
      → check_category classifier category rule ≡ none
  unfolding check_category
  checked_whole category rule h k = ground arith

  checked-IsVisible :
      (category : CategorySpec) (rule : SemanticRule)
      → rule_of category.name rules ≡ some rule
      → check_category classifier category rule ≡ none
      → IsVisible rules classifier category
  checked-IsVisible category rule e h =
      let (same, rest) = checked_parts category rule h in
      let agrees = same_bool-≡ _ _ same in
      record {
        rule = rule;
        registered = e;
        classified = agrees;
        baseline = λ inconclusive. elim rest [
          | inl other ↦ absurd (cc (inconclusive, agrees, other))
          | inr (visible, label, policy) ↦ (
            only_visible category.baseline_policy visible,
            ground (arith, label, eq_iff category.baseline_label ""),
            ground (arith, policy, eq_iff rule.baseline_policy "always-visible"),
          )
        ];
      }

  IsVisible-checked :
      (category : CategorySpec) (v : IsVisible rules classifier category)
      → check_category classifier category v.rule ≡ none
  IsVisible-checked category v =
      checked_whole category v.rule (≡-same_bool _ _ v.classified)
        (elim (Bool-cases (exact_inconclusive category v.rule)) [
          | inr e ↦ inl e
          | inl e ↦
              let (visible, label, policy) = v.baseline (v.classified ∙ e) in
              inr (
                ap is_always_visible visible,
                ground (arith, label, eq_iff category.baseline_label ""),
                ground (arith, policy, eq_iff v.rule.baseline_policy "always-visible"),
              )
        ])

  first_accepted :
      (category : CategorySpec) (categories : List CategorySpec)
      → validate_protocol_inconclusive_policy rules (category ∷ categories) classifier ≡ none
      → ((rule : SemanticRule) × (rule_of category.name rules ≡ some rule)
          × (check_category classifier category rule ≡ none))
        × (validate_protocol_inconclusive_policy rules categories classifier ≡ none)
  unfolding validate_protocol_inconclusive_policy
  first_accepted category categories h = elim (Option-cases (rule_of category.name rules)) [
    | inl e ↦ absurd (ground arith)
    | inr (rule, e) ↦ elim (Option-cases (check_category classifier category rule)) [
      | inl d ↦ ((rule, e, d), ground arith)
      | inr (x, d) ↦ absurd (ground arith)
    ]
  ]

  all_accepted :
      (category : CategorySpec) (categories : List CategorySpec) (rule : SemanticRule)
      → rule_of category.name rules ≡ some rule
      → check_category classifier category rule ≡ none
      → validate_protocol_inconclusive_policy rules categories classifier ≡ none
      → validate_protocol_inconclusive_policy rules (category ∷ categories) classifier ≡ none
  unfolding validate_protocol_inconclusive_policy
  all_accepted category categories rule e d h = ground arith

  accepted-AreVisible :
      (categories : List CategorySpec)
      → validate_protocol_inconclusive_policy rules categories classifier ≡ none
      → All (IsVisible rules classifier) categories
  accepted-AreVisible [] h = tt
  accepted-AreVisible (category ∷ categories) h =
      let ((rule, e, d), rest) = first_accepted category categories h in
      (checked-IsVisible category rule e d, accepted-AreVisible categories rest)

  AreVisible-accepted :
      (categories : List CategorySpec)
      → All (IsVisible rules classifier) categories
      → validate_protocol_inconclusive_policy rules categories classifier ≡ none
  unfolding validate_protocol_inconclusive_policy
  AreVisible-accepted [] h = refl
  AreVisible-accepted (category ∷ categories) (v, vs) =
      all_accepted category categories v.rule v.registered (IsVisible-checked category v)
        (AreVisible-accepted categories vs)

  -- The policy is accepted if and only if every category has a rule, is classified as inconclusive
  -- exactly when it is one, and then is always visible, with no baseline label and a rule that says
  -- so.
  pub validate_policy-IsVisible :
      (categories : List CategorySpec)
      → (validate_protocol_inconclusive_policy rules categories classifier ≡ none)
        ↔ All (IsVisible rules classifier) categories
  validate_policy-IsVisible categories =
      (accepted-AreVisible categories, AreVisible-accepted categories)
