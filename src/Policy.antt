-- ===== src/Policy.antt =====
-- Which findings a policy may hide: goplint/semantic_inconclusive_policy.go, with the categories of
-- goplint/categories.go and the rules of goplint/semantic_coverage_census.go.
pub mod Visible
use goplint.Base.{
  String, str_eq, texts_eq, Bool, true, false, not, ◌&&◌, List, [], ◌∷◌, Option, none, some,
  if◌then◌else◌,
}

pub data BaselinePolicy : Type 0 where
  suppressible always_visible audit_only : BaselinePolicy

-- The fields of a category that the policy reads.
pub record CategorySpec : Type 0 where
  pub name : String
  pub baseline_policy : BaselinePolicy
  pub semantic_kind : String
  pub baseline_label : String

pub record SemanticRule : Type 0 where
  pub category : String
  pub outcome_domain : List String
  pub baseline_policy : String

pub data PolicyError : Type 0 where
  no_rule misclassified baseline_suppressible baseline_labelled rule_suppressible :
      String → PolicyError

-- `rulesByCategory`: the last rule of a category stands.
unfoldable pub rule_of : String → List SemanticRule → Option SemanticRule
rule_of name [] = none
rule_of name (r ∷ rs) = elim (rule_of name rs) [
  | some later ↦ some later
  | none ↦ if str_eq r.category name then some r else none
]

abbrev pub is_always_visible : BaselinePolicy → Bool
is_always_visible always_visible = true
is_always_visible _ = false

abbrev pub same_bool : Bool → Bool → Bool
same_bool true b = b
same_bool false b = not b

-- `exactProtocolInconclusive`
unfoldable pub exact_inconclusive : CategorySpec → SemanticRule → Bool
exact_inconclusive category rule =
    str_eq category.semantic_kind "protocol" && texts_eq rule.outcome_domain ("inconclusive" ∷ [])

-- One category with its rule; `none` is the nil error.
unfoldable pub check_category : (String → Bool) → CategorySpec → SemanticRule → Option PolicyError
unfolding exact_inconclusive
check_category classifier category rule =
    if not (same_bool (classifier category.name) (exact_inconclusive category rule))
    then some (misclassified category.name)
    else if not (exact_inconclusive category rule)
    then none
    else if not (is_always_visible category.baseline_policy)
    then some (baseline_suppressible category.name)
    else if not (str_eq category.baseline_label "")
    then some (baseline_labelled category.name)
    else if not (str_eq rule.baseline_policy "always-visible")
    then some (rule_suppressible category.name)
    else none

unfoldable pub validate_protocol_inconclusive_policy :
    List SemanticRule → List CategorySpec → (String → Bool) → Option PolicyError
unfolding rule_of check_category
validate_protocol_inconclusive_policy rules [] classifier = none
validate_protocol_inconclusive_policy rules (category ∷ categories) classifier =
    let rest = validate_protocol_inconclusive_policy rules categories classifier in
    elim (rule_of category.name rules) [
      | none ↦ some (no_rule category.name)
      | some rule ↦ elim (check_category classifier category rule) [ some e ↦ some e | none ↦ rest ]
    ]
