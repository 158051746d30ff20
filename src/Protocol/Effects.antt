-- ===== src/Protocol/Effects.antt =====
-- goplint/protocol_relevance.go: what an unresolved step may do, and how sure its target is.
use goplint.Base.{ℕ, ◌==◌, leb, if◌then◌else◌, ◌^◌, not, bit_or}
use goplint.Protocol.Reason.{
  PathOutcomeReason, unresolved_target, call_mapping, ambiguous_identity, concurrent_mutation,
  escaped_heap_mutation, reflection, unsafe, reason_eq,
}

abbrev pub possible_effect_validate : ℕ
possible_effect_validate = 2 ^ 0

abbrev pub possible_effect_mutate : ℕ
possible_effect_mutate = 2 ^ 1

abbrev pub possible_effect_replace : ℕ
possible_effect_replace = 2 ^ 2

abbrev pub possible_effect_escape : ℕ
possible_effect_escape = 2 ^ 3

abbrev pub possible_effect_consume : ℕ
possible_effect_consume = 2 ^ 4

abbrev pub possible_effect_terminate : ℕ
possible_effect_terminate = 2 ^ 5

abbrev pub possible_effect_constraint : ℕ
possible_effect_constraint = 2 ^ 6

abbrev pub unknown_call_effects : ℕ
unknown_call_effects = bit_or possible_effect_validate (
    bit_or possible_effect_mutate (
      bit_or possible_effect_replace (
        bit_or possible_effect_escape (
          bit_or possible_effect_consume
            (bit_or possible_effect_terminate possible_effect_constraint)))))

abbrev pub identity_unrelated : ℕ
identity_unrelated = 0

abbrev pub identity_must_alias : ℕ
identity_must_alias = 1

abbrev pub identity_may_alias : ℕ
identity_may_alias = 2

abbrev pub identity_unknown : ℕ
identity_unknown = 3

unfoldable pub effects_for_uncertainty : PathOutcomeReason → ℕ
effects_for_uncertainty concurrent_mutation = bit_or possible_effect_mutate possible_effect_replace
effects_for_uncertainty escaped_heap_mutation =
    bit_or possible_effect_mutate (bit_or possible_effect_replace possible_effect_escape)
effects_for_uncertainty ambiguous_identity = bit_or possible_effect_mutate (
    bit_or possible_effect_replace
      (bit_or possible_effect_escape (bit_or possible_effect_consume possible_effect_constraint)))
effects_for_uncertainty unresolved_target = unknown_call_effects
effects_for_uncertainty call_mapping = unknown_call_effects
effects_for_uncertainty reflection = unknown_call_effects
effects_for_uncertainty unsafe = unknown_call_effects
effects_for_uncertainty _ = 0

unfoldable pub identity_for_uncertainty : PathOutcomeReason → ℕ
unfolding effects_for_uncertainty
identity_for_uncertainty r =
    if reason_eq r ambiguous_identity
    then identity_may_alias
    else if not (effects_for_uncertainty r == 0)
    then identity_must_alias
    else identity_unrelated

unfoldable pub join_identity_relevance : ℕ → ℕ → ℕ
join_identity_relevance left right = if leb right left then left else right

unfoldable pub identity_at_unresolved_sink : PathOutcomeReason → ℕ → ℕ
unfolding join_identity_relevance
identity_at_unresolved_sink unresolved_target i = join_identity_relevance i identity_unknown
identity_at_unresolved_sink call_mapping i = join_identity_relevance i identity_unknown
identity_at_unresolved_sink reflection i = join_identity_relevance i identity_unknown
identity_at_unresolved_sink unsafe i = join_identity_relevance i identity_unknown
identity_at_unresolved_sink _ i = i
