-- ===== src/Oracle/Effects.antt =====
-- The transfer function and the outcomes of internal/protocoloracle/reference.go.
use goplint.Base.{
  ℕ, String, Bool, true, false, not, ◌||◌, ◌==◌, leb, bit_or, bit_and, none, some, List, [], ◌∷◌,
  get_elem?, set, if◌then◌else◌,
}
use goplint.Oracle.{
  Node, validate, consume, mutate, replace, escape, unresolved, result_nil, result_unknown,
  alias_copy, alias_kill, unknown_unresolved, unknown_concurrent, unknown_escaped, Outcome,
  outcome_none, violation, inconclusive, ReferenceState,
}

abbrev pub max_reference_identities : ℕ
max_reference_identities = 8

-- The element of an array. The code has no index outside.
abbrev pub element {ℓ} : {A : Type ℓ} → A → List A → ℕ → A
element d xs i = elim (get_elem? xs i) [ none ↦ d | some x ↦ x ]

abbrev pub alias_of : ReferenceState → ℕ → ℕ
alias_of s identity = element 0 s.aliases identity

abbrev pub is_validated : ReferenceState → ℕ → Bool
is_validated s identity = element false s.validated (alias_of s identity)

abbrev add_uncertainty : ℕ → ReferenceState → ReferenceState
add_uncertainty bit s = record s { uncertainty = bit_or s.uncertainty bit }

abbrev set_validated : Bool → ℕ → ReferenceState → ReferenceState
set_validated value i s = record s { validated = set s.validated i value }

unfoldable pub apply_alias : ReferenceState → Node → ReferenceState
apply_alias s node = elim node.alias_action [
  | alias_copy ↦ record s { aliases = set s.aliases node.identity (alias_of s node.alias_source) }
  | alias_kill ↦ record s {
    aliases = set s.aliases node.identity node.identity;
    validated = set s.validated node.identity false;
  }
  | _ ↦ s
]

unfoldable pub apply_validate : ReferenceState → Node → ReferenceState
apply_validate s node = elim node.condition [
  | result_nil ↦ set_validated true (alias_of s node.identity) s
  | result_unknown ↦ if is_validated s node.identity then s else add_uncertainty 1 s
  | _ ↦ s
]

unfoldable pub apply_operation : ReferenceState → Node → ReferenceState
unfolding apply_validate
apply_operation s node = elim node.operation [
  | consume ↦ if is_validated s node.identity then s else record s { violated = true }
  | escape ↦ add_uncertainty 8 s
  | validate ↦ apply_validate s node
  | mutate ↦ set_validated false (alias_of s node.identity) s
  | replace ↦ set_validated false (alias_of s node.identity) s
  | unresolved ↦ add_uncertainty 2 s
  | _ ↦ s
]

unfoldable pub apply_unknown_effect : ReferenceState → Node → ReferenceState
apply_unknown_effect s node = elim node.unknown_effect [
  | unknown_unresolved ↦ add_uncertainty 2 s
  | unknown_concurrent ↦ add_uncertainty 4 s
  | unknown_escaped ↦ add_uncertainty 8 s
  | _ ↦ s
]

unfoldable pub apply_reference_node : ReferenceState → Node → ℕ → ReferenceState
unfolding apply_alias apply_operation apply_unknown_effect
apply_reference_node s node tracked =
    if leb max_reference_identities node.identity || leb max_reference_identities node.alias_source
    then add_uncertainty 32 s
    else let aliased = apply_alias s node in
      if alias_of aliased node.identity == alias_of aliased tracked
      then apply_unknown_effect (apply_operation aliased node) node
      else aliased

unfoldable pub reference_terminal_outcome : ReferenceState → ℕ → Outcome
reference_terminal_outcome s tracked =
    if s.violated || not (is_validated s tracked)
    then violation
    else if not (s.uncertainty == 0)
    then inconclusive
    else outcome_none

abbrev name_if : ℕ → ℕ → String → List String → List String
name_if bits bit name rest = if not (bit_and bits bit == 0) then name ∷ rest else rest

unfoldable pub reference_uncertainty_names : ℕ → List String
reference_uncertainty_names bits = name_if bits 1 "conditional-result" (
    name_if bits 2 "unresolved" (
      name_if bits 4 "concurrent-mutation" (
        name_if bits 8 "escaped-heap-mutation"
          (name_if bits 16 "state-budget" (name_if bits 32 "identity-bound" [])))))

unfoldable pub join_outcome : Outcome → Outcome → Outcome
join_outcome violation right = violation
join_outcome outcome_none violation = violation
join_outcome outcome_none inconclusive = inconclusive
join_outcome outcome_none outcome_none = outcome_none
join_outcome inconclusive violation = violation
join_outcome inconclusive inconclusive = inconclusive
join_outcome inconclusive outcome_none = inconclusive
