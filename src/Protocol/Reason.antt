-- ===== src/Protocol/Reason.antt =====
-- goplint/cfa_outcome.go: the reasons for which the outcome of a path is inconclusive, and the
-- table of goplint/protocol_domain.go that gives each a bit of an uncertainty set.
use goplint.Base.{
  ℕ, String, str_eq, Bool, ◌&&◌, List, [], ◌∷◌, ◌==◌, if◌then◌else◌, ◌^◌, not, bit_and,
}

pub data PathOutcomeReason : Type 0 where
  no_reason state_budget witness_budget timeout recursion_cycle unresolved_target call_mapping
        feasibility_unknown missing_ssa unsupported_instr ambiguous_identity concurrent_mutation
        escaped_heap_mutation reflection unsafe :
      PathOutcomeReason
  -- A text that the code does not declare.
  other_reason : String → PathOutcomeReason

-- The reasons are distinct strings in the code; here equality goes through a number for each, and
-- the text of one that is not declared.
abbrev pub reason_number : PathOutcomeReason → ℕ
reason_number no_reason = 0
reason_number state_budget = 1
reason_number witness_budget = 2
reason_number timeout = 3
reason_number recursion_cycle = 4
reason_number unresolved_target = 5
reason_number call_mapping = 6
reason_number feasibility_unknown = 7
reason_number missing_ssa = 8
reason_number unsupported_instr = 9
reason_number ambiguous_identity = 10
reason_number concurrent_mutation = 11
reason_number escaped_heap_mutation = 12
reason_number reflection = 13
reason_number unsafe = 14
reason_number (other_reason s) = 15

abbrev pub reason_text : PathOutcomeReason → String
reason_text (other_reason s) = s
reason_text _ = ""

unfoldable pub reason_name : PathOutcomeReason → String
reason_name no_reason = ""
reason_name state_budget = "state-budget"
reason_name witness_budget = "witness-budget"
reason_name timeout = "timeout"
reason_name recursion_cycle = "recursion-cycle"
reason_name unresolved_target = "unresolved-target"
reason_name call_mapping = "call-mapping"
reason_name feasibility_unknown = "feasibility-unknown"
reason_name missing_ssa = "missing-ssa"
reason_name unsupported_instr = "unsupported-instruction"
reason_name ambiguous_identity = "ambiguous-identity"
reason_name concurrent_mutation = "concurrent-mutation"
reason_name escaped_heap_mutation = "escaped-heap-mutation"
reason_name reflection = "reflection"
reason_name unsafe = "unsafe"
reason_name (other_reason s) = s

abbrev pub reason_eq : PathOutcomeReason → PathOutcomeReason → Bool
reason_eq a b = (reason_number a == reason_number b) && str_eq (reason_text a) (reason_text b)

abbrev pub uncertainty_unresolved_call : ℕ
uncertainty_unresolved_call = 2 ^ 1

abbrev pub uncertainty_ambiguous_identity : ℕ
uncertainty_ambiguous_identity = 2 ^ 2

abbrev pub uncertainty_missing_ssa : ℕ
uncertainty_missing_ssa = 2 ^ 5

abbrev pub uncertainty_state_budget : ℕ
uncertainty_state_budget = 2 ^ 6

abbrev pub uncertainty_witness_budget : ℕ
uncertainty_witness_budget = 2 ^ 7

abbrev pub uncertainty_timeout : ℕ
uncertainty_timeout = 2 ^ 10

abbrev pub uncertainty_unsupported_instruction : ℕ
uncertainty_unsupported_instruction = 2 ^ 12

abbrev pub uncertainty_reflection : ℕ
uncertainty_reflection = 2 ^ 13

abbrev pub uncertainty_unsafe : ℕ
uncertainty_unsafe = 2 ^ 14

abbrev pub uncertainty_concurrent_mutation : ℕ
uncertainty_concurrent_mutation = 2 ^ 15

abbrev pub uncertainty_escaped_heap_mutation : ℕ
uncertainty_escaped_heap_mutation = 2 ^ 16

abbrev pub uncertainty_recursion_cycle : ℕ
uncertainty_recursion_cycle = 2 ^ 17

abbrev pub uncertainty_feasibility_unknown : ℕ
uncertainty_feasibility_unknown = 2 ^ 18

abbrev pub uncertainty_call_mapping : ℕ
uncertainty_call_mapping = 2 ^ 19

pub record ReasonEntry : Type 0 where
  pub bit : ℕ
  pub reason : PathOutcomeReason

abbrev entry : ℕ → PathOutcomeReason → ReasonEntry
entry b r = record { bit = b; reason = r }

-- Highest priority first.
abbrev pub path_reason_order : List ReasonEntry
path_reason_order =
    entry uncertainty_timeout timeout
    ∷ entry uncertainty_state_budget state_budget
    ∷ entry uncertainty_witness_budget witness_budget
    ∷ entry uncertainty_recursion_cycle recursion_cycle
    ∷ entry uncertainty_feasibility_unknown feasibility_unknown
    ∷ entry uncertainty_missing_ssa missing_ssa
    ∷ entry uncertainty_unsupported_instruction unsupported_instr
    ∷ entry uncertainty_concurrent_mutation concurrent_mutation
    ∷ entry uncertainty_escaped_heap_mutation escaped_heap_mutation
    ∷ entry uncertainty_ambiguous_identity ambiguous_identity
    ∷ entry uncertainty_reflection reflection
    ∷ entry uncertainty_unsafe unsafe
    ∷ entry uncertainty_unresolved_call unresolved_target
    ∷ entry uncertainty_call_mapping call_mapping
    ∷ []

-- A reason that the table does not have counts as an unknown feasibility.
unfoldable pub bit_of_reason : PathOutcomeReason → List ReasonEntry → ℕ
bit_of_reason r [] = uncertainty_feasibility_unknown
bit_of_reason r (e ∷ es) = if reason_eq e.reason r then e.bit else bit_of_reason r es

unfoldable pub uncertainty_for_path_reason : PathOutcomeReason → ℕ
unfolding bit_of_reason
uncertainty_for_path_reason r = bit_of_reason r path_reason_order

unfoldable pub first_reason : ℕ → List ReasonEntry → PathOutcomeReason
first_reason u [] = no_reason
first_reason u (e ∷ es) = if not (bit_and u e.bit == 0) then e.reason else first_reason u es
