-- ===== src/Protocol/Decision.antt =====
-- goplint/protocol_domain.go: the status of a path, and the decision over all paths of a slice.
pub mod Aggregate
use goplint.Base.{ℕ, ◌+◌, Bool, true, false, List, [], ◌∷◌, ◌==◌, not, if◌then◌else◌, ◌||◌}
use goplint.Protocol.State.{AbstractState}

pub data PathStatus : Type 0 where
  path_satisfied path_violation path_unresolved path_discharged_infeasible : PathStatus

-- `no_evidence` is the empty string that a decision starts with.
pub data EvidenceKind : Type 0 where
  no_evidence evidence_violation evidence_inconclusive evidence_discharged_infeasible : EvidenceKind

pub record Decision : Type 0 where
  pub kind : EvidenceKind
  pub emit_diagnostic : Bool
  pub discharged_witnesses : ℕ

unfoldable pub path_status : AbstractState → PathStatus
path_status s =
    if not (s.hazards == 0)
    then path_violation
    else if not (s.uncertainty == 0)
    then path_unresolved
    else path_satisfied

-- The variables of the loop.
pub record Tally : Type 0 where
  pub has_violation : Bool
  pub has_unresolved : Bool
  pub discharged : ℕ

unfoldable pub count_status : Tally → PathStatus → Tally
count_status t path_violation = record t { has_violation = true }
count_status t path_unresolved = record t { has_unresolved = true }
count_status t path_discharged_infeasible = record t { discharged = t.discharged + 1 }
count_status t path_satisfied = t

unfoldable pub tally : Tally → List PathStatus → Tally
unfolding count_status
tally t [] = t
tally t (x ∷ xs) = tally (count_status t x) xs

unfoldable pub decide_tally : Tally → Decision
decide_tally t =
    if t.has_violation
    then record {
      kind = evidence_violation;
      emit_diagnostic = true;
      discharged_witnesses = t.discharged;
    }
    else if t.has_unresolved
    then record {
      kind = evidence_inconclusive;
      emit_diagnostic = true;
      discharged_witnesses = t.discharged;
    }
    else record { kind = no_evidence; emit_diagnostic = false; discharged_witnesses = t.discharged }

unfoldable pub aggregate_paths : List PathStatus → Decision
unfolding tally decide_tally
aggregate_paths statuses =
    decide_tally
      (tally (record { has_violation = false; has_unresolved = false; discharged = 0 }) statuses)
