-- ===== src/Refinement/Check.antt =====
-- The feasibility query of goplint/cfa_refinement.go, and the digests of its evidence in
-- goplint/cfa_feasibility_ssa_constraints.go.
pub mod Accepted
use goplint.Base.{
  ℕ, suc, String, Bool, true, false, not, ◌||◌, Option, none, some, List, [], ◌∷◌, ◌==◌,
  if◌then◌else◌,
}
use goplint.Feasibility.Control.{
  Control, Timed, pure, checkpoint, ◌>>=◌, continue, deadline_reached,
}
use goplint.Feasibility.Constraint.{Rationals}
use goplint.Feasibility.Formula.{ConstraintFormula}
use goplint.Feasibility.Evidence.{Evidence, check_evidence, evidence_version}
use goplint.Refinement.{
  WitnessRecord, FeasibilityVerdict, sat, unsat, unknown, other_verdict, FeasibilityReason,
  deadline_timeout, evidence_rejected,
}

-- A step that asks the control, and always answers.
abbrev pub Asks {ℓ} : Type ℓ → Type ℓ
Asks A = ℕ → A × ℕ

pub record FeasibilityDecision : Type 0 where
  pub result : FeasibilityVerdict
  pub reason : FeasibilityReason
  pub evidence : Evidence
  pub subjects : List String
  pub formula_digest : String
  pub evidence_digest : String

-- The zero value.
abbrev pub zero_evidence : Evidence
zero_evidence = record {
  format_version = 0;
  constant_false = false;
  witness_path = [];
  subjects = [];
  contradictions = [];
}

abbrev pub undecided : FeasibilityReason → FeasibilityDecision
undecided reason = record {
  result = unknown;
  reason = reason;
  evidence = zero_evidence;
  subjects = [];
  formula_digest = "";
  evidence_digest = "";
}

-- What the query takes from elsewhere: the backend that is plugged in, the extraction of a formula
-- from SSA, and the digests.
pub record Backend : Type 1 where
  pub rationals : Rationals
  pub check : WitnessRecord → Asks FeasibilityDecision
  pub extract_formula : WitnessRecord → Timed ConstraintFormula
  pub digest_formula : ConstraintFormula → Timed String
  pub digest_evidence : Evidence → Timed String

-- The answer of the check: `none` once the deadline is over, and rejected or the two digests.
pub data Checked : Type 0 where
  expired rejected : Checked
  accepted : String → String → Checked

abbrev pub checked_of : Option Checked × ℕ → Checked × ℕ
checked_of (none, n) = (expired, n)
checked_of (some c, n) = (c, n)

-- The query has a control: the controller makes one if the request has none.
module _ (B : Backend) (c : Control) where
  -- `feasibilityDeadlineExpired`, and then the rest.
  unfoldable pub digests : Evidence → ConstraintFormula → Bool → Timed Checked
  digests evidence formula false = pure rejected
  digests evidence formula true = B.digest_formula formula >>= λ formula_digest.
      B.digest_evidence evidence >>= λ evidence_digest.
      checkpoint c (pure (accepted formula_digest evidence_digest))

  unfoldable pub check_formula : WitnessRecord → Evidence → ConstraintFormula → Timed Checked
  unfolding digests
  check_formula witness evidence formula =
      checkpoint c (
        check_evidence B.rationals c formula witness.cfg_path evidence >>= digests evidence formula)

  unfoldable pub check_with_digests : WitnessRecord → Evidence → Asks Checked
  unfolding check_formula
  check_with_digests witness evidence n = checked_of (
      checkpoint c
        (if not (evidence.format_version == evidence_version)
          then pure rejected
          else (B.extract_formula witness >>= check_formula witness evidence))
        n)

  abbrev pub admit : FeasibilityDecision → Bool → Checked → FeasibilityDecision
  admit decision over expired = undecided deadline_timeout
  admit decision true answer = undecided deadline_timeout
  admit decision false rejected = record (undecided evidence_rejected) {
    evidence = decision.evidence;
    subjects = decision.subjects;
  }
  admit decision false (accepted formula_digest evidence_digest) = record decision {
    formula_digest = formula_digest;
    evidence_digest = evidence_digest;
  }

  -- The check of an UNSAT answer.
  unfoldable pub check_unsat : WitnessRecord → FeasibilityDecision → Asks FeasibilityDecision
  unfolding check_with_digests
  check_unsat witness decision n =
      let (answer, m) = check_with_digests witness decision.evidence n in
      elim answer [
        | expired ↦ (undecided deadline_timeout, m)
        | rejected ↦ (admit decision (deadline_reached c m) rejected, suc m)
        | accepted f e ↦ (admit decision (deadline_reached c m) (accepted f e), suc m)
      ]

  -- The decision of the backend, past the deadline that follows it.
  unfoldable pub judge : WitnessRecord → FeasibilityDecision × ℕ → FeasibilityDecision × ℕ
  unfolding check_unsat
  judge witness (decision, m) = elim (deadline_reached c m) [
    | true ↦ (undecided deadline_timeout, suc m)
    | false ↦ elim decision.result [
      | unsat ↦ check_unsat witness decision (suc m)
      | _ ↦ (decision, suc m)
    ]
  ]

  unfoldable pub check_feasibility : WitnessRecord → Asks FeasibilityDecision
  unfolding judge
  check_feasibility witness n = elim (deadline_reached c n) [
    | true ↦ (undecided deadline_timeout, suc n)
    | false ↦ judge witness (B.check witness (suc n))
  ]
