-- ===== src/Refinement/Check/Accepted.antt =====
-- What an UNSAT answer of `checkFeasibilityWithDeadline` in goplint/cfa_refinement.go rests on.
use goplint.Base.{
  ◌⊎◌, ap, ◌∙◌, not, if◌then◌else◌, String, ℕ, suc, Bool, true, false, Option, none, some, ◌==◌,
  ◌≡◌, refl, arith, Bool-cases, inl, inr,
}
use goplint.Feasibility.Control.{
  Control, Timed, pure, ◌>>=◌, deadline_reached, checkpoint-eq_some, >>=-eq_some,
}
use goplint.Feasibility.Formula.{ConstraintFormula}
use goplint.Feasibility.Evidence.{Evidence, check_evidence, evidence_version}
use goplint.Refinement.{WitnessRecord, FeasibilityVerdict, sat, unsat, unknown, other_verdict}
use goplint.Refinement.Check.{
  Backend, FeasibilityDecision, Checked, expired, rejected, accepted, digests, check_formula,
  check_with_digests, checked_of, check_unsat, judge, check_feasibility,
}

-- The formula that is extracted for a witness, with evidence that the checker accepts.
pub record IsRefuted (B : Backend) (c : Control) (witness : WitnessRecord) : Type 0 where
  pub formula : ConstraintFormula
  pub extracted_at : ℕ
  pub extracted : (B.extract_formula witness extracted_at).0 ≡ some formula
  pub evidence : Evidence
  pub checked_at : ℕ
  pub checked :
      (check_evidence B.rationals c formula witness.cfg_path evidence checked_at).0 ≡ some true

FeasibilityVerdict-cases :
    (v : FeasibilityVerdict)
    → (v ≡ unsat) ⊎ (v ≡ sat) ⊎ (v ≡ unknown) ⊎ (s : String) × (v ≡ other_verdict s)
FeasibilityVerdict-cases unsat = inl refl
FeasibilityVerdict-cases sat = inr (inl refl)
FeasibilityVerdict-cases unknown = inr (inr (inl refl))
FeasibilityVerdict-cases (other_verdict s) = inr (inr (inr (s, refl)))

module _ (B : Backend) (c : Control) where
  digests-accepted :
      (evidence : Evidence) (formula : ConstraintFormula) (b : Bool) (n : ℕ) (f e : String)
      → (digests B c evidence formula b n).0 ≡ some (accepted f e)
      → b ≡ true
  unfolding digests
  digests-accepted evidence formula true n f e h = refl
  digests-accepted evidence formula false n f e h = cc

  check_formula-accepted :
      (witness : WitnessRecord) (evidence : Evidence) (formula : ConstraintFormula) (n : ℕ)
      (f e : String)
      → (check_formula B c witness evidence formula n).0 ≡ some (accepted f e)
      → (check_evidence B.rationals c formula witness.cfg_path evidence (suc n)).0 ≡ some true
  unfolding check_formula
  check_formula-accepted witness evidence formula n f e h =
      let (b, is_b, rest) =
        >>=-eq_some (check_evidence B.rationals c formula witness.cfg_path evidence)
          (digests B c evidence formula) (suc n) (accepted f e)
          (checkpoint-eq_some c
            (check_evidence B.rationals c formula witness.cfg_path evidence
              >>= digests B c evidence formula)
            n (accepted f e) h) in
      is_b ∙ ap some (digests-accepted evidence formula b _ f e rest)

  checked_of-accepted :
      (r : Option Checked × ℕ) (f e : String)
      → (checked_of r).0 ≡ accepted f e
      → r.0 ≡ some (accepted f e)
  checked_of-accepted (none, n) f e h = cc
  checked_of-accepted (some a, n) f e h = ap some h

  guarded :
      (b : Bool) (m : Timed Checked) (n : ℕ) (f e : String)
      → ((if b then pure rejected else m) n).0 ≡ some (accepted f e)
      → (m n).0 ≡ some (accepted f e)
  guarded true m n f e h = cc
  guarded false m n f e h = h

  check_with_digests-IsRefuted :
      (witness : WitnessRecord) (evidence : Evidence) (n : ℕ) (f e : String)
      → (check_with_digests B c witness evidence n).0 ≡ accepted f e
      → IsRefuted B c witness
  unfolding check_with_digests
  check_with_digests-IsRefuted witness evidence n f e h =
      let (formula, is_formula, rest) =
        >>=-eq_some (B.extract_formula witness) (check_formula B c witness evidence) (suc n)
          (accepted f e)
          (guarded (not (evidence.format_version == evidence_version))
            (B.extract_formula witness >>= check_formula B c witness evidence) (suc n) f e
            (checkpoint-eq_some c
              (if not (evidence.format_version == evidence_version)
                then pure rejected
                else (B.extract_formula witness >>= check_formula B c witness evidence))
              n (accepted f e) (checked_of-accepted _ f e h))) in
      record {
        formula = formula;
        extracted_at = suc n;
        extracted = is_formula;
        evidence = evidence;
        checked_at = _;
        checked = check_formula-accepted witness evidence formula _ f e rest;
      }

  Checked-cases :
      (a : Checked)
      → (a ≡ expired) ⊎ (a ≡ rejected) ⊎ (f : String) × (e : String) × (a ≡ accepted f e)
  Checked-cases expired = inl refl
  Checked-cases rejected = inr (inl refl)
  Checked-cases (accepted f e) = inr (inr (f, e, refl))

  check_unsat-IsRefuted :
      (witness : WitnessRecord) (decision : FeasibilityDecision) (n : ℕ)
      → (check_unsat B c witness decision n).0.result ≡ unsat
      → IsRefuted B c witness
  unfolding check_unsat
  check_unsat-IsRefuted witness decision n h =
      elim (Checked-cases (check_with_digests B c witness decision.evidence n).0) [
        | inl e ↦ absurd (ground arith)
        | inr (inl e) ↦ absurd (ground arith)
        | inr (inr (f, d, e)) ↦ check_with_digests-IsRefuted witness decision.evidence n f d e
      ]

  judge-IsRefuted :
      (witness : WitnessRecord) (decision : FeasibilityDecision) (n : ℕ)
      → (judge B c witness (decision, n)).0.result ≡ unsat
      → IsRefuted B c witness
  unfolding judge
  judge-IsRefuted witness decision n h = elim (FeasibilityVerdict-cases decision.result) [
    | inl e ↦ check_unsat-IsRefuted witness decision (suc n) (ground arith)
    | inr (inl e) ↦ absurd (ground arith)
    | inr (inr (inl e)) ↦ absurd (ground arith)
    | inr (inr (inr (s, e))) ↦ absurd (ground arith)
  ]

  -- A witness is found infeasible only if the formula that is extracted for it has evidence that the
  -- checker accepts.
  pub check_feasibility-IsRefuted :
      (witness : WitnessRecord) (n : ℕ)
      → (check_feasibility B c witness n).0.result ≡ unsat
      → IsRefuted B c witness
  unfolding check_feasibility
  check_feasibility-IsRefuted witness n h = elim (Bool-cases (deadline_reached c n)) [
    | inl e ↦ absurd (ground arith)
    | inr e ↦
        judge-IsRefuted witness (B.check witness (suc n)).0 (B.check witness (suc n)).1
          (ground arith)
  ]
