-- ===== src/Feasibility/Evidence/Aliases.antt =====
-- Two spellings of one constant, which the search of
-- goplint/cfa_feasibility_ssa_constraints.go takes for two constants.
use goplint.Base.{
  ℕ, List, String, eq_iff, true, false, sym, none, some, [], ◌∷◌, ◌≡◌, ◌≢◌, arith, refl,
}
use goplint.Feasibility.Constraint.{PredicateConstraint, Rationals, op_eq, constraints_contradict}
use goplint.Feasibility.Semantics.{ValueOrder, holds, compares}
use goplint.Feasibility.Formula.{
  ConstraintFormula, constraint_subjects, subjects_of_all, subjects_of, insert_subject,
}
use goplint.Feasibility.Formula.Meaning.{satisfies, satisfies_any, satisfies_all}
use goplint.Feasibility.Evidence.{
  Evidence, new_evidence, build_evidence, build_loop, find_contradiction, find_partner,
  check_evidence,
}
use goplint.Feasibility.Evidence.Accepts.{with_path, check_evidence-build_evidence}

abbrev pub equal_to : String → String → PredicateConstraint
equal_to subject value = record { subject = subject; op = op_eq; value = value }

-- The subject equals both constants.
abbrev pub both_equal : String → String → String → ConstraintFormula
both_equal subject a b = record {
  alternatives = (equal_to subject a ∷ equal_to subject b ∷ []) ∷ [];
  unsupported = false;
}

module _ (R : Rationals) (V : ValueOrder R) (values : String → V.Value) where
  equal_to-contradict :
      (subject a b : String)
      → subject ≢ ""
      → a ≢ ""
      → b ≢ ""
      → a ≢ b
      → constraints_contradict R (equal_to subject a) (equal_to subject b) ≡ true
  unfolding constraints_contradict
  equal_to-contradict subject a b s p q d =
      ground
        (arith, eq_iff subject "", eq_iff a "", eq_iff b "", eq_iff a b, eq_iff subject subject)

  both_equal-subjects :
      (subject a b : String)
      → subject ≢ ""
      → (constraint_subjects none (both_equal subject a b) 0).0 ≡ some (subject ∷ [])
  unfolding constraint_subjects subjects_of_all subjects_of insert_subject
  both_equal-subjects subject a b s = ground (arith, eq_iff subject "", eq_iff subject subject)

  abbrev both_evidence : String → String → String → Evidence
  both_evidence subject a b = record new_evidence {
    contradictions =
        record { alternative = 0; left = equal_to subject a; right = equal_to subject b } ∷ [];
  }

  both_equal-built :
      (subject a b : String)
      → subject ≢ ""
      → a ≢ ""
      → b ≢ ""
      → a ≢ b
      → (build_evidence R none (both_equal subject a b) 0).0
        ≡ some (some (both_evidence subject a b))
  unfolding build_evidence build_loop find_contradiction find_partner
  both_equal-built subject a b s p q d = ground (arith, equal_to-contradict subject a b s p q d)

  -- The condition that a named subject equals two constants, whose texts are different and not empty
  -- but denote one value, holds when the subject has that value. Yet the search without a deadline
  -- returns evidence against it, and the checker accepts that evidence, with any witness path.
  pub build_evidence_aliased :
      (subject a b : String) (path : List ℕ)
      → subject ≢ ""
      → a ≢ ""
      → b ≢ ""
      → a ≢ b
      → V.denote a ≡ V.denote b
      → values subject ≡ V.denote a
      → (satisfies R V values (both_equal subject a b) ≡ true)
        × (evidence : Evidence) × ((build_evidence R none (both_equal subject a b) 0).0
            ≡ some (some evidence))
        × ((check_evidence R none
              (both_equal subject a b)
              path
              (with_path evidence path (subject ∷ []))
              0).0
            ≡ some true)
  unfolding satisfies satisfies_any satisfies_all holds compares
  build_evidence_aliased subject a b path s p q d e h =
      let built = both_equal-built subject a b s p q d in
      (
        rw (h, sym e, V.same_refl (V.denote a)) refl,
        both_evidence subject a b,
        built,
        check_evidence-build_evidence R (both_equal subject a b) path (subject ∷ [])
            (both_evidence subject a b) 0 0 0 built (both_equal-subjects subject a b s),
      )
