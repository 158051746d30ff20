-- ===== src/Feasibility/Evidence/Sound.antt =====
-- Neither the search nor the check calls a satisfiable formula infeasible.
use goplint.Base.{
  ℕ, suc, String, eq_iff, true, false, ◌&&◌, Option, some, List, [], ◌∷◌, length, ◌≡◌, refl, arith,
  Option-cases, inl, inr, ap, ◌∙◌,
}
use goplint.Feasibility.Control.{Control, Timed, ◌>>=◌, checkpoint-eq_some, >>=-eq_some}
use goplint.Feasibility.Constraint.{PredicateConstraint, ComparisonOp, Rationals}
use goplint.Feasibility.Semantics.{ValueOrder, holds}
use goplint.Feasibility.Semantics.Sound.{constraints_contradict_sound}
use goplint.Feasibility.Formula.{ConstraintFormula, constraint_subjects}
use goplint.Feasibility.Formula.Meaning.{
  satisfies_all, satisfies_any, satisfies, canonical_all, canonical_any, canonical_formula,
}
use goplint.Feasibility.Evidence.{
  Evidence, Contradiction, find_partner, find_contradiction, or_else, build_next, build_last,
  build_loop, build_evidence, check_loop, check_evidence, check_with_subjects, constraint_present,
  constraint_eq, same_op, other_text,
}

same_op-eq : (a b : ComparisonOp) → same_op a b ≡ true → a ≡ b
unfolding same_op
same_op-eq a b h = ground (arith, eq_iff (other_text a) (other_text b))

module _ (R : Rationals) (V : ValueOrder R) (values : String → V.Value) where
  find_partner_sound :
      (c : Control) (left : PredicateConstraint) (rest : List PredicateConstraint)
      (pair : PredicateConstraint × PredicateConstraint) (n : ℕ)
      → V.canonical left.value ≡ true
      → canonical_all V rest ≡ true
      → (find_partner R c left rest n).0 ≡ some (some pair)
      → (holds R V values left && satisfies_all R V values rest) ≡ false
  unfolding find_partner satisfies_all canonical_all
  find_partner_sound c left [] pair n cl cr h = cc
  find_partner_sound c left (right ∷ rest) pair n cl cr h = ground (
    arith,
    constraints_contradict_sound R V values left right,
    find_partner_sound c left rest pair (suc n),
  )

  find_contradiction_sound :
      (c : Control) (xs : List PredicateConstraint)
      (pair : PredicateConstraint × PredicateConstraint) (n : ℕ)
      → canonical_all V xs ≡ true
      → (find_contradiction R c xs n).0 ≡ some (some pair)
      → satisfies_all R V values xs ≡ false
  unfolding find_contradiction satisfies_all canonical_all
  find_contradiction_sound c [] pair n cs h = cc
  find_contradiction_sound c (left ∷ rest) pair n cs h =
      let m = find_partner R c left rest in
      let f : Option (PredicateConstraint × PredicateConstraint)
          → Timed (Option (PredicateConstraint × PredicateConstraint)) =
        λ found. or_else R found (find_contradiction R c rest) in
      let (found, first, second) =
        >>=-eq_some m f (suc n) (some pair) (checkpoint-eq_some c (m >>= f) n (some pair) h) in
      elim (Option-cases found) [
        | inl missing ↦ ground (
          arith,
          λ (k : canonical_all V rest ≡ true).
              find_contradiction_sound c rest pair (m (suc n)).1 k (rw missing at second),
        )
        | inr (p, here) ↦ ground (
          arith,
          λ (k : V.canonical left.value ≡ true) (l : canonical_all V rest ≡ true).
              find_partner_sound c left rest p (suc n) k l (first ∙ ap some here),
        )
      ]

  build_loop_sound :
      (c : Control) (index : ℕ) (alternatives : List (List PredicateConstraint))
      (acc out : List Contradiction) (n : ℕ)
      → canonical_any V alternatives ≡ true
      → (build_loop R c index alternatives acc n).0 ≡ some (some out)
      → satisfies_any R V values alternatives ≡ false
  unfolding build_loop satisfies_any canonical_any
  build_loop_sound c index [] acc out n cs h = refl
  build_loop_sound c index (alternative ∷ rest) acc out n cs h =
      let m = find_contradiction R c alternative in
      let (found, first, second) =
        >>=-eq_some m (build_next R c index rest acc) (suc n) (some out)
          (checkpoint-eq_some c (m >>= build_next R c index rest acc) n (some out) h) in
      elim (Option-cases found) [
        | inl missing ↦ cc
        | inr (pair, here) ↦ ground (
          arith,
          λ (k : canonical_all V alternative ≡ true).
              find_contradiction_sound c alternative pair (suc n) k (first ∙ ap some here),
          λ (k : canonical_any V rest ≡ true).
              build_loop_sound c (suc index) rest _ out (m (suc n)).1 k (rw here at second),
        )
      ]

  no_alternatives :
      (xs : List (List PredicateConstraint)) → length xs ≡ 0 → satisfies_any R V values xs ≡ false
  unfolding satisfies_any
  no_alternatives [] h = refl
  no_alternatives (x ∷ xs) h = absurd (omega arith)

  build_rest_sound :
      (c : Control) (formula : ConstraintFormula) (evidence : Evidence) (n : ℕ)
      → canonical_any V formula.alternatives ≡ true
      → ((build_loop R c 0 formula.alternatives [] >>= build_last R c) n).0 ≡ some (some evidence)
      → satisfies R V values formula ≡ false
  unfolding satisfies
  build_rest_sound c formula evidence n cs h =
      let (found, loop, last) =
        >>=-eq_some (build_loop R c 0 formula.alternatives []) (build_last R c) n (some evidence)
          h in
      elim (Option-cases found) [
        | inl missing ↦ cc
        | inr (out, here) ↦
            build_loop_sound c 0 formula.alternatives [] out n cs (loop ∙ ap some here)
      ]

  -- A formula whose constants are spelled canonically and for which the search returns evidence
  -- holds under no assignment of values, whatever the control answers.
  pub build_evidence_sound :
      (c : Control) (formula : ConstraintFormula) (evidence : Evidence) (n : ℕ)
      → canonical_formula V formula ≡ true
      → (build_evidence R c formula n).0 ≡ some (some evidence)
      → satisfies R V values formula ≡ false
  unfolding build_evidence satisfies canonical_formula
  build_evidence_sound c formula evidence n cs h =
      ground
        (arith, no_alternatives formula.alternatives, build_rest_sound c formula evidence (suc n))

  constraint_eq-holds :
      (a b : PredicateConstraint)
      → constraint_eq R a b ≡ true
      → holds R V values a ≡ holds R V values b
  unfolding constraint_eq holds
  constraint_eq-holds a b h =
      ground (arith, eq_iff a.subject b.subject, eq_iff a.value b.value, same_op-eq a.op b.op)

  -- A constraint that is among canonical ones has their constant.
  constraint_present-canonical :
      (c : Control) (xs : List PredicateConstraint) (target : PredicateConstraint) (n : ℕ)
      → (constraint_present R c xs target n).0 ≡ true
      → canonical_all V xs ≡ true
      → V.canonical target.value ≡ true
  unfolding constraint_present canonical_all constraint_eq
  constraint_present-canonical c [] target n h s = cc
  constraint_present-canonical c (x ∷ xs) target n h s =
      ground (arith, eq_iff x.value target.value, constraint_present-canonical c xs target (suc n))

  constraint_present_sound :
      (c : Control) (xs : List PredicateConstraint) (target : PredicateConstraint) (n : ℕ)
      → (constraint_present R c xs target n).0 ≡ true
      → satisfies_all R V values xs ≡ true
      → holds R V values target ≡ true
  unfolding constraint_present satisfies_all
  constraint_present_sound c [] target n h s = cc
  constraint_present_sound c (x ∷ xs) target n h s =
      ground (arith, constraint_eq-holds x target, constraint_present_sound c xs target (suc n))

  check_loop_sound :
      (c : Control) (index : ℕ) (alternatives : List (List PredicateConstraint))
      (certificates : List Contradiction) (n : ℕ)
      → canonical_any V alternatives ≡ true
      → (check_loop R c index alternatives certificates n).0 ≡ some true
      → satisfies_any R V values alternatives ≡ false
  unfolding check_loop satisfies_any canonical_any
  check_loop_sound c index [] certificates n cs h = refl
  check_loop_sound c index (alternative ∷ rest) [] n cs h = cc
  check_loop_sound c index (alternative ∷ rest) (x ∷ certificates) n cs h = ground (
    arith,
    constraints_contradict_sound R V values x.left x.right,
    constraint_present-canonical c alternative x.left (suc n),
    constraint_present-canonical c alternative x.right
        (constraint_present R c alternative x.left (suc n)).1,
    constraint_present_sound c alternative x.left (suc n),
    constraint_present_sound c alternative x.right
        (constraint_present R c alternative x.left (suc n)).1,
    check_loop_sound c (suc index) rest certificates
        (constraint_present R c alternative x.right
          (constraint_present R c alternative x.left (suc n)).1).1,
  )

  check_with_subjects_sound :
      (c : Control) (formula : ConstraintFormula) (path : List ℕ) (evidence : Evidence)
      (subjects : List String) (n : ℕ)
      → canonical_any V formula.alternatives ≡ true
      → (check_with_subjects R c formula path evidence subjects n).0 ≡ some true
      → satisfies_any R V values formula.alternatives ≡ false
  unfolding check_with_subjects
  check_with_subjects_sound c formula path evidence subjects n cs h = ground (
    arith,
    no_alternatives formula.alternatives,
    check_loop_sound c 0 formula.alternatives evidence.contradictions n cs,
  )

  check_rest_sound :
      (c : Control) (formula : ConstraintFormula) (path : List ℕ) (evidence : Evidence) (n : ℕ)
      → canonical_any V formula.alternatives ≡ true
      → ((constraint_subjects c formula >>= check_with_subjects R c formula path evidence) n).0
        ≡ some true
      → satisfies_any R V values formula.alternatives ≡ false
  check_rest_sound c formula path evidence n cs h =
      let (subjects, first, second) =
        >>=-eq_some (constraint_subjects c formula) (check_with_subjects R c formula path evidence)
          n true h in
      check_with_subjects_sound c formula path evidence subjects (constraint_subjects c formula n).1
        cs second

  -- A formula whose constants are spelled canonically and whose evidence the checker accepts holds
  -- under no assignment of values, whoever built the evidence and whatever the control answers.
  pub check_evidence_sound :
      (c : Control) (formula : ConstraintFormula) (path : List ℕ) (evidence : Evidence) (n : ℕ)
      → canonical_formula V formula ≡ true
      → (check_evidence R c formula path evidence n).0 ≡ some true
      → satisfies R V values formula ≡ false
  unfolding check_evidence satisfies canonical_formula
  check_evidence_sound c formula path evidence n cs h =
      ground (arith, check_rest_sound c formula path evidence (suc n) cs)
