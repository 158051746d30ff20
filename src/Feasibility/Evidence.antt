-- ===== src/Feasibility/Evidence.antt =====
-- The certificate of an infeasible formula, its construction and its independent check:
-- goplint/cfa_feasibility_ssa_constraints.go.
pub mod Sound
pub mod Accepts
pub mod Aliases
use goplint.Base.{
  ℕ, suc, String, str_eq, Bool, true, false, ◌&&◌, ◌||◌, not, Option, none, some, List, [], ◌∷◌,
  ◌++◌, ◌==◌, length, texts_eq, if◌then◌else◌,
}
use goplint.Feasibility.Control.{
  Control, Timed, pure, checkpoint, ◌>>=◌, continue, deadline_reached,
}
use goplint.Feasibility.Constraint.{
  PredicateConstraint, ComparisonOp, op_eq, op_neq, op_lt, op_le, op_gt, op_ge, other_op, Rationals,
  constraints_contradict,
}
use goplint.Feasibility.Formula.{ConstraintFormula, constraint_subjects}

abbrev pub evidence_version : ℕ
evidence_version = 1

pub record Contradiction : Type 0 where
  pub alternative : ℕ
  pub left : PredicateConstraint
  pub right : PredicateConstraint

pub record Evidence : Type 0 where
  pub format_version : ℕ
  pub constant_false : Bool
  pub witness_path : List ℕ
  pub subjects : List String
  pub contradictions : List Contradiction

abbrev pub new_evidence : Evidence
new_evidence = record {
  format_version = evidence_version;
  constant_false = false;
  witness_path = [];
  subjects = [];
  contradictions = [];
}

abbrev pub op_number : ComparisonOp → ℕ
op_number op_eq = 0
op_number op_neq = 1
op_number op_lt = 2
op_number op_le = 3
op_number op_gt = 4
op_number op_ge = 5
op_number (other_op s) = 6

abbrev pub other_text : ComparisonOp → String
other_text (other_op s) = s
other_text _ = ""

unfoldable pub same_op : ComparisonOp → ComparisonOp → Bool
same_op a b = (op_number a == op_number b) && str_eq (other_text a) (other_text b)

module _ (R : Rationals) where
  -- The inner loop, over the constraints behind `left`.
  unfoldable pub find_partner :
      Control
      → PredicateConstraint
      → List PredicateConstraint
      → Timed (Option (PredicateConstraint × PredicateConstraint))
  find_partner c left [] = pure none
  find_partner c left (right ∷ rest) = checkpoint c (
      if constraints_contradict R left right
      then pure (some (left, right))
      else find_partner c left rest)

  abbrev or_else :
      Option (PredicateConstraint × PredicateConstraint)
      → Timed (Option (PredicateConstraint × PredicateConstraint))
      → Timed (Option (PredicateConstraint × PredicateConstraint))
  or_else (some pair) rest = pure (some pair)
  or_else none rest = rest

  unfoldable pub find_contradiction :
      Control
      → List PredicateConstraint
      → Timed (Option (PredicateConstraint × PredicateConstraint))
  find_contradiction c [] = pure none
  find_contradiction c (left ∷ rest) =
      checkpoint c (find_partner c left rest >>= λ found. or_else found (find_contradiction c rest))

  -- The loop over the alternatives; `none` inside is the answer that one has no contradiction.
  unfoldable pub build_loop :
      Control
      → ℕ
      → List (List PredicateConstraint)
      → List Contradiction
      → Timed (Option (List Contradiction))
  build_loop c index [] out = pure (some out)
  build_loop c index (alternative ∷ rest) out = checkpoint c (
      find_contradiction c alternative >>= elim [
        | none ↦ pure none
        | some pair ↦
            build_loop c (suc index) rest
              (out ++ record { alternative = index; left = pair.0; right = pair.1 } ∷ [])
      ])

  -- The two ways on from a search, by name.
  abbrev pub build_next :
      Control
      → ℕ
      → List (List PredicateConstraint)
      → List Contradiction
      → Option (PredicateConstraint × PredicateConstraint)
      → Timed (Option (List Contradiction))
  build_next c index rest out = elim [
    | none ↦ pure none
    | some pair ↦
        build_loop c (suc index) rest
          (out ++ record { alternative = index; left = pair.0; right = pair.1 } ∷ [])
  ]

  -- The return after the loop.
  abbrev pub build_last : Control → Option (List Contradiction) → Timed (Option Evidence)
  build_last c = elim [
    | none ↦ pure none
    | some found ↦ checkpoint c (pure (some (record new_evidence { contradictions = found })))
  ]

  -- `none` is the answer that the formula is not shown to be unsatisfiable.
  unfoldable pub build_evidence : Control → ConstraintFormula → Timed (Option Evidence)
  build_evidence c formula = checkpoint c (
      if length formula.alternatives == 0
      then checkpoint c (pure (some (record new_evidence { constant_false = true })))
      else (build_loop c 0 formula.alternatives [] >>= build_last c))

  -- `==` on constraints.
  unfoldable pub constraint_eq : PredicateConstraint → PredicateConstraint → Bool
  unfolding same_op
  constraint_eq a b = str_eq a.subject b.subject && same_op a.op b.op && str_eq a.value b.value

  -- A presence test that the deadline may cut short: the answer, and the questions asked so far.
  unfoldable pub constraint_present :
      Control → List PredicateConstraint → PredicateConstraint → ℕ → Bool × ℕ
  constraint_present c [] target n = (false, n)
  constraint_present c (x ∷ xs) target n = elim (deadline_reached c n) [
    | true ↦ (false, suc n)
    | false ↦
        if constraint_eq x target then (true, suc n) else constraint_present c xs target (suc n)
  ]

  -- `if reached { return false, true }; return false, false`
  abbrev reject : Control → Timed Bool
  reject c = checkpoint c (pure false)

  abbrev test_right :
      Control → List PredicateConstraint → Contradiction → Timed Bool → Bool × ℕ → Option Bool × ℕ
  test_right c alternative certificate rest (true, n) =
      if constraints_contradict R certificate.left certificate.right then rest n else reject c n
  test_right c alternative certificate rest (false, n) = reject c n

  abbrev test_left :
      Control → List PredicateConstraint → Contradiction → Timed Bool → Bool × ℕ → Option Bool × ℕ
  test_left c alternative certificate rest (true, n) =
      test_right c alternative certificate rest
        (constraint_present c alternative certificate.right n)
  test_left c alternative certificate rest (false, n) = reject c n

  -- The loop over the alternatives, each with the certificate at its index.
  unfoldable pub check_loop :
      Control → ℕ → List (List PredicateConstraint) → List Contradiction → Timed Bool
  check_loop c index [] certificates = checkpoint c (pure true)
  check_loop c index (alternative ∷ rest) [] = pure false
  check_loop c index (alternative ∷ rest) (certificate ∷ certificates) = checkpoint c (
      let next = check_loop c (suc index) rest certificates in
      λ n.
        if certificate.alternative == index
        then test_left c alternative certificate next
            (constraint_present c alternative certificate.left n)
        else reject c n)

  unfoldable pub path_eq : List ℕ → List ℕ → Bool
  path_eq [] [] = true
  path_eq (x ∷ xs) (y ∷ ys) = (x == y) && path_eq xs ys
  path_eq _ _ = false

  -- The check once the subjects of the formula are known.
  unfoldable pub check_with_subjects :
      Control → ConstraintFormula → List ℕ → Evidence → List String → Timed Bool
  unfolding path_eq texts_eq
  check_with_subjects c formula witness_path evidence subjects =
      if not (path_eq evidence.witness_path witness_path)
        || not (texts_eq evidence.subjects subjects)
      then pure false
      else if length formula.alternatives == 0
      then checkpoint c (pure (evidence.constant_false && (length evidence.contradictions == 0)))
      else if evidence.constant_false
          || not (length formula.alternatives == length evidence.contradictions)
      then pure false
      else check_loop c 0 formula.alternatives evidence.contradictions

  unfoldable pub check_evidence : Control → ConstraintFormula → List ℕ → Evidence → Timed Bool
  check_evidence c formula witness_path evidence = checkpoint c (
      if not (evidence.format_version == evidence_version)
      then pure false
      else (constraint_subjects c formula >>= check_with_subjects c formula witness_path evidence))
