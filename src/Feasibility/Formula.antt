-- ===== src/Feasibility/Formula.antt =====
-- Formulas in disjunctive normal form: goplint/cfa_ssa_constraints.go.
pub mod Meaning
pub mod Subjects
use goplint.Base.{
  ℕ, suc, String, str_eq, str_less, ◌*◌, ◌+◌, Bool, true, false, ◌&&◌, ◌||◌, not, Option, none,
  some, List, [], ◌∷◌, ◌++◌, ◌==◌, ltb, length, if◌then◌else◌,
}
use goplint.Feasibility.Control.{Control, Timed, pure, checkpoint, ◌>>=◌, continue}
use goplint.Feasibility.Constraint.{PredicateConstraint}

-- An unsupported formula over-approximates the predicate that it stands for.
pub record ConstraintFormula : Type 0 where
  pub alternatives : List (List PredicateConstraint)
  pub unsupported : Bool

abbrev pub alternative_limit : ℕ
alternative_limit = 256

abbrev pub unsupported_formula : ConstraintFormula
unsupported_formula = record { alternatives = [] ∷ []; unsupported = true }

abbrev pub constant_formula : Bool → ConstraintFormula
constant_formula value =
    if value
    then record { alternatives = [] ∷ []; unsupported = false }
    else record { alternatives = []; unsupported = false }

-- The inner loop of the conjunction, over the alternatives on the right.
unfoldable pub and_row :
    Control
    → List PredicateConstraint
    → List (List PredicateConstraint)
    → List (List PredicateConstraint)
    → Timed (List (List PredicateConstraint))
and_row c left [] acc = pure acc
and_row c left (right ∷ rights) acc =
    checkpoint c (and_row c left rights (acc ++ (left ++ right) ∷ []))

unfoldable pub and_rows :
    Control
    → List (List PredicateConstraint)
    → List (List PredicateConstraint)
    → List (List PredicateConstraint)
    → Timed (List (List PredicateConstraint))
and_rows c [] rights acc = pure acc
and_rows c (left ∷ lefts) rights acc =
    checkpoint c (and_row c left rights acc >>= λ acc'. and_rows c lefts rights acc')

-- The two loops and the return. An expired result is dropped, with the formula that it comes with.
unfoldable pub and_product :
    Control → ConstraintFormula → ConstraintFormula → Timed ConstraintFormula
unfolding and_rows and_row
and_product c left right = and_rows c left.alternatives right.alternatives [] >>= λ alternatives.
    checkpoint c (
      pure (record {
        alternatives = alternatives;
        unsupported = left.unsupported || right.unsupported;
      }))

unfoldable pub formula_and :
    Control → ConstraintFormula → ConstraintFormula → Timed ConstraintFormula
formula_and c left right = checkpoint c (
    if length left.alternatives == 0 || length right.alternatives == 0
    then pure (record { alternatives = []; unsupported = left.unsupported || right.unsupported })
    else if ltb alternative_limit (length left.alternatives * length right.alternatives)
    then pure unsupported_formula
    else and_product c left right)

unfoldable pub formula_or :
    Control → ConstraintFormula → ConstraintFormula → Timed ConstraintFormula
formula_or c left right = checkpoint c (
    if ltb alternative_limit (length left.alternatives + length right.alternatives)
    then pure unsupported_formula
    else checkpoint c (
        pure (record {
          alternatives = left.alternatives ++ right.alternatives;
          unsupported = left.unsupported || right.unsupported;
        })))

-- A set of texts as the sorted list of its members.
unfoldable pub insert_subject : String → List String → List String
insert_subject s [] = s ∷ []
insert_subject s (t ∷ ts) =
    if str_eq s t then t ∷ ts else if str_less s t then s ∷ t ∷ ts else t ∷ insert_subject s ts

unfoldable pub subjects_of : Control → List PredicateConstraint → List String → Timed (List String)
unfolding insert_subject
subjects_of c [] seen = pure seen
subjects_of c (x ∷ xs) seen =
    checkpoint c
      (subjects_of c xs (if str_eq x.subject "" then seen else insert_subject x.subject seen))

unfoldable pub subjects_of_all :
    Control → List (List PredicateConstraint) → List String → Timed (List String)
unfolding subjects_of
subjects_of_all c [] seen = pure seen
subjects_of_all c (a ∷ as') seen =
    checkpoint c (subjects_of c a seen >>= λ seen'. subjects_of_all c as' seen')

unfoldable pub constraint_subjects : Control → ConstraintFormula → Timed (List String)
unfolding subjects_of_all
constraint_subjects c formula =
    subjects_of_all c formula.alternatives [] >>= λ seen. checkpoint c (pure seen)
