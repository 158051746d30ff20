-- ===== src/Feasibility/Formula/Subjects.antt =====
-- Without a deadline, the subjects of a formula do not depend on the questions asked before.
use goplint.Base.{
  ℕ, suc, String, str_eq, Option, none, some, List, [], ◌∷◌, if◌then◌else◌, ◌≡◌, refl, subst,
}
use goplint.Feasibility.Control.{Timed, pure, checkpoint, continue}
use goplint.Feasibility.Constraint.{PredicateConstraint}
use goplint.Feasibility.Formula.{
  ConstraintFormula, constraint_subjects, subjects_of, subjects_of_all, insert_subject,
}

collect : List PredicateConstraint → List String → List String
unfolding insert_subject
collect [] seen = seen
collect (x ∷ xs) seen =
    collect xs (if str_eq x.subject "" then seen else insert_subject x.subject seen)

pub collect_all : List (List PredicateConstraint) → List String → List String
collect_all [] seen = seen
collect_all (a ∷ rest) seen = collect_all rest (collect a seen)

subjects_of-collect :
    (xs : List PredicateConstraint) (seen : List String) (n : ℕ)
    → (subjects_of none xs seen n).0 ≡ some (collect xs seen)
unfolding subjects_of collect
subjects_of-collect [] seen n = refl
subjects_of-collect (x ∷ xs) seen n =
    subjects_of-collect xs (if str_eq x.subject "" then seen else insert_subject x.subject seen)
      (suc n)

after_some :
    (r : Option (List String) × ℕ) (f : List String → Timed (List String)) (a : List String)
    (b : Option (List String))
    → r.0 ≡ some a
    → ((n : ℕ) → (f a n).0 ≡ b)
    → (continue f r).0 ≡ b
after_some (none, k) f a b h g = cc
after_some (some x, k) f a b h g = let e : a ≡ x = cc in subst (λ y. (f y k).0 ≡ b) e (g k)

subjects_of_all-collect :
    (xs : List (List PredicateConstraint)) (seen : List String) (n : ℕ)
    → (subjects_of_all none xs seen n).0 ≡ some (collect_all xs seen)
unfolding subjects_of_all collect_all
subjects_of_all-collect [] seen n = refl
subjects_of_all-collect (a ∷ rest) seen n =
    after_some (subjects_of none a seen (suc n)) (λ seen'. subjects_of_all none rest seen')
      (collect a seen) _ (subjects_of-collect a seen (suc n))
      (λ m. subjects_of_all-collect rest (collect a seen) m)

pub constraint_subjects-collect :
    (formula : ConstraintFormula) (n : ℕ)
    → (constraint_subjects none formula n).0 ≡ some (collect_all formula.alternatives [])
unfolding constraint_subjects
constraint_subjects-collect formula n =
    after_some (subjects_of_all none formula.alternatives [] n)
      (λ seen. checkpoint none (pure seen)) _ _ (subjects_of_all-collect formula.alternatives [] n)
      (λ m. refl)
