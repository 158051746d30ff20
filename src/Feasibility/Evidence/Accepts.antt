-- ===== src/Feasibility/Evidence/Accepts.antt =====
-- The checker accepts the evidence that the search builds.
use goplint.Base.{
  texts_eq_refl, ℕ, suc, String, eq_iff, Bool, true, false, Option, none, some, List, [], ◌∷◌, ◌++◌,
  ◌==◌, length, ◌≡◌, refl, arith, Option-cases, Bool-cases, subst, inl, inr, ap, sym, ◌∙◌,
}
use mathlib.Core.List.{append_assoc, append-nil}
use goplint.Feasibility.Control.{Timed, continue, >>=-eq_some}
use goplint.Feasibility.Constraint.{
  PredicateConstraint, ComparisonOp, op_eq, other_op, Rationals, constraints_contradict,
}
use goplint.Feasibility.Formula.{ConstraintFormula, constraint_subjects}
use goplint.Feasibility.Formula.Subjects.{constraint_subjects-collect}
use goplint.Feasibility.Evidence.{
  Evidence, Contradiction, find_partner, find_contradiction, or_else, build_loop, build_next,
  build_last, build_evidence, check_loop, check_evidence, constraint_present, constraint_eq,
  new_evidence, same_op, check_with_subjects, path_eq,
}

-- The evidence that `Check` returns: what the search builds, with the path and the subjects.
abbrev pub with_path : Evidence → List ℕ → List String → Evidence
with_path evidence path subjects = record evidence { witness_path = path; subjects = subjects }

same_op_refl : (a : ComparisonOp) → same_op a a ≡ true
unfolding same_op
same_op_refl op_eq = refl
same_op_refl (other_op s) = (eq_iff s s).1 refl
same_op_refl _ = refl

path_eq_refl : (R : Rationals) (xs : List ℕ) → path_eq R xs xs ≡ true
unfolding path_eq
path_eq_refl R [] = refl
path_eq_refl R (x ∷ xs) = ground (arith, path_eq_refl R xs)

module _ (R : Rationals) where
  constraint_eq_refl : (x : PredicateConstraint) → constraint_eq R x x ≡ true
  unfolding constraint_eq
  constraint_eq_refl x =
      ground (arith, eq_iff x.subject x.subject, eq_iff x.value x.value, same_op_refl x.op)

  -- `x` stands in the list, as the presence test without a deadline sees it.
  abbrev Present : List PredicateConstraint → PredicateConstraint → Type 0
  Present xs x = (n : ℕ) → (constraint_present R none xs x n).0 ≡ true

  Present-here : (x : PredicateConstraint) (xs : List PredicateConstraint) → Present (x ∷ xs) x
  Present-here x xs n = unfold constraint_present in ground (arith, constraint_eq_refl x)

  Present-later :
      (x y : PredicateConstraint) (xs : List PredicateConstraint)
      → Present xs x
      → Present (y ∷ xs) x
  Present-later x y xs h n = unfold constraint_present in ground (arith, h (suc n))

  -- What a search that finds a pair knows of it.
  abbrev Certified : List PredicateConstraint → PredicateConstraint × PredicateConstraint → Type 0
  Certified xs pair =
      Present xs pair.0 × Present xs pair.1 × (constraints_contradict R pair.0 pair.1 ≡ true)

  pair_of :
      (left right : PredicateConstraint) (pair : PredicateConstraint × PredicateConstraint) (n : ℕ)
      (rest : List PredicateConstraint)
      → constraints_contradict R left right ≡ true
      → (find_partner R none left (right ∷ rest) n).0 ≡ some (some pair)
      → (left, right) ≡ pair
  unfolding find_partner
  pair_of left right pair n rest hit h = ground arith

  find_partner-Certified :
      (left : PredicateConstraint) (rest : List PredicateConstraint)
      (pair : PredicateConstraint × PredicateConstraint) (n : ℕ)
      → (find_partner R none left rest n).0 ≡ some (some pair)
      → (left ≡ pair.0) × Present rest pair.1 × (constraints_contradict R pair.0 pair.1 ≡ true)
  unfolding find_partner
  find_partner-Certified left [] pair n h = cc
  find_partner-Certified left (right ∷ rest) pair n h =
      elim (Bool-cases (constraints_contradict R left right)) [
        | inl hit ↦
            let e : (left, right) ≡ pair = pair_of left right pair n rest hit h in
            (
              ap (λ p. p.0) e,
              subst (λ p. Present (right ∷ rest) p.1) e (Present-here right rest),
              subst (λ p. constraints_contradict R p.0 p.1 ≡ true) e hit,
            )
        | inr miss ↦
            let (same, here, bad) =
              find_partner-Certified left rest pair (suc n) (rw (miss, find_partner) at h) in
            (same, Present-later pair.1 right rest here, bad)
      ]

  find_contradiction-Certified :
      (xs : List PredicateConstraint) (pair : PredicateConstraint × PredicateConstraint) (n : ℕ)
      → (find_contradiction R none xs n).0 ≡ some (some pair)
      → Certified xs pair
  unfolding find_contradiction
  find_contradiction-Certified [] pair n h = cc
  find_contradiction-Certified (left ∷ rest) pair n h =
      let m = find_partner R none left rest in
      let f : Option (PredicateConstraint × PredicateConstraint)
          → Timed (Option (PredicateConstraint × PredicateConstraint)) =
        λ found. or_else R found (find_contradiction R none rest) in
      let (found, first, second) = >>=-eq_some m f (suc n) (some pair) h in
      elim (Option-cases found) [
        | inl missing ↦
            let (l, r, bad) =
              find_contradiction-Certified rest pair (m (suc n)).1 (rw missing at second) in
            (Present-later pair.0 left rest l, Present-later pair.1 left rest r, bad)
        | inr (p, here) ↦
            let same : p ≡ pair = cc in
            let (l, r, bad) =
              find_partner-Certified left rest pair (suc n)
                (first ∙ ap some (here ∙ ap some same)) in
            (
              subst (Present (left ∷ rest)) l (Present-here left rest),
              Present-later pair.1 left rest r,
              bad,
            )
      ]

  -- The certificates that the loop adds pass the loop of the checker.
  abbrev Passing : ℕ → List (List PredicateConstraint) → List Contradiction → Type 0
  Passing index alternatives certificates =
      (length alternatives ≡ length certificates)
      × ((m : ℕ) → (check_loop R none index alternatives certificates m).0 ≡ some true)

  Passing-cons :
      (index : ℕ) (alternative : List PredicateConstraint) (rest : List (List PredicateConstraint))
      (pair : PredicateConstraint × PredicateConstraint) (certificates : List Contradiction)
      → Certified alternative pair
      → Passing (suc index) rest certificates
      → Passing index
          (alternative ∷ rest)
          (record { alternative = index; left = pair.0; right = pair.1 } ∷ certificates)
  unfolding check_loop
  Passing-cons index alternative rest pair certificates (l, r, bad) (len, ok) = (
    omega (arith, len),
    λ m. ground (
      arith,
      bad,
      l (suc m),
      r (constraint_present R none alternative pair.0 (suc m)).1,
      ok
          (constraint_present R none alternative pair.1
            (constraint_present R none alternative pair.0 (suc m)).1).1,
    ),
  )

  build_loop-Passing :
      (index : ℕ) (alternatives : List (List PredicateConstraint)) (acc out : List Contradiction)
      (n : ℕ)
      → (build_loop R none index alternatives acc n).0 ≡ some (some out)
      → (certificates : List Contradiction) × (acc ++ certificates ≡ out)
        × Passing index alternatives certificates
  unfolding build_loop
  build_loop-Passing index [] acc out n h =
      let e : acc ≡ out = cc in ([], append-nil acc ∙ e, (refl, λ m. unfold check_loop in refl))
  build_loop-Passing index (alternative ∷ rest) acc out n h =
      let m = find_contradiction R none alternative in
      let (found, first, second) =
        >>=-eq_some m (build_next R none index rest acc) (suc n) (some out) h in
      elim (Option-cases found) [
        | inl missing ↦ cc
        | inr (pair, here) ↦
            let (certs, joined, passing) =
              build_loop-Passing (suc index) rest _ out (m (suc n)).1 (rw here at second) in
            (
              record { alternative = index; left = pair.0; right = pair.1 } ∷ certs,
              sym (append_assoc acc _ certs) ∙ joined,
              Passing-cons index alternative rest pair certs
                  (find_contradiction-Certified alternative pair (suc n) (first ∙ ap some here))
                  passing,
            )
      ]

  built_empty :
      (formula : ConstraintFormula) (evidence : Evidence) (n : ℕ)
      → (length formula.alternatives == 0) ≡ true
      → (build_evidence R none formula n).0 ≡ some (some evidence)
      → record new_evidence { constant_false = true } ≡ evidence
  unfolding build_evidence
  built_empty formula evidence n empty h = cc (rw (empty, build_evidence) at h)

  accepts_built :
      (formula : ConstraintFormula) (path : List ℕ) (subjects : List String) (evidence : Evidence)
      (n m : ℕ)
      → (build_evidence R none formula n).0 ≡ some (some evidence)
      → (check_with_subjects R none formula path (with_path evidence path subjects) subjects m).0
        ≡ some true
  unfolding build_evidence check_with_subjects
  accepts_built formula path subjects evidence n m h =
      elim (Bool-cases (length formula.alternatives == 0)) [
        | inl empty ↦
            let e : record new_evidence { constant_false = true } ≡ evidence =
              built_empty formula evidence n empty h in
            ground (arith, e, path_eq_refl R path, texts_eq_refl subjects)
        | inr full ↦
            let (found, loop, last) =
              >>=-eq_some (build_loop R none 0 formula.alternatives []) (build_last R none) (suc n)
                (some evidence) (rw (full, build_evidence) at h) in
            elim (Option-cases found) [
              | inl missing ↦ cc
              | inr (out, here) ↦
                  let (certs, joined, (len, ok)) =
                    build_loop-Passing 0 formula.alternatives [] out (suc n)
                      (loop ∙ ap some here) in
                  let e : record new_evidence { contradictions = out } ≡ evidence = cc in
                  let c : certs ≡ evidence.contradictions = joined ∙ ap (λ x. x.contradictions) e in
                  let good : (check_loop R none 0 formula.alternatives evidence.contradictions m).0
                      ≡ some true =
                    subst (λ x. (check_loop R none 0 formula.alternatives x m).0 ≡ some true) c
                      (ok m) in
                  let flag : false ≡ evidence.constant_false = ap (λ x. x.constant_false) e in
                  ground (
                    arith,
                    good,
                    flag,
                    len,
                    ap length c,
                    path_eq_refl R path,
                    texts_eq_refl subjects,
                  )
            ]
      ]

  built_version :
      (formula : ConstraintFormula) (evidence : Evidence) (n : ℕ)
      → (build_evidence R none formula n).0 ≡ some (some evidence)
      → evidence.format_version ≡ 1
  unfolding build_evidence
  built_version formula evidence n h = elim (Bool-cases (length formula.alternatives == 0)) [
    | inl empty ↦ ap (λ e. e.format_version) (sym (built_empty formula evidence n empty h))
    | inr full ↦
        let (found, loop, last) =
          >>=-eq_some (build_loop R none 0 formula.alternatives []) (build_last R none) (suc n)
            (some evidence) (rw (full, build_evidence) at h) in
        elim (Option-cases found) [
          | inl missing ↦ cc
          | inr (out, here) ↦
              let e : record new_evidence { contradictions = out } ≡ evidence = cc in
              ap (λ x. x.format_version) (sym e)
        ]
  ]

check_after :
    (r : Option (List String) × ℕ) (f : List String → Timed Bool) (a : List String)
    → r.0 ≡ some a
    → ((n : ℕ) → (f a n).0 ≡ some true)
    → (continue f r).0 ≡ some true
check_after (none, k) f a h g = cc
check_after (some x, k) f a h g = let e : a ≡ x = cc in subst (λ y. (f y k).0 ≡ some true) e (g k)

-- Without a deadline, the checker accepts the evidence that the search builds, completed with the
-- witness path and the subjects of the formula.
pub check_evidence-build_evidence :
    (R : Rationals) (formula : ConstraintFormula) (path : List ℕ) (subjects : List String)
    (evidence : Evidence) (n k m : ℕ)
    → (build_evidence R none formula n).0 ≡ some (some evidence)
    → (constraint_subjects none formula k).0 ≡ some subjects
    → (check_evidence R none formula path (with_path evidence path subjects) m).0 ≡ some true
unfolding check_evidence
check_evidence-build_evidence R formula path subjects evidence n k m h s =
    let same : (constraint_subjects none formula (suc m)).0 ≡ some subjects =
      constraint_subjects-collect formula (suc m)
      ∙ sym (constraint_subjects-collect formula k)
      ∙ s in
    let good =
      check_after (constraint_subjects none formula (suc m))
        (check_with_subjects R none formula path (with_path evidence path subjects)) subjects same
        (λ q. accepts_built R formula path subjects evidence n q h) in
    ground (arith, good, built_version R formula evidence n h)
