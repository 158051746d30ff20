-- ===== src/Feasibility/Formula/Meaning.antt =====
-- What a formula means, and that its connectives mean what they say.
use goplint.Base.{
  ℕ, suc, String, Bool, true, false, ◌*◌, ◌+◌, ◌&&◌, ◌||◌, some, List, [], ◌∷◌, ◌++◌, ltb, ◌≡◌,
  refl, ap, ◌∙◌, arith, length, inl, inr, ◌⊎◌,
}
use goplint.Feasibility.Control.{
  Control, Timed, pure, checkpoint, ◌>>=◌, checkpoint-eq_some, >>=-eq_some,
}
use goplint.Feasibility.Constraint.{PredicateConstraint, Rationals}
use goplint.Feasibility.Semantics.{ValueOrder, holds}
use goplint.Feasibility.Formula.{
  ConstraintFormula, and_row, and_rows, and_product, formula_and, formula_or, alternative_limit,
}

or_assoc : (a b c : Bool) → ((a || b) || c) ≡ (a || (b || c))
or_assoc true b c = refl
or_assoc false b c = refl

and_assoc : (a b c : Bool) → ((a && b) && c) ≡ (a && (b && c))
and_assoc true b c = refl
and_assoc false b c = refl

zero_product : (a b : ℕ) → (a ≡ 0) ⊎ (b ≡ 0) → a * b ≡ 0
zero_product a b (inl h) = rw h (omega arith)
zero_product a b (inr h) = rw h (omega arith)

distribute : (a l ls r : Bool) → ((a || l && r) || ls && r) ≡ (a || (l || ls) && r)
distribute a l ls r = ground arith

module _ {R : Rationals} (V : ValueOrder R) where
  -- The constants of every constraint are spelled canonically.
  unfoldable pub canonical_all : List PredicateConstraint → Bool
  canonical_all [] = true
  canonical_all (x ∷ xs) = V.canonical x.value && canonical_all xs

  unfoldable pub canonical_any : List (List PredicateConstraint) → Bool
  unfolding canonical_all
  canonical_any [] = true
  canonical_any (a ∷ as') = canonical_all a && canonical_any as'

  unfoldable pub canonical_formula : ConstraintFormula → Bool
  unfolding canonical_any
  canonical_formula f = canonical_any f.alternatives

module _ (R : Rationals) (V : ValueOrder R) (values : String → V.Value) where
  -- Every constraint of the alternative holds.
  unfoldable pub satisfies_all : List PredicateConstraint → Bool
  satisfies_all [] = true
  satisfies_all (x ∷ xs) = holds R V values x && satisfies_all xs

  unfoldable pub satisfies_any : List (List PredicateConstraint) → Bool
  unfolding satisfies_all
  satisfies_any [] = false
  satisfies_any (a ∷ as') = satisfies_all a || satisfies_any as'

  unfoldable pub satisfies : ConstraintFormula → Bool
  unfolding satisfies_any
  satisfies f = satisfies_any f.alternatives

  all-append :
      (xs ys : List PredicateConstraint)
      → satisfies_all (xs ++ ys) ≡ (satisfies_all xs && satisfies_all ys)
  unfolding satisfies_all
  all-append [] ys = refl
  all-append (x ∷ xs) ys = ground (arith, all-append xs ys)

  any-append :
      (xs ys : List (List PredicateConstraint))
      → satisfies_any (xs ++ ys) ≡ (satisfies_any xs || satisfies_any ys)
  unfolding satisfies_any
  any-append [] ys = refl
  any-append (x ∷ xs) ys = ground (arith, any-append xs ys)

  row_step :
      (left r : List PredicateConstraint) (rights acc : List (List PredicateConstraint))
      → (satisfies_any (acc ++ (left ++ r) ∷ []) || satisfies_all left && satisfies_any rights)
        ≡ (satisfies_any acc || satisfies_all left && satisfies_any (r ∷ rights))
  unfolding satisfies_any
  row_step left r rights acc = ground (arith, any-append acc ((left ++ r) ∷ []), all-append left r)

  -- A row adds the conjunctions of its left side with every right side.
  and_row_any :
      (c : Control) (left : List PredicateConstraint)
      (rights acc out : List (List PredicateConstraint)) (n : ℕ)
      → (and_row c left rights acc n).0 ≡ some out
      → satisfies_any out ≡ (satisfies_any acc || satisfies_all left && satisfies_any rights)
  unfolding and_row
  and_row_any c left [] acc out n h =
      let same : acc ≡ out = cc in unfold satisfies_any in ground arith
  and_row_any c left (r ∷ rights) acc out n h =
      and_row_any c left rights (acc ++ (left ++ r) ∷ []) out (suc n)
        (checkpoint-eq_some c (and_row c left rights (acc ++ (left ++ r) ∷ [])) n out h)
      ∙ row_step left r rights acc

  and_rows_any :
      (c : Control) (lefts rights acc out : List (List PredicateConstraint)) (n : ℕ)
      → (and_rows c lefts rights acc n).0 ≡ some out
      → satisfies_any out ≡ (satisfies_any acc || satisfies_any lefts && satisfies_any rights)
  unfolding and_rows satisfies_any
  and_rows_any c [] rights acc out n h =
      let same : acc ≡ out = cc in unfold satisfies_any in ground arith
  and_rows_any c (left ∷ lefts) rights acc out n h =
      let row : Timed (List (List PredicateConstraint)) = and_row c left rights acc in
      let rest : List (List PredicateConstraint) → Timed (List (List PredicateConstraint)) =
        λ acc'. and_rows c lefts rights acc' in
      let (mid, first, second) =
        >>=-eq_some row rest (suc n) out (checkpoint-eq_some c (row >>= rest) n out h) in
      and_rows_any c lefts rights mid out (row (suc n)).1 second
      ∙ ap (λ b. b || satisfies_any lefts && satisfies_any rights)
          (and_row_any c left rights acc mid (suc n) first)
      ∙ distribute (satisfies_any acc) (satisfies_all left) (satisfies_any lefts)
          (satisfies_any rights)

  and_product_sound :
      (c : Control) (left right out : ConstraintFormula) (n : ℕ)
      → (and_product c left right n).0 ≡ some out
      → (satisfies out ≡ (satisfies left && satisfies right))
        × (out.unsupported ≡ (left.unsupported || right.unsupported))
  unfolding and_product satisfies
  and_product_sound c left right out n h =
      let close : List (List PredicateConstraint) → Timed ConstraintFormula = λ alternatives.
        checkpoint c (
          pure (record {
            alternatives = alternatives;
            unsupported = left.unsupported || right.unsupported;
          })) in
      let rows : Timed (List (List PredicateConstraint)) =
        and_rows c left.alternatives right.alternatives [] in
      let (out', loops, last) = >>=-eq_some rows close n out h in
      ground (arith, and_rows_any c left.alternatives right.alternatives [] out' n loops, last)

  any_none : (xs : List (List PredicateConstraint)) → length xs ≡ 0 → satisfies_any xs ≡ false
  unfolding satisfies_any
  any_none [] h = refl
  any_none (x ∷ xs) h = absurd (omega arith)

  -- The conjunction that ends in time: at most `alternative_limit` alternatives make it exact; more
  -- make it true of every assignment, and then it is marked as unsupported.
  pub satisfies-formula_and :
      (c : Control) (left right out : ConstraintFormula) (n : ℕ)
      → (formula_and c left right n).0 ≡ some out
      → let over = ltb alternative_limit (length left.alternatives * length right.alternatives) in
        (satisfies out ≡ (over || satisfies left && satisfies right))
        × (out.unsupported ≡ (over || left.unsupported || right.unsupported))
  unfolding formula_and satisfies
  satisfies-formula_and c left right out n h = ground (
    arith,
    and_product_sound c left right out (suc n),
    any_none left.alternatives,
    any_none right.alternatives,
    zero_product (length left.alternatives) (length right.alternatives),
  )

  -- The same of the disjunction.
  pub satisfies-formula_or :
      (c : Control) (left right out : ConstraintFormula) (n : ℕ)
      → (formula_or c left right n).0 ≡ some out
      → let over = ltb alternative_limit (length left.alternatives + length right.alternatives) in
        (satisfies out ≡ (over || satisfies left || satisfies right))
        × (out.unsupported ≡ (over || left.unsupported || right.unsupported))
  unfolding formula_or satisfies
  satisfies-formula_or c left right out n h =
      ground (arith, any-append left.alternatives right.alternatives)
