-- ===== src/Feasibility/Semantics.antt =====
-- What a constraint means of the values at run time. The solver of
-- goplint/cfa_feasibility_ssa_constraints.go compares the texts of constants, and a value is not its
-- text: `0x10` and `16` are texts of one value, so the solver is read against the texts that are
-- spelled canonically.
pub mod Sound
use goplint.Base.{
  String, str_eq, eq_iff, Bool, true, false, ◌&&◌, ◌||◌, not, some, Ordering, ◌≡◌, ◌≢◌, inl, inr,
  refl, subst, arith, Bool-cases, Option-cases, ◌∙◌, and-false, and_comm,
}
use goplint.Feasibility.Constraint.{
  ComparisonOp, op_eq, op_neq, op_lt, op_le, op_gt, op_ge, other_op, PredicateConstraint, Rationals,
  negate_comparison_op, compare_numeric_constants, constraints_contradict, is_lt, is_gt,
  equality_contradicts, ordered_constraints_contradict, ops_contradict, excludes, numeric_excludes,
  bounds_contradict, is_lower, is_upper,
}

-- The values of the analysed program. A constant's text denotes a value; `same` and `less` are the
-- program's `==` and `<`, of which `<` is a strict weak order (the solver takes no floats). The texts
-- that are `canonical` are spelled in the one way that tells their value: two of them that denote one
-- value are the same text, and `math/big` reads them as the program orders them.
pub record ValueOrder (R : Rationals) : Type 1 where
  pub Value : Type 0
  pub denote : String → Value
  pub same : Value → Value → Bool
  pub same_sound : (a b : Value) → same a b ≡ true → a ≡ b
  pub same_refl : (a : Value) → same a a ≡ true
  pub less : Value → Value → Bool
  pub less_asymm : (a b : Value) → less a b ≡ true → less b a ≡ false
  pub less_weak : (a b c : Value) → less a c ≡ true → (less a b || less b c) ≡ true
  pub canonical : String → Bool
  pub canonical_distinct :
      (a b : String) → canonical a ≡ true → canonical b ≡ true → denote a ≡ denote b → a ≡ b
  pub less_numeric :
      (a b : String) (o : Ordering)
      → canonical a ≡ true
      → canonical b ≡ true
      → compare_numeric_constants R a b ≡ some o
      → (less (denote a) (denote b) ≡ is_lt o) × (less (denote b) (denote a) ≡ is_gt o)

module _ (R : Rationals) (V : ValueOrder R) where
  open V use {
    Value, denote, same, same_sound, same_refl, less, less_asymm, less_weak, canonical,
    canonical_distinct, less_numeric,
  }

  -- The test of an operator on a value and a constant; an operator that the code does not know
  -- says nothing.
  unfoldable pub compares : ComparisonOp → Value → String → Bool
  compares op_eq x v = same x (denote v)
  compares op_neq x v = not (same x (denote v))
  compares op_lt x v = less x (denote v)
  compares op_le x v = not (less (denote v) x)
  compares op_gt x v = less (denote v) x
  compares op_ge x v = not (less x (denote v))
  compares (other_op s) x v = true

  -- A constraint under an assignment of values to the subjects.
  unfoldable pub holds : (String → Value) → PredicateConstraint → Bool
  unfolding compares
  holds values c = compares c.op (values c.subject) c.value

  -- The negated operator of the code is the negation of the test.
  pub negate_comparison_op-compares :
      (op : ComparisonOp) (x : Value) (v : String)
      → ((s : String) → op ≢ other_op s)
      → compares (negate_comparison_op op) x v ≡ not (compares op x v)
  unfolding compares
  negate_comparison_op-compares op_eq x v h = refl
  negate_comparison_op-compares op_neq x v h = ground arith
  negate_comparison_op-compares op_lt x v h = refl
  negate_comparison_op-compares op_le x v h = ground arith
  negate_comparison_op-compares op_gt x v h = refl
  negate_comparison_op-compares op_ge x v h = ground arith
  negate_comparison_op-compares (other_op s) x v h = absurd (h s refl)
