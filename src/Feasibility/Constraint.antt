-- ===== src/Feasibility/Constraint.antt =====
-- Comparison constraints on SSA values, and when two of them contradict each other.
use goplint.Base.{
  String, str_eq, Bool, true, false, ◌&&◌, ◌||◌, not, Option, none, some, Ordering, if◌then◌else◌,
}

-- `other_op` is any string that is no comparison, the empty one included.
pub data ComparisonOp : Type 0 where
  op_eq op_neq op_lt op_le op_gt op_ge : ComparisonOp
  other_op : String → ComparisonOp

pub record PredicateConstraint : Type 0 where
  pub subject : String
  pub op : ComparisonOp
  pub value : String

-- The part of `math/big` that is used: a rational from a text, and the comparison of two.
pub record Rationals : Type 1 where
  pub Rat : Type 0
  pub set_string : String → Option Rat
  pub cmp : Rat → Rat → Ordering

abbrev pub negate_comparison_op : ComparisonOp → ComparisonOp
negate_comparison_op op_eq = op_neq
negate_comparison_op op_neq = op_eq
negate_comparison_op op_lt = op_ge
negate_comparison_op op_le = op_gt
negate_comparison_op op_gt = op_le
negate_comparison_op op_ge = op_lt
negate_comparison_op (other_op s) = other_op ""

abbrev pub is_lt : Ordering → Bool
is_lt Ordering.lt = true
is_lt _ = false

abbrev pub is_gt : Ordering → Bool
is_gt Ordering.gt = true
is_gt _ = false

abbrev pub is_same : Ordering → Bool
is_same Ordering.eq = true
is_same _ = false

module _ (R : Rationals) where
  unfoldable pub compare_numeric_constants : String → String → Option Ordering
  compare_numeric_constants left right = elim (R.set_string left) [
    | none ↦ none
    | some a ↦ elim (R.set_string right) [ none ↦ none | some b ↦ some (R.cmp a b) ]
  ]

  -- `comparison` satisfies the test of the operator `op`.
  abbrev pub excludes : ComparisonOp → Ordering → Bool
  excludes op_lt o = not (is_lt o)
  excludes op_le o = is_gt o
  excludes op_gt o = not (is_gt o)
  excludes op_ge o = is_lt o
  excludes _ o = false

  abbrev pub numeric_excludes : ComparisonOp → Option Ordering → Bool
  numeric_excludes op none = false
  numeric_excludes op (some o) = excludes op o

  unfoldable pub equality_contradicts : String → ComparisonOp → String → Bool
  equality_contradicts value op_neq other = str_eq value other
  equality_contradicts value op other = numeric_excludes op (compare_numeric_constants value other)

  abbrev pub is_lower : ComparisonOp → Bool
  is_lower op_gt = true
  is_lower op_ge = true
  is_lower _ = false

  abbrev pub is_upper : ComparisonOp → Bool
  is_upper op_lt = true
  is_upper op_le = true
  is_upper _ = false

  abbrev pub is_strict : ComparisonOp → Bool
  is_strict op_gt = true
  is_strict op_lt = true
  is_strict _ = false

  unfoldable pub ordered_bounds :
      PredicateConstraint → PredicateConstraint → Option (PredicateConstraint × PredicateConstraint)
  ordered_bounds lower upper =
      if not (is_lower lower.op) || not (is_upper upper.op) then none else some (lower, upper)

  abbrev pub bounds_contradict : ComparisonOp → ComparisonOp → Option Ordering → Bool
  bounds_contradict lower upper none = false
  bounds_contradict lower upper (some o) =
      is_gt o || is_same o && (is_strict lower || is_strict upper)

  abbrev pub bounds_of : Option (PredicateConstraint × PredicateConstraint) → Bool
  bounds_of none = false
  bounds_of (some (lower, upper)) =
      bounds_contradict lower.op upper.op (compare_numeric_constants lower.value upper.value)

  abbrev pub or_swapped :
      Option (PredicateConstraint × PredicateConstraint)
      → Option (PredicateConstraint × PredicateConstraint)
      → Option (PredicateConstraint × PredicateConstraint)
  or_swapped none other = other
  or_swapped (some p) other = some p

  unfoldable pub ordered_constraints_contradict : PredicateConstraint → PredicateConstraint → Bool
  unfolding ordered_bounds
  ordered_constraints_contradict left right =
      bounds_of (or_swapped (ordered_bounds left right) (ordered_bounds right left))

  -- The tests on the two operators, in the order of the code.
  unfoldable pub ops_contradict :
      ComparisonOp → ComparisonOp → PredicateConstraint → PredicateConstraint → Bool
  unfolding equality_contradicts ordered_constraints_contradict
  ops_contradict op_eq op_eq left right = not (str_eq left.value right.value)
  ops_contradict op_eq op left right = equality_contradicts left.value op right.value
  ops_contradict op op_eq left right = equality_contradicts right.value op left.value
  ops_contradict op_neq op left right = false
  ops_contradict op op_neq left right = false
  ops_contradict _ _ left right = ordered_constraints_contradict left right

  unfoldable pub constraints_contradict : PredicateConstraint → PredicateConstraint → Bool
  unfolding ops_contradict
  constraints_contradict left right =
      if str_eq left.subject ""
        || not (str_eq left.subject right.subject)
        || str_eq left.value ""
        || str_eq right.value ""
      then false
      else ops_contradict left.op right.op left right
