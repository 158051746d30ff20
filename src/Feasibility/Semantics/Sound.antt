-- ===== src/Feasibility/Semantics/Sound.antt =====
-- Contradictory constraints of goplint/cfa_feasibility_ssa_constraints.go exclude each other.
use goplint.Base.{
  String, str_eq, eq_iff, Bool, true, false, ◌&&◌, ◌||◌, not, some, Ordering, ◌≡◌, inl, inr, refl,
  subst, arith, Bool-cases, Option-cases, ◌∙◌, and-false, and_comm,
}
use goplint.Feasibility.Constraint.{
  ComparisonOp, op_eq, op_neq, op_lt, op_le, op_gt, op_ge, other_op, PredicateConstraint, Rationals,
  compare_numeric_constants, constraints_contradict, equality_contradicts,
  ordered_constraints_contradict, ops_contradict, excludes, numeric_excludes, bounds_contradict,
  is_lower, is_upper,
}
use goplint.Feasibility.Semantics.{ValueOrder, compares, holds}

module _ (R : Rationals) (V : ValueOrder R) where
  open V use {
    Value, denote, same, same_sound, same_refl, less, less_asymm, less_weak, canonical,
    canonical_distinct, less_numeric,
  }

  excludes_sound :
      (op : ComparisonOp) (o : Ordering) (x w : String)
      → canonical x ≡ true
      → canonical w ≡ true
      → compare_numeric_constants R x w ≡ some o
      → excludes R op o ≡ true
      → compares R V op (denote x) w ≡ false
  unfolding compares
  excludes_sound op_eq o x w p q e h = cc
  excludes_sound op_neq o x w p q e h = cc
  excludes_sound op_lt o x w p q e h = ground (arith, less_numeric x w o p q e)
  excludes_sound op_le o x w p q e h = ground (arith, less_numeric x w o p q e)
  excludes_sound op_gt o x w p q e h = ground (arith, less_numeric x w o p q e)
  excludes_sound op_ge o x w p q e h = ground (arith, less_numeric x w o p q e)
  excludes_sound (other_op s) o x w p q e h = cc

  numeric_excludes_sound :
      (op : ComparisonOp) (x w : String)
      → canonical x ≡ true
      → canonical w ≡ true
      → numeric_excludes R op (compare_numeric_constants R x w) ≡ true
      → compares R V op (denote x) w ≡ false
  numeric_excludes_sound op x w p q h = elim (Option-cases (compare_numeric_constants R x w)) [
    | inl e ↦ cc (rw e at h)
    | inr (o, e) ↦ excludes_sound op o x w p q e (rw e at h)
  ]

  equality_contradicts_sound :
      (v : String) (op : ComparisonOp) (w : String)
      → canonical v ≡ true
      → canonical w ≡ true
      → equality_contradicts R v op w ≡ true
      → compares R V op (denote v) w ≡ false
  unfolding equality_contradicts
  equality_contradicts_sound v op_neq w p q h =
      unfold compares in ground (arith, eq_iff v w, same_refl (denote v))
  equality_contradicts_sound v op_eq w p q h = numeric_excludes_sound op_eq v w p q h
  equality_contradicts_sound v op_lt w p q h = numeric_excludes_sound op_lt v w p q h
  equality_contradicts_sound v op_le w p q h = numeric_excludes_sound op_le v w p q h
  equality_contradicts_sound v op_gt w p q h = numeric_excludes_sound op_gt v w p q h
  equality_contradicts_sound v op_ge w p q h = numeric_excludes_sound op_ge v w p q h
  equality_contradicts_sound v (other_op s) w p q h = numeric_excludes_sound (other_op s) v w p q h

  crossing :
      (lower upper : ComparisonOp) (o : Ordering) (l u : String) (x : Value)
      → canonical l ≡ true
      → canonical u ≡ true
      → is_lower R lower ≡ true
      → is_upper R upper ≡ true
      → compare_numeric_constants R l u ≡ some o
      → bounds_contradict R lower upper (some o) ≡ true
      → (compares R V lower x l && compares R V upper x u) ≡ false
  unfolding compares
  crossing op_gt op_lt o l u x cl cu p q e h = ground (
    arith,
    less_numeric l u o cl cu e,
    less_weak (denote l) (denote u) x,
    less_asymm x (denote u),
  )
  crossing op_gt op_le o l u x cl cu p q e h =
      ground (arith, less_numeric l u o cl cu e, less_weak (denote l) (denote u) x)
  crossing op_ge op_lt o l u x cl cu p q e h = ground (
    arith,
    less_numeric l u o cl cu e,
    less_weak x (denote l) (denote u),
    less_weak (denote u) x (denote l),
    less_asymm x (denote u),
  )
  crossing op_ge op_le o l u x cl cu p q e h =
      ground (arith, less_numeric l u o cl cu e, less_weak (denote u) x (denote l))
  crossing op_gt _ o l u x cl cu p q e h = cc
  crossing op_ge _ o l u x cl cu p q e h = cc
  crossing _ upper o l u x cl cu p q e h = cc

  -- A lower and an upper bound that cross leave no value between them.
  bounds_sound :
      (lower upper : ComparisonOp) (l u : String) (x : Value)
      → canonical l ≡ true
      → canonical u ≡ true
      → is_lower R lower ≡ true
      → is_upper R upper ≡ true
      → bounds_contradict R lower upper (compare_numeric_constants R l u) ≡ true
      → (compares R V lower x l && compares R V upper x u) ≡ false
  unfolding compares
  bounds_sound lower upper l u x cl cu p q h =
      elim (Option-cases (compare_numeric_constants R l u)) [
        | inl e ↦ cc (rw e at h)
        | inr (o, e) ↦ crossing lower upper o l u x cl cu p q e (rw e at h)
      ]

  -- `left` and `right` are about the same subject, of which `x` is the value.
  ordered_sound :
      (left right : PredicateConstraint) (x : Value)
      → canonical left.value ≡ true
      → canonical right.value ≡ true
      → ordered_constraints_contradict R left right ≡ true
      → (compares R V left.op x left.value && compares R V right.op x right.value) ≡ false
  unfolding ordered_constraints_contradict
  ordered_sound left right x cl cr h = ground (
    arith,
    bounds_sound left.op right.op left.value right.value x cl cr,
    bounds_sound right.op left.op right.value left.value x cr cl,
  )

  -- A value that equals `v` fails every test that `v` contradicts.
  equality_side :
      (x : Value) (v w : String) (q : ComparisonOp)
      → canonical v ≡ true
      → canonical w ≡ true
      → equality_contradicts R v q w ≡ true
      → (compares R V op_eq x v && compares R V q x w) ≡ false
  equality_side x v w q cv cw h = elim (Bool-cases (same x (denote v))) [
    | inl equal ↦
        rw (same_sound x (denote v) equal, equality_contradicts_sound v q w cv cw h)
          (and-false (compares R V op_eq (denote v) v))
    | inr other ↦ unfold compares in rw other
  ]

  swapped :
      (left right : PredicateConstraint) (x : Value) (p : ComparisonOp)
      → canonical left.value ≡ true
      → canonical right.value ≡ true
      → left.op ≡ p
      → right.op ≡ op_eq
      → equality_contradicts R right.value p left.value ≡ true
      → (compares R V left.op x left.value && compares R V right.op x right.value) ≡ false
  swapped left right x p cl cr e f h =
      rw (e, f)
        (and_comm (compares R V p x left.value) (compares R V op_eq x right.value)
          ∙ equality_side x right.value left.value p cr cl h)

  ops_sound :
      (p q : ComparisonOp) (left right : PredicateConstraint) (x : Value)
      → canonical left.value ≡ true
      → canonical right.value ≡ true
      → left.op ≡ p
      → right.op ≡ q
      → ops_contradict R p q left right ≡ true
      → (compares R V left.op x left.value && compares R V right.op x right.value) ≡ false
  unfolding ops_contradict
  ops_sound op_eq op_eq left right x cl cr e f h =
      unfold compares in
      rw (e, f)
        (ground (
          arith,
          same_sound x (denote left.value),
          same_sound x (denote right.value),
          eq_iff left.value right.value,
          canonical_distinct left.value right.value cl cr,
        ))
  ops_sound op_eq q left right x cl cr e f h =
      rw (e, f) (equality_side x left.value right.value q cl cr h)
  ops_sound op_neq op_eq left right x cl cr e f h = swapped left right x op_neq cl cr e f h
  ops_sound op_lt op_eq left right x cl cr e f h = swapped left right x op_lt cl cr e f h
  ops_sound op_le op_eq left right x cl cr e f h = swapped left right x op_le cl cr e f h
  ops_sound op_gt op_eq left right x cl cr e f h = swapped left right x op_gt cl cr e f h
  ops_sound op_ge op_eq left right x cl cr e f h = swapped left right x op_ge cl cr e f h
  ops_sound (other_op s) op_eq left right x cl cr e f h =
      swapped left right x (other_op s) cl cr e f h
  ops_sound op_neq q left right x cl cr e f h = cc
  ops_sound op_lt op_neq left right x cl cr e f h = cc
  ops_sound op_le op_neq left right x cl cr e f h = cc
  ops_sound op_gt op_neq left right x cl cr e f h = cc
  ops_sound op_ge op_neq left right x cl cr e f h = cc
  ops_sound (other_op s) op_neq left right x cl cr e f h = cc
  ops_sound op_lt q left right x cl cr e f h = ordered_sound left right x cl cr h
  ops_sound op_le q left right x cl cr e f h = ordered_sound left right x cl cr h
  ops_sound op_gt q left right x cl cr e f h = ordered_sound left right x cl cr h
  ops_sound op_ge q left right x cl cr e f h = ordered_sound left right x cl cr h
  ops_sound (other_op s) q left right x cl cr e f h = ordered_sound left right x cl cr h

  -- Two constraints that the solver calls contradictory hold together under no assignment of values,
  -- if their constants are spelled canonically.
  pub constraints_contradict_sound :
      (values : String → Value) (left right : PredicateConstraint)
      → canonical left.value ≡ true
      → canonical right.value ≡ true
      → constraints_contradict R left right ≡ true
      → (holds R V values left && holds R V values right) ≡ false
  unfolding constraints_contradict holds
  constraints_contradict_sound values left right cl cr h = elim (Bool-cases guard) [
    | inl stop ↦ cc (rw (stop, constraints_contradict) at h)
    | inr go ↦
        subst
          (λ s.
            (compares R V left.op (values left.subject) left.value
              && compares R V right.op (values s) right.value)
            ≡ false)
          ((eq_iff left.subject right.subject).0 (ground arith))
          (ops_sound left.op right.op left right (values left.subject) cl cr refl refl
            (rw (go, constraints_contradict) at h))
  ]
    where
      guard : Bool
      guard =
          str_eq left.subject ""
          || not (str_eq left.subject right.subject)
          || str_eq left.value ""
          || str_eq right.value ""
