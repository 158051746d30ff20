-- ===== src/WorkGroups/Partition.antt =====
-- The groups of a plan hold every work unit, and each once.
use goplint.Base.{
  ℕ, suc, zero, ◌+◌, ◌-◌, ◌≤◌, ◌<◌, Bool, List, [], ◌∷◌, ◌++◌, some, length, get_elem?,
  if◌then◌else◌, ◌≡◌, refl, sym, ap, ◌∙◌, arith, Option-cases, inl, inr,
}
use goplint.WorkGroups.{
  WorkUnit, WorkGroup, insert_unit, sort_units, empty_groups, select_lightest, lightest, add_at,
  assign, partition, nonempty, select_work_group, goes_before, id_before,
}

-- How many units of the list pass the test.
abbrev pub count_units : (WorkUnit → Bool) → List WorkUnit → ℕ
count_units f [] = 0
count_units f (u ∷ us) = (if f u then 1 else 0) + count_units f us

abbrev pub count_groups : (WorkUnit → Bool) → List WorkGroup → ℕ
count_groups f [] = 0
count_groups f (g ∷ gs) = count_units f g.units + count_groups f gs

module _ (f : WorkUnit → Bool) where
  count-append :
      (xs ys : List WorkUnit) → count_units f (xs ++ ys) ≡ count_units f xs + count_units f ys
  count-append [] ys = omega arith
  count-append (x ∷ xs) ys = omega (arith, count-append xs ys)

  count-insert :
      (before : WorkUnit → WorkUnit → Bool) (u : WorkUnit) (us : List WorkUnit)
      → count_units f (insert_unit before u us) ≡ (if f u then 1 else 0) + count_units f us
  unfolding insert_unit
  count-insert before u [] = refl
  count-insert before u (x ∷ xs) = ground (arith, count-insert before u xs)

  count-sort :
      (before : WorkUnit → WorkUnit → Bool) (us : List WorkUnit)
      → count_units f (sort_units before us) ≡ count_units f us
  unfolding sort_units
  count-sort before [] = refl
  count-sort before (u ∷ us) =
      count-insert before u (sort_units before us)
      ∙ ap (λ n. (if f u then 1 else 0) + n) (count-sort before us)

  count-add_at :
      (i : ℕ) (u : WorkUnit) (gs : List WorkGroup)
      → i < length gs
      → count_groups f (add_at i u gs) ≡ (if f u then 1 else 0) + count_groups f gs
  unfolding add_at
  count-add_at i u [] h = absurd (omega arith)
  count-add_at zero u (g ∷ gs) h = omega (arith, count-append g.units (u ∷ []))
  count-add_at (suc i) u (g ∷ gs) h = omega (arith, count-add_at i u gs (omega arith))

length-add_at : (i : ℕ) (u : WorkUnit) (gs : List WorkGroup) → length (add_at i u gs) ≡ length gs
unfolding add_at
length-add_at i u [] = refl
length-add_at zero u (g ∷ gs) = refl
length-add_at (suc i) u (g ∷ gs) = ap suc (length-add_at i u gs)

select_lightest_lt :
    (selected total candidate : ℕ) (gs : List WorkGroup)
    → selected < candidate
    → select_lightest selected total candidate gs < candidate + length gs
unfolding select_lightest
select_lightest_lt selected total candidate [] h = omega arith
select_lightest_lt selected total candidate (g ∷ gs) h = ground (
  arith,
  select_lightest_lt candidate g.total (suc candidate) gs (omega arith),
  select_lightest_lt selected total (suc candidate) gs (omega arith),
)

lightest_lt : (gs : List WorkGroup) → 1 ≤ length gs → lightest gs < length gs
unfolding lightest
lightest_lt [] h = h
lightest_lt (g ∷ gs) h = omega (arith, select_lightest_lt 0 g.total 1 gs (omega arith))

count-assign :
    (f : WorkUnit → Bool) (us : List WorkUnit) (gs : List WorkGroup)
    → 1 ≤ length gs
    → count_groups f (assign us gs) ≡ count_units f us + count_groups f gs
unfolding assign
count-assign f [] gs h = omega arith
count-assign f (u ∷ us) gs h = omega (
  arith,
  count-assign f us (add_at (lightest gs) u gs) (omega (arith, length-add_at (lightest gs) u gs)),
  count-add_at f (lightest gs) u gs (lightest_lt gs h),
)

length-assign : (us : List WorkUnit) (gs : List WorkGroup) → length (assign us gs) ≡ length gs
unfolding assign
length-assign [] gs = refl
length-assign (u ∷ us) gs =
    length-assign us (add_at (lightest gs) u gs) ∙ length-add_at (lightest gs) u gs

length_empty : (n : ℕ) → length (empty_groups n) ≡ n
length_empty zero = refl
length_empty (suc n) = ap suc (length_empty n)

count_empty : (f : WorkUnit → Bool) (n : ℕ) → count_groups f (empty_groups n) ≡ 0
count_empty f zero = refl
count_empty f (suc n) = omega (arith, count_empty f n)

-- A plan is cut into the groups that were asked for, and these hold together each of its units as
-- often as the plan does.
pub partition-exhaustive :
    (units : List WorkUnit) (count : ℕ) (f : WorkUnit → Bool)
    → 1 ≤ count
    → (length (partition units count) ≡ count)
      × (count_groups f (partition units count) ≡ count_units f units)
unfolding partition
partition-exhaustive units count f h = (
  length-assign (sort_units goes_before units) (empty_groups count) ∙ length_empty count,
  omega (
    arith,
    count-assign f (sort_units goes_before units) (empty_groups count)
        (omega (arith, length_empty count)),
    count_empty f count,
    count-sort f goes_before units,
  ),
)

nonempty-some : (us r : List WorkUnit) → nonempty us ≡ some r → us ≡ r
nonempty-some us r h = ground arith

-- A selection that succeeds has the units of the group of its index.
pub select_work_group-partition :
    (units r : List WorkUnit) (index count : ℕ) (f : WorkUnit → Bool)
    → select_work_group units index count ≡ some r
    → (g : WorkGroup) × (get_elem? (partition units count) (index - 1) ≡ some g)
      × (count_units f r ≡ count_units f g.units)
unfolding select_work_group
select_work_group-partition units r index count f h =
    elim (Option-cases (get_elem? (partition units count) (index - 1))) [
      | inl missing ↦ ground (arith, missing)
      | inr (g, found) ↦
          let sorted : sort_units id_before g.units ≡ r =
            nonempty-some (sort_units id_before g.units) r (ground (arith, found)) in
          (g, found, ap (count_units f) (sym sorted) ∙ count-sort f id_before g.units)
    ]
