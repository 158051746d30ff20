-- ===== src/WorkGroups.antt =====
-- The work groups of the race and repeat runs: internal/racerepeat/groups.go. An int64 is a number
-- below 2 ^ 64 here, in two's complement.
pub mod Partition
pub mod Nonempty
pub mod Shards
use goplint.Base.{
  ℕ, zero, suc, ◌+◌, ◌-◌, ◌*◌, ◌%◌, ◌^◌, max, String, str_eq, str_less, Bool, true, false, not,
  ◌&&◌, ◌||◌, ◌==◌, ltb, List, [], ◌∷◌, ◌++◌, Option, none, some, length, get_elem?, if◌then◌else◌,
}

-- The fields of a work unit that the grouping reads.
pub record WorkUnit : Type 0 where
  pub id : String
  pub mode : String
  pub total_weight : ℕ

-- `<` of two int64.
abbrev pub signed_less : ℕ → ℕ → Bool
signed_less a b = ltb ((a + 2 ^ 63) % 2 ^ 64) ((b + 2 ^ 63) % 2 ^ 64)

abbrev pub race_effective_weight_multiplier : ℕ
race_effective_weight_multiplier = 4

unfoldable pub effective_group_weight : WorkUnit → ℕ
effective_group_weight unit =
    let weight =
      if str_eq unit.mode "race"
      then (unit.total_weight * race_effective_weight_multiplier) % 2 ^ 64
      else unit.total_weight in
    if signed_less weight 1 then 1 else weight

-- The order of the assignment: heavier first, and by identity among equals.
unfoldable pub goes_before : WorkUnit → WorkUnit → Bool
goes_before left right =
    let left_weight = effective_group_weight left in
    let right_weight = effective_group_weight right in
    if not (left_weight == right_weight)
    then signed_less right_weight left_weight
    else str_less left.id right.id

abbrev pub id_before : WorkUnit → WorkUnit → Bool
id_before left right = str_less left.id right.id

-- `slices.SortFunc`, by insertion. Only equal units may come in another order, and these have one
-- identity.
unfoldable pub insert_unit : (WorkUnit → WorkUnit → Bool) → WorkUnit → List WorkUnit → List WorkUnit
insert_unit before u [] = u ∷ []
insert_unit before u (x ∷ xs) =
    let rest = insert_unit before u xs in if before u x then u ∷ x ∷ xs else x ∷ rest

unfoldable pub sort_units : (WorkUnit → WorkUnit → Bool) → List WorkUnit → List WorkUnit
unfolding insert_unit
sort_units before [] = []
sort_units before (u ∷ us) = insert_unit before u (sort_units before us)

-- A group with its entry of `totals`.
pub record WorkGroup : Type 0 where
  pub total : ℕ
  pub units : List WorkUnit

abbrev pub empty_groups : ℕ → List WorkGroup
empty_groups zero = []
empty_groups (suc count) = record { total = 0; units = [] } ∷ empty_groups count

-- The inner loop: the groups from the number `candidate` on, against the one selected so far.
unfoldable pub select_lightest : ℕ → ℕ → ℕ → List WorkGroup → ℕ
select_lightest selected total candidate [] = selected
select_lightest selected total candidate (g ∷ gs) =
    if signed_less g.total total
    then select_lightest candidate g.total (suc candidate) gs
    else select_lightest selected total (suc candidate) gs

unfoldable pub lightest : List WorkGroup → ℕ
unfolding select_lightest
lightest [] = 0
lightest (g ∷ gs) = select_lightest 0 g.total 1 gs

abbrev pub add_unit : WorkUnit → WorkGroup → WorkGroup
add_unit u g = record {
  total = (g.total + effective_group_weight u) % 2 ^ 64;
  units = g.units ++ u ∷ [];
}

unfoldable pub add_at : ℕ → WorkUnit → List WorkGroup → List WorkGroup
add_at i u [] = []
add_at zero u (g ∷ gs) = add_unit u g ∷ gs
add_at (suc i) u (g ∷ gs) = g ∷ add_at i u gs

unfoldable pub assign : List WorkUnit → List WorkGroup → List WorkGroup
unfolding add_at lightest
assign [] groups = groups
assign (u ∷ us) groups = assign us (add_at (lightest groups) u groups)

unfoldable pub partition : List WorkUnit → ℕ → List WorkGroup
unfolding assign sort_units
partition units count = assign (sort_units goes_before units) (empty_groups count)

abbrev pub nonempty : List WorkUnit → Option (List WorkUnit)
nonempty [] = none
nonempty (u ∷ us) = some (u ∷ us)

-- `none` for every error.
unfoldable pub select_work_group : List WorkUnit → ℕ → ℕ → Option (List WorkUnit)
unfolding partition sort_units
select_work_group units index count =
    if ltb count 1 || ltb index 1 || ltb count index
    then none
    else if length units == 0
    then none
    else if ltb (length units) count
    then none
    else elim (get_elem? (partition units count) (index - 1)) [
      | none ↦ none
      | some g ↦ nonempty (sort_units id_before g.units)
    ]
