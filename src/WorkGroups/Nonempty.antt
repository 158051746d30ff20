-- ===== src/WorkGroups/Nonempty.antt =====
-- No group of a plan is empty, as long as the weights of the plan add up without overflow.
use goplint.Base.{
  ℕ, zero, suc, ◌+◌, ◌-◌, ◌^◌, ◌≤◌, ◌<◌, Bool, true, ◌==◌, List, [], ◌∷◌, ◌++◌, some, length,
  get_elem?, if◌then◌else◌, ◌≡◌, refl, sym, subst, ap, ◌∙◌, arith, Bool-cases, inl, inr, All,
}
use goplint.WorkGroups.{
  WorkUnit, WorkGroup, signed_less, effective_group_weight, insert_unit, sort_units, empty_groups,
  select_lightest, lightest, add_at, assign, partition, nonempty, select_work_group, goes_before,
  id_before,
}
use goplint.WorkGroups.Partition.{partition-exhaustive}

-- The sum of the effective weights.
abbrev pub load : List WorkUnit → ℕ
load [] = 0
load (u ∷ us) = effective_group_weight u + load us

abbrev load_groups : List WorkGroup → ℕ
load_groups [] = 0
load_groups (g ∷ gs) = g.total + load_groups gs

-- The number of groups without weight.
abbrev empties : List WorkGroup → ℕ
empties [] = 0
empties (g ∷ gs) = (if g.total == 0 then 1 else 0) + empties gs

abbrev IsEmptyAt : ℕ → List WorkGroup → Type 0
IsEmptyAt i [] = ⊥
IsEmptyAt zero (g ∷ gs) = g.total ≡ 0
IsEmptyAt (suc i) (g ∷ gs) = IsEmptyAt i gs

-- A group without units has no weight.
abbrev AreFair : List WorkGroup → Type 0
AreFair = All (λ (g : WorkGroup). (length g.units ≡ 0) → g.total ≡ 0)

load-insert :
    (before : WorkUnit → WorkUnit → Bool) (u : WorkUnit) (us : List WorkUnit)
    → load (insert_unit before u us) ≡ effective_group_weight u + load us
unfolding insert_unit
load-insert before u [] = refl
load-insert before u (x ∷ xs) = ground (arith, load-insert before u xs)

load-sort :
    (before : WorkUnit → WorkUnit → Bool) (us : List WorkUnit)
    → load (sort_units before us) ≡ load us
unfolding sort_units
load-sort before [] = refl
load-sort before (u ∷ us) =
    load-insert before u (sort_units before us)
    ∙ ap (λ n. effective_group_weight u + n) (load-sort before us)

length-insert :
    (before : WorkUnit → WorkUnit → Bool) (u : WorkUnit) (us : List WorkUnit)
    → length (insert_unit before u us) ≡ suc (length us)
unfolding insert_unit
length-insert before u [] = refl
length-insert before u (x ∷ xs) = ground (arith, length-insert before u xs)

length-sort :
    (before : WorkUnit → WorkUnit → Bool) (us : List WorkUnit)
    → length (sort_units before us) ≡ length us
unfolding sort_units
length-sort before [] = refl
length-sort before (u ∷ us) =
    length-insert before u (sort_units before us) ∙ ap suc (length-sort before us)

weight_positive : (u : WorkUnit) → effective_group_weight u < 2 ^ 63 → 1 ≤ effective_group_weight u
unfolding effective_group_weight
weight_positive u h = ground arith

stays :
    (selected candidate : ℕ) (gs : List WorkGroup)
    → load_groups gs < 2 ^ 63
    → select_lightest selected 0 candidate gs ≡ selected
unfolding select_lightest
stays selected candidate [] h = refl
stays selected candidate (g ∷ gs) h =
    ground (arith, stays selected (suc candidate) gs (omega arith))

finds :
    (selected total candidate : ℕ) (gs : List WorkGroup)
    → 1 ≤ total
    → total < 2 ^ 63
    → load_groups gs < 2 ^ 63
    → 1 ≤ empties gs
    → (j : ℕ) × (select_lightest selected total candidate gs ≡ candidate + j) × IsEmptyAt j gs
unfolding select_lightest
finds selected total candidate [] p q h e = absurd (omega arith)
finds selected total candidate (g ∷ gs) p q h e = elim (Bool-cases (g.total == 0)) [
  | inl here ↦ (0, ground (arith, stays candidate (suc candidate) gs (omega arith)), ground arith)
  | inr later ↦ elim (Bool-cases (signed_less g.total total)) [
    | inl less ↦
        let (j, at, empty) =
          finds candidate g.total (suc candidate) gs (ground arith) (omega arith) (omega arith)
            (ground arith) in
        (suc j, ground (arith, at), empty)
    | inr more ↦
        let (j, at, empty) =
          finds selected total (suc candidate) gs p q (omega arith) (ground arith) in
        (suc j, ground (arith, at), empty)
  ]
]

lightest-IsEmptyAt :
    (gs : List WorkGroup) → load_groups gs < 2 ^ 63 → 1 ≤ empties gs → IsEmptyAt (lightest gs) gs
unfolding lightest
lightest-IsEmptyAt [] h e = absurd (omega arith)
lightest-IsEmptyAt (g ∷ gs) h e = elim (Bool-cases (g.total == 0)) [
  | inl here ↦
      let none_left : g.total ≡ 0 = ground arith in
      let same : select_lightest 0 g.total 1 gs ≡ 0 =
        subst (λ n. select_lightest 0 n 1 gs ≡ 0) (sym none_left) (stays 0 1 gs (omega arith)) in
      subst (λ i. IsEmptyAt i (g ∷ gs)) (sym same) none_left
  | inr later ↦
      let (j, at, empty) =
        finds 0 g.total 1 gs (ground arith) (omega arith) (omega arith) (ground arith) in
      let same : select_lightest 0 g.total 1 gs ≡ suc j = omega (arith, at) in
      subst (λ i. IsEmptyAt i (g ∷ gs)) (sym same) empty
]

load-add_at :
    (i : ℕ) (u : WorkUnit) (gs : List WorkGroup)
    → effective_group_weight u + load_groups gs < 2 ^ 63
    → load_groups (add_at i u gs) ≤ effective_group_weight u + load_groups gs
unfolding add_at
load-add_at i u [] h = omega arith
load-add_at zero u (g ∷ gs) h = omega arith
load-add_at (suc i) u (g ∷ gs) h = omega (arith, load-add_at i u gs (omega arith))

-- An assignment makes no group empty.
empties-add_at :
    (i : ℕ) (u : WorkUnit) (gs : List WorkGroup)
    → effective_group_weight u + load_groups gs < 2 ^ 63
    → empties (add_at i u gs) ≤ empties gs
unfolding add_at
empties-add_at i u [] h = omega arith
empties-add_at zero u (g ∷ gs) h = ground arith
empties-add_at (suc i) u (g ∷ gs) h = omega (arith, empties-add_at i u gs (omega arith))

empties-add_at_empty :
    (i : ℕ) (u : WorkUnit) (gs : List WorkGroup)
    → effective_group_weight u + load_groups gs < 2 ^ 63
    → IsEmptyAt i gs
    → suc (empties (add_at i u gs)) ≤ empties gs
unfolding add_at
empties-add_at_empty i u [] h e = absurd e
empties-add_at_empty zero u (g ∷ gs) h e = ground (arith, weight_positive u (omega arith))
empties-add_at_empty (suc i) u (g ∷ gs) h e =
    omega (arith, empties-add_at_empty i u gs (omega arith) e)

assign_fills :
    (us : List WorkUnit) (gs : List WorkGroup)
    → load us + load_groups gs < 2 ^ 63
    → empties gs ≤ length us
    → empties (assign us gs) ≡ 0
unfolding assign
assign_fills [] gs h e = omega arith
assign_fills (u ∷ us) gs h e =
    assign_fills us (add_at (lightest gs) u gs)
      (omega (arith, load-add_at (lightest gs) u gs (omega arith)))
      (elim (Bool-cases (empties gs == 0)) [
        | inl full ↦ ground (arith, empties-add_at (lightest gs) u gs (omega arith))
        | inr left ↦ omega (
          arith,
          empties-add_at_empty (lightest gs) u gs (omega arith)
              (lightest-IsEmptyAt gs (omega arith) (ground arith)),
        )
      ])

more_than_none : (us : List WorkUnit) (u : WorkUnit) → length (us ++ u ∷ []) ≡ 0 → ⊥
more_than_none [] u e = omega arith
more_than_none (x ∷ us) u e = omega arith

fair-add_at : (i : ℕ) (u : WorkUnit) (gs : List WorkGroup) → AreFair gs → AreFair (add_at i u gs)
unfolding add_at
fair-add_at i u [] h = tt
fair-add_at zero u (g ∷ gs) (h, hs) = (λ e. absurd (more_than_none g.units u e), hs)
fair-add_at (suc i) u (g ∷ gs) (h, hs) = (h, fair-add_at i u gs hs)

fair-assign : (us : List WorkUnit) (gs : List WorkGroup) → AreFair gs → AreFair (assign us gs)
unfolding assign
fair-assign [] gs h = h
fair-assign (u ∷ us) gs h =
    fair-assign us (add_at (lightest gs) u gs) (fair-add_at (lightest gs) u gs h)

fair_empty : (n : ℕ) → AreFair (empty_groups n)
fair_empty zero = tt
fair_empty (suc n) = (λ e. refl, fair_empty n)

load_empty : (n : ℕ) → load_groups (empty_groups n) ≡ 0
load_empty zero = refl
load_empty (suc n) = omega (arith, load_empty n)

empties_empty : (n : ℕ) → empties (empty_groups n) ≡ n
empties_empty zero = refl
empties_empty (suc n) = omega (arith, empties_empty n)

-- In a fair list without empty groups, every number below the length is that of a group with units.
full_at :
    (gs : List WorkGroup) (i : ℕ)
    → AreFair gs
    → empties gs ≡ 0
    → i < length gs
    → (g : WorkGroup) × (get_elem? gs i ≡ some g) × (1 ≤ length g.units)
full_at [] i f e h = absurd (omega arith)
full_at (g ∷ gs) zero (f, fs) e h = (g, refl, ground (arith, f))
full_at (g ∷ gs) (suc i) (f, fs) e h = full_at gs i fs (ground arith) (omega arith)

partition_full :
    (units : List WorkUnit) (count : ℕ)
    → load units < 2 ^ 63
    → count ≤ length units
    → empties (partition units count) ≡ 0
unfolding partition
partition_full units count h e =
    assign_fills (sort_units goes_before units) (empty_groups count)
      (omega (arith, load-sort goes_before units, load_empty count))
      (omega (arith, length-sort goes_before units, empties_empty count))

partition_fair : (units : List WorkUnit) (count : ℕ) → AreFair (partition units count)
unfolding partition
partition_fair units count =
    fair-assign (sort_units goes_before units) (empty_groups count) (fair_empty count)

nonempty-some_of :
    (us : List WorkUnit) → 1 ≤ length us → (r : List WorkUnit) × (nonempty us ≡ some r)
nonempty-some_of [] h = absurd (omega arith)
nonempty-some_of (u ∷ us) h = (u ∷ us, refl)

-- Every index of a plan that has at least as many units as groups, and whose effective weights add
-- up without overflow, selects a group: none is empty.
pub select_work_group_total :
    (units : List WorkUnit) (index count : ℕ)
    → 1 ≤ index
    → index ≤ count
    → count ≤ length units
    → load units < 2 ^ 63
    → (r : List WorkUnit) × (select_work_group units index count ≡ some r)
unfolding select_work_group
select_work_group_total units index count p q e h =
    let (cut, _) = partition-exhaustive units count (λ u. true) (omega arith) in
    let (g, found, many) =
      full_at (partition units count) (index - 1) (partition_fair units count)
        (partition_full units count h e) (omega (arith, cut)) in
    let (r, sorted) =
      nonempty-some_of (sort_units id_before g.units)
        (omega (arith, many, length-sort id_before g.units)) in
    (r, ground (arith, found, sorted))
