-- ===== src/WorkGroups/Shards/Balance.antt =====
-- The weights of the shards of internal/racerepeat/shards.go.
use goplint.Base.{
  ltb→lt, ℕ, zero, suc, ◌+◌, ◌^◌, ◌≤◌, ◌<◌, max, pos, String, if_branches, leb, ltb, some, List, [],
  ◌∷◌, length, All, ◌≡◌, ◌⊎◌, inl, inr, refl, sym, subst, ◌∙◌, arith,
}
use goplint.WorkGroups.{signed_less}
use goplint.WorkGroups.Shards.{
  TimingEntry, Shard, is_longer, insert_entry, sort_entries, empty_shards, lightest_shard,
  select_shard, add_to, assign_entries, derived_timeout_seconds, finish_shards, allocate_lpt,
}

unfoldable pub total_of : List TimingEntry → ℕ
total_of [] = 0
total_of (e ∷ es) = e.duration_weight + total_of es

unfoldable pub longest_of : List TimingEntry → ℕ
longest_of [] = 0
longest_of (e ∷ es) = max e.duration_weight (longest_of es)

-- Every weight is between `low` and `low + spread`, and at most `used`.
abbrev pub Within : ℕ → ℕ → ℕ → Shard → Type 0
Within low spread used s =
    (low ≤ s.total_weight) × (s.total_weight ≤ low + spread) × (s.total_weight ≤ used)

abbrev pub At : ℕ → ℕ → List Shard → Type 0
At i w [] = ⊥
At zero w (s ∷ ss) = s.total_weight ≡ w
At (suc i) w (s ∷ ss) = At i w ss

signed_below : (a b : ℕ) → a < 2 ^ 63 → b < 2 ^ 63 → signed_less a b ≡ ltb a b
signed_below a b h k = ground arith

-- The weight that the selection ends with is the least.
record Lightest (shards : List Shard) (i : ℕ) : Type 0 where
  weight : ℕ
  here : At i weight shards
  least : All (λ s. weight ≤ s.total_weight) shards

abbrev Small : Shard → Type 0
Small s = s.total_weight < 2 ^ 63

-- What the search for the lightest shard finds: the one that it starts with, or one of the list.
record Found (selected w index : ℕ) (ss : List Shard) (j : ℕ) : Type 0 where
  weight : ℕ
  lighter : weight ≤ w
  least : All (λ s. weight ≤ s.total_weight) ss
  place : ((j ≡ selected) × (weight ≡ w)) ⊎ ((i : ℕ) × (j ≡ index + i) × At i weight ss)

lightest_shard-Found :
    (selected w index : ℕ) (ss : List Shard)
    → w < 2 ^ 63
    → All Small ss
    → Found selected w index ss (lightest_shard selected w index ss)
unfolding lightest_shard
lightest_shard-Found selected w index [] h k = record {
  weight = w;
  lighter = omega arith;
  least = tt;
  place = inl (refl, refl);
}
lightest_shard-Found selected w index (s ∷ ss) h (k, ks) =
    if_branches (Found selected w index (s ∷ ss)) (signed_less s.total_weight w) _ _
      (λ e.
        let f = lightest_shard-Found index s.total_weight (suc index) ss k ks in
        let below = ltb→lt s.total_weight w (sym (signed_below s.total_weight w k h) ∙ e) in
        record {
          weight = f.weight;
          lighter = omega (arith, f.lighter, below);
          least = (f.lighter, f.least);
          place = elim (f.place) [
            | inl (a, b) ↦ inr (0, omega (arith, a), sym b)
            | inr (i, a, b) ↦ inr (suc i, omega (arith, a), b)
          ];
        })
      (λ e.
        let f = lightest_shard-Found selected w (suc index) ss h ks in
        let above : w ≤ s.total_weight = ground (arith, signed_below s.total_weight w k h, e) in
        record {
          weight = f.weight;
          lighter = f.lighter;
          least = (omega (arith, f.lighter, above), f.least);
          place = elim (f.place) [
            | inl (a, b) ↦ inl (a, b)
            | inr (i, a, b) ↦ inr (suc i, omega (arith, a), b)
          ];
        })

select_shard-Lightest :
    (s : Shard) (ss : List Shard)
    → Small s
    → All Small ss
    → Lightest (s ∷ ss) (select_shard (s ∷ ss))
unfolding select_shard
select_shard-Lightest s ss h hs =
    let f = lightest_shard-Found 0 s.total_weight 1 ss h hs in
    record {
      weight = f.weight;
      here = elim (f.place) [
        | inl (a, b) ↦ subst (λ j. At j f.weight (s ∷ ss)) (sym a) (sym b)
        | inr (i, a, b) ↦
            let is : suc i ≡ lightest_shard 0 s.total_weight 1 ss = omega (arith, a) in
            subst (λ j. At j f.weight (s ∷ ss)) is b
      ];
      least = (f.lighter, f.least);
    }

-- The others stay within, with the least weight as the new low.
others-Within :
    (low w spread used more : ℕ) (ss : List Shard)
    → low ≤ w
    → All (λ s. w ≤ s.total_weight) ss
    → All (Within low spread used) ss
    → All (Within w spread (used + more)) ss
others-Within low w spread used more [] h k l = tt
others-Within low w spread used more (s ∷ ss) h (k, ks) (l, ls) = (
  (k, omega (arith, h, l.1), omega (arith, l.2)),
  others-Within low w spread used more ss h ks ls,
)

add_to-Within :
    (i w low spread used : ℕ) (e : TimingEntry) (ss : List Shard)
    → At i w ss
    → low ≤ w
    → e.duration_weight ≤ spread
    → used + e.duration_weight < 2 ^ 63
    → All (λ s. w ≤ s.total_weight) ss
    → All (Within low spread used) ss
    → All (Within w spread (used + e.duration_weight)) (add_to i e ss)
unfolding add_to
add_to-Within i w low spread used e [] at below fits small k l = tt
add_to-Within zero w low spread used e (s ∷ ss) at below fits small (k, ks) (l, ls) = (
  (
    omega (arith, at, l.2, small),
    omega (arith, at, l.2, small, fits),
    omega (arith, at, l.2, small),
  ),
  others-Within low w spread used e.duration_weight ss below ks ls,
)
add_to-Within (suc i) w low spread used e (s ∷ ss) at below fits small (k, ks) (l, ls) = (
  (k, omega (arith, below, l.1), omega (arith, l.2)),
  add_to-Within i w low spread used e ss at below fits small ks ls,
)

low-le :
    (i w low spread used : ℕ) (ss : List Shard)
    → At i w ss
    → All (Within low spread used) ss
    → low ≤ w
low-le i w low spread used [] at l = absurd at
low-le zero w low spread used (s ∷ ss) at (l, ls) = omega (arith, at, l.0)
low-le (suc i) w low spread used (s ∷ ss) at (l, ls) = low-le i w low spread used ss at ls

Within-Small :
    (low spread used : ℕ) (ss : List Shard)
    → used < 2 ^ 63
    → All (Within low spread used) ss
    → All Small ss
Within-Small low spread used [] h l = tt
Within-Small low spread used (s ∷ ss) h (l, ls) =
    (omega (arith, h, l.2), Within-Small low spread used ss h ls)

-- One entry goes to the lightest shard.
one_more :
    (low spread used : ℕ) (e : TimingEntry) (ss : List Shard)
    → e.duration_weight ≤ spread
    → used + e.duration_weight < 2 ^ 63
    → All (Within low spread used) ss
    → (low' : ℕ) × All
        (Within low' spread (used + e.duration_weight))
        (add_to (select_shard ss) e ss)
unfolding add_to
one_more low spread used e [] fits small l = (low, tt)
one_more low spread used e (s ∷ ss) fits small l =
    let tiny = Within-Small low spread used (s ∷ ss) (omega (arith, small)) l in
    let z = select_shard-Lightest s ss tiny.0 tiny.1 in
    (
      z.weight,
      add_to-Within (select_shard (s ∷ ss)) z.weight low spread used e (s ∷ ss) z.here
          (low-le _ z.weight low spread used (s ∷ ss) z.here l) fits small z.least l,
    )

assign-Within :
    (es : List TimingEntry) (low spread used : ℕ) (ss : List Shard)
    → longest_of es ≤ spread
    → used + total_of es < 2 ^ 63
    → All (Within low spread used) ss
    → (low' : ℕ) × (used' : ℕ) × All (Within low' spread used') (assign_entries es ss)
unfolding assign_entries longest_of total_of
assign-Within [] low spread used ss fits small l = (low, used, l)
assign-Within (e ∷ es) low spread used ss fits small l =
    let (low', h) = one_more low spread used e ss (omega (arith, fits)) (omega (arith, small)) l in
    assign-Within es low' spread (used + e.duration_weight) (add_to (select_shard ss) e ss)
      (omega (arith, fits)) (omega (arith, small)) h

insert_entry-sums :
    (e : TimingEntry) (es : List TimingEntry)
    → (total_of (insert_entry e es) ≡ e.duration_weight + total_of es)
      × (longest_of (insert_entry e es) ≡ max e.duration_weight (longest_of es))
unfolding insert_entry total_of longest_of
insert_entry-sums e [] = (refl, refl)
insert_entry-sums e (x ∷ xs) =
    if_branches
      (λ ys.
        (total_of ys ≡ e.duration_weight + (x.duration_weight + total_of xs))
        × (longest_of ys ≡ max e.duration_weight (max x.duration_weight (longest_of xs))))
      (is_longer e x) _ _ (λ b. (refl, refl))
      (λ b. let ih = insert_entry-sums e xs in (omega (arith, ih.0), omega (arith, ih.1)))

sort_entries-sums :
    (es : List TimingEntry)
    → (total_of (sort_entries es) ≡ total_of es) × (longest_of (sort_entries es) ≡ longest_of es)
unfolding sort_entries total_of longest_of
sort_entries-sums [] = (refl, refl)
sort_entries-sums (e ∷ es) =
    let ih = sort_entries-sums es in
    let (a, b) = insert_entry-sums e (sort_entries es) in
    (omega (arith, ih.0, a), omega (arith, ih.1, b))

-- A shard within the spread, with a timeout of 2 to 30 minutes.
abbrev pub IsFair : ℕ → ℕ → Shard → Type 0
IsFair low spread s =
    (low ≤ s.total_weight)
    × (s.total_weight ≤ low + spread)
    × (120 ≤ s.timeout_seconds)
    × (s.timeout_seconds ≤ 1800)

derived_timeout_bounds :
    (weight : ℕ) (mode : String)
    → (120 ≤ derived_timeout_seconds weight mode) × (derived_timeout_seconds weight mode ≤ 1800)
unfolding derived_timeout_seconds
derived_timeout_bounds weight mode =
    if_branches (λ t. (120 ≤ t) × (t ≤ 1800)) (leb (2 ^ 63) weight) _ _
      (λ e. (omega arith, omega arith)) (λ e. (omega arith, omega arith))

finish-IsFair :
    (low spread used : ℕ) (mode : String) (ss : List Shard)
    → All (Within low spread used) ss
    → All (IsFair low spread) (finish_shards mode ss)
unfolding finish_shards
finish-IsFair low spread used mode [] h = tt
finish-IsFair low spread used mode (s ∷ ss) (h, hs) =
    let t = derived_timeout_bounds s.total_weight mode in
    ((h.0, h.1, t.0, t.1), finish-IsFair low spread used mode ss hs)

empty-Within :
    (spread : ℕ) (mode : String) (index count : ℕ)
    → All (Within 0 spread 0) (empty_shards mode index count)
unfolding empty_shards
empty-Within spread mode index zero = tt
empty-Within spread mode index (suc count) =
    ((omega arith, omega arith, omega arith), empty-Within spread mode (index + 1) count)

-- If the weights of a census add up to less than 2^63, the allocation of a positive number of shards
-- that is no larger than the census succeeds: no two shards differ by more than the longest entry,
-- and every timeout is between two and thirty minutes.
pub allocate_lpt-IsFair :
    (entries : List TimingEntry) (n : ℕ) (mode : String)
    → suc n ≤ length entries
    → total_of entries < 2 ^ 63
    → (shards : List Shard) × (allocate_lpt entries (pos (suc n)) mode ≡ some shards)
      × (low : ℕ) × All (IsFair low (longest_of entries)) shards
unfolding allocate_lpt
allocate_lpt-IsFair entries n mode enough small =
    let sums = sort_entries-sums entries in
    let (low, used, h) =
      assign-Within (sort_entries entries) 0 (longest_of entries) 0 (empty_shards mode 0 (suc n))
        (omega (arith, sums.1)) (omega (arith, sums.0, small))
        (empty-Within (longest_of entries) mode 0 (suc n)) in
    (
      finish_shards mode (assign_entries (sort_entries entries) (empty_shards mode 0 (suc n))),
      ground arith,
      low,
      finish-IsFair low (longest_of entries) used mode _ h,
    )
