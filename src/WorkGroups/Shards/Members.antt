-- ===== src/WorkGroups/Shards/Members.antt =====
-- The members of the shards of internal/racerepeat/shards.go.
use goplint.Base.{
  ℕ, zero, suc, ◌+◌, ◌<◌, pos, String, str_less, insert_by, sort_by, Bool, if_branches, ltb, Option,
  some, List, [], ◌∷◌, ◌++◌, length, ◌≡◌, refl, sym, ap, ◌∙◌, arith, if◌then◌else◌,
}
use goplint.WorkGroups.{signed_less}
use goplint.WorkGroups.Shards.{
  TimingEntry, Shard, is_longer, insert_entry, sort_entries, empty_shards, lightest_shard,
  select_shard, add_to, assign_entries, finish_shards, allocate_lpt,
}

module _ (f : String → Bool) where
  one : String → ℕ
  one id = if f id then 1 else 0

  unfoldable pub count_ids : List String → ℕ
  unfolding one
  count_ids [] = 0
  count_ids (id ∷ ids) = one id + count_ids ids

  unfoldable pub count_entries : List TimingEntry → ℕ
  unfolding one
  count_entries [] = 0
  count_entries (e ∷ es) = one e.id + count_entries es

  unfoldable pub count_members : List Shard → ℕ
  unfolding count_ids
  count_members [] = 0
  count_members (s ∷ ss) = count_ids s.member_ids + count_members ss

  count_ids-append :
      (xs : List String) (y : String) → count_ids (xs ++ y ∷ []) ≡ count_ids xs + one y
  unfolding count_ids
  count_ids-append [] y = omega arith
  count_ids-append (x ∷ xs) y = omega (arith, count_ids-append xs y)

  count_ids-insert :
      (x : String) (xs : List String) → count_ids (insert_by (λ id. id) x xs) ≡ one x + count_ids xs
  unfolding count_ids
  count_ids-insert x [] = refl
  count_ids-insert x (y ∷ ys) =
      if_branches (λ zs. count_ids zs ≡ one x + (one y + count_ids ys)) (str_less x y) _ _
        (λ e. refl) (λ e. omega (arith, count_ids-insert x ys))

  count_ids-sort : (xs : List String) → count_ids (sort_by (λ id. id) xs) ≡ count_ids xs
  unfolding count_ids sort_by
  count_ids-sort [] = refl
  count_ids-sort (x ∷ xs) =
      omega (arith, count_ids-insert x (sort_by (λ id. id) xs), count_ids-sort xs)

  count_entries-insert :
      (e : TimingEntry) (es : List TimingEntry)
      → count_entries (insert_entry e es) ≡ one e.id + count_entries es
  unfolding count_entries insert_entry
  count_entries-insert e [] = refl
  count_entries-insert e (x ∷ xs) =
      if_branches (λ ys. count_entries ys ≡ one e.id + (one x.id + count_entries xs))
        (is_longer e x) _ _ (λ b. refl) (λ b. omega (arith, count_entries-insert e xs))

  count_entries-sort : (es : List TimingEntry) → count_entries (sort_entries es) ≡ count_entries es
  unfolding count_entries sort_entries
  count_entries-sort [] = refl
  count_entries-sort (e ∷ es) =
      omega (arith, count_entries-insert e (sort_entries es), count_entries-sort es)

  count-add_to :
      (i : ℕ) (e : TimingEntry) (ss : List Shard)
      → i < length ss
      → count_members (add_to i e ss) ≡ one e.id + count_members ss
  unfolding count_members add_to
  count-add_to i e [] h = absurd (omega arith)
  count-add_to zero e (s ∷ ss) h = omega (arith, count_ids-append s.member_ids e.id)
  count-add_to (suc i) e (s ∷ ss) h = omega (arith, count-add_to i e ss (omega (arith, h)))

  count-finish :
      (mode : String) (ss : List Shard) → count_members (finish_shards mode ss) ≡ count_members ss
  unfolding count_members finish_shards
  count-finish mode [] = refl
  count-finish mode (s ∷ ss) = omega (arith, count_ids-sort s.member_ids, count-finish mode ss)

  count-empty :
      (mode : String) (index count : ℕ) → count_members (empty_shards mode index count) ≡ 0
  unfolding count_members empty_shards count_ids
  count-empty mode index zero = refl
  count-empty mode index (suc count) = omega (arith, count-empty mode (index + 1) count)

lightest_shard-lt :
    (selected w index : ℕ) (ss : List Shard)
    → selected < index
    → lightest_shard selected w index ss < index + length ss
unfolding lightest_shard
lightest_shard-lt selected w index [] h = omega (arith, h)
lightest_shard-lt selected w index (s ∷ ss) h =
    if_branches (λ j. j < index + suc (length ss)) (signed_less s.total_weight w) _ _
      (λ e. omega (arith, lightest_shard-lt index s.total_weight (suc index) ss (omega arith)))
      (λ e. omega (arith, lightest_shard-lt selected w (suc index) ss (omega (arith, h))))

select_shard-lt : (ss : List Shard) → 0 < length ss → select_shard ss < length ss
unfolding select_shard
select_shard-lt [] h = absurd (omega arith)
select_shard-lt (s ∷ ss) h = omega (arith, lightest_shard-lt 0 s.total_weight 1 ss (omega arith))

length-add_to : (i : ℕ) (e : TimingEntry) (ss : List Shard) → length (add_to i e ss) ≡ length ss
unfolding add_to
length-add_to i e [] = refl
length-add_to zero e (s ∷ ss) = refl
length-add_to (suc i) e (s ∷ ss) = ap suc (length-add_to i e ss)

length-finish : (mode : String) (ss : List Shard) → length (finish_shards mode ss) ≡ length ss
unfolding finish_shards
length-finish mode [] = refl
length-finish mode (s ∷ ss) = ap suc (length-finish mode ss)

length-empty : (mode : String) (index count : ℕ) → length (empty_shards mode index count) ≡ count
unfolding empty_shards
length-empty mode index zero = refl
length-empty mode index (suc count) = ap suc (length-empty mode (index + 1) count)

count-assign :
    (f : String → Bool) (es : List TimingEntry) (ss : List Shard)
    → 0 < length ss
    → (count_members f (assign_entries es ss) ≡ count_entries f es + count_members f ss)
      × (length (assign_entries es ss) ≡ length ss)
unfolding assign_entries count_entries
count-assign f [] ss h = (omega arith, refl)
count-assign f (e ∷ es) ss h =
    let i = select_shard ss in
    let same = length-add_to i e ss in
    let (a, b) = count-assign f es (add_to i e ss) (omega (arith, same, h)) in
    (omega (arith, a, count-add_to f i e ss (select_shard-lt ss h)), b ∙ same)

-- The shards are as many as were asked for, and hold together each entry of the census as often as
-- the census does.
pub allocate_lpt-exhaustive :
    (f : String → Bool) (entries : List TimingEntry) (n : ℕ) (mode : String) (shards : List Shard)
    → allocate_lpt entries (pos (suc n)) mode ≡ some shards
    → (length shards ≡ suc n) × (count_members f shards ≡ count_entries f entries)
unfolding allocate_lpt
allocate_lpt-exhaustive f entries n mode shards =
    let blank = empty_shards mode 0 (suc n) in
    let blank_length = length-empty mode 0 (suc n) in
    let (a, b) = count-assign f (sort_entries entries) blank (omega (arith, blank_length)) in
    let full = assign_entries (sort_entries entries) blank in
    if_branches
      (λ (o : Option (List Shard)).
        o ≡ some shards
        → (length shards ≡ suc n) × (count_members f shards ≡ count_entries f entries))
      (ltb (length entries) (suc n)) _ _ (λ e h. absurd (cc h))
      (λ e h.
        let same : finish_shards mode full ≡ shards = cc h in
        (
          sym (ap (length {A = Shard}) same) ∙ length-finish mode full ∙ b ∙ blank_length,
          sym (ap (count_members f) same)
              ∙ omega (
                arith,
                count-finish f mode full,
                a,
                count_entries-sort f entries,
                count-empty f mode 0 (suc n),
              ),
        ))
