-- ===== src/WorkGroups/Shards.antt =====
-- The shards of a race and repeat run: `AllocateLPT` of internal/racerepeat/shards.go. An int64 is a
-- number below 2 ^ 64 here, in two's complement.
pub mod Balance
pub mod Members
use goplint.Base.{
  ℕ, zero, suc, ◌+◌, ◌*◌, ◌/◌, ◌%◌, ◌^◌, min, max, ℤ, pos, negsuc, decimal, String, str_eq,
  str_less, append, sort_by, Bool, true, false, not, ◌||◌, ◌==◌, ltb, leb, Option, none, some, List,
  [], ◌∷◌, ◌++◌, length, if◌then◌else◌,
}
use goplint.WorkGroups.{signed_less}

-- The fields of a timing entry that the allocation reads.
pub record TimingEntry : Type 0 where
  pub id : String
  pub duration_weight : ℕ

pub record Shard : Type 0 where
  pub id : String
  pub member_ids : List String
  pub total_weight : ℕ
  pub timeout_seconds : ℕ

-- Longer first, and by identity among equals.
unfoldable pub is_longer : TimingEntry → TimingEntry → Bool
is_longer left right =
    if not (left.duration_weight == right.duration_weight)
    then signed_less right.duration_weight left.duration_weight
    else str_less left.id right.id

unfoldable pub insert_entry : TimingEntry → List TimingEntry → List TimingEntry
insert_entry e [] = e ∷ []
insert_entry e (x ∷ xs) =
    let rest = insert_entry e xs in if is_longer e x then e ∷ x ∷ xs else x ∷ rest

unfoldable pub sort_entries : List TimingEntry → List TimingEntry
unfolding insert_entry
sort_entries [] = []
sort_entries (e ∷ es) = insert_entry e (sort_entries es)

-- `%02d`
abbrev two_digits : ℕ → String
unfolding decimal
two_digits n = if ltb n 10 then append "0" (decimal (pos n)) else decimal (pos n)

unfoldable pub empty_shards : String → ℕ → ℕ → List Shard
unfolding two_digits
empty_shards mode index zero = []
empty_shards mode index (suc count) =
    record {
      id = append mode (append "-" (two_digits (index + 1)));
      member_ids = [];
      total_weight = 0;
      timeout_seconds = 0;
    }
    ∷ empty_shards mode (index + 1) count

-- The first of the lightest shards: `selected` of weight `w` is the lightest up to `index`.
unfoldable pub lightest_shard : ℕ → ℕ → ℕ → List Shard → ℕ
lightest_shard selected w index [] = selected
lightest_shard selected w index (s ∷ ss) =
    if signed_less s.total_weight w
    then lightest_shard index s.total_weight (suc index) ss
    else lightest_shard selected w (suc index) ss

unfoldable pub select_shard : List Shard → ℕ
unfolding lightest_shard
select_shard [] = 0
select_shard (s ∷ ss) = lightest_shard 0 s.total_weight 1 ss

abbrev pub with_entry : TimingEntry → Shard → Shard
with_entry e s = record s {
  member_ids = s.member_ids ++ e.id ∷ [];
  total_weight = (s.total_weight + e.duration_weight) % 2 ^ 64;
}

unfoldable pub add_to : ℕ → TimingEntry → List Shard → List Shard
add_to i e [] = []
add_to zero e (s ∷ ss) = with_entry e s ∷ ss
add_to (suc i) e (s ∷ ss) = s ∷ add_to i e ss

unfoldable pub assign_entries : List TimingEntry → List Shard → List Shard
unfolding select_shard add_to
assign_entries [] shards = shards
assign_entries (e ∷ es) shards = assign_entries es (add_to (select_shard shards) e shards)

-- A negative weight comes to the least timeout.
unfoldable pub derived_timeout_seconds : ℕ → String → ℕ
derived_timeout_seconds weight mode =
    let multiplier = if str_eq mode "race" then 6 else 3 in
    if leb (2 ^ 63) weight
    then 120
    else max 120 (min ((weight / 1000000000) * multiplier + 60) (30 * 60))

unfoldable pub finish_shards : String → List Shard → List Shard
unfolding derived_timeout_seconds sort_by
finish_shards mode [] = []
finish_shards mode (s ∷ ss) =
    record s {
      member_ids = sort_by (λ id. id) s.member_ids;
      timeout_seconds = derived_timeout_seconds s.total_weight mode;
    }
    ∷ finish_shards mode ss

-- `none` is the error.
unfoldable pub allocate_lpt : List TimingEntry → ℤ → String → Option (List Shard)
unfolding finish_shards assign_entries sort_entries empty_shards
allocate_lpt entries (pos (suc n)) mode =
    if ltb (length entries) (suc n)
    then none
    else some
        (finish_shards mode (assign_entries (sort_entries entries) (empty_shards mode 0 (suc n))))
allocate_lpt entries _ mode = none
