-- ===== src/Samples/WorkGroupRuns.antt =====
-- internal/racerepeat/groups.go and internal/racerepeat/shards.go at a concrete plan.
use goplint.Base.{
  All, none, pos, ℕ, str_less, String, str_eq, Bool, List, [], ◌∷◌, some, ◌≡◌, refl, arith, length,
}
use goplint.WorkGroups.{WorkUnit, partition, select_work_group, effective_group_weight, goes_before}
use goplint.WorkGroups.Shards.{TimingEntry, Shard, allocate_lpt, is_longer}
use goplint.WorkGroups.Shards.Balance.{IsFair, longest_of, total_of, allocate_lpt-IsFair}
use goplint.WorkGroups.Shards.Members.{count_members, count_entries, allocate_lpt-exhaustive}
use goplint.WorkGroups.Nonempty.{select_work_group_total}
use goplint.WorkGroups.Partition.{count_groups, partition-exhaustive}

abbrev unit : String → String → ℕ → WorkUnit
unit id mode weight = record { id = id; mode = mode; total_weight = weight }

-- The race unit weighs four times its weight.
abbrev plan : List WorkUnit
plan = unit "a" "repeat" 30 ∷ unit "b" "race" 10 ∷ unit "c" "repeat" 5 ∷ []

second_group : select_work_group plan 2 2 ≡ some (unit "a" "repeat" 30 ∷ unit "c" "repeat" 5 ∷ [])
unfolding select_work_group effective_group_weight goes_before str_less
second_group = refl

abbrev is_repeat : WorkUnit → Bool
is_repeat u = str_eq u.mode "repeat"

partition-exhaustive_example :
    (length (partition plan 2) ≡ 2) × (count_groups is_repeat (partition plan 2) ≡ 2)
partition-exhaustive_example = partition-exhaustive plan 2 is_repeat (omega arith)

select_work_group_total_example : (r : List WorkUnit) × (select_work_group plan 2 2 ≡ some r)
unfolding effective_group_weight
select_work_group_total_example =
    select_work_group_total plan 2 2 (omega arith) (omega arith) (omega arith) (omega arith)

abbrev entry : String → ℕ → TimingEntry
entry id weight = record { id = id; duration_weight = weight }

abbrev census : List TimingEntry
census = entry "a" 30 ∷ entry "b" 70 ∷ entry "c" 50 ∷ []

-- The longest entry has a shard for itself.
abbrev shards : List Shard
shards =
    record { id = "race-01"; member_ids = "b" ∷ []; total_weight = 70; timeout_seconds = 120 }
    ∷ record {
      id = "race-02";
      member_ids = "a" ∷ "c" ∷ [];
      total_weight = 80;
      timeout_seconds = 120;
    }
    ∷ []

two_shards : allocate_lpt census (pos 2) "race" ≡ some shards
unfolding allocate_lpt is_longer str_less
two_shards = refl

abbrev is_c : String → Bool
is_c id = str_eq id "c"

allocate_lpt-exhaustive_example :
    (length shards ≡ 2) × (count_members is_c shards ≡ count_entries is_c census)
allocate_lpt-exhaustive_example = allocate_lpt-exhaustive is_c census 1 "race" shards two_shards

too_many_shards : allocate_lpt census (pos 4) "race" ≡ none
unfolding allocate_lpt
too_many_shards = refl

allocate_lpt-IsFair_example :
    (filled : List Shard) × (allocate_lpt census (pos 2) "race" ≡ some filled)
    × (low : ℕ) × All (IsFair low (longest_of census)) filled
unfolding total_of
allocate_lpt-IsFair_example = allocate_lpt-IsFair census 1 "race" (omega arith) (omega arith)
