-- ===== src/Scheduler.antt =====
-- The scheduler of the soundness gate: internal/soundnessgate/scheduler.go. Reservations and budgets
-- are positive numbers, which the plan validates before it is scheduled.
pub mod Conservation
pub mod Loop
use goplint.Base.{
  contains, ℕ, suc, ◌+◌, ◌-◌, String, str_eq, Bool, true, false, not, ◌&&◌, ◌||◌, leb, ltb, List,
  [], ◌∷◌, if◌then◌else◌,
}

pub record ResourceBudget : Type 0 where
  pub cpu_units : ℕ
  pub memory_bytes : ℕ
  pub maximum_workers : ℕ

-- The fields of a command that the scheduler reads.
pub record PlanCommand : Type 0 where
  pub work_unit_id : String
  pub reserved_cpu : ℕ
  pub reserved_memory : ℕ
  pub exclusivity_groups : List String

-- `exclusive` is a Go map, read as false at a missing key.
pub record SchedulerState : Type 0 where
  pub available_cpu : ℕ
  pub available_memory : ℕ
  pub running : ℕ
  pub exclusive : String → Bool

-- Some group of the list is taken.
unfoldable pub any_taken : (String → Bool) → List String → Bool
any_taken exclusive [] = false
any_taken exclusive (g ∷ gs) = if exclusive g then true else any_taken exclusive gs

unfoldable pub can_admit : ResourceBudget → SchedulerState → PlanCommand → Bool
unfolding any_taken
can_admit budget state command =
    if leb budget.maximum_workers state.running
      || ltb state.available_cpu command.reserved_cpu
      || ltb state.available_memory command.reserved_memory
    then false
    else not (any_taken state.exclusive command.exclusivity_groups)

-- `exclusive[group] = true` for every group.
unfoldable pub take_groups : List String → (String → Bool) → String → Bool
take_groups [] exclusive = exclusive
take_groups (group ∷ groups) exclusive =
    take_groups groups (λ g. if str_eq group g then true else exclusive g)

-- `delete(exclusive, group)` for every group.
unfoldable pub delete_groups : List String → (String → Bool) → String → Bool
delete_groups [] exclusive = exclusive
delete_groups (group ∷ groups) exclusive =
    delete_groups groups (λ g. if str_eq group g then false else exclusive g)

unfoldable pub reserve : SchedulerState → PlanCommand → SchedulerState
unfolding take_groups
reserve state command = record {
  available_cpu = state.available_cpu - command.reserved_cpu;
  available_memory = state.available_memory - command.reserved_memory;
  running = suc state.running;
  exclusive = take_groups command.exclusivity_groups state.exclusive;
}

unfoldable pub release : SchedulerState → PlanCommand → SchedulerState
unfolding delete_groups
release state command = record {
  available_cpu = state.available_cpu + command.reserved_cpu;
  available_memory = state.available_memory + command.reserved_memory;
  running = state.running - 1;
  exclusive = delete_groups command.exclusivity_groups state.exclusive;
}

-- `completed` is a Go map to true.
unfoldable pub dependencies_complete : List String → List String → Bool
dependencies_complete [] completed = true
dependencies_complete (dependency_id ∷ required) completed =
    if not (contains completed dependency_id)
    then false
    else dependencies_complete required completed

-- The state before the first admission.
abbrev pub initial_state : ResourceBudget → SchedulerState
initial_state budget = record {
  available_cpu = budget.cpu_units;
  available_memory = budget.memory_bytes;
  running = 0;
  exclusive = λ g. false;
}
