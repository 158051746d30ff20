-- ===== src/Scheduler/Loop.antt =====
-- `schedulePlan` as a relation of steps. One round of its loop launches commands, in the order of
-- their priority, and then waits for any one of the commands that run.
pub mod Invariant
pub mod Pass
pub mod Liveness
use goplint.Base.{
  ℕ, ◌+◌, String, str_eq, Bool, true, false, not, ◌&&◌, ◌||◌, List, [], ◌∷◌, ◌++◌, if◌then◌else◌,
  ◌≡◌,
}
use goplint.Scheduler.{
  ResourceBudget, PlanCommand, SchedulerState, can_admit, reserve, release, dependencies_complete,
  initial_state,
}
use goplint.Scheduler.Conservation.{IsPick}

-- The variables of the loop. `internal_failure` stops the launches, and so does a context that ends
-- from outside, which is `ended`. The newest of the commands that run is the first.
pub record Progress : Type 0 where
  pub state : SchedulerState
  pub pending : List PlanCommand
  pub in_flight : List PlanCommand
  pub completed : List String
  pub results : List PlanCommand
  pub internal_failure : Bool
  pub ended : Bool

abbrev pub start : ResourceBudget → List PlanCommand → Progress
start budget commands = record {
  state = initial_state budget;
  pending = commands;
  in_flight = [];
  completed = [];
  results = [];
  internal_failure = false;
  ended = false;
}

module _ (budget : ResourceBudget) (dependencies : String → List String) where
  unfoldable pub can_launch : Progress → PlanCommand → Bool
  can_launch p c =
      not p.internal_failure
      && not p.ended
      && dependencies_complete (dependencies c.work_unit_id) p.completed
      && can_admit budget p.state c

  unfoldable pub launch : Progress → PlanCommand → List PlanCommand → Progress
  launch p c rest = record p {
    pending = rest;
    state = reserve p.state c;
    in_flight = c ∷ p.in_flight;
  }

  -- The loop over the commands: those before `c` stay pending, in `kept`.
  unfoldable pub launch_pass : List PlanCommand → List PlanCommand → Progress → Progress
  unfolding can_launch launch
  launch_pass kept [] p = p
  launch_pass kept (c ∷ cs) p =
      let launched = launch_pass kept cs (launch p c (kept ++ cs)) in
      let skipped = launch_pass (kept ++ c ∷ []) cs p in
      if can_launch p c then launched else skipped

  unfoldable pub launch_all : Progress → Progress
  unfolding launch_pass
  launch_all p = launch_pass [] p.pending p

  -- A first failure: it cancels the context.
  abbrev fails : Progress → Bool → Bool
  fails p failed = failed && not p.internal_failure && not p.ended

  -- A completion of `c`, with an error or without.
  unfoldable pub complete_command : Progress → PlanCommand → List PlanCommand → Bool → Progress
  complete_command p c rest failed = record p {
    state = release p.state c;
    in_flight = rest;
    results = p.results ++ c ∷ [];
    internal_failure = fails p failed || p.internal_failure;
    ended = fails p failed || p.ended;
    completed = if failed then p.completed else c.work_unit_id ∷ p.completed;
  }

  pub data Step (p : Progress) : Progress → Type 0 where
    launches :
        (c : PlanCommand) (rest : List PlanCommand)
        → IsPick c p.pending rest
        → can_launch p c ≡ true
        → Step p (launch p c rest)
    finishes :
        (c : PlanCommand) (rest : List PlanCommand) (failed : Bool)
        → IsPick c p.in_flight rest
        → Step p (complete_command p c rest failed)
    ends : Step p (record p { ended = true })

  -- The states that a run reaches.
  pub data IsReachable (commands : List PlanCommand) : Progress → Type 0 where
    begins : IsReachable commands (start budget commands)
    steps : {p q : Progress} → IsReachable commands p → Step p q → IsReachable commands q
