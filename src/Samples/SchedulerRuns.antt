-- ===== src/Samples/SchedulerRuns.antt =====
-- internal/soundnessgate/scheduler.go at a concrete plan.
use goplint.Base.{contains, String, str_eq, false, List, [], ◌∷◌, ◌≡◌, refl, if◌then◌else◌}
use goplint.Scheduler.{
  ResourceBudget, PlanCommand, dependencies_complete, can_admit, reserve, release,
}
use goplint.Scheduler.Conservation.{here}
use goplint.Scheduler.Loop.{
  Progress, start, launch_all, complete_command, IsReachable, begins, steps, finishes,
}
use goplint.Scheduler.Loop.Invariant.{IsSound, reachable-IsSound}
use goplint.Scheduler.Loop.Pass.{launch_all-IsReachable}

abbrev pub budget : ResourceBudget
budget = record { cpu_units = 4; memory_bytes = 8; maximum_workers = 2 }

abbrev pub unit_test : PlanCommand
unit_test = record {
  work_unit_id = "unit";
  reserved_cpu = 2;
  reserved_memory = 3;
  exclusivity_groups = "go-cache" ∷ [];
}

abbrev pub race_test : PlanCommand
race_test = record {
  work_unit_id = "race";
  reserved_cpu = 1;
  reserved_memory = 3;
  exclusivity_groups = "go-cache" ∷ [];
}

abbrev pub report : PlanCommand
report = record {
  work_unit_id = "report";
  reserved_cpu = 1;
  reserved_memory = 1;
  exclusivity_groups = [];
}

abbrev requires : String → List String
requires id = if str_eq id "report" then "unit" ∷ [] else []

abbrev pub commands : List PlanCommand
commands = unit_test ∷ race_test ∷ report ∷ []

abbrev first_pass : Progress
first_pass = launch_all budget requires (start budget commands)

abbrev one_done : Progress
one_done = complete_command budget requires first_pass unit_test [] false

-- The race test waits for the group, and the report for the unit test.
first_launches : first_pass.in_flight ≡ unit_test ∷ []
unfolding launch_all dependencies_complete can_admit reserve contains
first_launches = refl

first_waits : first_pass.pending ≡ race_test ∷ report ∷ []
unfolding launch_all dependencies_complete can_admit reserve contains
first_waits = refl

both_follow : (launch_all budget requires one_done).in_flight ≡ report ∷ race_test ∷ []
unfolding launch_all complete_command dependencies_complete can_admit reserve contains release
both_follow = refl

one_done-IsReachable : IsReachable budget requires commands one_done
unfolding launch_all dependencies_complete can_admit reserve contains
one_done-IsReachable =
    steps (launch_all-IsReachable budget requires commands (start budget commands) begins)
      (finishes unit_test [] false here)

reachable-IsSound_example : IsSound budget requires commands one_done
reachable-IsSound_example = reachable-IsSound budget requires commands one_done one_done-IsReachable

launch_all-IsReachable_example :
    IsReachable budget requires commands (launch_all budget requires one_done)
launch_all-IsReachable_example =
    launch_all-IsReachable budget requires commands one_done one_done-IsReachable
