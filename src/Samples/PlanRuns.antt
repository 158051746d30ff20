-- ===== src/Samples/PlanRuns.antt =====
-- internal/soundnessgate/plan_model.go at the dependencies of a plan of three commands.
use goplint.Base.{
  contains, ◌≤◌, String, str_less, false, List, [], ◌∷◌, some, none, ◌≡◌, refl, arith, length,
}
use goplint.Plan.{
  PlanDependency, dependency_cycle, requires_of, validate_plan_dependencies,
  validate_dependency_cycles,
}
use goplint.Plan.Visiting.{DependsOn}
use goplint.Plan.Cycles.{validate_dependency_cycles_sound, validate_dependency_cycles_complete}
use goplint.Scheduler.{dependencies_complete, can_admit, reserve, release}
use goplint.Scheduler.Conservation.{here}
use goplint.Scheduler.Loop.{
  Progress, start, launch_all, complete_command, IsReachable, begins, steps, finishes,
}
use goplint.Scheduler.Loop.Pass.{launch_all-IsReachable}
use goplint.Scheduler.Loop.Liveness.{validated_plan_progress}
use goplint.Samples.SchedulerRuns.{budget, unit_test, race_test, report, commands}

abbrev deps : List PlanDependency
deps =
    record { work_unit_id = "race"; requires = [] }
    ∷ record { work_unit_id = "report"; requires = "unit" ∷ [] }
    ∷ record { work_unit_id = "unit"; requires = [] }
    ∷ []

abbrev circular : List PlanDependency
circular =
    record { work_unit_id = "race"; requires = "unit" ∷ [] }
    ∷ record { work_unit_id = "unit"; requires = "race" ∷ [] }
    ∷ []

valid_deps : validate_plan_dependencies deps ("unit" ∷ "race" ∷ "report" ∷ []) ≡ none
unfolding validate_plan_dependencies contains str_less requires_of
valid_deps = refl

acyclic : validate_dependency_cycles deps ≡ none
unfolding validate_dependency_cycles contains requires_of
acyclic = refl

found_cycle : validate_dependency_cycles circular ≡ some dependency_cycle
unfolding validate_dependency_cycles contains requires_of
found_cycle = refl

abbrev first_pass : Progress
first_pass = launch_all budget (requires_of deps) (start budget commands)

abbrev one_done : Progress
one_done = complete_command budget (requires_of deps) first_pass unit_test [] false

one_done-IsReachable : IsReachable budget (requires_of deps) commands one_done
unfolding launch_all dependencies_complete can_admit reserve contains requires_of
one_done-IsReachable =
    steps (launch_all-IsReachable budget (requires_of deps) commands (start budget commands) begins)
      (finishes unit_test [] false here)

validate_dependency_cycles_sound_example : ¬ DependsOn deps "report" "report"
validate_dependency_cycles_sound_example = validate_dependency_cycles_sound deps "report" acyclic

validate_dependency_cycles_complete_example :
    (dependency_cycle ≡ dependency_cycle) × ((id : String) × DependsOn circular id id)
validate_dependency_cycles_complete_example =
    validate_dependency_cycles_complete circular dependency_cycle found_cycle

validated_plan_progress_example :
    1 ≤ length (launch_all budget (requires_of deps) one_done).in_flight
unfolding launch_all complete_command dependencies_complete can_admit reserve contains release
    requires_of
validated_plan_progress_example =
    validated_plan_progress budget deps commands one_done one_done-IsReachable refl refl refl
      race_test (report ∷ []) valid_deps (omega arith)
      ((omega arith, omega arith), ((omega arith, omega arith), ((omega arith, omega arith), tt)))
      here
