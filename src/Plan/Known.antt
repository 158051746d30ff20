-- ===== src/Plan/Known.antt =====
-- What the validation of the dependencies of a plan leaves: an order of the work units, all of whose
-- requirements are commands.
use goplint.Base.{
  String, str_eq, contains, contains_cases, true, List, [], ◌∷◌, none, ◌≡◌, subst, inl, inr, arith,
  Bool-cases,
}
use goplint.Plan.{
  PlanDependency, requires_of, requires_loop, dependencies_loop, validate_dependency_cycles,
  validate_plan_dependencies,
}
use goplint.Plan.Cycles.{IsSchedule, validate_dependency_cycles-IsSchedule}

requires_loop_parts :
    (commands : List String) (id r : String) (rest : List String)
    → requires_loop commands id (r ∷ rest) ≡ none
    → (contains commands r ≡ true) × (requires_loop commands id rest ≡ none)
unfolding requires_loop
requires_loop_parts commands id r rest h = ground arith

requires_loop_known :
    (commands : List String) (id : String) (required : List String)
    → requires_loop commands id required ≡ none
    → (b : String) → contains required b ≡ true
    → contains commands b ≡ true
requires_loop_known commands id [] h b c = unfold contains in cc
requires_loop_known commands id (r ∷ rest) h b c =
    let (here, later) = requires_loop_parts commands id r rest h in
    elim (contains_cases r b rest c) [
      | inl e ↦ subst (λ x. contains commands x ≡ true) e here
      | inr more ↦ requires_loop_known commands id rest later b more
    ]

dependencies_loop_parts :
    (commands seen : List String) (previous : String) (d : PlanDependency)
    (ds : List PlanDependency)
    → dependencies_loop commands seen previous (d ∷ ds) ≡ none
    → (requires_loop commands d.work_unit_id d.requires ≡ none)
      × (dependencies_loop commands (d.work_unit_id ∷ seen) d.work_unit_id ds ≡ none)
unfolding dependencies_loop
dependencies_loop_parts commands seen previous d ds h = ground arith

dependencies_loop_known :
    (commands seen : List String) (previous : String) (deps : List PlanDependency)
    → dependencies_loop commands seen previous deps ≡ none
    → (a b : String) → contains (requires_of deps a) b ≡ true
    → contains commands b ≡ true
unfolding requires_of
dependencies_loop_known commands seen previous [] h a b c = unfold contains in cc
dependencies_loop_known commands seen previous (d ∷ ds) h a b c =
    let (now, rest) = dependencies_loop_parts commands seen previous d ds h in
    elim (Bool-cases (str_eq d.work_unit_id a)) [
      | inl same ↦
          requires_loop_known commands d.work_unit_id d.requires now b (rw (same, requires_of) at c)
      | inr other ↦
          dependencies_loop_known commands (d.work_unit_id ∷ seen) d.work_unit_id ds rest a b
            (rw (other, requires_of) at c)
    ]

-- Every requirement of accepted dependencies is a command, and the work units have an order.
pub validate_plan_dependencies-known :
    (deps : List PlanDependency) (commands : List String)
    → validate_plan_dependencies deps commands ≡ none
    → ((a b : String) → contains (requires_of deps a) b ≡ true → contains commands b ≡ true)
      × ((ids : List String) × IsSchedule deps ids)
unfolding validate_plan_dependencies
validate_plan_dependencies-known deps commands h =
    let loop : dependencies_loop commands [] "" deps ≡ none = ground arith in
    let cycles : validate_dependency_cycles deps ≡ none = ground (arith, loop) in
    (
      dependencies_loop_known commands [] "" deps loop,
      validate_dependency_cycles-IsSchedule deps cycles,
    )
