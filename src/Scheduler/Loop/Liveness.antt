-- ===== src/Scheduler/Loop/Liveness.antt =====
-- A plan whose dependencies are accepted, and whose commands fit its budget, never leaves the
-- scheduler with nothing that it can admit.
use goplint.Base.{
  ◌≤◌, String, str_eq, eq_iff, contains, contains_head, contains_tail, contains_cases, Bool, true,
  false, ◌||◌, ltb, List, [], ◌∷◌, ◌++◌, length, map, none, ◌≡◌, ◌⊎◌, refl, sym, ap, subst, ◌∙◌,
  arith, Bool-cases, inl, inr, All,
}
use goplint.Plan.{PlanDependency, requires_of, validate_plan_dependencies}
use goplint.Plan.Visiting.{IsOrdered, nothing, later}
use goplint.Plan.Cycles.{Requires-stays, requires_bound}
use goplint.Plan.Known.{validate_plan_dependencies-known}
use goplint.Scheduler.{ResourceBudget, PlanCommand, dependencies_complete}
use goplint.Scheduler.Conservation.{IsPick, here, there}
use goplint.Scheduler.Loop.{
  Progress, complete_command, launch, launch_all, Step, launches, finishes, ends, IsReachable,
  begins, steps,
}
use goplint.Scheduler.Loop.Invariant.{count, reachable-IsSound}
use goplint.Scheduler.Loop.Pass.{launch_all_progress}

-- The test of validatePlanCommands on the resources of a command.
abbrev pub Fits : ResourceBudget → PlanCommand → Type 0
Fits budget c = (c.reserved_cpu ≤ budget.cpu_units) × (c.reserved_memory ≤ budget.memory_bytes)

abbrev pub ids_of : List PlanCommand → List String
ids_of = map (λ (c : PlanCommand). c.work_unit_id)

AreCompleted : List String → List PlanCommand → Type 0
AreCompleted completed = All (λ (c : PlanCommand). contains completed c.work_unit_id ≡ true)

module _ (budget : ResourceBudget) (dependencies : String → List String) where
  -- Without a failure, every finished command has completed.
  abbrev AllCompleted : Progress → Type 0
  AllCompleted p = p.internal_failure ≡ false → p.ended ≡ false → AreCompleted p.completed p.results

  completed_more :
      (completed : List String) (x : String) (cs : List PlanCommand)
      → AreCompleted completed cs
      → AreCompleted (x ∷ completed) cs
  unfolding AreCompleted
  completed_more completed x [] h = tt
  completed_more completed x (c ∷ cs) (h, hs) =
      (contains_tail x c.work_unit_id completed h, completed_more completed x cs hs)

  completed_end :
      (completed : List String) (c : PlanCommand) (cs : List PlanCommand)
      → AreCompleted completed cs
      → contains completed c.work_unit_id ≡ true
      → AreCompleted completed (cs ++ c ∷ [])
  unfolding AreCompleted
  completed_end completed c [] h k = (k, tt)
  completed_end completed c (d ∷ cs) (h, hs) k = (h, completed_end completed c cs hs k)

  complete_AllCompleted :
      (p : Progress) (c : PlanCommand) (rest : List PlanCommand) (failed : Bool)
      → AllCompleted p
      → AllCompleted (complete_command budget dependencies p c rest failed)
  unfolding complete_command
  complete_AllCompleted p c rest true h calm live = absurd (ground arith)
  complete_AllCompleted p c rest false h calm live =
      completed_end (c.work_unit_id ∷ p.completed) c p.results
        (completed_more p.completed c.work_unit_id p.results (h (ground arith) (ground arith)))
        (contains_head c.work_unit_id p.completed)

  Step-AllCompleted :
      {p q : Progress} → Step budget dependencies p q → AllCompleted p → AllCompleted q
  unfolding launch
  Step-AllCompleted (launches c rest pick k) h calm live = h calm live
  Step-AllCompleted {p} (finishes c rest failed pick) h calm live =
      complete_AllCompleted p c rest failed h calm live
  Step-AllCompleted ends h calm live = absurd (ground arith)

  reachable_AllCompleted :
      (commands : List PlanCommand) (p : Progress)
      → IsReachable budget dependencies commands p
      → AllCompleted p
  unfolding AreCompleted
  reachable_AllCompleted commands p begins calm live = tt
  reachable_AllCompleted commands q (steps {p} r s) calm live =
      Step-AllCompleted s (reachable_AllCompleted commands p r) calm live

named : String → PlanCommand → Bool
named id c = str_eq c.work_unit_id id

-- A command of that name is in the list, if one is counted.
find_named :
    (id : String) (cs : List PlanCommand)
    → 1 ≤ count (named id) cs
    → (c : PlanCommand) × (rest : List PlanCommand) × IsPick c cs rest × (c.work_unit_id ≡ id)
unfolding named
find_named id [] h = absurd (omega arith)
find_named id (d ∷ cs) h = elim (Bool-cases (str_eq d.work_unit_id id)) [
  | inl same ↦ (d, cs, here, (eq_iff d.work_unit_id id).0 same)
  | inr other ↦
      let (c, rest, pick, e) = find_named id cs (ground arith) in (c, d ∷ rest, there pick, e)
]

count_named :
    (id : String) (cs : List PlanCommand) → contains (ids_of cs) id ≡ true → 1 ≤ count (named id) cs
unfolding named contains
count_named id [] h = cc
count_named id (c ∷ cs) h = ground (arith, count_named id cs)

completed_pick :
    (completed : List String) {c : PlanCommand} {cs rest : List PlanCommand}
    → IsPick c cs rest
    → AreCompleted completed cs
    → contains completed c.work_unit_id ≡ true
unfolding AreCompleted
completed_pick completed here (h, hs) = h
completed_pick completed (there p) (h, hs) = completed_pick completed p hs

pick_id :
    {c : PlanCommand} {cs rest : List PlanCommand}
    → IsPick c cs rest
    → contains (ids_of cs) c.work_unit_id ≡ true
pick_id {c} (here {cs}) = contains_head c.work_unit_id (ids_of cs)
pick_id {c} (there {d} {cs} p) = contains_tail d.work_unit_id c.work_unit_id (ids_of cs) (pick_id p)

module _ (budget : ResourceBudget) (deps : List PlanDependency) (commands : List PlanCommand)
    (p : Progress) (reached : IsReachable budget (requires_of deps) commands p)
    (idle : p.in_flight ≡ []) (calm : p.internal_failure ≡ false) (live : p.ended ≡ false) where
  -- A pending command whose dependencies have completed.
  abbrev HasReady : Type 0
  HasReady =
      (c : PlanCommand) × (rest : List PlanCommand) × IsPick c p.pending rest
      × (dependencies_complete (requires_of deps c.work_unit_id) p.completed ≡ true)

  -- A command has completed, or one of its name is pending.
  settled_named :
      (id : String)
      → contains (ids_of commands) id ≡ true
      → (contains p.completed id ≡ true)
        ⊎ ((c : PlanCommand) × (rest : List PlanCommand) × IsPick c p.pending rest
            × (c.work_unit_id ≡ id))
  settled_named id h =
      let sound = reachable-IsSound budget (requires_of deps) commands p reached in
      let total = sound.settled (named id) in
      let none_flies : count (named id) p.in_flight ≡ 0 = ap (count (named id)) idle in
      elim (Bool-cases (ltb 0 (count (named id) p.pending))) [
        | inl waits ↦ inr (find_named id p.pending (ground arith))
        | inr none_waits ↦
            let (c, rest, pick, e) =
              find_named id p.results
                (ground (arith, total, none_flies, count_named id commands h)) in
            inl (
              subst (λ x. contains p.completed x ≡ true) e
                (completed_pick p.completed pick
                  (reachable_AllCompleted budget (requires_of deps) commands p reached calm live)))
      ]

  all_complete :
      (required : List String)
      → ((b : String) → contains required b ≡ true → (contains p.completed b ≡ true) ⊎ HasReady)
      → (dependencies_complete required p.completed ≡ true) ⊎ HasReady
  unfolding dependencies_complete
  all_complete [] h = inl refl
  all_complete (b ∷ required) h = elim (h b (contains_head b required)) [
    | inr ready ↦ inr ready
    | inl done ↦ elim (all_complete required (λ x k. h x (contains_tail b x required k))) [
      | inr ready ↦ inr ready
      | inl rest ↦ inl (ground arith)
    ]
  ]

  -- Of a command on an ordered list: it has completed, or some pending command is ready.
  ordered_ready :
      ((a b : String)
        → contains (requires_of deps a) b ≡ true
        → contains (ids_of commands) b ≡ true)
      → (ids : List String) → IsOrdered deps ids
      → (id : String) → contains ids id ≡ true
      → contains (ids_of commands) id ≡ true
      → (contains p.completed id ≡ true) ⊎ HasReady
  ordered_ready known [] nothing id c k = unfold contains in cc
  ordered_ready known (x ∷ ids) (later h o) id c k = elim (contains_cases x id ids c) [
    | inr more ↦ ordered_ready known ids o id more k
    | inl e ↦ elim (settled_named id k) [
      | inl done ↦ inl done
      | inr (w, rest, pick, q) ↦
          elim (all_complete (requires_of deps x)
            (λ b r. ordered_ready known ids o b (h b r) (known x b r))) [
              | inr ready ↦ inr ready
              | inl complete ↦ inr (
                w,
                rest,
                pick,
                subst (λ y. dependencies_complete (requires_of deps y) p.completed ≡ true)
                    (e ∙ sym q) complete,
              )
            ]
    ]
  ]

  pending_ready :
      (c : PlanCommand) (rest : List PlanCommand)
      → validate_plan_dependencies deps (ids_of commands) ≡ none
      → IsPick c p.pending rest
      → HasReady
  pending_ready c rest accepted pick =
      let (known, (ids, schedule)) =
        validate_plan_dependencies-known deps (ids_of commands) accepted in
      elim (all_complete (requires_of deps c.work_unit_id) (λ b r.
        ordered_ready known ids schedule.order b
          (Requires-stays deps ids c.work_unit_id b schedule.order
            (schedule.whole c.work_unit_id (requires_bound deps deps c.work_unit_id b r)) r)
          (known c.work_unit_id b r))) [
            | inr ready ↦ ready
            | inl complete ↦ (c, rest, pick, complete)
          ]

  over : PlanCommand → Bool
  over c = ltb budget.cpu_units c.reserved_cpu || ltb budget.memory_bytes c.reserved_memory

  none_over : (cs : List PlanCommand) → All (Fits budget) cs → count over cs ≡ 0
  unfolding over
  none_over [] h = refl
  none_over (c ∷ cs) (h, hs) = ground (arith, none_over cs hs)

  pick-Fits :
      {c : PlanCommand} {cs rest : List PlanCommand}
      → IsPick c cs rest
      → count over cs ≡ 0
      → Fits budget c
  unfolding over
  pick-Fits here h = ground arith
  pick-Fits (there q) h = pick-Fits q (omega arith)

  -- An idle state that a run of a validated plan reaches, with no failure, a live context and a
  -- command still pending: the next pass of the scheduler launches one.
  pub validated_plan_progress :
      (c : PlanCommand) (rest : List PlanCommand)
      → validate_plan_dependencies deps (ids_of commands) ≡ none
      → 1 ≤ budget.maximum_workers
      → All (Fits budget) commands
      → IsPick c p.pending rest
      → 1 ≤ length (launch_all budget (requires_of deps) p).in_flight
  validated_plan_progress c rest accepted workers fit pick =
      let sound = reachable-IsSound budget (requires_of deps) commands p reached in
      let (r, others, at, ready) = pending_ready c rest accepted pick in
      let (cpu, memory) =
        pick-Fits at (omega (arith, sound.settled over, none_over commands fit)) in
      launch_all_progress budget (requires_of deps) commands p r others reached idle calm live at
        ready workers cpu memory
