-- ===== src/Scheduler/Loop/Invariant.antt =====
-- What holds in every state that a run of the scheduler reaches, and that its loop is such a run.
use goplint.Base.{
  contains, ℕ, ◌+◌, String, Bool, true, false, List, [], ◌∷◌, ◌++◌, if◌then◌else◌, ◌≡◌, refl, arith,
  All,
}
use goplint.Scheduler.{ResourceBudget, PlanCommand, dependencies_complete}
use goplint.Scheduler.Conservation.{
  IsAccounted, IsPick, here, there, initial-IsAccounted, reserve-IsAccounted, release-IsAccounted,
}
use goplint.Scheduler.Loop.{
  Progress, can_launch, launch, complete_command, Step, launches, finishes, ends, IsReachable,
  begins, steps,
}

-- How many commands of the list pass the test.
abbrev pub count : (PlanCommand → Bool) → List PlanCommand → ℕ
count f [] = 0
count f (c ∷ cs) = (if f c then 1 else 0) + count f cs

pub count-append :
    (f : PlanCommand → Bool) (xs ys : List PlanCommand)
    → count f (xs ++ ys) ≡ count f xs + count f ys
count-append f [] ys = omega arith
count-append f (x ∷ xs) ys = omega (arith, count-append f xs ys)

count-pick :
    (f : PlanCommand → Bool) {c : PlanCommand} {cs rest : List PlanCommand}
    → IsPick c cs rest
    → count f cs ≡ (if f c then 1 else 0) + count f rest
count-pick f here = refl
count-pick f (there p) = omega (arith, count-pick f p)

contains_more :
    (required completed : List String) (x : String)
    → dependencies_complete required completed ≡ true
    → dependencies_complete required (x ∷ completed) ≡ true
unfolding dependencies_complete contains
contains_more [] completed x h = refl
contains_more (r ∷ required) completed x h = ground (arith, contains_more required completed x)

module _ (budget : ResourceBudget) (dependencies : String → List String) where
  -- The dependencies of every command of the list have completed.
  abbrev pub AreReady : List String → List PlanCommand → Type 0
  AreReady completed =
      All
        (λ (c : PlanCommand). dependencies_complete (dependencies c.work_unit_id) completed ≡ true)

  pub record IsSound (commands : List PlanCommand) (p : Progress) : Type 0 where
    pub accounts : IsAccounted budget p.state p.in_flight
    pub settled :
        (f : PlanCommand → Bool)
        → count f p.pending + count f p.in_flight + count f p.results ≡ count f commands
    pub ready : AreReady p.completed p.in_flight
    pub were_ready : AreReady p.completed p.results

  ready_more :
      (completed : List String) (cs : List PlanCommand) (x : String)
      → AreReady completed cs
      → AreReady (x ∷ completed) cs
  ready_more completed [] x h = tt
  ready_more completed (c ∷ cs) x (h, hs) =
      (contains_more (dependencies c.work_unit_id) completed x h, ready_more completed cs x hs)

  ready_pick :
      (completed : List String) {c : PlanCommand} {cs rest : List PlanCommand}
      → IsPick c cs rest
      → AreReady completed cs
      → (dependencies_complete (dependencies c.work_unit_id) completed ≡ true)
        × AreReady completed rest
  ready_pick completed here h = h
  ready_pick completed (there p) (h, hs) =
      let (first, more) = ready_pick completed p hs in (first, (h, more))

  ready_end :
      (completed : List String) (cs : List PlanCommand) (c : PlanCommand)
      → AreReady completed cs
      → dependencies_complete (dependencies c.work_unit_id) completed ≡ true
      → AreReady completed (cs ++ c ∷ [])
  ready_end completed [] c h k = (k, tt)
  ready_end completed (d ∷ cs) c (h, hs) k = (h, ready_end completed cs c hs k)

  ready_after :
      (failed : Bool) (completed : List String) (cs : List PlanCommand) (x : String)
      → AreReady completed cs
      → AreReady (if failed then completed else x ∷ completed) cs
  ready_after true completed cs x h = h
  ready_after false completed cs x h = ready_more completed cs x h

  launch-IsSound :
      (commands : List PlanCommand) (p : Progress) (c : PlanCommand) (rest : List PlanCommand)
      → IsPick c p.pending rest
      → can_launch budget dependencies p c ≡ true
      → IsSound commands p
      → IsSound commands (launch budget dependencies p c rest)
  unfolding can_launch launch
  launch-IsSound commands p c rest pick h s = record {
    accounts = reserve-IsAccounted budget p.state p.in_flight c (ground arith) s.accounts;
    settled = λ f. omega (arith, s.settled f, count-pick f pick);
    ready = (ground arith, s.ready);
    were_ready = s.were_ready;
  }

  complete_command-IsSound :
      (commands : List PlanCommand) (p : Progress) (c : PlanCommand) (rest : List PlanCommand)
      (failed : Bool)
      → IsPick c p.in_flight rest
      → IsSound commands p
      → IsSound commands (complete_command budget dependencies p c rest failed)
  unfolding complete_command
  complete_command-IsSound commands p c rest failed pick s =
      let (one, others) = ready_pick p.completed pick s.ready in
      record {
        accounts = release-IsAccounted budget p.state p.in_flight rest c pick s.accounts;
        settled =
            λ f. omega (arith, s.settled f, count-pick f pick, count-append f p.results (c ∷ []));
        ready = ready_after failed p.completed rest c.work_unit_id others;
        were_ready =
            ready_after failed p.completed (p.results ++ c ∷ []) c.work_unit_id
              (ready_end p.completed p.results c s.were_ready one);
      }

  Step-IsSound :
      (commands : List PlanCommand) {p q : Progress}
      → Step budget dependencies p q
      → IsSound commands p
      → IsSound commands q
  Step-IsSound commands {p} (launches c rest pick h) s = launch-IsSound commands p c rest pick h s
  Step-IsSound commands {p} (finishes c rest failed pick) s =
      complete_command-IsSound commands p c rest failed pick s
  Step-IsSound commands ends s = record {
    accounts = s.accounts;
    settled = s.settled;
    ready = s.ready;
    were_ready = s.were_ready;
  }

  -- In every state that a run reaches: what is reserved and what is available make up the budget,
  -- no more commands run than there are workers and no two of them share an exclusivity group;
  -- every command is pending, running or finished, and exactly once; and the dependencies of
  -- everything that was launched have completed.
  pub reachable-IsSound :
      (commands : List PlanCommand) (p : Progress)
      → IsReachable budget dependencies commands p
      → IsSound commands p
  reachable-IsSound commands p begins = record {
    accounts = initial-IsAccounted budget;
    settled = λ f. omega arith;
    ready = tt;
    were_ready = tt;
  }
  reachable-IsSound commands q (steps {p} r s) =
      Step-IsSound commands s (reachable-IsSound commands p r)
