-- ===== src/Scheduler/Loop/Pass.antt =====
-- One pass of the loop over the pending commands.
use goplint.Base.{
  ◌≤◌, String, true, false, List, [], ◌∷◌, ◌++◌, length, ◌≡◌, refl, sym, ap, ◌∙◌, subst, arith,
  Bool-cases, inl, inr,
}
use goplint.Scheduler.{ResourceBudget, PlanCommand, dependencies_complete}
use goplint.Scheduler.Conservation.{IsAccounted, IsPick, here, there, idle-can_admit}
use goplint.Scheduler.Loop.{
  Progress, can_launch, launch, launch_pass, launch_all, launches, IsReachable, steps,
}
use goplint.Scheduler.Loop.Invariant.{reachable-IsSound}

IsPick-behind :
    (kept : List PlanCommand) (c : PlanCommand) (cs : List PlanCommand)
    → IsPick c (kept ++ c ∷ cs) (kept ++ cs)
IsPick-behind [] c cs = here
IsPick-behind (k ∷ kept) c cs = there (IsPick-behind kept c cs)

behind_append :
    (kept : List PlanCommand) (c : PlanCommand) (cs : List PlanCommand)
    → kept ++ c ∷ cs ≡ (kept ++ c ∷ []) ++ cs
behind_append [] c cs = refl
behind_append (k ∷ kept) c cs = ap (λ t. k ∷ t) (behind_append kept c cs)

module _ (budget : ResourceBudget) (dependencies : String → List String) where
  pass_reaches :
      (commands kept cs : List PlanCommand) (p : Progress)
      → p.pending ≡ kept ++ cs
      → IsReachable budget dependencies commands p
      → IsReachable budget dependencies commands (launch_pass budget dependencies kept cs p)
  unfolding launch_pass
  pass_reaches commands kept [] p e r = r
  pass_reaches commands kept (c ∷ cs) p e r =
      elim (Bool-cases (can_launch budget dependencies p c)) [
        | inl go ↦
            rw (go, launch_pass)
              (pass_reaches commands kept cs (launch budget dependencies p c (kept ++ cs))
                (unfold launch in refl)
                (steps r (
                  launches c (kept ++ cs)
                    (subst (λ x. IsPick c x (kept ++ cs)) (sym e) (IsPick-behind kept c cs)) go)))
        | inr stay ↦
            rw (stay, launch_pass)
              (pass_reaches commands (kept ++ c ∷ []) cs p (e ∙ behind_append kept c cs) r)
      ]

  -- A pass of the loop, from a state that a run reaches, ends in such a state.
  pub launch_all-IsReachable :
      (commands : List PlanCommand) (p : Progress)
      → IsReachable budget dependencies commands p
      → IsReachable budget dependencies commands (launch_all budget dependencies p)
  unfolding launch_all
  launch_all-IsReachable commands p r = pass_reaches commands [] p.pending p refl r

  -- A pass ends no command.
  pass_grows :
      (kept cs : List PlanCommand) (p : Progress)
      → length p.in_flight ≤ length (launch_pass budget dependencies kept cs p).in_flight
  unfolding launch_pass launch
  pass_grows kept [] p = omega arith
  pass_grows kept (c ∷ cs) p = elim (Bool-cases (can_launch budget dependencies p c)) [
    | inl go ↦
        rw (go, launch_pass)
          (omega (arith, pass_grows kept cs (launch budget dependencies p c (kept ++ cs))))
    | inr stay ↦ rw (stay, launch_pass) (pass_grows (kept ++ c ∷ []) cs p)
  ]

  pass_launches :
      (kept cs : List PlanCommand) (p : Progress) (c : PlanCommand) {rest : List PlanCommand}
      → IsPick c cs rest
      → can_launch budget dependencies p c ≡ true
      → 1 ≤ length (launch_pass budget dependencies kept cs p).in_flight
  unfolding launch_pass launch
  pass_launches kept [] p c pick h = elim pick [ ]
  pass_launches kept (d ∷ cs) p c here h =
      rw (h, launch_pass)
        (omega (arith, pass_grows kept cs (launch budget dependencies p d (kept ++ cs))))
  pass_launches kept (d ∷ cs) p c (there pick) h =
      elim (Bool-cases (can_launch budget dependencies p d)) [
        | inl go ↦
            rw (go, launch_pass)
              (omega (arith, pass_grows kept cs (launch budget dependencies p d (kept ++ cs))))
        | inr stay ↦ rw (stay, launch_pass) (pass_launches (kept ++ d ∷ []) cs p c pick h)
      ]

  -- With nothing running, no failure and a live context, a pass launches a command as soon as one
  -- that is pending and fits the budget has its dependencies completed.
  pub launch_all_progress :
      (commands : List PlanCommand) (p : Progress) (c : PlanCommand) (rest : List PlanCommand)
      → IsReachable budget dependencies commands p
      → p.in_flight ≡ []
      → p.internal_failure ≡ false
      → p.ended ≡ false
      → IsPick c p.pending rest
      → dependencies_complete (dependencies c.work_unit_id) p.completed ≡ true
      → 1 ≤ budget.maximum_workers
      → c.reserved_cpu ≤ budget.cpu_units
      → c.reserved_memory ≤ budget.memory_bytes
      → 1 ≤ length (launch_all budget dependencies p).in_flight
  unfolding launch_all can_launch
  launch_all_progress commands p c rest r idle calm live pick ready workers cpu memory =
      let accounts =
        subst (λ x. IsAccounted budget p.state x) idle
          (reachable-IsSound budget dependencies commands p r).accounts in
      let admitted = idle-can_admit budget p.state c accounts workers cpu memory in
      pass_launches [] p.pending p c pick (ground (arith, admitted))
