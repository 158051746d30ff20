-- ===== src/Scheduler/Conservation.antt =====
-- What is reserved and what is available make up the budget, at every admission and completion.
use goplint.Base.{
  contains, ℕ, suc, ◌+◌, ◌≤◌, String, str_eq, eq_iff, Bool, true, false, not, ◌&&◌, ◌||◌, List, [],
  ◌∷◌, length, if◌then◌else◌, ◌≡◌, refl, sym, ap, ◌∙◌, arith, Bool-cases, inl, inr,
}
use goplint.Scheduler.{
  ResourceBudget, PlanCommand, SchedulerState, any_taken, can_admit, take_groups, delete_groups,
  reserve, release, initial_state,
}

abbrev pub total_cpu : List PlanCommand → ℕ
total_cpu [] = 0
total_cpu (c ∷ cs) = c.reserved_cpu + total_cpu cs

abbrev pub total_memory : List PlanCommand → ℕ
total_memory [] = 0
total_memory (c ∷ cs) = c.reserved_memory + total_memory cs

-- Some command of the list is in the group.
abbrev pub held : List PlanCommand → String → Bool
held [] g = false
held (c ∷ cs) g = contains c.exclusivity_groups g || held cs g

-- No two commands share a group.
abbrev pub IsApart : List PlanCommand → Type 0
IsApart [] = Unit
IsApart (c ∷ cs) =
    ((g : String) → (contains c.exclusivity_groups g && held cs g) ≡ false) × IsApart cs

-- The books of the scheduler, with the commands that run.
pub record IsAccounted (budget : ResourceBudget) (s : SchedulerState) (running : List PlanCommand)
    : Type 0 where
  pub cpu : s.available_cpu + total_cpu running ≡ budget.cpu_units
  pub memory : s.available_memory + total_memory running ≡ budget.memory_bytes
  pub count : s.running ≡ length running
  pub workers : length running ≤ budget.maximum_workers
  pub groups : (g : String) → s.exclusive g ≡ held running g
  pub apart : IsApart running

pub initial-IsAccounted : (budget : ResourceBudget) → IsAccounted budget (initial_state budget) []
initial-IsAccounted budget = record {
  cpu = omega arith;
  memory = omega arith;
  count = refl;
  workers = omega arith;
  groups = λ g. refl;
  apart = tt;
}

take_groups_lem :
    (gs : List String) (f : String → Bool) (g : String)
    → take_groups gs f g ≡ (contains gs g || f g)
unfolding take_groups contains
take_groups_lem [] f g = refl
take_groups_lem (x ∷ gs) f g =
    ground (arith, take_groups_lem gs (λ h. if str_eq x h then true else f h) g)

delete_groups_lem :
    (gs : List String) (f : String → Bool) (g : String)
    → delete_groups gs f g ≡ (not (contains gs g) && f g)
unfolding delete_groups contains
delete_groups_lem [] f g = refl
delete_groups_lem (x ∷ gs) f g =
    ground (arith, delete_groups_lem gs (λ h. if str_eq x h then false else f h) g)

-- A free list of groups shares none with what is taken.
any_taken-false :
    (f : String → Bool) (gs : List String) (g : String)
    → any_taken f gs ≡ false
    → (contains gs g && f g) ≡ false
unfolding any_taken contains
any_taken-false f [] g h = refl
any_taken-false f (x ∷ gs) g h = elim (Bool-cases (str_eq x g)) [
  | inl same ↦ ground (arith, ap f ((eq_iff x g).0 same))
  | inr other ↦ ground (arith, any_taken-false f gs g)
]

all_free :
    (f : String → Bool) (gs : List String) → ((g : String) → f g ≡ false) → any_taken f gs ≡ false
unfolding any_taken
all_free f [] h = refl
all_free f (g ∷ gs) h = ground (arith, h g, all_free f gs h)

-- An admitted command is reserved: the books stay balanced.
pub reserve-IsAccounted :
    (budget : ResourceBudget) (s : SchedulerState) (running : List PlanCommand) (c : PlanCommand)
    → can_admit budget s c ≡ true
    → IsAccounted budget s running
    → IsAccounted budget (reserve s c) (c ∷ running)
unfolding can_admit reserve
reserve-IsAccounted budget s running c h b = record {
  cpu = ground (arith, b.cpu);
  memory = ground (arith, b.memory);
  count = ground (arith, b.count);
  workers = ground (arith, b.count);
  groups = λ g.
      take_groups_lem c.exclusivity_groups s.exclusive g
      ∙ ap (λ x. contains c.exclusivity_groups g || x) (b.groups g);
  apart = (
    λ g.
        ap (λ x. contains c.exclusivity_groups g && x) (sym (b.groups g))
        ∙ any_taken-false s.exclusive c.exclusivity_groups g (ground arith),
    b.apart,
  );
}

-- `c` is one of the commands, and `rest` are the others.
pub data IsPick (c : PlanCommand) : List PlanCommand → List PlanCommand → Type 0 where
  here : {cs : List PlanCommand} → IsPick c (c ∷ cs) cs
  there :
      {d : PlanCommand} {cs rest : List PlanCommand}
      → IsPick c cs rest
      → IsPick c (d ∷ cs) (d ∷ rest)

-- What a pick takes away.
pub record IsSplit (c : PlanCommand) (cs rest : List PlanCommand) : Type 0 where
  pub cpu : total_cpu cs ≡ c.reserved_cpu + total_cpu rest
  pub memory : total_memory cs ≡ c.reserved_memory + total_memory rest
  pub count : length cs ≡ suc (length rest)
  pub groups : (g : String) → held cs g ≡ (contains c.exclusivity_groups g || held rest g)

pub pick-IsSplit :
    {c : PlanCommand} {cs rest : List PlanCommand} → IsPick c cs rest → IsSplit c cs rest
pick-IsSplit here = record { cpu = refl; memory = refl; count = refl; groups = λ g. refl }
pick-IsSplit (there p) =
    let s = pick-IsSplit p in
    record {
      cpu = omega (arith, s.cpu);
      memory = omega (arith, s.memory);
      count = omega (arith, s.count);
      groups = λ g. ground (arith, s.groups g);
    }

pick-IsApart :
    {c : PlanCommand} {cs rest : List PlanCommand}
    → IsPick c cs rest
    → IsApart cs
    → ((g : String) → (contains c.exclusivity_groups g && held rest g) ≡ false) × IsApart rest
pick-IsApart here h = h
pick-IsApart (there p) (first, others) =
    let (clear, more) = pick-IsApart p others in
    let s = pick-IsSplit p in
    (
      λ g. ground (arith, clear g, first g, s.groups g),
      (λ g. ground (arith, first g, s.groups g), more),
    )

-- A completed command is released: the books stay balanced, and only its own groups are freed.
pub release-IsAccounted :
    (budget : ResourceBudget) (s : SchedulerState) (running rest : List PlanCommand)
    (c : PlanCommand)
    → IsPick c running rest
    → IsAccounted budget s running
    → IsAccounted budget (release s c) rest
unfolding release
release-IsAccounted budget s running rest c p b =
    let split = pick-IsSplit p in
    let (clear, apart) = pick-IsApart p b.apart in
    record {
      cpu = omega (arith, b.cpu, split.cpu);
      memory = omega (arith, b.memory, split.memory);
      count = omega (arith, b.count, split.count);
      workers = omega (arith, b.workers, split.count);
      groups = λ g. ground (
        arith,
        delete_groups_lem c.exclusivity_groups s.exclusive g,
        b.groups g,
        split.groups g,
        clear g,
      );
      apart = apart;
    }

-- With nothing running, every command that fits the budget is admitted.
pub idle-can_admit :
    (budget : ResourceBudget) (s : SchedulerState) (c : PlanCommand)
    → IsAccounted budget s []
    → 1 ≤ budget.maximum_workers
    → c.reserved_cpu ≤ budget.cpu_units
    → c.reserved_memory ≤ budget.memory_bytes
    → can_admit budget s c ≡ true
unfolding can_admit
idle-can_admit budget s c b w p q =
    ground (arith, b.cpu, b.memory, b.count, all_free s.exclusive c.exclusivity_groups b.groups)
