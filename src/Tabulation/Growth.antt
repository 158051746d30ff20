-- ===== src/Tabulation/Growth.antt =====
-- How the variables of the tabulation in goplint/cfa_ifds_tabulation.go grow from one step to a later
-- one, and what a step leaves behind.
pub mod Rules
pub mod Enqueue
pub mod Steps
pub mod Known
pub mod Calls
pub mod Done
pub mod Follow
pub mod Visit
pub mod Loop
pub mod Outcome
use goplint.Base.{
  ℕ, ◌+◌, ◌≤◌, Bool, true, false, Option, none, some, List, [], ◌∷◌, length, Memᴰ, ◌≡◌, ◌⊎◌,
}
use goplint.Tabulation.Facts.{Contribution, DependencyFact, SummaryFact}
use goplint.Tabulation.Antichain.{PathEdge, Contributions, antichain_of}
use goplint.Tabulation.Antichain.Covers.{is_some}
use goplint.Tabulation.State.{
  Solver, Stepped, has_dependency, has_summary, exits_agree, returned_contribution,
}
use goplint.Tabulation.Solve.{stored_edge}
use goplint.Tabulation.Result.{TabulationResult}
use goplint.Refinement.{class_unsafe, class_inconclusive}

abbrev pub is_cons : List PathEdge → Bool
is_cons [] = false
is_cons (r ∷ rs) = true

-- A contribution that some path edge has reached.
pub record Retained (k : Contributions) (x : Contribution) : Type 0 where
  pub holds : is_cons (antichain_of x k.antichains) ≡ true

-- One of its path edges is stored and still queued.
pub record Pending (k : Contributions) (x : Contribution) : Type 0 where
  pub key : PathEdge
  pub queued : Memᴰ key k.queue
  pub of : key.contribution ≡ x
  pub stored : is_some (stored_edge key k) ≡ true

-- No result is there yet but the one that the object is safe.
pub record IsClean (s : Solver) : Type 0 where
  pub in_budget : s.contributions.budget_result ≡ none
  pub not_unsafe : s.unsafe_result ≡ none
  pub not_inconclusive : s.inconclusive_result ≡ none

pub record Spreads (k k' : Contributions) : Type 0 where
  pub kept : (x : Contribution) → Retained k x → Retained k' x
  pub fresh : (x : Contribution) → Retained k' x → Retained k x ⊎ Pending k' x
  pub waiting : (x : Contribution) → Pending k x → Pending k' x

-- `k` rounds and the queue are paid for by the work units, within the limit.
pub record IsCharged (limit k : ℕ) (c : Contributions) : Type 0 where
  pub worked : k + length c.queue ≤ c.work_units
  pub within : k + length c.queue ≤ limit

-- The results that are there say what they are.
pub record IsLabelled (s : Solver) : Type 0 where
  pub unsafe : (r : TabulationResult) → s.unsafe_result ≡ some r → r.class ≡ class_unsafe
  pub uncertain :
      (r : TabulationResult) → s.inconclusive_result ≡ some r → r.class ≡ class_inconclusive

pub record Grows (limit : ℕ) (s s' : Solver) : Type 0 where
  pub clean : IsClean s' → IsClean s
  pub spreads : IsClean s' → Spreads s.contributions s'.contributions
  pub more_dependencies :
      (d : DependencyFact)
      → has_dependency d s.dependencies ≡ true
      → has_dependency d s'.dependencies ≡ true
  pub more_summaries :
      (x : SummaryFact) → has_summary x s.summaries ≡ true → has_summary x s'.summaries ≡ true
  pub labelled : IsLabelled s → IsLabelled s'
  pub charged : (k : ℕ) → IsCharged limit k s.contributions → IsCharged limit k s'.contributions

-- What a later state needs for what an earlier one has.
pub record Keeps (s s' : Solver) : Type 0 where
  pub kept : (x : Contribution) → Retained s.contributions x → Retained s'.contributions x
  pub more_dependencies :
      (d : DependencyFact)
      → has_dependency d s.dependencies ≡ true
      → has_dependency d s'.dependencies ≡ true
  pub more_summaries :
      (x : SummaryFact) → has_summary x s.summaries ≡ true → has_summary x s'.summaries ≡ true

-- Every summary has been applied to every dependency that it answers.
pub record Closed (s : Solver) : Type 0 where
  pub applied :
      (d : DependencyFact) (x : SummaryFact)
      → has_dependency d s.dependencies ≡ true
      → has_summary x s.summaries ≡ true
      → x.entry ≡ d.callee_entry
      → exits_agree d x ≡ true
      → Retained s.contributions (returned_contribution d x)

-- A step that queues path edges only,
pub record Queues (limit : ℕ) (s s' : Solver) : Type 0 where
  pub grows : Grows limit s s'
  pub same_dependencies : s'.dependencies ≡ s.dependencies
  pub same_summaries : s'.summaries ≡ s.summaries

-- and one that may also register calls and publish summaries.
pub record Extends (limit : ℕ) (s s' : Solver) : Type 0 where
  pub grows : Grows limit s s'
  pub closes : IsClean s' → Closed s → Closed s'

-- A step is false only if a budget is exceeded, and leaves `Q` behind if no result is there.
pub record Does (R : Solver → Solver → Type 0) (Q : Solver → Type 0) (s : Solver) (x : Stepped)
    : Type 0 where
  pub grown : R s x.0.1
  pub stops : x.0.0 ≡ false → is_some x.0.1.contributions.budget_result ≡ true
  pub gives : IsClean x.0.1 → Q x.0.1
