-- ===== src/Refinement/Rounds.antt =====
-- The rounds of the loop of `cfgRefinementController.Refine` in goplint/cfa_refinement.go.
use goplint.Base.{
  ℕ, zero, suc, ◌+◌, String, str_eq, contains, Bool, true, false, ◌||◌, Option, none, some, List,
  ◌∷◌, ltb, if◌then◌else◌, ◌≡◌, refl, arith, inl,
}
use goplint.Feasibility.Control.{deadline_reached}
use goplint.Refinement.{
  OutcomeClass, class_safe, class_unsafe, class_inconclusive, other_class,
  status_discharged_infeasible, InterprocResult, replay_rejection,
}
use goplint.Witness.Replay.{ReplayRejection}
use goplint.Refinement.Loop.{
  RefinementRequest, Refining, Refined, Round, returns, breaks, goes_on, is_unsat, is_unknown,
  is_safe, should_attempt, timed_out, iteration_budget, query_budget, query, refinement_of,
  with_refinement, accept_safe, after_rerun, override_of, rerun_round, discharge_round,
  refine_round, status_of, refine_next, refine_loop, initial, reject_replay, refine_from, refine,
  has_concrete_action,
}
use goplint.Refinement.Invariant.{
  IsUnique, IsRefined, IsRefining, IsStopped, stopped, overdue, conclude-IsRefined,
  query-IsRefining,
}

module _ (q : RefinementRequest) where
  -- What a round leaves.
  IsRound : List String → ℕ → Round → Type 0
  IsRound attempts remaining (returns out) = IsRefined q attempts out
  IsRound attempts remaining (breaks s) = IsStopped q attempts s
  IsRound attempts remaining (goes_on s) =
      IsRefining q attempts remaining s × (is_safe s.result.class ≡ false)

  split :
      (attempts : List String) (remaining : ℕ) (b : Bool) (r t : Round × ℕ)
      → (b ≡ true → IsRound attempts remaining r.0)
      → (b ≡ false → IsRound attempts remaining t.0)
      → IsRound attempts remaining (elim b as (λ _. Round × ℕ) [ true ↦ r | false ↦ t ]).0
  split attempts remaining true r t f g = f refl
  split attempts remaining false r t f g = g refl

  status_of-safe :
      (c : OutcomeClass) → is_safe c ≡ true → status_discharged_infeasible ≡ status_of q c
  unfolding status_of
  status_of-safe class_safe h = refl
  status_of-safe class_unsafe h = cc
  status_of-safe class_inconclusive h = cc
  status_of-safe (other_class s) h = cc

  not_unsafe : (c : OutcomeClass) → is_safe c ≡ true → ¬ (c ≡ class_unsafe)
  not_unsafe class_unsafe h e = cc
  not_unsafe class_safe h e = cc
  not_unsafe class_inconclusive h e = cc
  not_unsafe (other_class s) h e = cc

  discharged-IsRefined :
      (attempts : List String) (remaining : ℕ) (s : Refining) (next : InterprocResult)
      → IsRefining q attempts remaining s
      → is_unsat s.verdict ≡ true
      → is_safe next.class ≡ true
      → IsRefined q attempts (with_refinement q next s status_discharged_infeasible, s.attempts)
  unfolding with_refinement refinement_of
  discharged-IsRefined attempts remaining s next h infeasible safe = record {
    refinement = refinement_of q s status_discharged_infeasible;
    refined = refl;
    witness = s.witness_record;
    recorded = refl;
    classified = status_of-safe next.class safe;
    discharge = λ _. (infeasible, h.refuted infeasible);
    violation = λ e. absurd (not_unsafe next.class safe e);
    bounded = omega (arith, h.bounded);
    recorded_all = h.counted;
    fresh = h.unique;
  }

  with_result :
      (attempts : List String) (remaining : ℕ) (s : Refining) (next : InterprocResult)
      → IsRefining q attempts remaining s
      → IsStopped q attempts (timed_out (record s { result = next }))
  with_result attempts remaining s next h = record {
    unsafe = inl refl;
    counted = h.counted;
    bounded = omega (arith, h.bounded);
    unique = h.unique;
  }

  accept_safe-IsRound :
      (attempts : List String) (remaining : ℕ) (s : Refining) (next : InterprocResult) (n : ℕ)
      → IsRefining q attempts remaining s
      → is_unsat s.verdict ≡ true
      → is_safe s.result.class ≡ false
      → is_safe next.class ≡ true
      → IsRound attempts remaining (accept_safe q s next n).0
  unfolding accept_safe IsRound
  accept_safe-IsRound attempts remaining s next n h infeasible unsafe safe =
      split attempts remaining (is_unknown s.verdict) _ _
        (λ e. stopped q attempts remaining s h unsafe)
        (λ e.
          split attempts remaining (deadline_reached q.control n) _ _
            (λ d. with_result attempts remaining s next h)
            (λ d. discharged-IsRefined attempts remaining s next h infeasible safe))

  after_rerun-IsRound :
      (attempts : List String) (remaining : ℕ) (s : Refining) (next : InterprocResult) (n : ℕ)
      → IsRefining q attempts remaining s
      → is_unsat s.verdict ≡ true
      → is_safe s.result.class ≡ false
      → IsRound attempts remaining (after_rerun q s next n).0
  unfolding after_rerun IsRound
  after_rerun-IsRound attempts remaining s next n h infeasible unsafe =
      split attempts remaining (deadline_reached q.control n) _ _
        (λ d. with_result attempts remaining s next h)
        (λ d.
          split attempts remaining (is_safe next.class) _ _
            (λ e. accept_safe-IsRound attempts remaining s next (suc n) h infeasible unsafe e)
            (λ e.
              query-IsRefining q attempts remaining next s (suc n) h.counted h.bounded h.unique e))

  -- The last part of a round, with an iteration to spend.
  rerun_round-IsRound :
      (attempts : List String) (remaining : ℕ) (s : Refining) (n : ℕ)
      → IsRefining q attempts (suc remaining) s
      → is_unsat s.verdict ≡ true
      → is_safe s.result.class ≡ false
      → IsRound attempts remaining (rerun_round q s n).0
  unfolding rerun_round IsRound IsUnique
  rerun_round-IsRound attempts remaining s n h infeasible unsafe =
      split attempts remaining (has_concrete_action (override_of q s)) _ _
        (λ e.
          split attempts remaining
            (str_eq s.discharge_hash "" || contains s.attempts s.discharge_hash) _ _
            (λ d. stopped q attempts (suc remaining) s h unsafe)
            (λ d.
              after_rerun-IsRound attempts remaining
                (record s {
                  attempts = s.discharge_hash ∷ s.attempts;
                  iterations = s.iterations + 1;
                })
                (q.rerun (override_of q s) n).0 (q.rerun (override_of q s) n).1
                (record {
                  refuted = h.refuted;
                  counted = omega (arith, h.counted);
                  bounded = omega (arith, h.bounded);
                  unique = λ u. (ground arith, h.unique u);
                })
                infeasible unsafe))
        (λ e. stopped q attempts (suc remaining) s h unsafe)

  discharge_round-IsRound :
      (attempts : List String) (remaining : ℕ) (s : Refining) (n : ℕ)
      → IsRefining q attempts (suc remaining) s
      → is_unsat s.verdict ≡ true
      → is_safe s.result.class ≡ false
      → IsRound attempts remaining (discharge_round q s n).0
  unfolding discharge_round IsRound
  discharge_round-IsRound attempts remaining s n h infeasible unsafe =
      split attempts remaining (is_unsat s.verdict) _ _
        (λ e.
          split attempts remaining (deadline_reached q.control n) _ _
            (λ d. overdue q attempts (suc remaining) s h)
            (λ d.
              rerun_round-IsRound attempts remaining
                (record s { discharged = s.discharge_hash ∷ s.discharged }) (suc n)
                (record {
                  refuted = h.refuted;
                  counted = h.counted;
                  bounded = h.bounded;
                  unique = h.unique;
                })
                infeasible unsafe))
        (λ e. rerun_round-IsRound attempts remaining s n h infeasible unsafe)

  attempt-unsat :
      (s : Refining) → should_attempt s.result s.verdict ≡ true → is_unsat s.verdict ≡ true
  unfolding should_attempt
  attempt-unsat s h = ground arith

  refine_round-IsRound :
      (attempts : List String) (remaining : ℕ) (s : Refining) (n : ℕ)
      → IsRefining q attempts (suc remaining) s
      → is_safe s.result.class ≡ false
      → IsRound attempts remaining (refine_round q s n).0
  unfolding refine_round IsRound
  refine_round-IsRound attempts remaining s n h unsafe =
      split attempts remaining (should_attempt s.result s.verdict) _ _
        (λ e.
          split attempts remaining (deadline_reached q.control n) _ _
            (λ d. overdue q attempts (suc remaining) s h)
            (λ d.
              discharge_round-IsRound attempts remaining s (suc n) h (attempt-unsat s e) unsafe))
        (λ e. stopped q attempts (suc remaining) s h unsafe)

  refine_next-IsRefined :
      (attempts : List String) (remaining : ℕ) (go : Refining → ℕ → Refined)
      → ((s : Refining) (n : ℕ)
          → IsRefining q attempts remaining s
          → is_safe s.result.class ≡ false
          → IsRefined q attempts (go s n))
      → (r : Round × ℕ) → IsRound attempts remaining r.0
      → IsRefined q attempts (refine_next q go r)
  unfolding refine_next IsRound
  refine_next-IsRefined attempts remaining go k (returns out, n) h = h
  refine_next-IsRefined attempts remaining go k (breaks s, n) h = conclude-IsRefined q attempts s h
  refine_next-IsRefined attempts remaining go k (goes_on s, n) h = k s n h.0 h.1

  split_out :
      (attempts : List String) (b : Bool) (r t : Refined)
      → IsRefined q attempts r
      → IsRefined q attempts t
      → IsRefined q attempts (elim b as (λ _. Refined) [ true ↦ r | false ↦ t ])
  split_out attempts true r t f g = f
  split_out attempts false r t f g = g

  refine_loop-IsRefined :
      (attempts : List String) (remaining : ℕ) (s : Refining) (n : ℕ)
      → IsRefining q attempts remaining s
      → is_safe s.result.class ≡ false
      → IsRefined q attempts (refine_loop q remaining s n)
  unfolding refine_loop
  refine_loop-IsRefined attempts zero s n h unsafe =
      conclude-IsRefined q attempts s (stopped q attempts 0 s h unsafe)
  refine_loop-IsRefined attempts (suc remaining) s n h unsafe =
      split_out attempts (ltb s.queries (query_budget q)) _ _
        (refine_next-IsRefined attempts remaining (refine_loop q remaining)
          (refine_loop-IsRefined attempts remaining) (refine_round q s n)
          (refine_round-IsRound attempts remaining s n h unsafe))
        (conclude-IsRefined q attempts s (stopped q attempts (suc remaining) s h unsafe))

  replayed-IsRefined :
      (result : InterprocResult) (attempts : List String)
      → IsRefined q attempts (reject_replay q result, attempts)
  unfolding reject_replay status_of
  replayed-IsRefined result attempts = record {
    refinement = _;
    refined = refl;
    witness = _;
    recorded = refl;
    classified = refl;
    discharge = λ e. absurd (cc e);
    violation = λ e. absurd (cc e);
    bounded = ground arith;
    recorded_all = omega arith;
    fresh = λ u. u;
  }

  refine_from-IsRefined :
      (attempts : List String) (r : Refining × ℕ)
      → IsRefining q attempts (iteration_budget q) r.0
      → is_safe r.0.result.class ≡ false
      → IsRefined q attempts (refine_from q r)
  unfolding refine_from
  refine_from-IsRefined attempts (s, n) h unsafe =
      refine_loop-IsRefined attempts (iteration_budget q) s n h unsafe

  chosen :
      (attempts : List String) (b : Bool) (o : Option ReplayRejection) (r t u : Refined)
      → b ≡ false
      → IsRefined q attempts t
      → IsRefined q attempts u
      → IsRefined q attempts (if b then r else (elim o as (λ _. Refined) [ some x ↦ t | none ↦ u ]))
  chosen attempts true o r t u h f g = cc
  chosen attempts false (some x) r t u h f g = f
  chosen attempts false none r t u h f g = g

  pub refine-IsRefined :
      (result : InterprocResult) (attempts : List String)
      → is_safe result.class ≡ false
      → IsRefined q attempts (refine q result attempts)
  unfolding refine
  refine-IsRefined result attempts unsafe =
      let (refining, still) =
        query-IsRefining q attempts (iteration_budget q) result (initial q result attempts) 0
          (omega arith) (omega arith) (λ u. u) unsafe in
      chosen attempts (is_safe result.class) (replay_rejection result) _ _ _ unsafe
        (replayed-IsRefined result attempts)
        (refine_from-IsRefined attempts (query q result (initial q result attempts) 0) refining
          still)
