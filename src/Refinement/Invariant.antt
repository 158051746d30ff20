-- ===== src/Refinement/Invariant.antt =====
-- The invariant of the loop of `cfgRefinementController.Refine` in goplint/cfa_refinement.go: the end
-- of the loop, and the queries.
use goplint.Base.{
  ℕ, ◌+◌, ◌≤◌, String, contains, true, false, some, List, [], ◌∷◌, length, ◌≡◌, ◌⊎◌, refl, sym,
  subst, ◌∙◌, ap, arith, Bool-cases, inl, inr,
}
use goplint.Feasibility.Control.{deadline_reached}
use goplint.Refinement.{
  class_unsafe, FeasibilityVerdict, sat, other_verdict, unsat, unknown, InterprocResult,
  RefinementResult, WitnessRecord,
}
use goplint.Refinement.Check.{check_feasibility}
use goplint.Refinement.Check.Accepted.{IsRefuted, check_feasibility-IsRefuted}
use goplint.Refinement.Loop.{
  RefinementRequest, Refining, Refined, is_unsat, is_unknown, is_safe, should_attempt, timed_out,
  iteration_budget, record_of, query, refinement_of, with_refinement, status_of, downgrade,
  conclude,
}

-- No text stands in the list twice.
unfoldable pub IsUnique : List String → Type 0
IsUnique [] = Unit
IsUnique (x ∷ xs) = (contains xs x ≡ false) × IsUnique xs

module _ (q : RefinementRequest) where
  -- What a refined result carries. `attempts` is the cache before.
  pub record IsRefined (attempts : List String) (out : Refined) : Type 0 where
    pub refinement : RefinementResult
    pub refined : out.0.refinement ≡ some refinement
    pub witness : WitnessRecord
    pub recorded : out.0.witness_record ≡ some witness
    pub classified : refinement.refinement_status ≡ status_of q out.0.class
    pub discharge :
        is_safe out.0.class ≡ true
        → (is_unsat refinement.feasibility_result ≡ true) × IsRefuted q.backend q.control witness
    pub violation :
        out.0.class ≡ class_unsafe
        → (is_unsat refinement.feasibility_result ≡ false)
          × (is_unknown refinement.feasibility_result ≡ false)
    pub bounded : refinement.refinement_iterations ≤ iteration_budget q
    pub recorded_all : length out.1 ≡ refinement.refinement_iterations + length attempts
    pub fresh : IsUnique attempts → IsUnique out.1

  -- What holds between two rounds of the loop, `remaining` iterations before its end.
  pub record IsRefining (attempts : List String) (remaining : ℕ) (s : Refining) : Type 0 where
    pub refuted : is_unsat s.verdict ≡ true → IsRefuted q.backend q.control s.witness_record
    pub counted : length s.attempts ≡ s.iterations + length attempts
    pub bounded : s.iterations + remaining ≤ iteration_budget q
    pub unique : IsUnique attempts → IsUnique s.attempts

  -- A state that the loop stops in: only one whose verdict is unknown has a safe result.
  pub record IsStopped (attempts : List String) (s : Refining) : Type 0 where
    pub unsafe : (is_unknown s.verdict ≡ true) ⊎ (is_safe s.result.class ≡ false)
    pub counted : length s.attempts ≡ s.iterations + length attempts
    pub bounded : s.iterations ≤ iteration_budget q
    pub unique : IsUnique attempts → IsUnique s.attempts

  pub stopped :
      (attempts : List String) (remaining : ℕ) (s : Refining)
      → IsRefining attempts remaining s
      → is_safe s.result.class ≡ false
      → IsStopped attempts s
  stopped attempts remaining s h safe = record {
    unsafe = inr safe;
    counted = h.counted;
    bounded = omega (arith, h.bounded);
    unique = h.unique;
  }

  pub overdue :
      (attempts : List String) (remaining : ℕ) (s : Refining)
      → IsRefining attempts remaining s
      → IsStopped attempts (timed_out s)
  overdue attempts remaining s h = record {
    unsafe = inl refl;
    counted = h.counted;
    bounded = omega (arith, h.bounded);
    unique = h.unique;
  }

  downgrade-class :
      (s : Refining)
      → (is_unknown s.verdict ≡ true) ⊎ (is_safe s.result.class ≡ false)
      → is_safe (downgrade q s).result.class ≡ false
  unfolding downgrade should_attempt
  downgrade-class s h = ground arith

  downgrade-verdict :
      (s : Refining)
      → (downgrade q s).result.class ≡ class_unsafe
      → (is_unsat (downgrade q s).verdict ≡ false) × (is_unknown (downgrade q s).verdict ≡ false)
  unfolding downgrade should_attempt
  downgrade-verdict s h = ground arith

  downgrade-counts :
      (s : Refining)
      → ((downgrade q s).iterations ≡ s.iterations) × ((downgrade q s).attempts ≡ s.attempts)
  unfolding downgrade should_attempt
  downgrade-counts s = ground arith

  pub conclude-IsRefined :
      (attempts : List String) (s : Refining)
      → IsStopped attempts s
      → IsRefined attempts (conclude q s)
  unfolding conclude with_refinement refinement_of
  conclude-IsRefined attempts s h =
      let (iterations, _) = downgrade-counts s in
      record {
        refinement = refinement_of q (downgrade q s) (status_of q (downgrade q s).result.class);
        refined = refl;
        witness = (downgrade q s).witness_record;
        recorded = refl;
        classified = refl;
        discharge = λ safe. absurd (cc (safe, downgrade-class s h.unsafe));
        violation = downgrade-verdict s;
        bounded = omega (arith, iterations, h.bounded);
        recorded_all = omega (arith, iterations, h.counted);
        fresh = h.unique;
      }

  only_unsat : (v : FeasibilityVerdict) → is_unsat v ≡ true → v ≡ unsat
  only_unsat unsat h = refl
  only_unsat sat h = cc
  only_unsat unknown h = cc
  only_unsat (other_verdict s) h = cc

  query-verdict :
      (next : InterprocResult) (s : Refining) (n : ℕ)
      → is_unsat (query q next s n).0.verdict ≡ true
      → is_unsat (check_feasibility q.backend q.control (record_of q next) n).0.result ≡ true
  unfolding query
  query-verdict next s n h =
      elim (Bool-cases (
        deadline_reached q.control
          (check_feasibility q.backend q.control (record_of q next) n).1)) [
            | inl e ↦ absurd (ground arith)
            | inr e ↦ ground arith
          ]

  query-keeps :
      (next : InterprocResult) (s : Refining) (n : ℕ)
      → ((query q next s n).0.iterations ≡ s.iterations)
        × ((query q next s n).0.attempts ≡ s.attempts)
        × ((query q next s n).0.result ≡ next)
        × ((query q next s n).0.witness_record ≡ record_of q next)
  unfolding query
  query-keeps next s n = ground arith

  query-IsRefuted :
      (next : InterprocResult) (s : Refining) (n : ℕ)
      → is_unsat (query q next s n).0.verdict ≡ true
      → IsRefuted q.backend q.control (query q next s n).0.witness_record
  query-IsRefuted next s n h =
      let (_, _, _, witness) = query-keeps next s n in
      subst (IsRefuted q.backend q.control) (sym witness) (
        check_feasibility-IsRefuted q.backend q.control (record_of q next) n
          (only_unsat _ (query-verdict next s n h)))

  pub query-IsRefining :
      (attempts : List String) (remaining : ℕ) (next : InterprocResult) (s : Refining) (n : ℕ)
      → length s.attempts ≡ s.iterations + length attempts
      → s.iterations + remaining ≤ iteration_budget q
      → (IsUnique attempts → IsUnique s.attempts)
      → is_safe next.class ≡ false
      → IsRefining attempts remaining (query q next s n).0
        × (is_safe (query q next s n).0.result.class ≡ false)
  query-IsRefining attempts remaining next s n counted bounded unique unsafe =
      let (iterations, same, result, _) = query-keeps next s n in
      (
        record {
          refuted = query-IsRefuted next s n;
          counted = cc (ap (length {A = String}) same, iterations, counted);
          bounded = omega (arith, iterations, bounded);
          unique = λ u. subst IsUnique (sym same) (unique u);
        },
        ap (λ r. is_safe r.class) result ∙ unsafe,
      )
