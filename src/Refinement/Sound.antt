-- ===== src/Refinement/Sound.antt =====
-- What `cfgRefinementController.Refine` of goplint/cfa_refinement.go promises of a candidate that is
-- not safe.
use goplint.Base.{
  ℕ, ◌+◌, ◌≤◌, String, Bool, true, false, ◌&&◌, Option, none, some, List, length, ◌==◌, ◌≡◌, refl,
  arith,
}
use goplint.Feasibility.Formula.{ConstraintFormula}
use goplint.Feasibility.Semantics.{ValueOrder}
use goplint.Feasibility.Formula.Meaning.{satisfies, canonical_formula}
use goplint.Feasibility.Evidence.Sound.{check_evidence_sound}
use goplint.Witness.Graph.{Supergraph}
use goplint.Witness.Replay.{ReplayRejection, validate_replay}
use goplint.Witness.Replay.Accepted.{IsGenuine, validate_replay_sound}
use goplint.Refinement.{
  class_inconclusive, class_unsafe, InterprocResult, RefinementResult, WitnessRecord,
  replay_rejection,
}
use goplint.Refinement.Loop.{
  RefinementRequest, refine, reject_replay, is_safe, is_unsat, is_unknown, status_of,
  iteration_budget,
}
use goplint.Refinement.Invariant.{IsUnique}
use goplint.Refinement.Rounds.{refine-IsRefined}

excluded : (a b : Bool) → (a ≡ true → b ≡ false) → (a && b) ≡ false
excluded true b h = h refl
excluded false b h = refl

module _ (q : RefinementRequest) (result : InterprocResult) (attempts : List String) where
  -- A candidate that is not safe becomes safe only when an UNSAT answer discharged its last witness:
  -- the formula extracted for the witness on record holds under no assignment of values, if all its
  -- constants are spelled canonically.
  pub refine_safe :
      (V : ValueOrder q.backend.rationals) (values : String → V.Value)
      → is_safe result.class ≡ false
      → is_safe (refine q result attempts).0.class ≡ true
      → (r : RefinementResult) × ((refine q result attempts).0.refinement ≡ some r)
        × (is_unsat r.feasibility_result ≡ true)
        × (w : WitnessRecord) × ((refine q result attempts).0.witness_record ≡ some w)
        × (formula : ConstraintFormula) × (n : ℕ) × ((q.backend.extract_formula w n).0
            ≡ some formula)
        × ((canonical_formula V formula && satisfies q.backend.rationals V values formula) ≡ false)
  refine_safe V values unsafe safe =
      let h = refine-IsRefined q result attempts unsafe in
      let (infeasible, e) = h.discharge safe in
      (
        h.refinement,
        h.refined,
        infeasible,
        h.witness,
        h.recorded,
        e.formula,
        e.extracted_at,
        e.extracted,
        excluded (canonical_formula V e.formula) (satisfies q.backend.rationals V values e.formula)
            (λ k.
              check_evidence_sound q.backend.rationals V values q.control e.formula
                h.witness.cfg_path e.evidence e.checked_at k e.checked),
      )

  -- A candidate that is not safe leaves with a refinement whose status is that of its class, and it
  -- is a violation only if the last answer was neither UNSAT nor unknown.
  pub refine_violation :
      is_safe result.class ≡ false
      → (r : RefinementResult) × ((refine q result attempts).0.refinement ≡ some r)
        × (r.refinement_status ≡ status_of q (refine q result attempts).0.class)
        × ((refine q result attempts).0.class ≡ class_unsafe
            → (is_unsat r.feasibility_result ≡ false) × (is_unknown r.feasibility_result ≡ false))
  refine_violation unsafe =
      let h = refine-IsRefined q result attempts unsafe in
      (h.refinement, h.refined, h.classified, h.violation)

  -- The refinement of a candidate that is not safe runs at most the iterations of its budget. Each
  -- adds one discharge hash to the cache, and none that is in it already.
  pub refine_iterations :
      is_safe result.class ≡ false
      → (r : RefinementResult) × ((refine q result attempts).0.refinement ≡ some r)
        × (r.refinement_iterations ≤ iteration_budget q)
        × (length (refine q result attempts).1 ≡ r.refinement_iterations + length attempts)
        × (IsUnique attempts → IsUnique (refine q result attempts).1)
  refine_iterations unsafe =
      let h = refine-IsRefined q result attempts unsafe in
      (h.refinement, h.refined, h.bounded, h.recorded_all, h.fresh)

  rejected_inconclusive :
      (o : Option ReplayRejection)
      → replay_rejection result ≡ o
      → is_safe result.class ≡ false
      → ¬ ((refine q result attempts).0.class ≡ class_inconclusive)
      → o ≡ none
  unfolding refine reject_replay
  rejected_inconclusive none h unsafe k = refl
  rejected_inconclusive (some x) h unsafe k = absurd (k (ground arith))

  replay_none :
      (graph : Supergraph)
      → result.witness_graph ≡ some graph
      → (length result.replay.witness_edges == 0) ≡ false
      → replay_rejection result ≡ none
      → validate_replay graph result.replay ≡ none
  unfolding replay_rejection
  replay_none graph is_graph edges h = ground arith

  -- A candidate that is not safe and has a witness is answered by anything but inconclusive only if
  -- the witness is genuine in its graph.
  pub refine_replayed :
      (graph : Supergraph)
      → result.witness_graph ≡ some graph
      → (length result.replay.witness_edges == 0) ≡ false
      → is_safe result.class ≡ false
      → ¬ ((refine q result attempts).0.class ≡ class_inconclusive)
      → IsGenuine graph result.replay
  refine_replayed graph is_graph edges unsafe k = validate_replay_sound graph result.replay (
      replay_none graph is_graph edges
        (rejected_inconclusive (replay_rejection result) refl unsafe k))
