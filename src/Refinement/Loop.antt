-- ===== src/Refinement/Loop.antt =====
-- `cfgRefinementController.Refine` of goplint/cfa_refinement.go. The loop runs on the iterations
-- that the budget leaves, since each round that goes on spends one.
use goplint.Base.{
  ℕ, zero, suc, ◌+◌, String, str_eq, contains, append, Bool, true, false, not, ◌&&◌, ◌||◌, none,
  some, List, [], ◌∷◌, ltb, leb, length, if◌then◌else◌,
}
use goplint.Protocol.Reason.{
  PathOutcomeReason, state_budget, unresolved_target, feasibility_unknown, reason_eq,
}
use goplint.Feasibility.Control.{Control, deadline_reached}
use goplint.Refinement.{
  OutcomeClass, class_safe, class_unsafe, class_inconclusive, other_class, FeasibilityVerdict,
  unsat, unknown, other_verdict, FeasibilityReason, no_feasibility_reason, deadline_timeout,
  evidence_rejected, query_limit, iteration_limit, RefinementStatus, status_violation,
  status_inconclusive, status_discharged_infeasible, InterprocResult, RefinementResult,
  WitnessRecord, WitnessIdentity, build_witness_record, replay_rejection,
}
use goplint.Refinement.Check.{Asks, Backend, FeasibilityDecision, check_feasibility, zero_evidence}

abbrev pub default_max_states : ℕ
default_max_states = 20000

abbrev pub default_max_iterations : ℕ
default_max_iterations = 3

abbrev pub default_max_queries : ℕ
default_max_queries = 16

pub record RefinementOverride : Type 0 where
  pub max_states : ℕ
  pub discharged_witnesses : List String
  pub allow_safe : Bool
  pub resolve_targets : Bool

unfoldable pub has_concrete_action : RefinementOverride → Bool
has_concrete_action o =
    ltb 0 o.max_states || ltb 0 (length o.discharged_witnesses) || o.resolve_targets

unfoldable pub max_states_for_trigger : PathOutcomeReason → ℕ
max_states_for_trigger state_budget = default_max_states
max_states_for_trigger _ = 0

-- A budget that is not positive stands for the default one.
unfoldable pub budget_or : ℕ → ℕ → ℕ
budget_or fallback n = if ltb 0 n then n else fallback

-- The request with the options of the controller: `sha` is the hexadecimal SHA-256 of a text.
pub record RefinementRequest : Type 1 where
  pub backend : Backend
  pub max_iterations : ℕ
  pub max_queries : ℕ
  pub control : Control
  pub hash_record : WitnessRecord → String
  pub sha : String → String
  pub identity : InterprocResult → WitnessIdentity
  pub call_chain : List String
  pub rerun : RefinementOverride → Asks InterprocResult

abbrev pub is_unsat : FeasibilityVerdict → Bool
is_unsat unsat = true
is_unsat _ = false

abbrev pub is_unknown : FeasibilityVerdict → Bool
is_unknown unknown = true
is_unknown _ = false

abbrev pub is_safe : OutcomeClass → Bool
is_safe class_safe = true
is_safe _ = false

unfoldable pub should_attempt : InterprocResult → FeasibilityVerdict → Bool
should_attempt result verdict = not (is_safe result.class) && is_unsat verdict

-- The variables of `Refine`. `attempts` is the cache.
pub record Refining : Type 0 where
  pub result : InterprocResult
  pub witness_record : WitnessRecord
  pub decision : FeasibilityDecision
  pub verdict : FeasibilityVerdict
  pub reason : FeasibilityReason
  pub discharge_hash : String
  pub iterations : ℕ
  pub queries : ℕ
  pub discharged : List String
  pub attempts : List String

-- The result, and the cache after it.
abbrev pub Refined : Type 0
Refined = InterprocResult × List String

-- What a round comes to.
pub data Round : Type 0 where
  returns : Refined → Round
  breaks : Refining → Round
  goes_on : Refining → Round

abbrev pub timed_out : Refining → Refining
timed_out s = record s { verdict = unknown; reason = deadline_timeout }

module _ (q : RefinementRequest) where
  abbrev pub iteration_budget : ℕ
  iteration_budget = budget_or default_max_iterations q.max_iterations

  abbrev pub query_budget : ℕ
  query_budget = budget_or default_max_queries q.max_queries

  unfoldable pub record_of : InterprocResult → WitnessRecord
  unfolding build_witness_record
  record_of result = build_witness_record q.hash_record (q.identity result) q.call_chain result

  unfoldable pub hash_of : InterprocResult → WitnessRecord → FeasibilityDecision → String
  hash_of result witness decision =
      if not (is_unsat decision.result)
      then ""
      else let base =
          if not (str_eq result.witness_hash "")
          then result.witness_hash
          else witness.witness_hash in
        if str_eq base "" || str_eq decision.evidence_digest "" || str_eq decision.formula_digest ""
        then ""
        else append base (
            append "|cfgd1_" (
              q.sha (
                append base (
                  append "|"
                    (append decision.formula_digest (append "|" decision.evidence_digest))))))

  -- A query, and what it sets.
  unfoldable pub query : InterprocResult → Refining → Asks Refining
  unfolding record_of hash_of
  query result s n =
      let witness = record_of result in
      let (decision, m) = check_feasibility q.backend q.control witness n in
      let asked : Refining = record s {
        result = result;
        witness_record = witness;
        decision = decision;
        queries = s.queries + 1;
      } in
      elim (deadline_reached q.control m) [
        | true ↦ (
          record asked { verdict = unknown; reason = deadline_timeout; discharge_hash = "" },
          suc m,
        )
        | false ↦ (
          record asked {
            verdict = decision.result;
            reason = decision.reason;
            discharge_hash = hash_of result witness decision;
          },
          suc m,
        )
      ]

  unfoldable pub refinement_of : Refining → RefinementStatus → RefinementResult
  refinement_of s status = record {
    feasibility_result = s.verdict;
    feasibility_reason = s.reason;
    refinement_status = status;
    refinement_iterations = s.iterations;
    refinement_trigger = s.witness_record.trigger_reason;
    witness_hash = s.witness_record.witness_hash;
    ssa_subjects = s.decision.subjects;
    evidence = s.decision.evidence;
    evidence_digest = s.decision.evidence_digest;
  }

  unfoldable pub with_refinement : InterprocResult → Refining → RefinementStatus → InterprocResult
  unfolding refinement_of
  with_refinement result s status = record result {
    refinement = some (refinement_of s status);
    witness_record = some s.witness_record;
  }

  -- A rerun whose outcome is safe.
  unfoldable pub accept_safe : Refining → InterprocResult → ℕ → Round × ℕ
  unfolding with_refinement
  accept_safe s next n = elim (is_unknown s.verdict) [
    | true ↦ (breaks s, n)
    | false ↦ elim (deadline_reached q.control n) [
      | true ↦ (breaks (timed_out (record s { result = next })), suc n)
      | false ↦ (returns (with_refinement next s status_discharged_infeasible, s.attempts), suc n)
    ]
  ]

  -- The round after the rerun; `s` has the iteration counted.
  unfoldable pub after_rerun : Refining → InterprocResult → ℕ → Round × ℕ
  unfolding accept_safe query
  after_rerun s next n = elim (deadline_reached q.control n) [
    | true ↦ (breaks (timed_out (record s { result = next })), suc n)
    | false ↦ elim (is_safe next.class) [
      | true ↦ accept_safe s next (suc n)
      | false ↦ let (t, m) = query next s (suc n) in (goes_on t, m)
    ]
  ]

  abbrev pub override_of : Refining → RefinementOverride
  override_of s = record {
    max_states = max_states_for_trigger s.result.reason;
    discharged_witnesses = s.discharged;
    allow_safe = true;
    resolve_targets = reason_eq s.result.reason unresolved_target;
  }

  -- The round from the override on; `s` has the hash discharged.
  unfoldable pub rerun_round : Refining → ℕ → Round × ℕ
  unfolding after_rerun has_concrete_action
  rerun_round s n = elim (has_concrete_action (override_of s)) [
    | false ↦ (breaks s, n)
    | true ↦ elim (str_eq s.discharge_hash "" || contains s.attempts s.discharge_hash) [
      | true ↦ (breaks s, n)
      | false ↦
          let (next, m) = q.rerun (override_of s) n in
          after_rerun
            (record s { attempts = s.discharge_hash ∷ s.attempts; iterations = s.iterations + 1 })
            next m
    ]
  ]

  -- The discharge of an UNSAT witness, behind a second look at the deadline.
  unfoldable pub discharge_round : Refining → ℕ → Round × ℕ
  unfolding rerun_round
  discharge_round s n = elim (is_unsat s.verdict) [
    | false ↦ rerun_round s n
    | true ↦ elim (deadline_reached q.control n) [
      | true ↦ (breaks (timed_out s), suc n)
      | false ↦ rerun_round (record s { discharged = s.discharge_hash ∷ s.discharged }) (suc n)
    ]
  ]

  unfoldable pub refine_round : Refining → ℕ → Round × ℕ
  unfolding discharge_round should_attempt
  refine_round s n = elim (should_attempt s.result s.verdict) [
    | false ↦ (breaks s, n)
    | true ↦ elim (deadline_reached q.control n) [
      | true ↦ (breaks (timed_out s), suc n)
      | false ↦ discharge_round s (suc n)
    ]
  ]

  unfoldable pub status_of : OutcomeClass → RefinementStatus
  status_of class_safe = status_discharged_infeasible
  status_of class_unsafe = status_violation
  status_of class_inconclusive = status_inconclusive
  status_of (other_class s) = status_violation

  abbrev pub inconclusive : Refining → Refining
  inconclusive s = record s {
    result = record s.result { class = class_inconclusive; reason = feasibility_unknown };
    verdict = unknown;
  }

  -- What follows the loop.
  unfoldable pub downgrade : Refining → Refining
  unfolding should_attempt
  downgrade s =
      if should_attempt s.result s.verdict
      then record (inconclusive s) {
        reason =
            if leb query_budget s.queries
            then query_limit
            else if leb iteration_budget s.iterations
            then iteration_limit
            else s.reason;
      }
      else if is_unknown s.verdict
      then inconclusive s
      else s

  unfoldable pub conclude : Refining → Refined
  unfolding downgrade status_of with_refinement
  conclude s = (
    with_refinement (downgrade s).result (downgrade s) (status_of (downgrade s).result.class),
    s.attempts,
  )

  -- The end of a round, with what goes on from there.
  unfoldable pub refine_next : (Refining → ℕ → Refined) → Round × ℕ → Refined
  unfolding conclude
  refine_next go (returns result, n) = result
  refine_next go (breaks s, n) = conclude s
  refine_next go (goes_on s, n) = go s n

  -- The loop, with `remaining` iterations to spend.
  unfoldable pub refine_loop : ℕ → Refining → ℕ → Refined
  unfolding refine_round refine_next
  refine_loop zero s n = conclude s
  refine_loop (suc remaining) s n = elim (ltb s.queries query_budget) [
    | false ↦ conclude s
    | true ↦ refine_next (refine_loop remaining) (refine_round s n)
  ]

  -- Before the first query.
  abbrev pub initial : InterprocResult → List String → Refining
  initial result attempts = record {
    result = result;
    witness_record = record_of result;
    decision = record {
      result = other_verdict "";
      reason = no_feasibility_reason;
      evidence = zero_evidence;
      subjects = [];
      formula_digest = "";
      evidence_digest = "";
    };
    verdict = other_verdict "";
    reason = no_feasibility_reason;
    discharge_hash = "";
    iterations = 0;
    queries = 0;
    discharged = [];
    attempts = attempts;
  }

  -- A witness that cannot be replayed.
  unfoldable pub reject_replay : InterprocResult → InterprocResult
  unfolding record_of
  reject_replay result = record result {
    class = class_inconclusive;
    reason = feasibility_unknown;
    refinement = some (record {
      feasibility_result = unknown;
      feasibility_reason = evidence_rejected;
      refinement_status = status_inconclusive;
      refinement_iterations = 0;
      refinement_trigger = (record_of result).trigger_reason;
      witness_hash = (record_of result).witness_hash;
      ssa_subjects = [];
      evidence = zero_evidence;
      evidence_digest = "";
    });
    witness_record = some (record_of result);
  }

  unfoldable pub refine_from : Refining × ℕ → Refined
  unfolding refine_loop
  refine_from (s, n) = refine_loop iteration_budget s n

  -- `attempts` is the cache, which the controller keeps from one witness to the next.
  unfoldable pub refine : InterprocResult → List String → Refined
  unfolding refine_from query reject_replay
  refine result attempts =
      if is_safe result.class then (result, attempts) else elim (replay_rejection result) [
        | some r ↦ (reject_replay result, attempts)
        | none ↦ refine_from (query result (initial result attempts) 0)
      ]
