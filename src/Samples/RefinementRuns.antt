-- ===== src/Samples/RefinementRuns.antt =====
-- goplint/cfa_refinement.go at a candidate whose witness is infeasible: its formula asks for a number
-- above three and below two.
use goplint.Base.{
  contains, String, true, false, none, some, [], ◌∷◌, ◌≡◌, ◌≤◌, ◌+◌, ℕ, length, refl, ◌&&◌,
}
use goplint.Protocol.Reason.{no_reason}
use goplint.Protocol.EdgeFunc.{validate_tag, apply_edge, new_edge_func}
use goplint.Feasibility.Control.{pure}
use goplint.Feasibility.Evidence.{
  check_evidence, check_with_subjects, check_loop, constraint_present, constraint_eq,
}
use goplint.Feasibility.Evidence.Accepts.{with_path}
use goplint.Feasibility.Formula.{ConstraintFormula, constraint_subjects}
use goplint.Feasibility.Formula.Meaning.{satisfies, canonical_formula}
use goplint.Feasibility.Constraint.{constraints_contradict, compare_numeric_constants}
use goplint.Witness.Replay.{validate_replay}
use goplint.Witness.Graph.{node_exists, transfer_matches, graph_has_edge}
use goplint.Protocol.State.{valid}
use goplint.Witness.Replay.Accepted.{IsGenuine}
use goplint.Refinement.{
  InterprocResult, RefinementResult, WitnessRecord, class_safe, class_unsafe, class_inconclusive,
  unsat, sat, no_feasibility_reason, FeasibilityVerdict, replay_rejection,
}
use goplint.Refinement.Check.{Backend, FeasibilityDecision, check_feasibility}
use goplint.Refinement.Loop.{
  RefinementRequest, refine, is_safe, is_unsat, is_unknown, status_of, budget_or,
  max_states_for_trigger, iteration_budget,
}
use goplint.Refinement.Invariant.{IsUnique}
use goplint.Refinement.Sound.{refine_safe, refine_violation, refine_iterations, refine_replayed}
use goplint.Samples.FeasibilityRuns.{unary, unary_order, crossed, crossed_evidence, assignment}
use goplint.Samples.WitnessRuns.{graph, there_and_back}

abbrev candidate : InterprocResult
candidate = record {
  class = class_unsafe;
  reason = no_reason;
  witness = 4 ∷ 7 ∷ [];
  replay = there_and_back;
  witness_hash = "w1";
  edge_function_tag = validate_tag;
  witness_record = none;
  refinement = none;
  witness_graph = some graph;
}

abbrev decision_of : FeasibilityVerdict → FeasibilityDecision
decision_of verdict = record {
  result = verdict;
  reason = no_feasibility_reason;
  evidence = with_path crossed_evidence (4 ∷ 7 ∷ []) ("x" ∷ []);
  subjects = "x" ∷ [];
  formula_digest = "";
  evidence_digest = "";
}

abbrev backend : FeasibilityVerdict → Backend
backend verdict = record {
  rationals = unary;
  check = λ witness n. (decision_of verdict, n);
  extract_formula = λ witness. pure crossed;
  digest_formula = λ formula. pure "f1";
  digest_evidence = λ evidence. pure "e1";
}

abbrev request : FeasibilityVerdict → RefinementRequest
request verdict = record {
  backend = backend verdict;
  max_iterations = 0;
  max_queries = 0;
  control = none;
  hash_record = λ witness. "h1";
  sha = λ text. "s1";
  identity = λ result. record {
    category = "unvalidated-cast";
    finding_id = "F1";
    origin_anchors = [];
    synthetic_path = 1 ∷ [];
  };
  call_chain = "main" ∷ [];
  rerun = λ override n. (record candidate { class = class_safe }, n);
}

discharged : is_safe (refine (request unsat) candidate []).0.class ≡ true
unfolding refine replay_rejection validate_replay node_exists valid transfer_matches apply_edge
    new_edge_func graph_has_edge budget_or check_feasibility check_evidence constraint_subjects
    check_with_subjects check_loop constraint_present constraint_eq constraints_contradict
    compare_numeric_constants max_states_for_trigger contains
discharged = refl

-- A candidate with a witness that the solver finds possible stays a violation.
confirmed : (refine (request sat) candidate []).0.class ≡ class_unsafe
unfolding refine replay_rejection validate_replay node_exists valid transfer_matches apply_edge
    new_edge_func graph_has_edge budget_or check_feasibility check_evidence constraint_subjects
    check_with_subjects check_loop constraint_present constraint_eq constraints_contradict
    compare_numeric_constants
confirmed = refl

confirmed_conclusive : ¬ ((refine (request sat) candidate []).0.class ≡ class_inconclusive)
confirmed_conclusive e = cc (e, confirmed)

refine_safe_example :
    (r : RefinementResult) × ((refine (request unsat) candidate []).0.refinement ≡ some r)
    × (is_unsat r.feasibility_result ≡ true)
    × (w : WitnessRecord) × ((refine (request unsat) candidate []).0.witness_record ≡ some w)
    × (formula : ConstraintFormula) × (n : ℕ) × (((backend unsat).extract_formula w n).0
        ≡ some formula)
    × ((canonical_formula unary_order formula && satisfies unary unary_order assignment formula)
        ≡ false)
refine_safe_example =
    refine_safe (request unsat) candidate [] unary_order assignment refl discharged

refine_violation_example :
    (r : RefinementResult) × ((refine (request sat) candidate []).0.refinement ≡ some r)
    × (r.refinement_status ≡ status_of (request sat) (refine (request sat) candidate []).0.class)
    × ((refine (request sat) candidate []).0.class ≡ class_unsafe
        → (is_unsat r.feasibility_result ≡ false) × (is_unknown r.feasibility_result ≡ false))
refine_violation_example = refine_violation (request sat) candidate [] refl

refine_iterations_example :
    (r : RefinementResult) × ((refine (request unsat) candidate []).0.refinement ≡ some r)
    × (r.refinement_iterations ≤ iteration_budget (request unsat))
    × (length (refine (request unsat) candidate []).1
        ≡ r.refinement_iterations + length {A = String} [])
    × (IsUnique [] → IsUnique (refine (request unsat) candidate []).1)
refine_iterations_example = refine_iterations (request unsat) candidate [] refl

refine_replayed_example : IsGenuine graph there_and_back
refine_replayed_example =
    refine_replayed (request sat) candidate [] graph refl refl refl confirmed_conclusive
