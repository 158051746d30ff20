-- ===== src/Samples/ProtocolRuns.antt =====
-- goplint/protocol_domain.go and goplint/cfa_ide_edgefunc.go at concrete states.
use mathlib.Core.List.Perm
use goplint.Base.{◌≡◌, refl, true, [], ◌∷◌, arith, ◌&&◌}
use goplint.Protocol.Reason.{other_reason, feasibility_unknown, timeout, reflection}
use goplint.Protocol.State.{
  AbstractState, new_required_state, less_equal, join, valid, with_uncertainty, path_outcome_reason,
}
use goplint.Protocol.Lattice.{join_least_upper_bound}
use goplint.Protocol.Validity.{valid-apply_edge}
use goplint.Protocol.PathReason.{path_outcome_reason-with_uncertainty, path_outcome_reason-certain}
use goplint.Protocol.Relevance.{RelevanceQuery}
use goplint.Protocol.Decision.{
  path_status, aggregate_paths, path_violation, path_unresolved, evidence_inconclusive,
  path_discharged_infeasible,
}
use goplint.Protocol.Decision.Aggregate.{aggregate_paths-perm, aggregate_paths_lem, occurrences}
use goplint.Protocol.EdgeFunc.{
  EdgeFunc, escape_tag, consume_tag, validate_tag, apply_edge, compose_edge_funcs,
}
use goplint.Protocol.EdgeFunc.Monotone.{apply_edge_mono, apply_edge-join}
use goplint.Protocol.EdgeFunc.Compose.{compose_edge_funcs_verdict, discharges}

abbrev escaping : EdgeFunc
escaping = record { tag = escape_tag }

abbrev consuming : EdgeFunc
consuming = record { tag = consume_tag }

abbrev validating : EdgeFunc
validating = record { tag = validate_tag }

abbrev proven : AbstractState
proven = record new_required_state { validation = 0; result = 1 }

abbrev timed_out : AbstractState
timed_out = record new_required_state { uncertainty = 1024 }

validate_then_consume : apply_edge consuming (apply_edge validating new_required_state) ≡ proven
unfolding apply_edge
validate_then_consume = refl

consume_then_validate :
    path_status (apply_edge validating (apply_edge consuming new_required_state)) ≡ path_violation
unfolding apply_edge path_status
consume_then_validate = refl

reflection_reported :
    path_outcome_reason (with_uncertainty (with_uncertainty proven reflection) timeout) ≡ timeout
unfolding path_outcome_reason with_uncertainty
reflection_reported = refl

join_least_upper_bound_example :
    (less_equal proven (join proven timed_out) ≡ true)
    × (less_equal timed_out (join proven timed_out) ≡ true)
    × (less_equal (join proven timed_out) timed_out
        ≡ (less_equal proven timed_out && less_equal timed_out timed_out))
join_least_upper_bound_example = join_least_upper_bound proven timed_out timed_out

valid-apply_edge_example : valid (apply_edge escaping new_required_state) ≡ true
unfolding valid
valid-apply_edge_example = valid-apply_edge escaping new_required_state refl

path_outcome_reason-with_uncertainty_example :
    path_outcome_reason (with_uncertainty proven (other_reason "recursion-limit"))
    ≡ feasibility_unknown
path_outcome_reason-with_uncertainty_example =
    path_outcome_reason-with_uncertainty proven (other_reason "recursion-limit") refl

path_outcome_reason-certain_example : proven.uncertainty ≡ 0
unfolding valid path_outcome_reason
path_outcome_reason-certain_example = path_outcome_reason-certain proven refl (omega arith) refl

abbrev narrow_query : RelevanceQuery
narrow_query = record {
  forward_reachable = true;
  sink_reachable = true;
  identity = 2;
  possible_effects = 2;
}

abbrev wide_query : RelevanceQuery
wide_query = record {
  forward_reachable = true;
  sink_reachable = true;
  identity = 3;
  possible_effects = 6;
}

aggregate_paths-perm_example :
    aggregate_paths (path_violation ∷ path_unresolved ∷ [])
    ≡ aggregate_paths (path_unresolved ∷ path_violation ∷ [])
aggregate_paths-perm_example =
    aggregate_paths-perm (path_violation ∷ path_unresolved ∷ [])
      (path_unresolved ∷ path_violation ∷ []) (Perm.swap path_unresolved path_violation [])

aggregate_paths_lem_example :
    ((aggregate_paths (path_unresolved ∷ path_discharged_infeasible ∷ [])).kind
      ≡ evidence_inconclusive)
    × ((aggregate_paths (path_unresolved ∷ path_discharged_infeasible ∷ [])).emit_diagnostic ≡ true)
    × ((aggregate_paths (path_unresolved ∷ path_discharged_infeasible ∷ [])).discharged_witnesses
        ≡ 1)
unfolding occurrences
aggregate_paths_lem_example =
    aggregate_paths_lem (path_unresolved ∷ path_discharged_infeasible ∷ [])

apply_edge_mono_example :
    less_equal
      (apply_edge escaping (record proven { result = 0 }))
      (apply_edge escaping new_required_state)
    ≡ true
unfolding valid less_equal
apply_edge_mono_example =
    apply_edge_mono escaping (record proven { result = 0 }) new_required_state refl refl

apply_edge-join_example :
    apply_edge escaping (join proven new_required_state)
    ≡ join (apply_edge escaping proven) (apply_edge escaping new_required_state)
unfolding valid
apply_edge-join_example = apply_edge-join escaping proven new_required_state (λ e. cc) refl refl

compose_edge_funcs_verdict_example :
    (path_status (apply_edge (compose_edge_funcs escaping validating) new_required_state)
      ≡ path_status (apply_edge validating (apply_edge escaping new_required_state)))
    × (discharges (apply_edge (compose_edge_funcs escaping validating) new_required_state)
        ≡ discharges (apply_edge validating (apply_edge escaping new_required_state)))
compose_edge_funcs_verdict_example = compose_edge_funcs_verdict escaping validating
