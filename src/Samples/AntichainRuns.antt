-- ===== src/Samples/AntichainRuns.antt =====
-- The retained witnesses of goplint/cfa_ifds_tabulation.go at three path edges of one contribution.
use goplint.Base.{contains, String, none, true, false, List, [], ◌∷◌, ◌≡◌, refl, arith, pos}
use goplint.Protocol.Reason.{no_reason}
use goplint.Protocol.State.{new_required_state}
use goplint.Protocol.EdgeFunc.{identity_tag}
use goplint.Witness.Graph.{node_eq, state_eq, NodeId, WitnessEdge, edge_intra}
use goplint.Tabulation.Conditional.{identity_conditional}
use goplint.Tabulation.Facts.{Contribution, contribution_eq}
use goplint.Tabulation.Antichain.{witness_identity, PathEdge, Contributions, enqueue, antichain_of}
use goplint.Tabulation.Antichain.Kept.{AreKept, enqueue-AreKept}
use goplint.Tabulation.Antichain.Covers.{any_subsumes, is_some, enqueue_covers}

abbrev node : NodeId
node = record {
  func_key = "main";
  block_index = pos 0;
  node_index = pos 3;
  call_ordinal = pos 0;
  kind = "cfg-node";
}

abbrev step : List String → WitnessEdge
step predicates = record {
  from = node;
  to = node;
  kind = edge_intra;
  call_site = "";
  fact_family = "cast-needs-validate";
  fact_key = "x";
  state_before = new_required_state;
  state_after = new_required_state;
  edge_function_tag = identity_tag;
  edge_reason = no_reason;
  predicate_provenance = predicates;
}

abbrev contribution : Contribution
contribution = record {
  entry = record { node = node; state = new_required_state };
  node = node;
  state = new_required_state;
  edge_function = identity_conditional;
}

abbrev edge : List WitnessEdge → PathEdge
edge witness = record { contribution = contribution; path = []; witness = witness }

abbrev under_p : PathEdge
under_p = edge (step ("p" ∷ []) ∷ [])

abbrev under_q : PathEdge
under_q = edge (step ("q" ∷ []) ∷ [])

abbrev unconditional : PathEdge
unconditional = edge (step [] ∷ [])

abbrev one_kept : Contributions
one_kept = record {
  antichains = (contribution, under_p ∷ []) ∷ [];
  queue = under_p ∷ [];
  path_edges = 1;
  work_units = 1;
  budget_result = none;
}

one_kept-AreKept : AreKept one_kept
one_kept-AreKept = (record { antichain = (tt, tt); bounded = omega arith }, tt)

-- Another branch is kept beside it, and a path with no condition takes its place.
beside :
    antichain_of contribution (enqueue none 5 under_q one_kept 0).0.1.antichains
    ≡ under_q ∷ under_p ∷ []
unfolding enqueue contains contribution_eq node_eq state_eq witness_identity
beside = refl

in_its_place :
    antichain_of contribution (enqueue none 5 unconditional one_kept 0).0.1.antichains
    ≡ unconditional ∷ []
unfolding enqueue contains contribution_eq node_eq state_eq witness_identity
in_its_place = refl

enqueue-AreKept_example : AreKept (enqueue none 5 under_q one_kept 0).0.1
enqueue-AreKept_example = enqueue-AreKept none 5 under_q one_kept 0 one_kept-AreKept

enqueue_covers_example :
    ((enqueue none 1 under_q one_kept 0).0.0 ≡ true
      → any_subsumes
          (antichain_of contribution (enqueue none 1 under_q one_kept 0).0.1.antichains)
          under_q
        ≡ true)
    × ((enqueue none 1 under_q one_kept 0).0.0 ≡ false
        → is_some (enqueue none 1 under_q one_kept 0).0.1.budget_result ≡ true)
enqueue_covers_example = enqueue_covers none 1 under_q one_kept 0
