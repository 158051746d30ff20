-- ===== src/Tabulation/Solve.antt =====
-- The loop of `runIFDSPropagationWithStatsOptions` in goplint/cfa_ifds_tabulation.go, and its result.
use goplint.Base.{
  ℕ, zero, suc, ◌+◌, str_eq, Bool, true, false, ◌&&◌, Option, none, some, List, [], ◌∷◌,
  if◌then◌else◌,
}
use goplint.Protocol.Reason.{no_reason, timeout, unresolved_target}
use goplint.Feasibility.Control.{Control, deadline_reached}
use goplint.Witness.Graph.{node_key, WitnessEdge, NodeId}
use goplint.Refinement.{class_safe, class_inconclusive}
use goplint.Tabulation.Conditional.{identity_conditional}
use goplint.Tabulation.Facts.{EntryFact, contribution_eq}
use goplint.Tabulation.Antichain.{PathEdge, identity_of, Contributions, antichain_of}
use goplint.Tabulation.Result.{TabulationResult, result_from_outcome}
use goplint.Tabulation.Problem.{Problem, state_limit, start_state}
use goplint.Tabulation.State.{Solver, Stepped, out_of_budget, exceed, enqueue_edge, checkpoint_at}
use goplint.Tabulation.Visit.{visit}

-- Whether two path edges have one storage key: the contribution and the identity of the witness.
unfoldable pub same_storage : PathEdge → PathEdge → Bool
same_storage a b =
    contribution_eq a.contribution b.contribution && str_eq (identity_of a) (identity_of b)

unfoldable pub find_stored : PathEdge → List PathEdge → Option PathEdge
unfolding same_storage
find_stored key [] = none
find_stored key (r ∷ rs) = if same_storage r key then some r else find_stored key rs

-- `pathEdges[key]`: a path edge that another has replaced is no longer there.
unfoldable pub stored_edge : PathEdge → Contributions → Option PathEdge
unfolding find_stored antichain_of
stored_edge key k = find_stored key (antichain_of key.contribution k.antichains)

abbrev pub empty_solver : Solver
empty_solver = record {
  contributions = record {
    antichains = [];
    queue = [];
    path_edges = 0;
    work_units = 0;
    budget_result = none;
  };
  dependencies = [];
  summaries = [];
  summary_reuses = 0;
  unsafe_result = none;
  inconclusive_result = none;
  observed = [];
}

abbrev pub with_queue : List PathEdge → Solver → Solver
with_queue queue s = record s { contributions = record (s.contributions) { queue = queue } }

module _ {Ast : Type 0} (p : Problem Ast) where
  abbrev pub root_entry : EntryFact
  root_entry = record { node = p.start; state = start_state p }

  abbrev pub root_edge : PathEdge
  root_edge = record {
    contribution = record {
      entry = root_entry;
      node = p.start;
      state = start_state p;
      edge_function = identity_conditional;
    };
    path = p.start.block_index ∷ [];
    witness = [];
  }

module _ {Ast : Type 0} (p : Problem Ast) (c : Control) where
  -- A round with a path edge that is still stored.
  unfoldable pub visit_stored : Option PathEdge → Solver → ℕ → Stepped
  unfolding visit
  visit_stored none s n = ((true, s), n)
  visit_stored (some snapshot) s n = visit p c snapshot s n

  -- A round, whose control has not expired.
  unfoldable pub take_round : PathEdge → List PathEdge → Solver → ℕ → Stepped
  unfolding visit_stored stored_edge
  take_round key rest s n = visit_stored (stored_edge key s.contributions) (with_queue rest s) n

  -- The loop, with fuel; the first in is the first out. `none` means that the fuel ran out.
  unfoldable pub solver_loop : ℕ → Solver → ℕ → Option (Solver × ℕ)
  unfolding take_round checkpoint_at
  solver_loop zero s n = none
  solver_loop (suc fuel) s n = elim (out_of_budget s) [
    | true ↦ some (s, n)
    | false ↦ elim (s.contributions.queue) [
      | [] ↦ some (s, n)
      | key ∷ rest ↦ elim (deadline_reached c n) [
        | true ↦ some (exceed timeout [] [] s, suc n)
        | false ↦
            let x = take_round key rest s (suc n) in
            elim (x.0.0) [ true ↦ solver_loop fuel x.0.1 x.1 | false ↦ some (x.0.1, x.1) ]
      ]
    ]
  ]

  -- The first of the results that is there.
  unfoldable pub answer : Solver → TabulationResult
  unfolding result_from_outcome
  answer s = elim (s.contributions.budget_result) [
    | some (why, path, witness) ↦ record (result_from_outcome class_inconclusive why path) {
      witness_edges = witness;
      witness_terminal = terminal_of witness;
    }
    | none ↦ elim (s.unsafe_result) [
      | some r ↦ r
      | none ↦ elim (s.inconclusive_result) [
        | some r ↦ r
        | none ↦ result_from_outcome class_safe no_reason []
      ]
    ]
  ]
    where
      terminal_of : List WitnessEdge → NodeId
      terminal_of [] = p.start
      terminal_of (e ∷ []) = e.to
      terminal_of (e ∷ e' ∷ es) = terminal_of (e' ∷ es)

  unfoldable pub start_solver : ℕ → Stepped
  unfolding enqueue_edge
  start_solver n = enqueue_edge p c (root_edge p) empty_solver n

  -- After the loop the control is asked once more.
  unfoldable pub finish : Solver × ℕ → TabulationResult × Solver
  unfolding answer checkpoint_at
  finish (s, n) =
      if out_of_budget s
      then (answer s, s)
      else let t = (checkpoint_at p c [] [] s n).0.1 in (answer t, t)

  unfoldable pub run_loop : ℕ → ℕ → Option (TabulationResult × Solver)
  unfolding start_solver solver_loop finish
  run_loop fuel n =
      let x = start_solver n in
      elim (solver_loop fuel x.0.1 x.1) [ none ↦ none | some r ↦ some (finish r) ]

  -- `maxStates` rounds and one more are enough.
  unfoldable pub run_propagation : Option (TabulationResult × Solver)
  unfolding run_loop result_from_outcome node_key
  run_propagation = elim (deadline_reached c 0) [
    | true ↦ some (result_from_outcome class_inconclusive timeout [], empty_solver)
    | false ↦ elim (p.graph.nodes (node_key p.start)) [
      | none ↦ some (result_from_outcome class_inconclusive unresolved_target [], empty_solver)
      | some node ↦ run_loop (state_limit p.max_states + 1) 1
    ]
  ]
