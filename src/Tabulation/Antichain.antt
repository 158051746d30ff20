-- ===== src/Tabulation/Antichain.antt =====
-- The witnesses that the solver retains for a contribution: `enqueue` of
-- goplint/cfa_ifds_tabulation.go, with the identity and the subsumption of witnesses of
-- goplint/cfa_witness_contribution.go. Where the code keeps the storage key of a path edge, the path
-- edge itself is kept here.
pub mod Kept
pub mod Covers
use goplint.Base.{
  ℕ, zero, suc, ◌+◌, ℤ, String, str_eq, str_less, contains, Bool, true, false, not, ◌&&◌, ◌||◌,
  ◌==◌, leb, Option, none, some, List, [], ◌∷◌, ◌++◌, length, map, join_texts, append,
  if◌then◌else◌,
}
use goplint.Tabulation.Facts.{Contribution, contribution_eq, state_key}
use goplint.Protocol.Reason.{PathOutcomeReason, witness_budget, timeout, state_budget, reason_name}
use goplint.Feasibility.Control.{Control, deadline_reached}
use goplint.Protocol.EdgeFunc.{tag_name}
use goplint.Witness.Graph.{WitnessEdge, node_key, kind_name}

abbrev pub antichain_limit : ℕ
antichain_limit = 64

-- The keys of the set.
unfoldable pub witness_predicates : List WitnessEdge → List String
witness_predicates [] = []
witness_predicates (e ∷ es) = e.predicate_provenance ++ witness_predicates es

unfoldable pub all_contained : List String → List String → Bool
all_contained [] ys = true
all_contained (x ∷ xs) ys = contains ys x && all_contained xs ys

unfoldable pub witness_subsumes : List WitnessEdge → List WitnessEdge → Bool
unfolding witness_predicates all_contained
witness_subsumes retained candidate =
    leb (length retained) (length candidate)
    && all_contained (witness_predicates retained) (witness_predicates candidate)

witness_edge_key : WitnessEdge → String
unfolding node_key state_key reason_name kind_name tag_name
witness_edge_key e = join_texts "|" (
    append "from=" (node_key e.from)
    ∷ append "to=" (node_key e.to)
    ∷ append "kind=" (kind_name e.kind)
    ∷ append "call-site=" e.call_site
    ∷ append "fact-family=" e.fact_family
    ∷ append "fact-key=" e.fact_key
    ∷ append "state-before=" (state_key e.state_before)
    ∷ append "state-after=" (state_key e.state_after)
    ∷ append "edge-function-tag=" (tag_name e.edge_function_tag)
    ∷ append "edge-reason=" (reason_name e.edge_reason)
    ∷ append "predicates=" (join_texts "," e.predicate_provenance)
    ∷ [])

unfoldable pub witness_identity : List WitnessEdge → String
unfolding witness_edge_key
witness_identity [] = "root"
witness_identity (e ∷ es) = join_texts "\n" (map witness_edge_key (e ∷ es))

pub record PathEdge : Type 0 where
  pub contribution : Contribution
  pub path : List ℤ
  pub witness : List WitnessEdge

abbrev pub identity_of : PathEdge → String
identity_of edge = witness_identity edge.witness

-- The antichain of each contribution, and what else `enqueue` changes. `budget_result` is the
-- reason with the path and the witness of the first budget that is exceeded.
pub record Contributions : Type 0 where
  pub antichains : List (Contribution × List PathEdge)
  pub queue : List PathEdge
  pub path_edges : ℕ
  pub work_units : ℕ
  pub budget_result : Option (PathOutcomeReason × List ℤ × List WitnessEdge)

unfoldable pub antichain_of : Contribution → List (Contribution × List PathEdge) → List PathEdge
antichain_of key [] = []
antichain_of key ((k, a) ∷ rest) = if contribution_eq k key then a else antichain_of key rest

abbrev pub put_antichain : PathEdge → List PathEdge → Contributions → Contributions
put_antichain edge a s = record s { antichains = (edge.contribution, a) ∷ s.antichains }

unfoldable pub set_budget_exceeded :
    PathOutcomeReason → List ℤ → List WitnessEdge → Contributions → Contributions
set_budget_exceeded reason path witness s = elim s.budget_result [
  | some r ↦ s
  | none ↦ record s { budget_result = some (reason, path, witness) }
]

-- The retained edges of one witness identity go.
unfoldable pub drop_identity : String → List PathEdge → List PathEdge
drop_identity identity [] = []
drop_identity identity (r ∷ rs) =
    let rest = drop_identity identity rs in
    if str_eq (identity_of r) identity then rest else r ∷ rest

-- What comparing with the retained edges comes to: the control has expired, one of them covers the
-- candidate, or the candidate subsumes these.
pub data Scan : Type 0 where
  scan_expired scan_covered : Scan
  scan_subsumes : List PathEdge → Scan

abbrev pub also : Bool → PathEdge → Scan → Scan
also b r scan_expired = scan_expired
also b r scan_covered = scan_covered
also true r (scan_subsumes rs) = scan_subsumes (r ∷ rs)
also false r (scan_subsumes rs) = scan_subsumes rs

-- `retainedSubsumes && (!candidateSubsumes || retainedID <= witnessID)`
unfoldable pub covers : PathEdge → PathEdge → Bool
unfolding witness_subsumes
covers retained candidate =
    witness_subsumes retained.witness candidate.witness
    && (not (witness_subsumes candidate.witness retained.witness)
        || not (str_less (identity_of candidate) (identity_of retained)))

module _ (c : Control) where
  unfoldable pub scan : PathEdge → List PathEdge → ℕ → Scan × ℕ
  unfolding covers witness_subsumes
  scan edge [] n = (scan_subsumes [], n)
  scan edge (r ∷ rs) n =
      let (rest, m) = scan edge rs (suc n) in
      elim (deadline_reached c n) [
        | true ↦ (scan_expired, suc n)
        | false ↦ elim (covers r edge) [
          | true ↦ (scan_covered, suc n)
          | false ↦ (also (witness_subsumes edge.witness r.witness) r rest, m)
        ]
      ]

  -- The loop over the subsumed edges; the Boolean is false once the control has expired.
  unfoldable pub drop_all : List PathEdge → List PathEdge → ℕ → (Bool × List PathEdge) × ℕ
  unfolding drop_identity
  drop_all [] a n = ((true, a), n)
  drop_all (r ∷ rs) a n = elim (deadline_reached c n) [
    | true ↦ ((false, a), suc n)
    | false ↦ drop_all rs (drop_identity (identity_of r) a) (suc n)
  ]

  module _ (max_states : ℕ) where
    abbrev pub Enqueued : Type 0
    Enqueued = (Bool × Contributions) × ℕ

    -- The path edge takes its place.
    abbrev pub store : PathEdge → List PathEdge → Contributions → Contributions
    unfolding drop_identity
    store edge a s = record (put_antichain edge (edge ∷ drop_identity (identity_of edge) a) s) {
      queue = s.queue ++ edge ∷ [];
      path_edges = s.path_edges + 1;
    }

    unfoldable pub reserve_work_unit : List ℤ → List WitnessEdge → Contributions → ℕ → Enqueued
    unfolding set_budget_exceeded
    reserve_work_unit path witness s n = elim (deadline_reached c n) [
      | true ↦ ((false, set_budget_exceeded timeout path witness s), suc n)
      | false ↦
          let worked = record s { work_units = s.work_units + 1 } in
          if leb (s.work_units + 1) max_states
          then ((true, worked), suc n)
          else ((false, set_budget_exceeded state_budget path witness worked), suc n)
    ]

    -- What follows a unit that is reserved.
    unfoldable pub store_reserved : PathEdge → List PathEdge → Enqueued → Enqueued
    unfolding store
    store_reserved edge a ((true, s), n) = ((true, store edge a s), n)
    store_reserved edge a ((false, s), n) = ((false, s), n)

    -- With the subsumed edges gone, the rest of the antichain is `a`.
    unfoldable pub extend : PathEdge → List PathEdge → Contributions → ℕ → Enqueued
    unfolding reserve_work_unit store_reserved set_budget_exceeded
    extend edge a s n =
        if leb antichain_limit (length a)
        then ((false, set_budget_exceeded witness_budget edge.path edge.witness s), n)
        else store_reserved edge a (reserve_work_unit edge.path edge.witness s n)

    unfoldable pub replace_subsumed :
        PathEdge → Contributions → (Bool × List PathEdge) × ℕ → Enqueued
    unfolding extend set_budget_exceeded
    replace_subsumed edge s ((true, a), n) = extend edge a (put_antichain edge a s) n
    replace_subsumed edge s ((false, a), n) =
        ((false, set_budget_exceeded timeout edge.path edge.witness (put_antichain edge a s)), n)

    unfoldable pub after_scan : PathEdge → List PathEdge → Contributions → Scan × ℕ → Enqueued
    unfolding replace_subsumed set_budget_exceeded drop_all
    after_scan edge a s (scan_expired, n) =
        ((false, set_budget_exceeded timeout edge.path edge.witness s), n)
    after_scan edge a s (scan_covered, n) = ((true, s), n)
    after_scan edge a s (scan_subsumes rs, n) = replace_subsumed edge s (drop_all rs a n)

    unfoldable pub enqueue : PathEdge → Contributions → ℕ → Enqueued
    unfolding after_scan scan antichain_of set_budget_exceeded
    enqueue edge s n = elim (deadline_reached c n) [
      | true ↦ ((false, set_budget_exceeded timeout edge.path edge.witness s), suc n)
      | false ↦
          let a = antichain_of edge.contribution s.antichains in
          after_scan edge a s (scan edge a (suc n))
    ]
