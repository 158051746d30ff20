-- ===== src/Tabulation/Growth/Follow.antt =====
-- What following the edges of a node in goplint/cfa_ifds_tabulation.go leaves behind.
use goplint.Base.{
  ℕ, ℤ, true, ◌||◌, if_branches, Option, none, some, List, [], ◌∷◌, All, ◌≡◌, refl, subst, arith,
}
use goplint.Protocol.Reason.{timeout}
use goplint.Feasibility.Control.{Control}
use goplint.Witness.Graph.{InterprocEdge, WitnessEdge}
use goplint.Tabulation.Antichain.{PathEdge}
use goplint.Tabulation.Antichain.Covers.{is_some}
use goplint.Tabulation.Edges.{is_return, is_call, outgoing_with_control, return_edges_for_call}
use goplint.Tabulation.Edges.Selected.{
  returning_to, outgoing_with_control-eq_some, return_edges_for_call-eq_some,
}
use goplint.Tabulation.Problem.{Problem, pruned}
use goplint.Tabulation.State.{Solver, Stepped, Step, out_of_budget}
use goplint.Tabulation.Calls.{register_dependency}
use goplint.Tabulation.Targets.{
  state_after_node, dependency_fact, call_dependency, callee_contribution, next_contribution,
  next_edge, exit_summary,
}
use goplint.Tabulation.Visit.{
  after_edges, enter_callee, register_returns, follow_call, follow_unpruned, follow_edge,
  follow_edges, advance,
}
use goplint.Tabulation.Growth.{IsClean, Does}
use goplint.Tabulation.Growth.Rules.{
  broken, Extends-trans, Persists, does_each, does_less, does_regardless,
}
use goplint.Tabulation.Growth.Steps.{exceed_does, enqueue_does, done_does}
use goplint.Tabulation.Growth.Calls.{
  Extends-IsClean, Wide, Wide_refl, widen, Registered, Registered-persists, guarded, register_does,
  publish_does,
}
use goplint.Tabulation.Growth.Done.{
  Reached, Entered, Followed, Advanced, All-map, Followed-persists,
}

pub over : (s : Solver) → out_of_budget s ≡ true → is_some s.contributions.budget_result ≡ true
over s h = ground arith

module _ {Ast : Type 0} (p : Problem Ast) (c : Control) where
  joined :
      (P Q : Solver → Type 0) (s t : Solver) (x : Stepped)
      → Persists (Wide p c) P
      → Wide p c s t
      → (IsClean t → P t)
      → Does (Wide p c) Q t x
      → Does (Wide p c) (λ u. P u × Q u) s x
  joined P Q s t x keep w f d = record {
    grown = Extends-trans s t x.0.1 w d.grown;
    stops = d.stops;
    gives = λ h. (keep t x.0.1 d.grown h (f (d.grown.grows.clean h)), d.gives h);
  }

  enter_callee_does :
      (Q : Solver → Type 0) (snapshot : PathEdge) (e : InterprocEdge) (s : Solver) (x : Stepped)
      → Persists (Wide p c) Q
      → Does (Wide p c) Q s x
      → Does
          (Wide p c)
          (λ t. Q t × Reached p (callee_contribution p snapshot.contribution e) t)
          s
          (enter_callee p c snapshot e x)
  unfolding enter_callee
  enter_callee_does Q snapshot e s ((b, t), n) keep d =
      let entry = callee_contribution p snapshot.contribution e in
      if_branches (Does (Wide p c) (λ u. Q u × Reached p entry u) s) (out_of_budget t) _ _
        (λ o. record {
          grown = d.grown;
          stops = λ h. over t o;
          gives = λ h. absurd (broken t (over t o) h);
        })
        (λ o. joined Q (Reached p entry) s t _ keep d.grown d.gives (
          does_regardless (Wide p c) (Reached p entry) t _
            (widen p c (Reached p entry) t _ (enqueue_does p c _ t n))))

  pub after_edges_does :
      (Q : Solver → Type 0) (path : List ℤ) (witness : List WitnessEdge)
      (k : List InterprocEdge → Step) (s : Solver) (r : Option (List InterprocEdge) × ℕ)
      → ((edges : List InterprocEdge) → r.0 ≡ some edges → Does (Wide p c) Q s (k edges s r.1))
      → Does (Wide p c) Q s (after_edges p c path witness k s r)
  unfolding after_edges
  after_edges_does Q path witness k s (none, n) f =
      widen p c Q s _ (exceed_does Q timeout path witness s n)
  after_edges_does Q path witness k s (some edges, n) f = f edges refl

  register_returns_does :
      (snapshot : PathEdge) (e : InterprocEdge) (rs : List InterprocEdge) (s : Solver) (n : ℕ)
      → rs ≡ returning_to p.graph e.call_site e.to.func_key
      → Does
          (Wide p c)
          (Entered p snapshot.contribution e)
          s
          (register_returns p c snapshot e rs s n)
  unfolding register_returns call_dependency
  register_returns_does snapshot e rs s n is =
      let x = snapshot.contribution in
      let each_of = λ (r : InterprocEdge). Registered (dependency_fact p x e r) in
      let calls = λ (t : Solver). All (λ r. each_of r t) rs in
      does_less (Wide p c) (λ t. calls t × Reached p (callee_contribution p x e) t) (Entered p x e)
        s _ (λ t h. record { calls = subst (All (λ r. each_of r t)) is h.0; callee = h.1 })
        (enter_callee_does calls snapshot e s _
          (λ a b q h f.
            All-map _ _ rs (λ r. Registered-persists p c (dependency_fact p x e r) a b q h) f)
          (does_each (Wide p c) Extends-IsClean Extends-trans (Wide_refl p c) each_of _
            (λ r. Registered-persists p c (dependency_fact p x e r))
            (λ r t m.
              guarded p c (call_dependency p snapshot e r).caller_path
                (call_dependency p snapshot e r).caller_witness (each_of r)
                (register_dependency p c (call_dependency p snapshot e r)) t m
                (register_does p c (call_dependency p snapshot e r)))
            rs s n))

  follow_call_does :
      (snapshot : PathEdge) (e : InterprocEdge) (s : Solver) (n : ℕ)
      → Does (Wide p c) (Entered p snapshot.contribution e) s (follow_call p c snapshot e s n)
  unfolding follow_call
  follow_call_does snapshot e s n =
      let found = return_edges_for_call c p.graph e.call_site e.to.func_key n in
      after_edges_does (Entered p snapshot.contribution e) _ _ (register_returns p c snapshot e) s
        found
        (λ rs h.
          register_returns_does snapshot e rs s found.1
            (return_edges_for_call-eq_some c p.graph e.call_site e.to.func_key n rs h))

  follow_edge_does :
      (snapshot : PathEdge) (e : InterprocEdge) (s : Solver) (n : ℕ)
      → Does (Wide p c) (Followed p snapshot.contribution e) s (follow_edge p c snapshot e s n)
  unfolding follow_edge follow_unpruned next_edge
  follow_edge_does snapshot e s n =
      let x = snapshot.contribution in
      guarded p c snapshot.path snapshot.witness (Followed p x e) _ s n (λ t m.
        if_branches (Does (Wide p c) (Followed p x e) t)
          (is_return e.kind || pruned p e (state_after_node p x)) _ _
          (λ skip. widen p c (Followed p x e) t _ (
            done_does t m (Followed p x e) (λ h. record {
              entered = λ a. absurd (cc (skip, a));
              moved = λ a. absurd (cc (skip, a));
            })))
          (λ go.
            if_branches (Does (Wide p c) (Followed p x e) t) (is_call e.kind) _ _
              (λ call.
                does_less (Wide p c) (Entered p x e) (Followed p x e) t _
                  (λ u h. record { entered = λ a b. h; moved = λ a b. absurd (cc (call, b)) })
                  (follow_call_does snapshot e t m))
              (λ call.
                does_less (Wide p c) (Reached p (next_contribution p x e)) (Followed p x e) t _
                  (λ u h. record { entered = λ a b. absurd (cc (call, b)); moved = λ a b. h })
                  (widen p c (Reached p (next_contribution p x e)) t _
                    (enqueue_does p c (next_edge p snapshot e) t m)))))

  pub advance_does :
      (snapshot : PathEdge) (rs : List InterprocEdge) (s : Solver) (n : ℕ)
      → Does (Wide p c) (Advanced p snapshot.contribution rs) s (advance p c snapshot rs s n)
  unfolding advance follow_edges exit_summary
  advance_does snapshot [] s n =
      let x = snapshot.contribution in
      let found = outgoing_with_control c p.graph x.node n in
      after_edges_does (Advanced p x []) snapshot.path snapshot.witness (follow_edges p c snapshot)
        s found
        (λ edges h.
          subst
            (λ es.
              Does (Wide p c) (λ t. All (λ e. Followed p x e t) es) s
                (follow_edges p c snapshot edges s found.1))
            (outgoing_with_control-eq_some c p.graph x.node n edges h)
            (does_regardless (Wide p c) _ s _ (
              does_each (Wide p c) Extends-IsClean Extends-trans (Wide_refl p c) (Followed p x)
                (follow_edge p c snapshot) (Followed-persists p c x) (follow_edge_does snapshot)
                edges s found.1)))
  advance_does snapshot (r ∷ rs) s n = publish_does p c (exit_summary p snapshot) s n
