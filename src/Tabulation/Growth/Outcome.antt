-- ===== src/Tabulation/Growth/Outcome.antt =====
-- The result of `runIFDSPropagationWithStatsOptions` in goplint/cfa_ifds_tabulation.go, and what it says
-- of every run of the supergraph.
use goplint.Base.{
  ℕ, ◌+◌, String, eq_iff, true, false, ◌||◌, Bool-branches, if_branches, Option, Option-cases, none,
  some, List, [], ◌∷◌, All-mem, Memᴰ, ◌≡◌, inl, inr, refl, sym, ap, subst, arith,
}
use goplint.Base.Memᴰ
use goplint.Protocol.Reason.{unresolved_target}
use goplint.Protocol.State.{AbstractState}
use goplint.Feasibility.Control.{Control, deadline_reached}
use goplint.Witness.Graph.{NodeId, node_key, InterprocEdge}
use goplint.Refinement.{class_safe, class_inconclusive}
use goplint.Tabulation.Conditional.{ConditionalEdgeFunc, identity_conditional}
use goplint.Tabulation.Facts.{EntryFact, Contribution}
use goplint.Tabulation.Antichain.{antichain_of}
use goplint.Tabulation.Edges.{is_return, leaves, returns, returns_to, outgoing_order, return_order}
use goplint.Tabulation.Edges.Selected.{outgoing, returning, returning_to, mem-sort_by, mem-selected}
use goplint.Tabulation.Result.{TabulationResult, result_from_outcome}
use goplint.Tabulation.Problem.{Problem, state_limit, start_state, node_state, pruned}
use goplint.Tabulation.State.{
  Solver, has_dependency, has_summary, exits_agree, returned_contribution, out_of_budget,
}
use goplint.Tabulation.Targets.{
  state_after_node, dependency_fact, callee_entry, callee_contribution, next_contribution,
  summary_fact,
}
use goplint.Tabulation.Solve.{
  root_entry, root_edge, empty_solver, answer, start_solver, finish, run_loop, run_propagation,
}
use goplint.Tabulation.Runs.{Frame, Takes, Run, begin, move, call, back}
use goplint.Tabulation.Growth.{IsLabelled, Retained, Pending, IsClean, Closed, Does}
use goplint.Tabulation.Growth.Rules.{Queues-Extends}
use goplint.Tabulation.Growth.Steps.{enqueue_does, checkpoint_does, Level}
use goplint.Tabulation.Growth.Done.{IsQuiet, Reached, Followed, Advanced, Done}
use goplint.Tabulation.Growth.Visit.{Fresh}
use goplint.Tabulation.Growth.Loop.{Inv, Final, solver_loop_ends}

mem-returning_to :
    {Ast : Type 0} (p : Problem Ast) (edge : InterprocEdge) (site callee : String)
    → Memᴰ edge p.graph.edges
    → is_return edge.kind ≡ true
    → edge.call_site ≡ site
    → edge.from.func_key ≡ callee
    → Memᴰ edge (returning_to p.graph site callee)
unfolding returning_to returns_to
mem-returning_to p edge site callee m r s f = mem-sort_by return_order edge _ (
    mem-selected (returns_to site callee) edge p.graph.edges m
      (ground (arith, r, eq_iff edge.call_site site, eq_iff edge.from.func_key callee)))

mem-outgoing :
    {Ast : Type 0} (p : Problem Ast) (node : NodeId) (edge : InterprocEdge)
    → Memᴰ edge p.graph.edges
    → leaves node edge ≡ true
    → Memᴰ edge (outgoing p.graph node)
unfolding outgoing
mem-outgoing p node edge m h =
    mem-sort_by outgoing_order edge _ (mem-selected (leaves node) edge p.graph.edges m h)

mem-returning :
    {Ast : Type 0} (p : Problem Ast) (node : NodeId) (edge : InterprocEdge)
    → Memᴰ edge p.graph.edges
    → leaves node edge ≡ true
    → is_return edge.kind ≡ true
    → Memᴰ edge (returning p.graph node)
unfolding returning
mem-returning p node edge m h r =
    mem-selected returns edge (outgoing p.graph node) (mem-outgoing p node edge m h) r

-- A solver with no work left.
module _ {Ast : Type 0} (p : Problem Ast) (t : Solver)
    (done : (x : Contribution) → Retained t.contributions x → Done p x t) (closed : Closed t) where
  at_ : EntryFact → NodeId → AbstractState → ConditionalEdgeFunc → Contribution
  at_ entry node state effect = record {
    entry = entry;
    node = node;
    state = state;
    edge_function = effect;
  }

  -- A call of the stack has a dependency for each of its returns.
  Calls : EntryFact → List Frame → Type 0
  Calls entry [] = Unit
  Calls entry (frame ∷ stack) =
      (caller : EntryFact) × (effect : ConditionalEdgeFunc) × ((r : InterprocEdge)
        → Memᴰ r (returning_to p.graph frame.call_site frame.callee)
        → has_dependency
            (record {
              callee_entry = entry;
              callee_exit = r.from;
              caller_entry = caller;
              call_site = frame.call_site;
              return_node = r.to;
              caller_effect = effect;
            })
            t.dependencies
          ≡ true)
      × Calls caller stack

  record Tracked (node : NodeId) (state : AbstractState) (stack : List Frame) : Type 0 where
    entry : EntryFact
    effect : ConditionalEdgeFunc
    reached : Retained t.contributions (at_ entry node state effect)
    calls : Calls entry stack

  Advanced-published :
      (x : Contribution) (rs : List InterprocEdge) (edge : InterprocEdge)
      → Memᴰ edge rs
      → Advanced p x rs t
      → has_summary (summary_fact p x) t.summaries ≡ true
  Advanced-published x [] edge m h = absurd (Memᴰ.not-nil m)
  Advanced-published x (r ∷ rs) edge m h = h

  followed :
      (x : Contribution) (edge : InterprocEdge)
      → Retained t.contributions x
      → returning p.graph x.node ≡ []
      → Takes p x.node (state_after_node p x) edge
      → Followed p x edge t
  followed x edge r e takes =
      All-mem (λ y. Followed p x y t) edge (outgoing p.graph x.node)
        (subst (λ rs. Advanced p x rs t) e (done x r).advanced)
        (mem-outgoing p x.node edge takes.edge_in takes.from_here)

  goes_on :
      (x : Contribution) (edge : InterprocEdge)
      → Takes p x.node (state_after_node p x) edge
      → (is_return edge.kind || pruned p edge (state_after_node p x)) ≡ false
  goes_on x edge takes = ground (arith, takes.not_return, takes.not_pruned)

  -- Every run stays within what the solver retains.
  tracked :
      {node : NodeId} {state : AbstractState} {stack : List Frame}
      → Retained t.contributions (at_ (root_entry p) p.start (start_state p) identity_conditional)
      → Run p node state stack
      → Tracked node state stack
  unfolding leaves exits_agree at_ Calls next_contribution callee_contribution callee_entry
      state_after_node dependency_fact summary_fact returned_contribution
  tracked root begin = record { entry = _; effect = _; reached = root; calls = tt }
  tracked root (move {node} {state} edge run e takes k) =
      let z = tracked root run in
      let x = at_ z.entry node state z.effect in
      record {
        entry = z.entry;
        effect = _;
        reached = (followed x edge z.reached e takes).moved (goes_on x edge takes) k;
        calls = z.calls;
      }
  tracked root (call {node} {state} edge run e takes k) =
      let z = tracked root run in
      let x = at_ z.entry node state z.effect in
      let f = (followed x edge z.reached e takes).entered (goes_on x edge takes) k in
      record {
        entry = callee_entry p x edge;
        effect = identity_conditional;
        reached = f.callee;
        calls = (
          z.entry,
          _,
          (λ r m.
              All-mem (λ q. has_dependency (dependency_fact p x edge q) t.dependencies ≡ true) r _
                f.calls m),
          z.calls,
        );
      }
  tracked root (back {node} {state} {frame} {stack} edge run m h r s f) =
      let z = tracked root run in
      let x = at_ z.entry node state z.effect in
      let (caller, effect, deps, rest) = z.calls in
      record {
        entry = caller;
        effect = _;
        reached =
            closed.applied _ (summary_fact p x)
              (deps edge (mem-returning_to p edge frame.call_site frame.callee m r s f))
              (Advanced-published x (returning p.graph node) edge (mem-returning p node edge m h r)
                (done x z.reached).advanced)
              refl h;
        calls = rest;
      }

  runs-IsQuiet :
      {node : NodeId} {state : AbstractState} {stack : List Frame}
      → Retained t.contributions (at_ (root_entry p) p.start (start_state p) identity_conditional)
      → Run p node state stack
      → IsQuiet p node state (node_state p node state)
  unfolding at_ state_after_node
  runs-IsQuiet root run = let z = tracked root run in (done _ z.reached).quiet

answer-IsClean :
    {Ast : Type 0} (p : Problem Ast) (c : Control) (s : Solver)
    → IsLabelled s
    → (answer p c s).class ≡ class_safe
    → IsClean s
unfolding answer result_from_outcome
answer-IsClean p c s l h = elim (Option-cases s.contributions.budget_result) [
  | inr (r, e) ↦ absurd (ground (arith, e, h))
  | inl b ↦ elim (Option-cases s.unsafe_result) [
    | inr (r, e) ↦ absurd (ground (arith, b, e, h, l.unsafe r e))
    | inl u ↦ elim (Option-cases s.inconclusive_result) [
      | inr (r, e) ↦ absurd (ground (arith, b, u, e, h, l.uncertain r e))
      | inl i ↦ record { in_budget = b; not_unsafe = u; not_inconclusive = i }
    ]
  ]
]

module _ {Ast : Type 0} (p : Problem Ast) (c : Control) where
  finish-IsClean :
      (s : Solver) (n : ℕ) → IsLabelled s → (finish p c (s, n)).0.class ≡ class_safe → IsClean s
  unfolding finish
  finish-IsClean s n l =
      let d = checkpoint_does p c [] [] s n in
      if_branches (λ (r : TabulationResult × Solver). r.0.class ≡ class_safe → IsClean s)
        (out_of_budget s) _ _ (λ o h. answer-IsClean p c s l h)
        (λ o h. d.grown.grows.clean (answer-IsClean p c _ (d.grown.grows.labelled l) h))

  -- The solver with the root queued.
  start_does :
      (n : ℕ)
      → Does (Level p c) (Reached p (root_edge p).contribution) empty_solver (start_solver p c n)
  unfolding start_solver
  start_does n = enqueue_does p c (root_edge p) empty_solver n

  empty-Retained : (x : Contribution) → ¬ Retained empty_solver.contributions x
  empty-Retained x h = unfold antichain_of in cc h.holds

  start-Inv : (n : ℕ) → IsClean (start_solver p c n).0.1 → Inv p c (start_solver p c n).0.1
  start-Inv n h =
      let d = start_does n in
      record {
        handled = λ x r. elim ((d.grown.grows.spreads h).fresh x r) [
          | inl old ↦ absurd (empty-Retained x old)
          | inr new ↦ inr new
        ];
        closed =
            (Queues-Extends empty_solver _ d.grown).closes h
              (record { applied = λ f x hf. absurd (unfold has_dependency in cc hf) });
      }

  -- Nothing is reported on any run.
  abbrev pub RunsAreQuiet : Type 0
  RunsAreQuiet =
      (node : NodeId) (state : AbstractState) (stack : List Frame)
      → Run p node state stack
      → IsQuiet p node state (node_state p node state)

  drained-Pending :
      (s : Solver) (x : Contribution) → s.contributions.queue ≡ [] → ¬ Pending s.contributions x
  drained-Pending s x e w = Memᴰ.not-nil (subst (Memᴰ w.key) e w.queued)

  final_quiet :
      (n : ℕ) (s : Solver)
      → Fresh p c
      → Final p c (start_solver p c n).0.1 s
      → IsClean s
      → RunsAreQuiet
  unfolding at_
  final_quiet n s f z h node state stack run =
      let inv = z.inv f (start-Inv n) h in
      let root = (start_does n).gives (z.clean h) in
      runs-IsQuiet p s
        (λ x r. elim (inv.handled x r) [
          | inl d ↦ d
          | inr w ↦ absurd (drained-Pending s x (z.drained h) w)
        ])
        inv.closed (z.kept h _ root) run

  -- A result, and what a safe one says.
  Answers : Option (TabulationResult × Solver) → Type 0
  Answers o =
      (r : TabulationResult × Solver) × (o ≡ some r)
      × (Fresh p c → r.0.class ≡ class_safe → RunsAreQuiet)

  run_loop-Answers : (n : ℕ) → Answers (run_loop p c (state_limit p.max_states + 1) n)
  unfolding run_loop Answers
  run_loop-Answers n =
      let x = start_solver p c n in
      let d = start_does n in
      let (r, ends, z) =
        solver_loop_ends p c (state_limit p.max_states + 1) 0 x.0.1 x.1 (omega arith)
          (d.grown.grows.charged 0 (record { worked = omega arith; within = omega arith })) in
      let labelled =
        z.labelled
          (d.grown.grows.labelled (record { unsafe = λ q e. cc e; uncertain = λ q e. cc e })) in
      (
        finish p c r,
        ap
            (λ (o : Option (Solver × ℕ)). elim o as (λ _. Option (TabulationResult × Solver)) [
              | none ↦ none
              | some q ↦ some (finish p c q)
            ])
            ends,
        λ f h. final_quiet n r.0 f z (finish-IsClean r.0 r.1 labelled h),
      )

  no_answer : (r : TabulationResult × Solver) → r.0.class ≡ class_inconclusive → Answers (some r)
  unfolding Answers
  no_answer r e = (r, refl, λ f h. absurd (cc (e, h)))

  run_propagation-Answers : Answers (run_propagation p c)
  unfolding run_propagation result_from_outcome
  run_propagation-Answers =
      Bool-branches Answers (deadline_reached c 0) _ _ (λ e. no_answer _ refl)
        (λ e. by_node (p.graph.nodes (node_key p.start)))
    where
      by_node :
          (o : Option NodeId)
          → Answers (elim o as (λ _. Option (TabulationResult × Solver)) [
            | none ↦
                some (result_from_outcome class_inconclusive unresolved_target [], empty_solver)
            | some node ↦ run_loop p c (state_limit p.max_states + 1) 1
          ])
      by_node none = no_answer _ refl
      by_node (some node) = run_loop-Answers 1

  -- The tabulation returns a result, whatever the graph, its cycles and recursion, the functions of
  -- the problem and the control: the fuel of `maxStates` rounds and one is enough.
  pub run_propagation_ends : (r : TabulationResult × Solver) × (run_propagation p c ≡ some r)
  unfolding Answers
  run_propagation_ends = let (r, e, safe) = run_propagation-Answers in (r, e)

  -- Where no witness is discharged and the tabulation answers safe, nothing is to be reported on any
  -- run of the supergraph whose calls and returns match: at no node that a run reaches is the
  -- terminal unsafe at the state after the node, the node unsupported, or an uncertainty relevant.
  pub run_propagation_safe :
      (r : TabulationResult × Solver)
      → p.discharged_witnesses ≡ []
      → run_propagation p c ≡ some r
      → r.0.class ≡ class_safe
      → (node : NodeId) (state : AbstractState) (stack : List Frame) → Run p node state stack
      → IsQuiet p node state (node_state p node state)
  unfolding Answers
  run_propagation_safe r f e h =
      let (q, got, safe) = run_propagation-Answers in
      let same : q ≡ r = cc (got, e) in
      safe f (subst (λ (x : TabulationResult × Solver). x.0.class ≡ class_safe) (sym same) h)
