-- ===== src/Oracle/Budget.antt =====
-- The budget of `interpretIdentity` in internal/protocoloracle/reference.go.
use goplint.Base.{
  ℕ, suc, ◌+◌, ◌≤◌, String, Bool, true, false, leb, List, [], ◌∷◌, ◌++◌, length, length-append,
  if◌then◌else◌, ◌≡◌, refl, arith,
}
use goplint.Oracle.{
  EdgeKind, return, call, intra, other_kind, Program, Node, Edge, ReferenceState, ReferencePathEdge,
  ReferenceDependency, ReferenceSummary,
}
use goplint.Oracle.Keys.{edge_key, path_key, dependency_key, summary_key}
use goplint.Oracle.Effects.{apply_reference_node}
use goplint.Oracle.Worklist.{
  returned_edge, is_unsat, summary_at, dependency_at, apply_known_summary, known_summaries,
  apply_known_dependency, known_dependencies, Interpretation, has_key, reserve, reserved, enqueue,
  apply_summary, each, add_dependency, register_dependency, add_summary, publish_summary,
}
use goplint.Oracle.Interpret.{
  exits, exit_summary, outgoing, path_at, node_at, dependency_of, register_return, callee_edge,
  next_edge, enter_callee, follow_edge, follow_edges, reach_terminal, visit_node, visit_key,
}

module _ (max_states : ℕ) where
  -- What has been paid for, with `k` paths off the queue.
  abbrev paid : ℕ → Interpretation → ℕ
  paid k s = k + length s.queue + length s.dependencies + length s.summaries

  pub record IsCharged (k : ℕ) (s : Interpretation) : Type 0 where
    pub worked : paid k s ≤ s.work_units
    pub within : paid k s ≤ max_states

  either :
      (k : ℕ) (b : Bool) (rest : Interpretation → Bool × Interpretation)
      (more less : Interpretation)
      → (b ≡ true → IsCharged k (rest more).1)
      → IsCharged k less
      → IsCharged k (reserved max_states rest (if b then (true, more) else (false, less))).1
  either k true rest more less f g = f refl
  either k false rest more less f g = g

  -- A step that a reservation guards may add one entry.
  reserve-IsCharged :
      (k : ℕ) (s : Interpretation) (rest : Interpretation → Bool × Interpretation)
      → IsCharged k s
      → ((t : Interpretation)
          → paid k t ≡ paid k s
          → suc (paid k t) ≤ t.work_units
          → suc (paid k t) ≤ max_states
          → IsCharged k (rest t).1)
      → IsCharged k (reserved max_states rest (reserve max_states s)).1
  unfolding reserve
  reserve-IsCharged k s rest h f =
      either k (leb (s.work_units + 1) max_states) rest _ _
        (λ e.
          f (record s { work_units = s.work_units + 1 }) refl (omega (arith, h.worked))
            (ground (arith, h.worked)))
        (record { worked = omega (arith, h.worked); within = h.within })

  known :
      (k : ℕ) (b : Bool) (s : Interpretation) (r : Bool × Interpretation)
      → IsCharged k s
      → IsCharged k r.1
      → IsCharged k (if b then (true, s) else r).1
  known k true s r h g = h
  known k false s r h g = g

  pub enqueue-IsCharged :
      (k : ℕ) (edge : ReferencePathEdge) (s : Interpretation)
      → IsCharged k s
      → IsCharged k (enqueue max_states edge s).1
  unfolding enqueue
  enqueue-IsCharged k edge s h = known k (has_key (path_key edge) s.path_edges) s _ h (
      reserve-IsCharged k s _ h (λ t same worked within. record {
        worked = omega (arith, worked, length-append t.queue (path_key edge ∷ []));
        within = omega (arith, within, length-append t.queue (path_key edge ∷ []));
      }))

  apply_summary-IsCharged :
      (k : ℕ) (d : ReferenceDependency) (summary : ReferenceSummary) (s : Interpretation)
      → IsCharged k s
      → IsCharged k (apply_summary max_states d summary s).1
  unfolding apply_summary
  apply_summary-IsCharged k d summary s h = known k _ s _ h (
      enqueue-IsCharged k (returned_edge max_states d summary)
        (record s { summary_reuses = s.summary_reuses + 1 })
        (record { worked = h.worked; within = h.within }))

  each_next :
      (k : ℕ) (rest : Interpretation → Bool × Interpretation) (r : Bool × Interpretation)
      → IsCharged k r.1
      → ((s : Interpretation) → IsCharged k s → IsCharged k (rest s).1)
      → IsCharged k (reserved max_states rest r).1
  each_next k rest (true, s) h f = f s h
  each_next k rest (false, s) h f = h

  each-IsCharged :
      {A : Type 0} (k : ℕ) (f : A → Interpretation → Bool × Interpretation)
      → ((x : A) (s : Interpretation) → IsCharged k s → IsCharged k (f x s).1)
      → (xs : List A) (s : Interpretation) → IsCharged k s
      → IsCharged k (each max_states f xs s).1
  unfolding each
  each-IsCharged k f g [] s h = h
  each-IsCharged k f g (x ∷ xs) s h =
      each_next k (each max_states f xs) (f x s) (g x s h) (each-IsCharged k f g xs)

  register_dependency-IsCharged :
      (k : ℕ) (d : ReferenceDependency) (s : Interpretation)
      → IsCharged k s
      → IsCharged k (register_dependency max_states d s).1
  unfolding register_dependency
  register_dependency-IsCharged k d s h =
      known k (has_key (dependency_key d) s.dependencies) s _ h (
        reserve-IsCharged k s _ h (λ t same worked within.
          each-IsCharged k (apply_known_summary max_states d t)
            (λ key u g. apply_summary-IsCharged k d (summary_at max_states key t) u g)
            (known_summaries max_states d.callee_entry t) (add_dependency max_states d t)
            (record { worked = omega (arith, worked); within = omega (arith, within) })))

  publish_summary-IsCharged :
      (k : ℕ) (summary : ReferenceSummary) (s : Interpretation)
      → IsCharged k s
      → IsCharged k (publish_summary max_states summary s).1
  unfolding publish_summary
  publish_summary-IsCharged k summary s h =
      known k (has_key (summary_key summary) s.summaries) s _ h (
        reserve-IsCharged k s _ h (λ t same worked within.
          each-IsCharged k (apply_known_dependency max_states summary t)
            (λ key u g. apply_summary-IsCharged k (dependency_at max_states key t) summary u g)
            (known_dependencies max_states summary.entry t) (add_summary max_states summary t)
            (record { worked = omega (arith, worked); within = omega (arith, within) })))

  branch :
      (k : ℕ) (b : Bool) (s t : Interpretation)
      → IsCharged k s
      → IsCharged k t
      → IsCharged k (if b then s else t)
  branch k true s t h g = h
  branch k false s t h g = g

  enter_callee-IsCharged :
      (k : ℕ) (state : ReferenceState) (edge : Edge) (next_witness : List String)
      (s : Interpretation)
      → IsCharged k s
      → IsCharged k (enter_callee max_states state edge next_witness s)
  unfolding enter_callee
  enter_callee-IsCharged k state edge next_witness s h =
      branch k s.budget_exceeded s _ h
        (enqueue-IsCharged k (callee_edge max_states state edge next_witness) s h)

  by_kind :
      (k : ℕ) (kind : EdgeKind) (a b c : Interpretation)
      → IsCharged k a
      → IsCharged k b
      → IsCharged k c
      → IsCharged k (elim kind as (λ _. Interpretation) [
        | return ↦ a
        | call ↦ b
        | intra ↦ c
        | other_kind o ↦ c
      ])
  by_kind k return a b c h g f = h
  by_kind k call a b c h g f = g
  by_kind k intra a b c h g f = f
  by_kind k (other_kind o) a b c h g f = f

  follow_edge-IsCharged :
      (k : ℕ) (program : Program) (path : ReferencePathEdge) (state : ReferenceState) (edge : Edge)
      (s : Interpretation)
      → IsCharged k s
      → IsCharged k (follow_edge max_states program path state edge s)
  unfolding follow_edge
  follow_edge-IsCharged k program path state edge s h =
      by_kind k edge.kind s _ _ h
        (enter_callee-IsCharged k state edge _ _ (
          each-IsCharged k
            (register_return max_states path state edge (path.witness ++ edge_key edge ∷ []))
            (λ e u g.
              register_dependency-IsCharged k
                (dependency_of max_states path state edge (path.witness ++ edge_key edge ∷ []) e) u
                g)
            _ s h))
        (enqueue-IsCharged k
          (next_edge max_states path state edge (path.witness ++ edge_key edge ∷ [])) s h)

  follow_edges-IsCharged :
      (k : ℕ) (program : Program) (path : ReferencePathEdge) (state : ReferenceState)
      (edges : List Edge) (s : Interpretation)
      → IsCharged k s
      → IsCharged k (follow_edges max_states program path state edges s)
  unfolding follow_edges
  follow_edges-IsCharged k program path state [] s h = h
  follow_edges-IsCharged k program path state (e ∷ es) s h =
      follow_edges-IsCharged k program path state es (follow_edge max_states program path state e s)
        (follow_edge-IsCharged k program path state e s h)

  reach_terminal-IsCharged :
      (k tracked : ℕ) (path : ReferencePathEdge) (state : ReferenceState) (s : Interpretation)
      → IsCharged k s
      → IsCharged k (reach_terminal max_states tracked path state s)
  unfolding reach_terminal
  reach_terminal-IsCharged k tracked path state s h = record {
    worked = h.worked;
    within = h.within;
  }

  visit_node-IsCharged :
      (k : ℕ) (program : Program) (tracked : ℕ) (path : ReferencePathEdge) (node : Node)
      (state : ReferenceState) (s : Interpretation)
      → IsCharged k s
      → IsCharged k (visit_node max_states program tracked path node state s)
  unfolding visit_node
  visit_node-IsCharged k program tracked path node state s h =
      branch k node.terminal _ _ (reach_terminal-IsCharged k tracked path state s h) (
        branch k (exits max_states program path) _ _
          (publish_summary-IsCharged k (exit_summary max_states path state) s h)
          (follow_edges-IsCharged k program path state (outgoing max_states program path.node) s h))

  pub visit_key-IsCharged :
      (k : ℕ) (program : Program) (tracked : ℕ) (key : String) (s : Interpretation)
      → IsCharged k s
      → IsCharged k (visit_key max_states program tracked key s)
  unfolding visit_key
  visit_key-IsCharged k program tracked key s h =
      let path = path_at max_states key s in
      let node = node_at max_states program path.node in
      branch k (is_unsat node.constraint) _ _ (record { worked = h.worked; within = h.within })
        (visit_node-IsCharged k program tracked path node
          (apply_reference_node path.state node tracked) s h)
