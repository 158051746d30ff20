-- ===== src/Witness/Replay/Accepted.antt =====
-- What the replay accepts, and that it accepts all of it.
use goplint.Base.{
  eq_iff, Bool, true, List, [], ◌∷◌, Option, none, some, ◌≡◌, ◌⊎◌, inl, inr, refl, sym, subst,
  arith, All, Option-cases,
}
use goplint.Protocol.State.{valid}
use goplint.Protocol.EdgeFunc.{new_edge_func, apply_edge}
use goplint.Witness.Graph.{Supergraph, WitnessEdge, node_exists, graph_has_edge, transfer_matches}
use goplint.Witness.Replay.{
  PathResult, CallFrame, check_edge, check_previous, or_non_edge, move_stack, moved, stopped, Moved,
  replay_loop, validate_replay, ends_at, ReplayRejection, frame_of,
}
use goplint.Witness.Realizable.{
  IsRealizable, Walk, done, stay, enter, leave, Walk-IsRealizable, IsRealizable-Walk,
}
use goplint.Witness.Replay.Moves.{
  Moves, move_stack-Moves, IsFlat-move_stack, IsCall-move_stack, Returns-move_stack, node_eq-≡,
  node_eq_refl, state_eq-≡, state_eq_refl,
}

-- One edge of a witness, on its own: it is an edge of the graph, about the fact of the result, and
-- its function takes its valid state before to one that its valid state after covers.
pub record IsStep (graph : Supergraph) (result : PathResult) (edge : WitnessEdge) : Type 0 where
  pub from_exists : node_exists graph edge.from ≡ true
  pub to_exists : node_exists graph edge.to ≡ true
  pub same_family : edge.fact_family ≡ result.fact_family
  pub same_fact : edge.fact_key ≡ result.fact_key
  pub valid_before : valid edge.state_before ≡ true
  pub valid_after : valid edge.state_after ≡ true
  pub transferred :
      transfer_matches
        (apply_edge (new_edge_func edge.edge_function_tag) edge.state_before)
        edge.state_after
      ≡ true
  pub in_graph : graph_has_edge graph.edges edge ≡ true

-- An edge starts at the node and in the state in which the previous one ends.
abbrev pub Joins : Option WitnessEdge → WitnessEdge → Type 0
Joins none edge = Unit
Joins (some p) edge = (p.to ≡ edge.from) × (p.state_after ≡ edge.state_before)

abbrev pub Connected : Option WitnessEdge → List WitnessEdge → Type 0
Connected previous [] = Unit
Connected previous (edge ∷ edges) = Joins previous edge × Connected (some edge) edges

-- A named terminal is a node of the graph, and the end of the witness.
abbrev pub Terminates : Supergraph → PathResult → Type 0
Terminates graph result =
    (result.witness_terminal.func_key ≡ "")
    ⊎ (node_exists graph result.witness_terminal ≡ true)
      × (ends_at result.witness_edges result.witness_terminal ≡ true)

pub record IsGenuine (graph : Supergraph) (result : PathResult) : Type 0 where
  pub steps : All (IsStep graph result) result.witness_edges
  pub connected : Connected none result.witness_edges
  pub realizable : IsRealizable result.witness_edges
  pub terminates : Terminates graph result

module _ (graph : Supergraph) (result : PathResult) where
  check_previous-Joins :
      (previous : Option WitnessEdge) (edge : WitnessEdge)
      → check_previous previous edge ≡ none
      → Joins previous edge
  unfolding check_previous
  check_previous-Joins none edge h = tt
  check_previous-Joins (some p) edge h =
      ground (arith, node_eq-≡ p.to edge.from, state_eq-≡ p.state_after edge.state_before)

  Joins-check_previous :
      (previous : Option WitnessEdge) (edge : WitnessEdge)
      → Joins previous edge
      → check_previous previous edge ≡ none
  unfolding check_previous
  Joins-check_previous none edge h = refl
  Joins-check_previous (some p) edge (h, k) =
      rw (h, k, node_eq_refl edge.from, state_eq_refl edge.state_before) refl

  or_non_edge-none :
      (has : Bool) (r : Option ReplayRejection)
      → or_non_edge has r ≡ none
      → (has ≡ true) × (r ≡ none)
  or_non_edge-none has r h = ground arith

  check_edge-IsStep :
      (previous : Option WitnessEdge) (edge : WitnessEdge)
      → check_edge graph result previous edge ≡ none
      → IsStep graph result edge × Joins previous edge
  unfolding check_edge
  check_edge-IsStep previous edge h =
      let joins = check_previous-Joins previous edge in
      ground (
        arith,
        joins,
        or_non_edge-none (graph_has_edge graph.edges edge) (check_previous previous edge),
        eq_iff edge.fact_family result.fact_family,
        eq_iff edge.fact_key result.fact_key,
      )

  IsStep-check_edge :
      (previous : Option WitnessEdge) (edge : WitnessEdge)
      → IsStep graph result edge
      → Joins previous edge
      → check_edge graph result previous edge ≡ none
  unfolding check_edge
  IsStep-check_edge previous edge s j =
      rw
        (
          s.from_exists,
          s.to_exists,
          (eq_iff edge.fact_family result.fact_family).1 s.same_family,
          (eq_iff edge.fact_key result.fact_key).1 s.same_fact,
          s.valid_before,
          s.valid_after,
          s.transferred,
          s.in_graph,
          Joins-check_previous previous edge j,
        )
        refl

  -- What is left of an accepted replay after `previous`, on the stack `s`.
  abbrev Rest : Option WitnessEdge → List CallFrame → List WitnessEdge → Type 0
  Rest previous s edges =
      All (IsStep graph result) edges
      × Connected previous edges
      × ((t : List CallFrame) × Walk s edges t)

  abbrev Accepts : Option WitnessEdge → List CallFrame → List WitnessEdge → Type 0
  Accepts previous s edges = replay_loop graph result previous s edges ≡ none

  Walk-on :
      (edge : WitnessEdge) (edges : List WitnessEdge) (s s' t : List CallFrame)
      → Moves s edge s'
      → Walk s' edges t
      → Walk s (edge ∷ edges) t
  Walk-on edge edges s s' t (inl (h, q)) w = stay h (subst (λ x. Walk x edges t) (sym q) w)
  Walk-on edge edges s s' t (inr (inl (h, q))) w = enter h (subst (λ x. Walk x edges t) (sym q) w)
  Walk-on edge edges s s' t (inr (inr (f, h, q))) w =
      subst (λ x. Walk x (edge ∷ edges) t) (sym q) (leave h w)

  moved_cases :
      (m : Moved)
      → ((r : ReplayRejection) × (m ≡ stopped r)) ⊎ ((s : List CallFrame) × (m ≡ moved s))
  moved_cases (stopped r) = inl (r, refl)
  moved_cases (moved s) = inr (s, refl)

  accepted_step :
      (previous : Option WitnessEdge) (s : List CallFrame) (edge : WitnessEdge)
      (edges : List WitnessEdge)
      → Accepts previous s (edge ∷ edges)
      → (check_edge graph result previous edge ≡ none)
        × ((s' : List CallFrame) × (move_stack edge.kind edge s ≡ moved s')
            × Accepts (some edge) s' edges)
  unfolding replay_loop
  accepted_step previous s edge edges h =
      elim (Option-cases (check_edge graph result previous edge)) [
        | inr (r, bad) ↦ cc (rw (bad, replay_loop) at h)
        | inl good ↦ elim (moved_cases (move_stack edge.kind edge s)) [
          | inl (r, bad) ↦ cc (rw (good, bad, replay_loop) at h)
          | inr (s', next) ↦ (good, (s', next, rw (good, next, replay_loop) at h))
        ]
      ]

  loop_sound :
      (previous : Option WitnessEdge) (s : List CallFrame) (edges : List WitnessEdge)
      → Accepts previous s edges
      → Rest previous s edges
  loop_sound previous s [] h = (tt, tt, (s, done))
  loop_sound previous s (edge ∷ edges) h =
      let (good, (s', next, more)) = accepted_step previous s edge edges h in
      let (steps, joined, (t, walk)) = loop_sound (some edge) s' edges more in
      let (step, joins) = check_edge-IsStep previous edge good in
      (
        (step, steps),
        (joins, joined),
        (t, Walk-on edge edges s s' t (move_stack-Moves edge s s' next) walk),
      )

  loop_on :
      (previous : Option WitnessEdge) (s s' : List CallFrame) (edge : WitnessEdge)
      (edges : List WitnessEdge)
      → check_edge graph result previous edge ≡ none
      → move_stack edge.kind edge s ≡ moved s'
      → Accepts (some edge) s' edges
      → Accepts previous s (edge ∷ edges)
  unfolding replay_loop
  loop_on previous s s' edge edges good next more = rw (good, next, replay_loop) more

  loop_complete :
      (previous : Option WitnessEdge) (s t : List CallFrame) (edges : List WitnessEdge)
      → Walk s edges t
      → All (IsStep graph result) edges
      → Connected previous edges
      → Accepts previous s edges
  unfolding replay_loop
  loop_complete previous s t [] done steps joined = refl
  loop_complete previous s t (edge ∷ edges) (stay h w) (step, steps) (joins, joined) =
      loop_on previous s s edge edges (IsStep-check_edge previous edge step joins)
        (IsFlat-move_stack edge s h) (loop_complete (some edge) s t edges w steps joined)
  loop_complete previous s t (edge ∷ edges) (enter h w) (step, steps) (joins, joined) =
      loop_on previous s (frame_of edge ∷ s) edge edges (IsStep-check_edge previous edge step joins)
        (IsCall-move_stack edge s h)
        (loop_complete (some edge) (frame_of edge ∷ s) t edges w steps joined)
  loop_complete previous (f ∷ s) t (edge ∷ edges) (leave h w) (step, steps) (joins, joined) =
      loop_on previous (f ∷ s) s edge edges (IsStep-check_edge previous edge step joins)
        (Returns-move_stack f edge s h) (loop_complete (some edge) s t edges w steps joined)

  accepted_parts :
      validate_replay graph result ≡ none
      → Terminates graph result × Accepts none [] result.witness_edges
  unfolding validate_replay
  accepted_parts h = ground (arith, eq_iff result.witness_terminal.func_key "")

  -- A witness that the replay accepts is genuine: every edge is a step of the graph, consecutive
  -- edges join, calls and returns nest, and a named terminal is the end of the witness.
  pub validate_replay_sound : validate_replay graph result ≡ none → IsGenuine graph result
  validate_replay_sound h =
      let (terminates, loop) = accepted_parts h in
      let (steps, connected, (t, walk)) = loop_sound none [] result.witness_edges loop in
      record {
        steps = steps;
        connected = connected;
        realizable = Walk-IsRealizable walk;
        terminates = terminates;
      }

  accepted_whole :
      Terminates graph result
      → Accepts none [] result.witness_edges
      → validate_replay graph result ≡ none
  unfolding validate_replay
  accepted_whole t h = ground (arith, eq_iff result.witness_terminal.func_key "")

  -- The replay accepts every genuine witness.
  pub validate_replay_complete : IsGenuine graph result → validate_replay graph result ≡ none
  validate_replay_complete g =
      let (t, walk) = IsRealizable-Walk g.realizable [] in
      accepted_whole g.terminates
        (loop_complete none [] t result.witness_edges walk g.steps g.connected)
