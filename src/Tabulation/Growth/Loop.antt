-- ===== src/Tabulation/Growth/Loop.antt =====
-- The loop of `runIFDSPropagationWithStatsOptions` in goplint/cfa_ifds_tabulation.go: it ends, and what
-- it leaves behind when it has no result but a safe one.
use goplint.Base.{
  ℕ, zero, suc, ◌+◌, ◌<◌, true, false, Bool-branches, if_branches, and-true, Option, none, some,
  List, [], ◌∷◌, length, Memᴰ, ◌≡◌, ◌⊎◌, inl, inr, refl, ap, subst, ◌∙◌, arith,
}
use goplint.Base.Memᴰ
use goplint.Protocol.Reason.{timeout}
use goplint.Feasibility.Control.{Control, deadline_reached}
use goplint.Tabulation.Facts.{Contribution}
use goplint.Tabulation.Facts.Same.{contribution_eq-≡}
use goplint.Tabulation.Antichain.{PathEdge}
use goplint.Tabulation.Antichain.Covers.{is_some}
use goplint.Tabulation.Problem.{Problem, state_limit}
use goplint.Tabulation.State.{Solver, exceed, out_of_budget}
use goplint.Tabulation.Visit.{visit}
use goplint.Tabulation.Solve.{
  same_storage, find_stored, stored_edge, with_queue, visit_stored, take_round, solver_loop,
}
use goplint.Tabulation.Growth.{
  IsLabelled, Retained, Pending, IsClean, IsCharged, Grows, Keeps, Closed,
}
use goplint.Tabulation.Growth.Rules.{broken, Grows-refl}
use goplint.Tabulation.Growth.Steps.{exceed_does}
use goplint.Tabulation.Growth.Done.{Done, Done-kept, Done-persists}
use goplint.Tabulation.Growth.Follow.{over}
use goplint.Tabulation.Growth.Visit.{Fresh, visit_does}

find_stored-same :
    (key snapshot : PathEdge) (rs : List PathEdge)
    → find_stored key rs ≡ some snapshot
    → snapshot.contribution ≡ key.contribution
unfolding find_stored same_storage
find_stored-same key snapshot [] = λ h. cc h
find_stored-same key snapshot (r ∷ rs) =
    if_branches (λ o. o ≡ some snapshot → snapshot.contribution ≡ key.contribution)
      (same_storage r key) _ _
      (λ e h.
        let found : r ≡ snapshot = cc h in
        subst (λ s. s.contribution ≡ key.contribution) found
          (contribution_eq-≡ r.contribution key.contribution (and-true _ _ e).0))
      (λ e h. find_stored-same key snapshot rs h)

-- The path edges that are stored are those of before, whatever the queue is.
unqueued :
    (key : PathEdge) (rest : List PathEdge) (s : Solver) (x : Contribution)
    → s.contributions.queue ≡ key ∷ rest
    → Pending s.contributions x
    → ((key.contribution ≡ x) × (is_some (stored_edge key s.contributions) ≡ true))
      ⊎ Pending (with_queue rest s).contributions x
unfolding stored_edge
unqueued key rest s x e w = elim (Memᴰ.cases_cons (subst (Memᴰ w.key) e w.queued)) [
  | inl first ↦ inl (
    subst (λ k. k.contribution ≡ x) first w.of,
    subst (λ k. is_some (stored_edge k s.contributions) ≡ true) first w.stored,
  )
  | inr later ↦ inr (record { key = w.key; queued = later; of = w.of; stored = w.stored })
]

module _ {Ast : Type 0} (p : Problem Ast) (c : Control) where
  -- Every contribution is done or waits in the queue.
  pub record Inv (s : Solver) : Type 0 where
    pub handled :
        (x : Contribution) → Retained s.contributions x → Done p x s ⊎ Pending s.contributions x
    pub closed : Closed s

  unqueued-Keeps : (rest : List PathEdge) (s : Solver) → Keeps s (with_queue rest s)
  unqueued-Keeps rest s = record {
    kept = λ x h. record { holds = h.holds };
    more_dependencies = λ d h. h;
    more_summaries = λ x h. h;
  }

  unqueued-Closed : (rest : List PathEdge) (s : Solver) → Closed s → Closed (with_queue rest s)
  unqueued-Closed rest s h = record {
    applied = λ d x hd hx e a. record { holds = (h.applied d x hd hx e a).holds };
  }

  -- With the first path edge off the queue, every other contribution is handled.
  left_over :
      (key : PathEdge) (rest : List PathEdge) (s : Solver) (x : Contribution)
      → s.contributions.queue ≡ key ∷ rest
      → Inv s
      → Retained (with_queue rest s).contributions x
      → Done p x (with_queue rest s)
        ⊎ Pending (with_queue rest s).contributions x
        ⊎ ((key.contribution ≡ x) × (is_some (stored_edge key s.contributions) ≡ true))
  left_over key rest s x e inv r = elim (inv.handled x (record { holds = r.holds })) [
    | inl d ↦ inl (Done-kept p x s (with_queue rest s) (unqueued-Keeps rest s) d)
    | inr w ↦ elim (unqueued key rest s x e w) [
      | inl first ↦ inr (inr first)
      | inr later ↦ inr (inl later)
    ]
  ]

  -- What a round needs and leaves, for the path edge that is found under the key.
  visit_stored-Inv :
      (key : PathEdge) (rest : List PathEdge) (s : Solver) (n : ℕ) (o : Option PathEdge)
      → Fresh p c
      → s.contributions.queue ≡ key ∷ rest
      → Inv s
      → stored_edge key s.contributions ≡ o
      → ((snapshot : PathEdge) → o ≡ some snapshot → snapshot.contribution ≡ key.contribution)
      → IsClean (visit_stored p c o (with_queue rest s) n).0.1
      → Inv (visit_stored p c o (with_queue rest s) n).0.1
  unfolding visit_stored
  visit_stored-Inv key rest s n none f e inv is same h = record {
    handled = λ x r. elim (left_over key rest s x e inv r) [
      | inl d ↦ inl d
      | inr (inl w) ↦ inr w
      | inr (inr (k, stored)) ↦ absurd (cc (stored, is))
    ];
    closed = unqueued-Closed rest s inv.closed;
  }
  visit_stored-Inv key rest s n (some snapshot) f e inv is same h =
      let t = with_queue rest s in
      let d = visit_does p c snapshot t n in
      let u = (visit p c snapshot t n).0.1 in
      let spread = d.grown.grows.spreads h in
      record {
        handled = λ x r. elim (spread.fresh x r) [
          | inr w ↦ inr w
          | inl old ↦ elim (left_over key rest s x e inv old) [
            | inl done ↦ inl (Done-persists p c x t u d.grown h done)
            | inr (inl w) ↦ inr (spread.waiting x w)
            | inr (inr (k, stored)) ↦
                inl (subst (λ y. Done p y u) (same snapshot refl ∙ k) (d.gives h f))
          ]
        ];
        closed = d.grown.closes h (unqueued-Closed rest s inv.closed);
      }

  round-Inv :
      (key : PathEdge) (rest : List PathEdge) (s : Solver) (n : ℕ)
      → Fresh p c
      → s.contributions.queue ≡ key ∷ rest
      → Inv s
      → IsClean (take_round p c key rest s n).0.1
      → Inv (take_round p c key rest s n).0.1
  unfolding take_round
  round-Inv key rest s n f e inv =
      visit_stored-Inv key rest s n (stored_edge key s.contributions) f e inv refl
        (λ snapshot h. unfold stored_edge in find_stored-same key snapshot _ h)

  visit_stored-Grows :
      (o : Option PathEdge) (t : Solver) (n : ℕ)
      → Grows (state_limit p.max_states) t (visit_stored p c o t n).0.1
        × ((visit_stored p c o t n).0.0 ≡ false
            → is_some (visit_stored p c o t n).0.1.contributions.budget_result ≡ true)
  unfolding visit_stored
  visit_stored-Grows none t n = (Grows-refl t, λ h. absurd (cc h))
  visit_stored-Grows (some snapshot) t n =
      let d = visit_does p c snapshot t n in (d.grown.grows, d.stops)

  take_round-Grows :
      (key : PathEdge) (rest : List PathEdge) (s : Solver) (n : ℕ)
      → Grows (state_limit p.max_states) (with_queue rest s) (take_round p c key rest s n).0.1
        × ((take_round p c key rest s n).0.0 ≡ false
            → is_some (take_round p c key rest s n).0.1.contributions.budget_result ≡ true)
  unfolding take_round
  take_round-Grows key rest s n =
      visit_stored-Grows (stored_edge key s.contributions) (with_queue rest s) n

  unqueued-IsClean : (rest : List PathEdge) (s : Solver) → IsClean (with_queue rest s) → IsClean s
  unqueued-IsClean rest s g = record {
    in_budget = g.in_budget;
    not_unsafe = g.not_unsafe;
    not_inconclusive = g.not_inconclusive;
  }

  round-charged :
      (key : PathEdge) (rest : List PathEdge) (s : Solver) (n k : ℕ)
      → s.contributions.queue ≡ key ∷ rest
      → IsCharged (state_limit p.max_states) k s.contributions
      → IsCharged (state_limit p.max_states) (suc k) (take_round p c key rest s n).0.1.contributions
  round-charged key rest s n k e h =
      let same = ap (length {A = PathEdge}) e in
      (take_round-Grows key rest s n).0.charged (suc k)
        (record { worked = omega (arith, h.worked, same); within = omega (arith, h.within, same) })

  -- The state in which the loop ends.
  pub record Final (s t : Solver) : Type 0 where
    pub labelled : IsLabelled s → IsLabelled t
    pub drained : IsClean t → t.contributions.queue ≡ []
    pub clean : IsClean t → IsClean s
    pub kept :
        IsClean t → (x : Contribution) → Retained s.contributions x → Retained t.contributions x
    pub inv : Fresh p c → (IsClean s → Inv s) → IsClean t → Inv t

  stays : (s : Solver) → (IsClean s → s.contributions.queue ≡ []) → Final s s
  stays s h = record {
    labelled = λ l. l;
    drained = h;
    clean = λ g. g;
    kept = λ g x r. r;
    inv = λ f i g. i g;
  }

  after_round :
      (key : PathEdge) (rest : List PathEdge) (s t : Solver) (n : ℕ)
      → s.contributions.queue ≡ key ∷ rest
      → Final (take_round p c key rest s n).0.1 t
      → Final s t
  after_round key rest s t n e z =
      let g = (take_round-Grows key rest s n).0 in
      let clean = λ (h : IsClean t). unqueued-IsClean rest s (g.clean (z.clean h)) in
      record {
        labelled =
            λ l. z.labelled (g.labelled (record { unsafe = l.unsafe; uncertain = l.uncertain }));
        drained = z.drained;
        clean = clean;
        kept = λ h x r. z.kept h x ((g.spreads (z.clean h)).kept x (record { holds = r.holds }));
        inv = λ f i h. z.inv f (λ a. round-Inv key rest s n f e (i (clean h)) a) h;
      }

  -- Out of time, there is a result.
  expired : (s : Solver) → Final s (exceed timeout [] [] s)
  expired s =
      let d = exceed_does {limit = state_limit p.max_states} (λ t. Unit) timeout [] [] s 0 in
      let dirty = λ (h : IsClean (exceed timeout [] [] s)). broken _ (d.stops refl) h in
      record {
        labelled = d.grown.grows.labelled;
        drained = λ h. absurd (dirty h);
        clean = λ h. absurd (dirty h);
        kept = λ h. absurd (dirty h);
        inv = λ f i h. absurd (dirty h);
      }

  by_queue :
      {A : Type 0} (P : A → Type 0) (queue : List PathEdge) (a : A)
      (f : PathEdge → List PathEdge → A)
      → (queue ≡ [] → P a)
      → ((key : PathEdge) (rest : List PathEdge) → queue ≡ key ∷ rest → P (f key rest))
      → P (elim queue as (λ _. A) [ [] ↦ a | key ∷ rest ↦ f key rest ])
  by_queue P [] a f h g = h refl
  by_queue P (key ∷ rest) a f h g = g key rest refl

  -- The loop ends with its fuel.
  Ends : Solver → Option (Solver × ℕ) → Type 0
  Ends s o = (r : Solver × ℕ) × (o ≡ some r) × Final s r.0

  pub solver_loop_ends :
      (fuel k : ℕ) (s : Solver) (n : ℕ)
      → state_limit p.max_states < fuel + k
      → IsCharged (state_limit p.max_states) k s.contributions
      → (r : Solver × ℕ) × (solver_loop p c fuel s n ≡ some r) × Final s r.0
  unfolding solver_loop Ends
  solver_loop_ends zero k s n enough h = absurd (omega (arith, enough, h.within))
  solver_loop_ends (suc fuel) k s n enough h =
      Bool-branches (Ends s) (out_of_budget s) _ _
        (λ o. ((s, n), refl, stays s (λ g. absurd (broken s (over s o) g))))
        (λ o.
          by_queue (Ends s) s.contributions.queue _ _ (λ e. ((s, n), refl, stays s (λ g. e)))
            (λ key rest e.
              Bool-branches (Ends s) (deadline_reached c n) _ _
                (λ d. ((exceed timeout [] [] s, suc n), refl, expired s))
                (λ d.
                  let x = take_round p c key rest s (suc n) in
                  let step = take_round-Grows key rest s (suc n) in
                  let again =
                    solver_loop_ends fuel (suc k) x.0.1 x.1 (omega (arith, enough))
                      (round-charged key rest s (suc n) k e h) in
                  Bool-branches (Ends s) x.0.0 _ _
                    (λ b. (again.0, again.1, after_round key rest s again.0.0 (suc n) e again.2))
                    (λ b. (
                      (x.0.1, x.1),
                      refl,
                      after_round key rest s x.0.1 (suc n) e
                          (stays x.0.1 (λ g. absurd (broken x.0.1 (step.1 b) g))),
                    )))))
