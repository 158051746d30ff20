-- ===== src/Tabulation/Growth/Enqueue.antt =====
-- What `enqueue` and `reserveWorkUnit` of goplint/cfa_ifds_tabulation.go do to the contributions.
use goplint.Base.{
  ℕ, ℤ, suc, ◌+◌, ◌≤◌, eq_iff, Bool, true, false, Bool-cases, Bool-branches, if_branches, leb,
  leb→le, none, List, [], ◌∷◌, ◌++◌, length, length-append, Memᴰ, ◌≡◌, ◌⊎◌, inl, inr, refl, sym, ap,
  subst, ◌∙◌, arith,
}
use goplint.Base.Memᴰ
use goplint.Protocol.Reason.{PathOutcomeReason, timeout, state_budget, witness_budget}
use goplint.Feasibility.Control.{Control, deadline_reached}
use goplint.Witness.Graph.{WitnessEdge}
use goplint.Tabulation.Facts.{Contribution, contribution_eq}
use goplint.Tabulation.Facts.Same.{contribution_eq-≡, contribution_eq_refl}
use goplint.Tabulation.Antichain.{
  PathEdge, identity_of, Contributions, antichain_of, put_antichain, set_budget_exceeded,
  drop_identity, Scan, scan_expired, scan_covered, scan_subsumes, also, covers, scan, drop_all,
  antichain_limit, reserve_work_unit, store_reserved, extend, replace_subsumed, after_scan, enqueue,
}
use goplint.Tabulation.Antichain.Covers.{is_some, set_budget_some}
use goplint.Tabulation.Solve.{stored_edge, find_stored, same_storage}
use goplint.Tabulation.Growth.{is_cons, Retained, Pending, Spreads, IsCharged}
use goplint.Tabulation.Growth.Rules.{none_of_some, Spreads-refl}

abbrev pub Changed : Type 0
Changed = (Bool × Contributions) × ℕ

-- A budget is exceeded, and nothing is queued.
pub record Refused (k : Contributions) (x : Changed) : Type 0 where
  pub stops : x.0.0 ≡ false
  pub exceeded : is_some x.0.1.budget_result ≡ true
  pub queue : x.0.1.queue ≡ k.queue
  pub worked : k.work_units ≤ x.0.1.work_units

pub record Reserved (limit : ℕ) (k : Contributions) (x : Changed) : Type 0 where
  pub goes_on : x.0.0 ≡ true
  pub same : x.0.1 ≡ record k { work_units = k.work_units + 1 }
  pub within : k.work_units + 1 ≤ limit

pub record Covered (edge : PathEdge) (k : Contributions) (x : Changed) : Type 0 where
  pub goes_on : x.0.0 ≡ true
  pub same : x.0.1 ≡ k
  pub known : is_cons (antichain_of edge.contribution k.antichains) ≡ true

pub record Stored (limit : ℕ) (edge : PathEdge) (k : Contributions) (x : Changed) : Type 0 where
  pub goes_on : x.0.0 ≡ true
  pub old : List PathEdge
  pub new : List PathEdge
  pub antichains :
      x.0.1.antichains ≡ (edge.contribution, edge ∷ new) ∷ (edge.contribution, old) ∷ k.antichains
  pub queue : x.0.1.queue ≡ k.queue ++ edge ∷ []
  pub budget : x.0.1.budget_result ≡ k.budget_result
  pub worked : x.0.1.work_units ≡ k.work_units + 1
  pub within : k.work_units + 1 ≤ limit

abbrev pub Outcome : ℕ → PathEdge → Contributions → Changed → Type 0
Outcome limit edge k x = Refused k x ⊎ Covered edge k x ⊎ Stored limit edge k x

pub exceeded-Refused :
    (why : PathOutcomeReason) (path : List ℤ) (witness : List WitnessEdge) (k l : Contributions)
    (n : ℕ)
    → l.queue ≡ k.queue
    → k.work_units ≤ l.work_units
    → Refused k ((false, set_budget_exceeded why path witness l), n)
exceeded-Refused why path witness k l n q w = record {
  stops = refl;
  exceeded = set_budget_some why path witness l;
  queue = unfold set_budget_exceeded in ground arith;
  worked = unfold set_budget_exceeded in ground arith;
}

module _ (c : Control) (limit : ℕ) where
  pub reserve_outcome :
      (path : List ℤ) (witness : List WitnessEdge) (k : Contributions) (n : ℕ)
      → Refused k (reserve_work_unit c limit path witness k n)
        ⊎ Reserved limit k (reserve_work_unit c limit path witness k n)
  unfolding reserve_work_unit
  reserve_outcome path witness k n =
      let P = λ (x : Changed). Refused k x ⊎ Reserved limit k x in
      let worked = record k { work_units = k.work_units + 1 } in
      Bool-branches P (deadline_reached c n) _ _
        (λ e. inl (exceeded-Refused timeout path witness k k (suc n) refl (omega arith)))
        (λ e.
          if_branches P (leb (k.work_units + 1) limit) _ _
            (λ l. inr (record { goes_on = refl; same = refl; within = leb→le _ _ l }))
            (λ l.
              inl (exceeded-Refused state_budget path witness k worked (suc n) refl (omega arith))))

  store_outcome :
      (edge : PathEdge) (a old : List PathEdge) (k : Contributions) (x : Changed)
      → Refused (put_antichain edge old k) x ⊎ Reserved limit (put_antichain edge old k) x
      → Outcome limit edge k (store_reserved c limit edge a x)
  unfolding store_reserved
  store_outcome edge a old k ((true, l), n) (inl r) = absurd (cc r.stops)
  store_outcome edge a old k ((false, l), n) (inl r) =
      inl (record { stops = refl; exceeded = r.exceeded; queue = r.queue; worked = r.worked })
  store_outcome edge a old k ((false, l), n) (inr r) = absurd (cc r.goes_on)
  store_outcome edge a old k ((true, l), n) (inr r) = inr (
      inr (record {
        goes_on = refl;
        old = old;
        new = drop_identity (identity_of edge) a;
        antichains =
            ap
              (λ (m : Contributions).
                (edge.contribution, edge ∷ drop_identity (identity_of edge) a) ∷ m.antichains)
              r.same;
        queue = ap (λ (m : Contributions). m.queue ++ edge ∷ []) r.same;
        budget = ap (λ (m : Contributions). m.budget_result) r.same;
        worked = ap (λ (m : Contributions). m.work_units) r.same;
        within = r.within;
      }))

  extend_outcome :
      (edge : PathEdge) (a old : List PathEdge) (k : Contributions) (n : ℕ)
      → Outcome limit edge k (extend c limit edge a (put_antichain edge old k) n)
  unfolding extend
  extend_outcome edge a old k n =
      if_branches (Outcome limit edge k) (leb antichain_limit (length a)) _ _
        (λ e. inl (
          exceeded-Refused witness_budget edge.path edge.witness k (put_antichain edge old k) n refl
            (omega arith)))
        (λ e.
          store_outcome edge a old k _
            (reserve_outcome edge.path edge.witness (put_antichain edge old k) n))

  replace_outcome :
      (edge : PathEdge) (k : Contributions) (r : (Bool × List PathEdge) × ℕ)
      → Outcome limit edge k (replace_subsumed c limit edge k r)
  unfolding replace_subsumed
  replace_outcome edge k ((true, a), n) = extend_outcome edge a a k n
  replace_outcome edge k ((false, a), n) = inl (
      exceeded-Refused timeout edge.path edge.witness k (put_antichain edge a k) n refl
        (omega arith))

  -- Only a scan of something is covered.
  Covering : List PathEdge → Scan → Type 0
  Covering a scan_expired = Unit
  Covering a scan_covered = is_cons a ≡ true
  Covering a (scan_subsumes rs) = Unit

  also-Covering :
      (r : PathEdge) (a : List PathEdge) (b : Bool) (s : Scan) → Covering (r ∷ a) (also b r s)
  unfolding Covering
  also-Covering r a b scan_expired = tt
  also-Covering r a b scan_covered = refl
  also-Covering r a true (scan_subsumes rs) = tt
  also-Covering r a false (scan_subsumes rs) = tt

  scan-Covering : (edge : PathEdge) (a : List PathEdge) (n : ℕ) → Covering a (scan c edge a n).0
  unfolding scan Covering
  scan-Covering edge [] n = tt
  scan-Covering edge (r ∷ rs) n =
      let P = λ (x : Scan × ℕ). Covering (r ∷ rs) x.0 in
      Bool-branches P (deadline_reached c n) _ _ (λ e. tt)
        (λ e. Bool-branches P (covers r edge) _ _ (λ d. refl) (λ d. also-Covering r rs _ _))

  after_scan_outcome :
      (edge : PathEdge) (k : Contributions) (r : Scan × ℕ)
      → Covering (antichain_of edge.contribution k.antichains) r.0
      → Outcome limit edge k
          (after_scan c limit edge (antichain_of edge.contribution k.antichains) k r)
  unfolding after_scan Covering
  after_scan_outcome edge k (scan_expired, n) h =
      inl (exceeded-Refused timeout edge.path edge.witness k k n refl (omega arith))
  after_scan_outcome edge k (scan_covered, n) h =
      inr (inl (record { goes_on = refl; same = refl; known = h }))
  after_scan_outcome edge k (scan_subsumes rs, n) h = replace_outcome edge k (drop_all c rs _ n)

  pub enqueue_outcome :
      (edge : PathEdge) (k : Contributions) (n : ℕ)
      → Outcome limit edge k (enqueue c limit edge k n)
  unfolding enqueue
  enqueue_outcome edge k n =
      Bool-branches (Outcome limit edge k) (deadline_reached c n) _ _
        (λ e. inl (exceeded-Refused timeout edge.path edge.witness k k (suc n) refl (omega arith)))
        (λ e. after_scan_outcome edge k _ (scan-Covering edge _ (suc n)))

-- The new antichain comes first, and the others are where they were.
antichain_first :
    (x : Contribution) (a : List PathEdge) (rest : List (Contribution × List PathEdge))
    → antichain_of x ((x, a) ∷ rest) ≡ a
unfolding antichain_of
antichain_first x a rest = ground (arith, contribution_eq_refl x)

antichain_later :
    (x y : Contribution) (a b : List PathEdge) (rest : List (Contribution × List PathEdge))
    → contribution_eq y x ≡ false
    → antichain_of x ((y, a) ∷ (y, b) ∷ rest) ≡ antichain_of x rest
unfolding antichain_of
antichain_later x y a b rest h = ground arith

find_itself : (edge : PathEdge) (rs : List PathEdge) → is_some (find_stored edge (edge ∷ rs)) ≡ true
unfolding find_stored same_storage
find_itself edge rs =
    ground
      (arith, contribution_eq_refl edge.contribution, eq_iff (identity_of edge) (identity_of edge))

module _ (limit : ℕ) (edge : PathEdge) (k : Contributions) (x : Changed)
    (s : Stored limit edge k x) where
  -- The path edge is stored and queued.
  stored-Pending : Pending x.0.1 edge.contribution
  unfolding stored_edge
  stored-Pending = record {
    key = edge;
    queued = subst (Memᴰ edge) (sym s.queue) (Memᴰ.append_right k.queue (Memᴰ.head refl));
    of = refl;
    stored =
        subst (λ a. is_some (find_stored edge a) ≡ true)
          (sym (
            ap (antichain_of edge.contribution) s.antichains
            ∙ antichain_first edge.contribution (edge ∷ s.new)
                ((edge.contribution, s.old) ∷ k.antichains)))
          (find_itself edge s.new);
  }

  others :
      (y : Contribution)
      → contribution_eq edge.contribution y ≡ false
      → antichain_of y x.0.1.antichains ≡ antichain_of y k.antichains
  others y h =
      ap (antichain_of y) s.antichains ∙ antichain_later y edge.contribution _ s.old k.antichains h

  stored-Retained : Retained x.0.1 edge.contribution
  stored-Retained = record {
    holds = ap is_cons (
        ap (antichain_of edge.contribution) s.antichains
        ∙ antichain_first edge.contribution (edge ∷ s.new)
            ((edge.contribution, s.old) ∷ k.antichains));
  }

  by_contribution :
      (A : Contribution → Type 0) (y : Contribution)
      → A edge.contribution
      → (contribution_eq edge.contribution y ≡ false → A y)
      → A y
  by_contribution A y h f = elim (Bool-cases (contribution_eq edge.contribution y)) [
    | inl e ↦ subst A (contribution_eq-≡ edge.contribution y e) h
    | inr e ↦ f e
  ]

  still_waiting :
      (y : Contribution)
      → Pending k y
      → contribution_eq edge.contribution y ≡ false
      → Pending x.0.1 y
  unfolding stored_edge
  still_waiting y w h = record {
    key = w.key;
    queued = subst (Memᴰ w.key) (sym s.queue) (Memᴰ.append_left (edge ∷ []) w.queued);
    of = w.of;
    stored =
        subst (λ a. is_some (find_stored w.key a) ≡ true)
          (sym (
            others w.key.contribution
              (subst (λ z. contribution_eq edge.contribution z ≡ false) (sym w.of) h)))
          (w.stored);
  }

  stored-Spreads : Spreads k x.0.1
  stored-Spreads = record {
    kept = λ y h.
        by_contribution (Retained x.0.1) y stored-Retained
          (λ e. record { holds = ap is_cons (others y e) ∙ h.holds });
    fresh = λ y h.
        by_contribution (λ z. Retained k z ⊎ Pending x.0.1 z) y (inr stored-Pending)
          (λ e. inl (record { holds = sym (ap is_cons (others y e)) ∙ h.holds }));
    waiting = λ y w. by_contribution (Pending x.0.1) y stored-Pending (still_waiting y w);
  }

-- Unless a budget is exceeded, the contribution is retained, and the others are as before.
pub outcome-Spreads :
    (limit : ℕ) (edge : PathEdge) (k : Contributions) (x : Changed)
    → Outcome limit edge k x
    → x.0.1.budget_result ≡ none
    → Spreads k x.0.1 × Retained x.0.1 edge.contribution × (k.budget_result ≡ none)
outcome-Spreads limit edge k x (inl r) h = absurd (none_of_some _ r.exceeded h)
outcome-Spreads limit edge k x (inr (inl r)) h = (
  subst (Spreads k) (sym r.same) (Spreads-refl k),
  subst (λ l. Retained l edge.contribution) (sym r.same) (record { holds = r.known }),
  ap (λ (l : Contributions). l.budget_result) (sym r.same) ∙ h,
)
outcome-Spreads limit edge k x (inr (inr s)) h =
    (stored-Spreads limit edge k x s, stored-Retained limit edge k x s, sym s.budget ∙ h)

pub refused-IsCharged :
    (limit : ℕ) (k : Contributions) (x : Changed)
    → Refused k x
    → (i : ℕ) → IsCharged limit i k
    → IsCharged limit i x.0.1
refused-IsCharged limit k x r i h = record {
  worked = omega (arith, h.worked, r.worked, ap (length {A = PathEdge}) r.queue);
  within = omega (arith, h.within, ap (length {A = PathEdge}) r.queue);
}

pub outcome-IsCharged :
    (limit : ℕ) (edge : PathEdge) (k : Contributions) (x : Changed)
    → Outcome limit edge k x
    → (i : ℕ) → IsCharged limit i k
    → IsCharged limit i x.0.1
outcome-IsCharged limit edge k x (inl r) i h = refused-IsCharged limit k x r i h
outcome-IsCharged limit edge k x (inr (inl r)) i h = subst (IsCharged limit i) (sym r.same) h
outcome-IsCharged limit edge k x (inr (inr s)) i h =
    let longer = ap (length {A = PathEdge}) s.queue ∙ length-append k.queue (edge ∷ []) in
    record {
      worked = omega (arith, h.worked, s.worked, longer);
      within = omega (arith, h.worked, s.within, longer);
    }

-- A unit that is reserved changes no path edge.
reserved-Spreads : (k : Contributions) (w : ℕ) → Spreads k (record k { work_units = w })
unfolding stored_edge
reserved-Spreads k w = record {
  kept = λ y h. record { holds = h.holds };
  fresh = λ y h. inl (record { holds = h.holds });
  waiting = λ y h. record { key = h.key; queued = h.queued; of = h.of; stored = h.stored };
}

pub Reserved-Spreads :
    (limit : ℕ) (k : Contributions) (x : Changed) → Reserved limit k x → Spreads k x.0.1
Reserved-Spreads limit k x r =
    subst (Spreads k) (sym r.same) (reserved-Spreads k (k.work_units + 1))

pub reserved-IsCharged :
    (limit : ℕ) (k : Contributions) (x : Changed)
    → Reserved limit k x
    → (i : ℕ) → IsCharged limit i k
    → IsCharged limit i x.0.1
reserved-IsCharged limit k x r i h =
    subst (IsCharged limit i) (sym r.same)
      (record { worked = omega (arith, h.worked); within = omega (arith, h.within) })
