-- ===== src/Tabulation/Antichain/Covers.antt =====
-- What the answer of `enqueue` in goplint/cfa_ifds_tabulation.go means.
use goplint.Base.{
  if_branches, Bool-branches, ℕ, suc, ◌+◌, ℤ, String, contains, contains_head, Bool, true, false,
  ◌||◌, leb, Option, none, some, List, [], ◌∷◌, length, ◌≡◌, refl, ap, ◌∙◌, arith,
}
use goplint.Protocol.Reason.{PathOutcomeReason, timeout, witness_budget, state_budget}
use goplint.Feasibility.Control.{Control, deadline_reached}
use goplint.Witness.Graph.{WitnessEdge}
use goplint.Tabulation.Facts.{Contribution}
use goplint.Tabulation.Facts.Same.{contribution_eq_refl}
use goplint.Tabulation.Antichain.{
  identity_of, store_reserved, PathEdge, Contributions, all_contained, witness_predicates,
  witness_subsumes, antichain_limit, antichain_of, put_antichain, set_budget_exceeded,
  drop_identity, Scan, scan_expired, scan_covered, scan_subsumes, also, covers, scan, drop_all,
  store, reserve_work_unit, extend, replace_subsumed, after_scan, enqueue,
}

-- A retained edge whose witness subsumes that of the candidate.
unfoldable pub any_subsumes : List PathEdge → PathEdge → Bool
any_subsumes [] edge = false
any_subsumes (r ∷ rs) edge = witness_subsumes r.witness edge.witness || any_subsumes rs edge

abbrev pub is_some {ℓ} : {A : Type ℓ} → Option A → Bool
is_some none = false
is_some (some a) = true

all_contained_more :
    (xs ys : List String) (y : String)
    → all_contained xs ys ≡ true
    → all_contained xs (y ∷ ys) ≡ true
unfolding all_contained contains
all_contained_more [] ys y h = refl
all_contained_more (x ∷ xs) ys y h = ground (arith, all_contained_more xs ys y)

all_contained_refl : (xs : List String) → all_contained xs xs ≡ true
unfolding all_contained
all_contained_refl [] = refl
all_contained_refl (x ∷ xs) =
    ground (arith, contains_head x xs, all_contained_more xs xs x (all_contained_refl xs))

pub witness_subsumes_refl : (w : List WitnessEdge) → witness_subsumes w w ≡ true
unfolding witness_subsumes
witness_subsumes_refl w = ground (arith, all_contained_refl (witness_predicates w))

-- A candidate that is taken is covered, and one that is refused leaves a budget exceeded.
Decided : PathEdge → (Bool × Contributions) × ℕ → Type 0
Decided edge x =
    (x.0.0 ≡ true → any_subsumes (antichain_of edge.contribution x.0.1.antichains) edge ≡ true)
    × (x.0.0 ≡ false → is_some x.0.1.budget_result ≡ true)

pub set_budget_some :
    (why : PathOutcomeReason) (path : List ℤ) (witness : List WitnessEdge) (s : Contributions)
    → is_some (set_budget_exceeded why path witness s).budget_result ≡ true
unfolding set_budget_exceeded
set_budget_some why path witness s = ground arith

refused :
    (why : PathOutcomeReason) (edge : PathEdge) (s : Contributions) (n : ℕ)
    → Decided edge ((false, set_budget_exceeded why edge.path edge.witness s), n)
unfolding Decided set_budget_exceeded
refused why edge s n = ((λ h. absurd (cc h)), λ h. set_budget_some why edge.path edge.witness s)

first :
    (key : Contribution) (a : List PathEdge) (rest : List (Contribution × List PathEdge))
    → antichain_of key ((key, a) ∷ rest) ≡ a
unfolding antichain_of
first key a rest = ground (arith, contribution_eq_refl key)

covers_itself : (edge : PathEdge) (rs : List PathEdge) → any_subsumes (edge ∷ rs) edge ≡ true
unfolding any_subsumes
covers_itself edge rs = ground (arith, witness_subsumes_refl edge.witness)

stored :
    (edge : PathEdge) (a : List PathEdge) (s : Contributions) (n : ℕ) (c : Control) (k : ℕ)
    → Decided edge ((true, store c k edge a s), n)
unfolding Decided store
stored edge a s n c k = (
  (λ h.
      ap (λ x. any_subsumes x edge)
        (first edge.contribution (edge ∷ drop_identity (identity_of edge) a) s.antichains)
      ∙ covers_itself edge (drop_identity (identity_of edge) a)),
  λ h. absurd (cc h),
)

module _ (c : Control) where
  Found : PathEdge → List PathEdge → Scan → Type 0
  Found edge a scan_expired = Unit
  Found edge a scan_covered = any_subsumes a edge ≡ true
  Found edge a (scan_subsumes rs) = Unit

  also-Found :
      (edge r : PathEdge) (a : List PathEdge) (b : Bool) (s : Scan)
      → Found edge a s
      → Found edge (r ∷ a) (also b r s)
  unfolding Found any_subsumes
  also-Found edge r a b scan_expired h = tt
  also-Found edge r a b scan_covered h = ground arith
  also-Found edge r a true (scan_subsumes rs) h = tt
  also-Found edge r a false (scan_subsumes rs) h = tt

  scan-Found : (edge : PathEdge) (a : List PathEdge) (n : ℕ) → Found edge a (scan c edge a n).0
  unfolding scan Found any_subsumes covers
  scan-Found edge [] n = tt
  scan-Found edge (r ∷ rs) n =
      Bool-branches (λ (x : Scan × ℕ). Found edge (r ∷ rs) x.0) (deadline_reached c n) _ _ (λ e. tt)
        (λ e.
          Bool-branches (λ (x : Scan × ℕ). Found edge (r ∷ rs) x.0) (covers r edge) _ _
            (λ d. ground arith)
            (λ d.
              also-Found edge r rs (witness_subsumes edge.witness r.witness) _
                (scan-Found edge rs (suc n))))

  module _ (max_states : ℕ) where
    reserve_refused :
        (path : List ℤ) (witness : List WitnessEdge) (s : Contributions) (n : ℕ)
        → (reserve_work_unit c max_states path witness s n).0.0 ≡ false
        → is_some (reserve_work_unit c max_states path witness s n).0.1.budget_result ≡ true
    unfolding reserve_work_unit
    reserve_refused path witness s n =
        let worked = record s { work_units = s.work_units + 1 } in
        Bool-branches
          (λ (x : (Bool × Contributions) × ℕ). x.0.0 ≡ false → is_some x.0.1.budget_result ≡ true)
          (deadline_reached c n) _ _ (λ e h. set_budget_some timeout path witness s)
          (λ e.
            if_branches
              (λ (x : (Bool × Contributions) × ℕ).
                x.0.0 ≡ false → is_some x.0.1.budget_result ≡ true)
              (leb (s.work_units + 1) max_states) _ _ (λ l h. absurd (cc h))
              (λ l h. set_budget_some state_budget path witness worked))

    store_reserved-Decided :
        (edge : PathEdge) (a : List PathEdge) (r : (Bool × Contributions) × ℕ)
        → (r.0.0 ≡ false → is_some r.0.1.budget_result ≡ true)
        → Decided edge (store_reserved c max_states edge a r)
    unfolding store_reserved
    store_reserved-Decided edge a ((true, s), n) h = stored edge a s n c max_states
    store_reserved-Decided edge a ((false, s), n) h = unfold Decided in ((λ e. absurd (cc e)), h)

    extend-Decided :
        (edge : PathEdge) (a : List PathEdge) (s : Contributions) (n : ℕ)
        → Decided edge (extend c max_states edge a s n)
    unfolding extend
    extend-Decided edge a s n =
        if_branches (Decided edge) (leb antichain_limit (length a)) _ _
          (λ e. refused witness_budget edge s n)
          (λ e.
            store_reserved-Decided edge a
              (reserve_work_unit c max_states edge.path edge.witness s n)
              (reserve_refused edge.path edge.witness s n))

    replace-Decided :
        (edge : PathEdge) (s : Contributions) (r : (Bool × List PathEdge) × ℕ)
        → Decided edge (replace_subsumed c max_states edge s r)
    unfolding replace_subsumed
    replace-Decided edge s ((true, a), n) = extend-Decided edge a (put_antichain edge a s) n
    replace-Decided edge s ((false, a), n) = refused timeout edge (put_antichain edge a s) n

    after_scan-Decided :
        (edge : PathEdge) (s : Contributions) (r : Scan × ℕ)
        → Found edge (antichain_of edge.contribution s.antichains) r.0
        → Decided edge
            (after_scan c max_states edge (antichain_of edge.contribution s.antichains) s r)
    unfolding after_scan Found
    after_scan-Decided edge s (scan_expired, n) h = refused timeout edge s n
    after_scan-Decided edge s (scan_covered, n) h = unfold Decided in ((λ e. h), λ e. absurd (cc e))
    after_scan-Decided edge s (scan_subsumes rs, n) h =
        replace-Decided edge s (drop_all c rs (antichain_of edge.contribution s.antichains) n)

    -- Once `enqueue` has taken a path edge, its contribution retains a witness that subsumes the
    -- edge's. If it refuses one, the solver has the budget that is exceeded.
    pub enqueue_covers :
        (edge : PathEdge) (s : Contributions) (n : ℕ)
        → ((enqueue c max_states edge s n).0.0 ≡ true
            → any_subsumes
                (antichain_of edge.contribution (enqueue c max_states edge s n).0.1.antichains)
                edge
              ≡ true)
          × ((enqueue c max_states edge s n).0.0 ≡ false
              → is_some (enqueue c max_states edge s n).0.1.budget_result ≡ true)
    unfolding enqueue Decided
    enqueue_covers edge s n =
        Bool-branches (Decided edge) (deadline_reached c n) _ _
          (λ e. refused timeout edge s (suc n))
          (λ e.
            after_scan-Decided edge s
              (scan c edge (antichain_of edge.contribution s.antichains) (suc n))
              (scan-Found edge (antichain_of edge.contribution s.antichains) (suc n)))
