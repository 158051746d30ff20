-- ===== src/Tabulation/Antichain/Kept.antt =====
-- The invariant of the retained witnesses of goplint/cfa_ifds_tabulation.go.
use goplint.Base.{
  contains_head, contains_tail, if_branches, Bool-branches, ℕ, suc, ◌+◌, ◌≤◌, ℤ, String, str_eq,
  eq_iff, contains, Bool, true, false, leb, List, [], ◌∷◌, length, All, ◌≡◌, ◌⊎◌, refl, subst, sym,
  arith, inl, inr,
}
use goplint.Protocol.Reason.{PathOutcomeReason, timeout, witness_budget, state_budget}
use goplint.Feasibility.Control.{Control, deadline_reached}
use goplint.Witness.Graph.{WitnessEdge}
use goplint.Tabulation.Facts.{Contribution, contribution_eq}
use goplint.Tabulation.Antichain.{
  identity_of, store_reserved, PathEdge, Contributions, witness_subsumes, antichain_limit,
  antichain_of, put_antichain, set_budget_exceeded, drop_identity, Scan, scan_expired, scan_covered,
  scan_subsumes, also, covers, scan, drop_all, reserve_work_unit, extend, replace_subsumed,
  after_scan, enqueue,
}

-- Neither witness covers the other.
abbrev pub Incomparable : PathEdge → PathEdge → Type 0
Incomparable r t =
    (witness_subsumes r.witness t.witness ≡ false) × (witness_subsumes t.witness r.witness ≡ false)

abbrev pub IsAntichain : List PathEdge → Type 0
IsAntichain [] = Unit
IsAntichain (r ∷ rs) = All (Incomparable r) rs × IsAntichain rs

-- An antichain within the limit.
pub record IsKept (a : List PathEdge) : Type 0 where
  pub antichain : IsAntichain a
  pub bounded : length a ≤ antichain_limit

-- So is every antichain of the solver.
abbrev pub AreKept : Contributions → Type 0
AreKept s = All (λ (p : Contribution × List PathEdge). IsKept p.1) s.antichains

drop_identity-All :
    (P : PathEdge → Type 0) (identity : String) (a : List PathEdge)
    → All P a
    → All P (drop_identity identity a)
unfolding drop_identity
drop_identity-All P identity [] h = tt
drop_identity-All P identity (r ∷ rs) (h, hs) =
    let rest = drop_identity-All P identity rs hs in
    if_branches (All P) (str_eq (identity_of r) identity) _ _ (λ e. rest) (λ e. (h, rest))

drop_identity-IsAntichain :
    (identity : String) (a : List PathEdge) → IsAntichain a → IsAntichain (drop_identity identity a)
unfolding drop_identity
drop_identity-IsAntichain identity [] h = tt
drop_identity-IsAntichain identity (r ∷ rs) (h, hs) =
    let rest = drop_identity-IsAntichain identity rs hs in
    if_branches IsAntichain (str_eq (identity_of r) identity) _ _ (λ e. rest)
      (λ e. (drop_identity-All (Incomparable r) identity rs h, rest))

length-drop_identity :
    (identity : String) (a : List PathEdge) → length (drop_identity identity a) ≤ length a
unfolding drop_identity
length-drop_identity identity [] = omega arith
length-drop_identity identity (r ∷ rs) = ground (arith, length-drop_identity identity rs)

-- No edge of the identity is left.
drop_identity_gone :
    (identity : String) (a : List PathEdge)
    → All (λ t. str_eq (identity_of t) identity ≡ false) (drop_identity identity a)
unfolding drop_identity
drop_identity_gone identity [] = tt
drop_identity_gone identity (r ∷ rs) =
    let rest = drop_identity_gone identity rs in
    if_branches (All (λ (t : PathEdge). str_eq (identity_of t) identity ≡ false))
      (str_eq (identity_of r) identity) _ _ (λ e. rest) (λ e. (e, rest))

all_of : {P : PathEdge → Type 0} → ((t : PathEdge) → P t) → (a : List PathEdge) → All P a
all_of f [] = tt
all_of f (t ∷ ts) = (f t, all_of f ts)

weaken :
    (P Q : PathEdge → Type 0) (a : List PathEdge) → ((t : PathEdge) → P t → Q t) → All P a → All Q a
weaken P Q [] f h = tt
weaken P Q (t ∷ ts) f (h, hs) = (f t h, weaken P Q ts f hs)

both :
    (P Q R : PathEdge → Type 0) (a : List PathEdge)
    → ((t : PathEdge) → P t → Q t → R t)
    → All P a
    → All Q a
    → All R a
both P Q R [] f h k = tt
both P Q R (t ∷ ts) f (h, hs) (k, ks) = (f t h k, both P Q R ts f hs ks)

ids_of : List PathEdge → List String
ids_of [] = []
ids_of (r ∷ rs) = (identity_of r) ∷ ids_of rs

module _ (c : Control) where
  drop_all-All :
      (P : PathEdge → Type 0) (rs a : List PathEdge) (n : ℕ)
      → All P a
      → All P (drop_all c rs a n).0.1
  unfolding drop_all
  drop_all-All P [] a n h = h
  drop_all-All P (r ∷ rs) a n h =
      Bool-branches (λ (x : (Bool × List PathEdge) × ℕ). All P x.0.1) (deadline_reached c n) _ _
        (λ e. h)
        (λ e.
          drop_all-All P rs (drop_identity (identity_of r) a) (suc n)
            (drop_identity-All P (identity_of r) a h))

  drop_all-IsKept : (rs a : List PathEdge) (n : ℕ) → IsKept a → IsKept (drop_all c rs a n).0.1
  unfolding drop_all
  drop_all-IsKept [] a n h = h
  drop_all-IsKept (r ∷ rs) a n h =
      Bool-branches (λ (x : (Bool × List PathEdge) × ℕ). IsKept x.0.1) (deadline_reached c n) _ _
        (λ e. h)
        (λ e. drop_all-IsKept rs (drop_identity (identity_of r) a) (suc n) (record {
          antichain = drop_identity-IsAntichain (identity_of r) a h.antichain;
          bounded = omega (arith, length-drop_identity (identity_of r) a, h.bounded);
        }))

  other_id :
      (t r : PathEdge) (rs : List PathEdge)
      → str_eq (identity_of t) (identity_of r) ≡ false
      → contains (ids_of rs) (identity_of t) ≡ false
      → contains (ids_of (r ∷ rs)) (identity_of t) ≡ false
  unfolding contains ids_of
  other_id t r rs h k =
      ground (arith, eq_iff (identity_of t) (identity_of r), eq_iff (identity_of r) (identity_of t))

  -- Once the loop ends in time, none of the identities is left.
  drop_all_gone :
      (rs a : List PathEdge) (n : ℕ)
      → (drop_all c rs a n).0.0 ≡ true
      → All (λ t. contains (ids_of rs) (identity_of t) ≡ false) (drop_all c rs a n).0.1
  unfolding drop_all contains ids_of
  drop_all_gone [] a n = λ h. all_of (λ t. refl) a
  drop_all_gone (r ∷ rs) a n =
      Bool-branches
        (λ (x : (Bool × List PathEdge) × ℕ).
          x.0.0 ≡ true → All (λ t. contains (ids_of (r ∷ rs)) (identity_of t) ≡ false) x.0.1)
        (deadline_reached c n) _ _ (λ e h. absurd (cc h))
        (λ e h.
          both _ _ _ (drop_all c rs (drop_identity (identity_of r) a) (suc n)).0.1
            (λ t k l. other_id t r rs k l)
            (drop_all-All (λ t. str_eq (identity_of t) (identity_of r) ≡ false) rs
              (drop_identity (identity_of r) a) (suc n) (drop_identity_gone (identity_of r) a))
            (drop_all_gone rs (drop_identity (identity_of r) a) (suc n) h))

  later :
      (edge r t : PathEdge) (rs : List PathEdge)
      → (witness_subsumes edge.witness t.witness ≡ false)
        ⊎ (contains (ids_of rs) (identity_of t) ≡ true)
      → (witness_subsumes edge.witness t.witness ≡ false)
        ⊎ (contains (ids_of (r ∷ rs)) (identity_of t) ≡ true)
  unfolding ids_of
  later edge r t rs (inl h) = inl h
  later edge r t rs (inr h) = inr (contains_tail (identity_of r) (identity_of t) (ids_of rs) h)

  -- What a scan that ends in time tells.
  Scanned : PathEdge → List PathEdge → Scan → Type 0
  Scanned edge a scan_expired = Unit
  Scanned edge a scan_covered = Unit
  Scanned edge a (scan_subsumes rs) =
      All
        (λ t.
          (covers t edge ≡ false)
          × ((witness_subsumes edge.witness t.witness ≡ false)
              ⊎ (contains (ids_of rs) (identity_of t) ≡ true)))
        a

  also_next :
      (edge r : PathEdge) (a rs : List PathEdge) (b : Bool)
      → witness_subsumes edge.witness r.witness ≡ b
      → covers r edge ≡ false
      → Scanned edge a (scan_subsumes rs)
      → Scanned edge (r ∷ a) (also b r (scan_subsumes rs))
  unfolding Scanned ids_of
  also_next edge r a rs false e h k = ((h, inl e), k)
  also_next edge r a rs true e h k = (
    (h, inr (contains_head (identity_of r) (ids_of rs))),
    weaken _ _ a (λ t l. (l.0, later edge r t rs l.1)) k,
  )

  also-Scanned :
      (edge r : PathEdge) (a : List PathEdge) (s : Scan)
      → covers r edge ≡ false
      → Scanned edge a s
      → Scanned edge (r ∷ a) (also (witness_subsumes edge.witness r.witness) r s)
  unfolding Scanned
  also-Scanned edge r a scan_expired h k = tt
  also-Scanned edge r a scan_covered h k = tt
  also-Scanned edge r a (scan_subsumes rs) h k =
      also_next edge r a rs (witness_subsumes edge.witness r.witness) refl h k

  scan-Scanned : (edge : PathEdge) (a : List PathEdge) (n : ℕ) → Scanned edge a (scan c edge a n).0
  unfolding scan Scanned
  scan-Scanned edge [] n = tt
  scan-Scanned edge (r ∷ rs) n =
      Bool-branches (λ (x : Scan × ℕ). Scanned edge (r ∷ rs) x.0) (deadline_reached c n) _ _
        (λ e. tt)
        (λ e.
          Bool-branches (λ (x : Scan × ℕ). Scanned edge (r ∷ rs) x.0) (covers r edge) _ _ (λ d. tt)
            (λ d. also-Scanned edge r rs _ d (scan-Scanned edge rs (suc n))))

  -- What a candidate needs to join an antichain.
  Fresh : PathEdge → PathEdge → Type 0
  Fresh edge t = (covers t edge ≡ false) × (witness_subsumes edge.witness t.witness ≡ false)

  fresh :
      (edge t : PathEdge) (rs : List PathEdge)
      → (covers t edge ≡ false)
        × ((witness_subsumes edge.witness t.witness ≡ false)
            ⊎ (contains (ids_of rs) (identity_of t) ≡ true))
      → contains (ids_of rs) (identity_of t) ≡ false
      → Fresh edge t
  unfolding Fresh
  fresh edge t rs (h, inl k) l = (h, k)
  fresh edge t rs (h, inr k) l = absurd (cc (k, l))

  Fresh-Incomparable : (edge t : PathEdge) → Fresh edge t → Incomparable edge t
  unfolding Fresh covers
  Fresh-Incomparable edge t (h, k) = (k, ground arith)

  dropped-Fresh :
      (edge : PathEdge) (a rs : List PathEdge) (n : ℕ)
      → Scanned edge a (scan_subsumes rs)
      → (drop_all c rs a n).0.0 ≡ true
      → All (Fresh edge) (drop_all c rs a n).0.1
  unfolding Scanned
  dropped-Fresh edge a rs n h k =
      both _ _ (Fresh edge) _ (λ t l m. fresh edge t rs l m) (drop_all-All _ rs a n h)
        (drop_all_gone rs a n k)

  -- The antichain with the candidate in it.
  store-IsKept :
      (edge : PathEdge) (a : List PathEdge)
      → IsKept a
      → All (Fresh edge) a
      → suc (length a) ≤ antichain_limit
      → IsKept (edge ∷ drop_identity (identity_of edge) a)
  store-IsKept edge a h fr room = record {
    antichain = (
      weaken (Fresh edge) (Incomparable edge) _ (Fresh-Incomparable edge)
          (drop_identity-All (Fresh edge) (identity_of edge) a fr),
      drop_identity-IsAntichain (identity_of edge) a h.antichain,
    );
    bounded = omega (arith, length-drop_identity (identity_of edge) a, room);
  }

  set_budget_keeps :
      (why : PathOutcomeReason) (path : List ℤ) (witness : List WitnessEdge) (s : Contributions)
      → (set_budget_exceeded why path witness s).antichains ≡ s.antichains
  unfolding set_budget_exceeded
  set_budget_keeps why path witness s = ground arith

  set_budget-AreKept :
      (why : PathOutcomeReason) (path : List ℤ) (witness : List WitnessEdge) (s : Contributions)
      → AreKept s
      → AreKept (set_budget_exceeded why path witness s)
  set_budget-AreKept why path witness s h =
      subst (All (λ (p : Contribution × List PathEdge). IsKept p.1))
        (sym (set_budget_keeps why path witness s)) h

  module _ (max_states : ℕ) where
    reserve_work_unit-AreKept :
        (path : List ℤ) (witness : List WitnessEdge) (s : Contributions) (n : ℕ)
        → AreKept s
        → AreKept (reserve_work_unit c max_states path witness s n).0.1
    unfolding reserve_work_unit
    reserve_work_unit-AreKept path witness s n h =
        let worked = record s { work_units = s.work_units + 1 } in
        Bool-branches (λ (x : (Bool × Contributions) × ℕ). AreKept x.0.1) (deadline_reached c n) _ _
          (λ e. set_budget-AreKept timeout path witness s h)
          (λ e.
            if_branches (λ (x : (Bool × Contributions) × ℕ). AreKept x.0.1)
              (leb (s.work_units + 1) max_states) _ _ (λ d. h)
              (λ d. set_budget-AreKept state_budget path witness worked h))

    store_reserved-AreKept :
        (edge : PathEdge) (a : List PathEdge) (r : (Bool × Contributions) × ℕ)
        → AreKept r.0.1
        → IsKept (edge ∷ drop_identity (identity_of edge) a)
        → AreKept (store_reserved c max_states edge a r).0.1
    unfolding store_reserved
    store_reserved-AreKept edge a ((true, s), n) h k = (k, h)
    store_reserved-AreKept edge a ((false, s), n) h k = h

    extend-AreKept :
        (edge : PathEdge) (a : List PathEdge) (s : Contributions) (n : ℕ)
        → AreKept s
        → IsKept a
        → All (Fresh edge) a
        → AreKept (extend c max_states edge a s n).0.1
    unfolding extend
    extend-AreKept edge a s n h k fr =
        if_branches (λ (x : (Bool × Contributions) × ℕ). AreKept x.0.1)
          (leb antichain_limit (length a)) _ _
          (λ e. set_budget-AreKept witness_budget edge.path edge.witness s h)
          (λ e.
            store_reserved-AreKept edge a
              (reserve_work_unit c max_states edge.path edge.witness s n)
              (reserve_work_unit-AreKept edge.path edge.witness s n h)
              (store-IsKept edge a k fr (ground arith)))

    replace-AreKept :
        (edge : PathEdge) (s : Contributions) (r : (Bool × List PathEdge) × ℕ)
        → AreKept s
        → IsKept r.0.1
        → (r.0.0 ≡ true → All (Fresh edge) r.0.1)
        → AreKept (replace_subsumed c max_states edge s r).0.1
    unfolding replace_subsumed
    replace-AreKept edge s ((true, a), n) h k f =
        extend-AreKept edge a (put_antichain edge a s) n (k, h) k (f refl)
    replace-AreKept edge s ((false, a), n) h k f =
        set_budget-AreKept timeout edge.path edge.witness (put_antichain edge a s) (k, h)

    after_scan-AreKept :
        (edge : PathEdge) (a : List PathEdge) (s : Contributions) (r : Scan × ℕ)
        → AreKept s
        → IsKept a
        → Scanned edge a r.0
        → AreKept (after_scan c max_states edge a s r).0.1
    unfolding after_scan Scanned
    after_scan-AreKept edge a s (scan_expired, n) h k l =
        set_budget-AreKept timeout edge.path edge.witness s h
    after_scan-AreKept edge a s (scan_covered, n) h k l = h
    after_scan-AreKept edge a s (scan_subsumes rs, n) h k l =
        replace-AreKept edge s (drop_all c rs a n) h (drop_all-IsKept rs a n k)
          (dropped-Fresh edge a rs n l)

    antichain_of-IsKept :
        (key : Contribution) (antichains : List (Contribution × List PathEdge))
        → All (λ (p : Contribution × List PathEdge). IsKept p.1) antichains
        → IsKept (antichain_of key antichains)
    unfolding antichain_of
    antichain_of-IsKept key [] h = record { antichain = tt; bounded = omega arith }
    antichain_of-IsKept key ((k, a) ∷ rest) (h, hs) =
        if_branches IsKept (contribution_eq k key) _ _ (λ e. h)
          (λ e. antichain_of-IsKept key rest hs)

    -- However the control and the budgets cut it short, `enqueue` leaves for every contribution at
    -- most `antichain_limit` witnesses, none of which subsumes another.
    pub enqueue-AreKept :
        (edge : PathEdge) (s : Contributions) (n : ℕ)
        → AreKept s
        → AreKept (enqueue c max_states edge s n).0.1
    unfolding enqueue
    enqueue-AreKept edge s n h =
        Bool-branches (λ (x : (Bool × Contributions) × ℕ). AreKept x.0.1) (deadline_reached c n) _ _
          (λ e. set_budget-AreKept timeout edge.path edge.witness s h)
          (λ e.
            let a = antichain_of edge.contribution s.antichains in
            after_scan-AreKept edge a s (scan c edge a (suc n)) h
              (antichain_of-IsKept edge.contribution s.antichains h) (scan-Scanned edge a (suc n)))
