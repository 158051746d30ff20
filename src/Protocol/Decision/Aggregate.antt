-- ===== src/Protocol/Decision/Aggregate.antt =====
-- What the decision over the paths depends on.
use mathlib.Core.List.{Perm, Permᴰ}
use mathlib.Core.Logic.{∥∥₁_elim}
use goplint.Base.{
  ℕ, ◌+◌, Bool, false, List, [], ◌∷◌, ◌≡◌, refl, ap, ap₂, ◌∙◌, ltb, ◌==◌, if◌then◌else◌, ◌||◌,
  arith,
}
use goplint.Protocol.Decision.{
  PathStatus, path_satisfied, path_violation, path_unresolved, path_discharged_infeasible,
  no_evidence, evidence_violation, evidence_inconclusive, Decision, Tally, count_status, tally,
  decide_tally, aggregate_paths,
}

abbrev status_number : PathStatus → ℕ
status_number path_satisfied = 0
status_number path_violation = 1
status_number path_unresolved = 2
status_number path_discharged_infeasible = 3

abbrev status_eq : PathStatus → PathStatus → Bool
status_eq a b = status_number a == status_number b

-- How often a status stands in the list.
unfoldable pub occurrences : PathStatus → List PathStatus → ℕ
occurrences s [] = 0
occurrences s (x ∷ xs) = (if status_eq s x then 1 else 0) + occurrences s xs

count_status_comm :
    (t : Tally) (x y : PathStatus)
    → count_status (count_status t x) y ≡ count_status (count_status t y) x
unfolding count_status
count_status_comm t path_satisfied y = refl
count_status_comm t path_violation y = ground arith
count_status_comm t path_unresolved y = ground arith
count_status_comm t path_discharged_infeasible y = ground arith

tally_perm : {xs ys : List PathStatus} → Permᴰ xs ys → (t : Tally) → tally t xs ≡ tally t ys
unfolding tally
tally_perm Permᴰ.nil t = refl
tally_perm (Permᴰ.cons {l₁ = xs} {l₂ = ys} e p) t =
    ap (λ a. tally (count_status t a) xs) e ∙ tally_perm p _
tally_perm (Permᴰ.swap {a = a} {b = b} {l = l} e f) t =
    ap (λ x. tally x l)
      (count_status_comm t a b ∙ ap₂ (λ x y. count_status (count_status t x) y) f e)
tally_perm (Permᴰ.trans p q) t = tally_perm p t ∙ tally_perm q t

Decision-set : IsSet Decision
Decision-set = hlevel

-- The decision does not depend on the order in which the paths were explored.
pub aggregate_paths-perm :
    (xs ys : List PathStatus) → Perm xs ys → aggregate_paths xs ≡ aggregate_paths ys
unfolding aggregate_paths
aggregate_paths-perm xs ys p = ∥∥₁_elim p (Decision-set _ _) (λ d. ap decide_tally (tally_perm d _))

tally_counts :
    (t : Tally) (xs : List PathStatus)
    → ((tally t xs).has_violation ≡ (t.has_violation || ltb 0 (occurrences path_violation xs)))
      × ((tally t xs).has_unresolved ≡ (t.has_unresolved || ltb 0 (occurrences path_unresolved xs)))
      × ((tally t xs).discharged ≡ t.discharged + occurrences path_discharged_infeasible xs)
unfolding tally occurrences
tally_counts t [] = ground arith
tally_counts t (path_satisfied ∷ xs) = ground (arith, tally_counts t xs)
tally_counts t (x ∷ xs) = ground (arith, tally_counts (count_status t x) xs)

-- The decision is a violation as soon as one path is, inconclusive if no path is a violation and
-- one is unresolved, and without evidence otherwise. A diagnostic is emitted in the first two cases,
-- and the discharged paths are counted in all three.
pub aggregate_paths_lem :
    (xs : List PathStatus)
    → ((aggregate_paths xs).kind ≡ (
        if ltb 0 (occurrences path_violation xs)
        then evidence_violation
        else if ltb 0 (occurrences path_unresolved xs)
        then evidence_inconclusive
        else no_evidence))
      × ((aggregate_paths xs).emit_diagnostic
          ≡ (ltb 0 (occurrences path_violation xs) || ltb 0 (occurrences path_unresolved xs)))
      × ((aggregate_paths xs).discharged_witnesses ≡ occurrences path_discharged_infeasible xs)
unfolding aggregate_paths
aggregate_paths_lem xs = ground (
  arith,
  tally_counts (record { has_violation = false; has_unresolved = false; discharged = 0 }) xs,
)
