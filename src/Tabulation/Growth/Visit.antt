-- ===== src/Tabulation/Growth/Visit.antt =====
-- What a round of the loop in goplint/cfa_ifds_tabulation.go leaves behind.
use goplint.Base.{
  ℕ, String, true, false, if_branches, Option, none, some, List, [], ◌≡◌, ◌≢◌, refl, sym, ap, subst,
  ◌∙◌, if◌then◌else◌,
}
use goplint.Protocol.State.{path_outcome_reason}
use goplint.Protocol.Reason.{PathOutcomeReason, no_reason}
use goplint.Refinement.{OutcomeClass, class_unsafe, class_inconclusive}
use goplint.Feasibility.Control.{Control}
use goplint.Witness.Graph.{InterprocEdge}
use goplint.Tabulation.Antichain.{PathEdge}
use goplint.Tabulation.Edges.{return_edges_from}
use goplint.Tabulation.Edges.Selected.{returning, return_edges_from-eq_some}
use goplint.Tabulation.Result.{TabulationResult, prefer_result, result_from_outcome}
use goplint.Tabulation.Problem.{
  Problem, state_limit, unsupported, surely_unsafe, relevant_uncertainty, terminal_is_unsafe,
  witness_is_discharged,
}
use goplint.Tabulation.State.{Solver, Stepped, has_dependency, has_summary}
use goplint.Tabulation.Targets.{state_after_node}
use goplint.Tabulation.Visit.{
  is_discharged, add_inconclusive, report_unsafe, report_unsupported, report_uncertain, judge,
  observe, visit, result_at,
}
use goplint.Tabulation.Growth.{IsCharged, IsLabelled, IsClean, Does}
use goplint.Tabulation.Growth.Rules.{Spreads-refl, Extends-trans, does_less, does_after}
use goplint.Tabulation.Growth.Steps.{done_does}
use goplint.Tabulation.Growth.Calls.{Extends-IsClean, Wide, Wide_refl, widen}
use goplint.Tabulation.Growth.Done.{Advanced, Done}
use goplint.Tabulation.Growth.Follow.{after_edges_does, advance_does}

prefer-ne-none : (o : Option TabulationResult) (r : TabulationResult) → prefer_result o r ≢ none
unfolding prefer_result
prefer-ne-none none r = λ h. cc h
prefer-ne-none (some q) r =
    if_branches (λ o. o ≢ none) _ (some r) (some q) (λ e h. cc h) (λ e h. cc h)

class_of : TabulationResult → OutcomeClass
class_of r = r.class

some_eq : {a b : TabulationResult} → some a ≡ some b → a ≡ b
some_eq e = cc

-- The better of two results of one class.
prefer-class :
    (class : OutcomeClass) (o : Option TabulationResult) (candidate : TabulationResult)
    → ((r : TabulationResult) → o ≡ some r → r.class ≡ class)
    → candidate.class ≡ class
    → (r : TabulationResult) → prefer_result o candidate ≡ some r
    → r.class ≡ class
unfolding prefer_result class_of
prefer-class class none candidate h k r = λ e. sym (ap class_of (some_eq e)) ∙ k
prefer-class class (some q) candidate h k r =
    if_branches (λ o. o ≡ some r → r.class ≡ class) _ (some candidate) (some q)
      (λ t e. sym (ap class_of (some_eq e)) ∙ k) (λ t e. h r e)

module _ {Ast : Type 0} (p : Problem Ast) (c : Control) where
  -- A result that ends the search for a safe one.
  reported :
      (s t : Solver)
      → t.contributions ≡ s.contributions
      → t.dependencies ≡ s.dependencies
      → t.summaries ≡ s.summaries
      → (IsLabelled s → IsLabelled t)
      → ¬ IsClean t
      → Wide p c s t
  reported s t ec ed es label dirty = record {
    grows = record {
      clean = λ h. absurd (dirty h);
      spreads = λ h. absurd (dirty h);
      more_dependencies = λ d h. subst (λ ds. has_dependency d ds ≡ true) (sym ed) h;
      more_summaries = λ x h. subst (λ xs. has_summary x xs ≡ true) (sym es) h;
      labelled = label;
      charged = λ k h. subst (IsCharged (state_limit p.max_states) k) (sym ec) h;
    };
    closes = λ h. absurd (dirty h);
  }

  reports_does :
      (Q : Solver → Type 0) (s t : Solver) (n : ℕ)
      → Wide p c s t
      → ¬ IsClean t
      → Does (Wide p c) Q s ((true, t), n)
  reports_does Q s t n w dirty = record {
    grown = w;
    stops = λ h. absurd (cc h);
    gives = λ h. absurd (dirty h);
  }

  -- No witness is discharged.
  abbrev pub Fresh : Type 0
  Fresh = p.discharged_witnesses ≡ []

  not_discharged :
      (snapshot : PathEdge) (trigger : String) → Fresh → is_discharged p c snapshot trigger ≡ false
  unfolding is_discharged witness_is_discharged
  not_discharged snapshot trigger h = rw h refl

  -- If its witness is discharged, nothing is left behind.
  unless_discharged :
      (Q : Solver → Type 0) (snapshot : PathEdge) (trigger : String) (s : Solver) (n : ℕ)
      (x : Stepped)
      → Does (Wide p c) (λ t. Fresh → Q t) s x
      → Does
          (Wide p c)
          (λ t. Fresh → Q t)
          s
          (if is_discharged p c snapshot trigger then ((true, s), n) else x)
  unless_discharged Q snapshot trigger s n x d =
      if_branches (Does (Wide p c) (λ t. Fresh → Q t) s) (is_discharged p c snapshot trigger) _ _
        (λ e. widen p c _ s _ (
          done_does s n (λ t. Fresh → Q t)
            (λ h f. absurd (cc (e, not_discharged snapshot trigger f)))))
        (λ e. d)

  report_unsafe_does :
      (Q : Solver → Type 0) (snapshot : PathEdge) (s : Solver) (n : ℕ)
      → Does (Wide p c) (λ t. Fresh → Q t) s (report_unsafe p c snapshot s n)
  unfolding report_unsafe result_at result_from_outcome
  report_unsafe_does Q snapshot s n =
      let t = record s {
        unsafe_result =
            prefer_result s.unsafe_result (result_at p c class_unsafe no_reason snapshot);
      } in
      let dirty = λ (h : IsClean t). prefer-ne-none s.unsafe_result _ h.not_unsafe in
      unless_discharged Q snapshot "unsafe-candidate" s n ((true, t), n)
        (reports_does _ s t n
          (reported s t refl refl refl
            (λ h. record {
              unsafe = prefer-class class_unsafe s.unsafe_result _ h.unsafe refl;
              uncertain = h.uncertain;
            })
            dirty)
          dirty)

  inconclusive_dirty :
      (why : PathOutcomeReason) (snapshot : PathEdge) (s : Solver)
      → ¬ IsClean (add_inconclusive p c why snapshot s)
  unfolding add_inconclusive
  inconclusive_dirty why snapshot s h = prefer-ne-none s.inconclusive_result _ h.not_inconclusive

  inconclusive_reported :
      (why : PathOutcomeReason) (snapshot : PathEdge) (s : Solver)
      → Wide p c s (add_inconclusive p c why snapshot s)
  unfolding add_inconclusive result_at result_from_outcome
  inconclusive_reported why snapshot s =
      reported s _ refl refl refl
        (λ h. record {
          unsafe = h.unsafe;
          uncertain = prefer-class class_inconclusive s.inconclusive_result _ h.uncertain refl;
        })
        (λ h. prefer-ne-none s.inconclusive_result _ h.not_inconclusive)

  report_unsupported_does :
      (Q : Solver → Type 0) (snapshot : PathEdge) (s : Solver) (n : ℕ)
      → Does (Wide p c) (λ t. Fresh → Q t) s (report_unsupported p c snapshot s n)
  unfolding report_unsupported
  report_unsupported_does Q snapshot s n =
      unless_discharged Q snapshot _ s n _ (
        reports_does _ s _ n (inconclusive_reported _ snapshot s) (inconclusive_dirty _ snapshot s))

  report_uncertain_does :
      (Q : Solver → Type 0) (snapshot : PathEdge) (rs : List InterprocEdge) (s : Solver) (n : ℕ)
      → Does (Wide p c) (λ t. Fresh → Q t) s (report_uncertain p c snapshot rs s n)
  unfolding report_uncertain
  report_uncertain_does Q snapshot rs s n =
      let why = path_outcome_reason (state_after_node p snapshot.contribution) in
      let t = add_inconclusive p c why snapshot s in
      let d = advance_does p c snapshot rs t n in
      unless_discharged Q snapshot _ s n _ (record {
        grown = Extends-trans s t _ (inconclusive_reported why snapshot s) d.grown;
        stops = d.stops;
        gives = λ h. absurd (inconclusive_dirty why snapshot s (d.grown.grows.clean h));
      })

  judge_does :
      (snapshot : PathEdge) (rs : List InterprocEdge) (s : Solver) (n : ℕ)
      → unsupported p snapshot.contribution.node snapshot.contribution.state ≡ false
      → rs ≡ returning p.graph snapshot.contribution.node
      → Does (Wide p c) (λ t. Fresh → Done p snapshot.contribution t) s (judge p c snapshot rs s n)
  unfolding judge
  judge_does snapshot rs s n supported is =
      let x = snapshot.contribution in
      let after = state_after_node p x in
      let P = Does (Wide p c) (λ t. Fresh → Done p x t) s in
      if_branches P (surely_unsafe p x.node after) _ _
        (λ e. report_unsafe_does (Done p x) snapshot s n)
        (λ e.
          if_branches P (relevant_uncertainty p x.node after rs) _ _
            (λ r. report_uncertain_does (Done p x) snapshot rs s n)
            (λ r.
              if_branches P (terminal_is_unsafe p x.node after) _ _
                (λ u. report_unsafe_does (Done p x) snapshot s n)
                (λ u.
                  does_less (Wide p c) (Advanced p x rs) (λ t. Fresh → Done p x t) s _
                    (λ t h f. record {
                      quiet = record {
                        supported = supported;
                        safe = u;
                        certain = subst (λ es. relevant_uncertainty p x.node after es ≡ false) is r;
                      };
                      advanced = subst (λ es. Advanced p x es t) is h;
                    })
                    (advance_does p c snapshot rs s n))))

  observe-Wide : (snapshot : PathEdge) (s : Solver) → Wide p c s (observe p c snapshot s)
  unfolding observe
  observe-Wide snapshot s =
      if_branches (Wide p c s) _ _ _
        (λ e. record {
          grows = record {
            clean = λ h. record {
              in_budget = h.in_budget;
              not_unsafe = h.not_unsafe;
              not_inconclusive = h.not_inconclusive;
            };
            spreads = λ h. Spreads-refl s.contributions;
            more_dependencies = λ d h. h;
            more_summaries = λ y h. h;
            labelled = λ h. record { unsafe = h.unsafe; uncertain = h.uncertain };
            charged = λ k h. h;
          };
          closes = λ h closed. record { applied = closed.applied };
        })
        (λ e. Wide_refl p c s)

  -- A round with a path edge leaves its contribution done, unless there is a result.
  pub visit_does :
      (snapshot : PathEdge) (s : Solver) (n : ℕ)
      → Does (Wide p c) (λ t. Fresh → Done p snapshot.contribution t) s (visit p c snapshot s n)
  unfolding visit
  visit_does snapshot s n =
      let x = snapshot.contribution in
      let P = Does (Wide p c) (λ t. Fresh → Done p x t) s in
      let found = return_edges_from c p.graph x.node n in
      let t = observe p c snapshot s in
      if_branches P (unsupported p x.node x.state) _ _
        (λ e. report_unsupported_does (Done p x) snapshot s n)
        (λ e.
          does_after (Wide p c) Extends-IsClean Extends-trans (λ u. Fresh → Done p x u) s t _
            (observe-Wide snapshot s)
            (after_edges_does p c (λ u. Fresh → Done p x u) snapshot.path snapshot.witness
              (judge p c snapshot) t found
              (λ rs h.
                judge_does snapshot rs t found.1 e
                  (return_edges_from-eq_some c p.graph x.node n rs h))))
