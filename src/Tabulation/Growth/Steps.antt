-- ===== src/Tabulation/Growth/Steps.antt =====
-- The elementary steps of goplint/cfa_ifds_tabulation.go, and the summaries that they apply.
use goplint.Base.{
  ℕ, ℤ, suc, true, false, Bool-branches, if_branches, none, List, ◌≡◌, ◌⊎◌, inl, inr, refl, sym, ap,
  ◌∙◌, arith,
}
use goplint.Protocol.Reason.{PathOutcomeReason, timeout}
use goplint.Feasibility.Control.{Control, deadline_reached}
use goplint.Witness.Graph.{WitnessEdge}
use goplint.Tabulation.Facts.{Contribution, DependencyFact, SummaryFact}
use goplint.Tabulation.Antichain.{PathEdge, Contributions}
use goplint.Tabulation.Antichain.Covers.{is_some, set_budget_some, enqueue_covers}
use goplint.Tabulation.Problem.{Problem, state_limit}
use goplint.Tabulation.State.{
  Dependency, Summary, Solver, Step, ◌>>◌, lifted, exceed, count_reuse, returned_contribution,
  returned_edge, exits_agree, checkpoint_at, reserve_at, enqueue_edge,
}
use goplint.Tabulation.Calls.{apply_agreeing, apply_summary}
use goplint.Tabulation.Growth.{Retained, IsClean, Spreads, IsCharged, Grows, Queues, Does}
use goplint.Tabulation.Growth.Rules.{
  none_of_some, broken, Spreads-refl, Grows-refl, Queues-trans, Persists, does_then, does_less,
}
use goplint.Tabulation.Growth.Enqueue.{
  Changed, Refused, Reserved, Outcome, reserve_outcome, enqueue_outcome, outcome-Spreads,
  outcome-IsCharged, refused-IsCharged, exceeded-Refused, Reserved-Spreads, reserved-IsCharged,
}

exceed-some :
    (why : PathOutcomeReason) (path : List ℤ) (witness : List WitnessEdge) (s : Solver)
    → is_some (exceed why path witness s).contributions.budget_result ≡ true
unfolding exceed
exceed-some why path witness s = set_budget_some why path witness s.contributions

module _ {limit : ℕ} where
  pub Queues-refl : (s : Solver) → Queues limit s s
  Queues-refl s = record { grows = Grows-refl s; same_dependencies = refl; same_summaries = refl }

  pub Queues-IsClean : (s t : Solver) → Queues limit s t → IsClean t → IsClean s
  Queues-IsClean s t q = q.grows.clean

  -- Nothing but the contributions changes, in a way that keeps the charge.
  lifted-Grows :
      (s : Solver) (l : Contributions)
      → (l.budget_result ≡ none
          → Spreads s.contributions l × (s.contributions.budget_result ≡ none))
      → ((i : ℕ) → IsCharged limit i s.contributions → IsCharged limit i l)
      → Grows limit s (record s { contributions = l })
  lifted-Grows s l f g = record {
    clean = λ h. record {
      in_budget = (f h.in_budget).1;
      not_unsafe = h.not_unsafe;
      not_inconclusive = h.not_inconclusive;
    };
    spreads = λ h. (f h.in_budget).0;
    more_dependencies = λ d h. h;
    more_summaries = λ x h. h;
    labelled = λ h. record { unsafe = h.unsafe; uncertain = h.uncertain };
    charged = g;
  }

  pub exceed-Queues :
      (why : PathOutcomeReason) (path : List ℤ) (witness : List WitnessEdge) (s : Solver)
      → Queues limit s (exceed why path witness s)
  unfolding exceed
  exceed-Queues why path witness s = record {
    grows =
        lifted-Grows s _
          (λ h. absurd (none_of_some _ (set_budget_some why path witness s.contributions) h))
          (refused-IsCharged limit s.contributions _ (
            exceeded-Refused why path witness s.contributions s.contributions 0 refl
              (omega arith)));
    same_dependencies = refl;
    same_summaries = refl;
  }

  pub exceed_does :
      (Q : Solver → Type 0) (why : PathOutcomeReason) (path : List ℤ) (witness : List WitnessEdge)
      (s : Solver) (n : ℕ)
      → Does (Queues limit) Q s ((false, exceed why path witness s), n)
  exceed_does Q why path witness s n = record {
    grown = exceed-Queues why path witness s;
    stops = λ h. exceed-some why path witness s;
    gives = λ h. absurd (broken _ (exceed-some why path witness s) h);
  }

  pub done_does :
      (s : Solver) (n : ℕ) (Q : Solver → Type 0)
      → (IsClean s → Q s)
      → Does (Queues limit) Q s ((true, s), n)
  done_does s n Q q = record { grown = Queues-refl s; stops = λ h. absurd (cc h); gives = q }

  pub Retained-persists :
      (x : Contribution) → Persists (Queues limit) (λ t. Retained t.contributions x)
  Retained-persists x s t q h r = (q.grows.spreads h).kept x r

abbrev pub Nothing : Solver → Type 0
Nothing s = Unit

module _ {Ast : Type 0} (p : Problem Ast) (c : Control) where
  abbrev pub Level : Solver → Solver → Type 0
  Level = Queues (state_limit p.max_states)

  pub checkpoint_does :
      (path : List ℤ) (witness : List WitnessEdge) (s : Solver) (n : ℕ)
      → Does Level Nothing s (checkpoint_at p c path witness s n)
  unfolding checkpoint_at
  checkpoint_does path witness s n =
      Bool-branches (Does Level Nothing s) (deadline_reached c n) _ _
        (λ e. exceed_does Nothing timeout path witness s (suc n))
        (λ e. done_does s (suc n) Nothing (λ h. tt))

  -- A step behind a checkpoint.
  pub checked :
      (path : List ℤ) (witness : List WitnessEdge) (Q : Solver → Type 0) (k : Step) (s : Solver)
      (n : ℕ)
      → ((t : Solver) (m : ℕ) → Does Level Q t (k t m))
      → Does Level Q s ((checkpoint_at p c path witness >> k) s n)
  checked path witness Q k s n d =
      does_less Level (λ t. Nothing t × Q t) Q s _ (λ t h. h.1)
        (does_then Level Queues-IsClean Queues-trans Nothing Q k s
          (checkpoint_at p c path witness s n) (λ a b r h q. tt) (checkpoint_does path witness s n)
          d)

  lifted-does :
      (s : Solver) (x : Changed)
      → Refused s.contributions x ⊎ Reserved (state_limit p.max_states) s.contributions x
      → Does Level Nothing s (lifted s x)
  lifted-does s ((b, l), n) (inl r) = record {
    grown = record {
      grows =
          lifted-Grows s l (λ h. absurd (none_of_some _ r.exceeded h)) (refused-IsCharged _ _ _ r);
      same_dependencies = refl;
      same_summaries = refl;
    };
    stops = λ h. r.exceeded;
    gives = λ h. tt;
  }
  lifted-does s ((b, l), n) (inr r) = record {
    grown = record {
      grows =
          lifted-Grows s l
            (λ h. (
              Reserved-Spreads _ _ _ r,
              ap (λ (m : Contributions). m.budget_result) (sym r.same) ∙ h,
            ))
            (reserved-IsCharged _ _ _ r);
      same_dependencies = refl;
      same_summaries = refl;
    };
    stops = λ h. absurd (cc (h, r.goes_on));
    gives = λ h. tt;
  }

  pub reserve_does :
      (path : List ℤ) (witness : List WitnessEdge) (s : Solver) (n : ℕ)
      → Does Level Nothing s (reserve_at p c path witness s n)
  unfolding reserve_at
  reserve_does path witness s n =
      lifted-does s _ (reserve_outcome c (state_limit p.max_states) path witness s.contributions n)

  enqueued_does :
      (edge : PathEdge) (s : Solver) (x : Changed)
      → Outcome (state_limit p.max_states) edge s.contributions x
      → (x.0.0 ≡ false → is_some x.0.1.budget_result ≡ true)
      → Does Level (λ t. Retained t.contributions edge.contribution) s (lifted s x)
  enqueued_does edge s ((b, l), n) o f =
      let spread = outcome-Spreads (state_limit p.max_states) edge s.contributions ((b, l), n) o in
      record {
        grown = record {
          grows =
              lifted-Grows s l (λ h. ((spread h).0, (spread h).2))
                (outcome-IsCharged (state_limit p.max_states) edge s.contributions ((b, l), n) o);
          same_dependencies = refl;
          same_summaries = refl;
        };
        stops = f;
        gives = λ h. (spread h.in_budget).1;
      }

  pub enqueue_does :
      (edge : PathEdge) (s : Solver) (n : ℕ)
      → Does Level (λ t. Retained t.contributions edge.contribution) s (enqueue_edge p c edge s n)
  unfolding enqueue_edge
  enqueue_does edge s n =
      enqueued_does edge s _ (enqueue_outcome c (state_limit p.max_states) edge s.contributions n)
        (enqueue_covers c (state_limit p.max_states) edge s.contributions n).1

  count_does : (s : Solver) (n : ℕ) → Does Level Nothing s (count_reuse s n)
  unfolding count_reuse
  count_does s n = record {
    grown = record {
      grows = record {
        clean = λ h. record {
          in_budget = h.in_budget;
          not_unsafe = h.not_unsafe;
          not_inconclusive = h.not_inconclusive;
        };
        spreads = λ h. Spreads-refl s.contributions;
        more_dependencies = λ d h. h;
        more_summaries = λ x h. h;
        labelled = λ h. record { unsafe = h.unsafe; uncertain = h.uncertain };
        charged = λ i h. h;
      };
      same_dependencies = refl;
      same_summaries = refl;
    };
    stops = λ h. absurd (cc h);
    gives = λ h. tt;
  }

  -- A summary that a dependency has been applied to.
  abbrev pub Applied : DependencyFact → SummaryFact → Solver → Type 0
  Applied d x t = exits_agree d x ≡ true → Retained t.contributions (returned_contribution d x)

  pub Applied-persists : (d : DependencyFact) (x : SummaryFact) → Persists Level (Applied d x)
  Applied-persists d x s t q h f e = Retained-persists (returned_contribution d x) s t q h (f e)

  apply_agreeing_does :
      (d : Dependency) (x : Summary) (s : Solver) (n : ℕ)
      → Does Level (Applied d.fact x.fact) s (apply_agreeing p c d x s n)
  unfolding apply_agreeing returned_edge
  apply_agreeing_does d x s n =
      let back = returned_contribution d.fact x.fact in
      if_branches (Does Level (Applied d.fact x.fact) s) (exits_agree d.fact x.fact) _ _
        (λ e.
          does_less Level (λ t. Retained t.contributions back × Nothing t) (Applied d.fact x.fact) s
            _ (λ t h a. h.0)
            (does_then Level Queues-IsClean Queues-trans (λ t. Retained t.contributions back)
              Nothing count_reuse s _ (Retained-persists back)
              (enqueue_does (returned_edge d x) s n) count_does))
        (λ e. done_does s n (Applied d.fact x.fact) (λ h a. absurd (cc (e, a))))

  pub apply_summary_does :
      (d : Dependency) (x : Summary) (s : Solver) (n : ℕ)
      → Does Level (Applied d.fact x.fact) s (apply_summary p c d x s n)
  unfolding apply_summary
  apply_summary_does d x s n =
      checked d.caller_path d.caller_witness (Applied d.fact x.fact) (apply_agreeing p c d x) s n
        (apply_agreeing_does d x)
