-- ===== src/Tabulation/Growth/Calls.antt =====
-- What `registerDependency` and `publishSummary` of goplint/cfa_ifds_tabulation.go leave behind: every
-- summary is applied to every dependency that it answers.
use goplint.Base.{
  ℤ, ℕ, true, if_branches, List, insert_by, All, ◌≡◌, inl, inr, sym, ap, subst, ◌∙◌, arith,
}
use goplint.Feasibility.Control.{Control}
use goplint.Tabulation.Facts.{DependencyFact, SummaryFact}
use goplint.Tabulation.Facts.Same.{
  dependency_eq_refl, summary_eq_refl, dependency_eq-≡, summary_eq-≡,
}
use goplint.Tabulation.Problem.{Problem, state_limit}
use goplint.Witness.Graph.{WitnessEdge}
use goplint.Tabulation.State.{
  resume, Dependency, Summary, Solver, Stepped, Step, ◌>>◌, has_dependency, has_summary,
  dependencies_of, summaries_of, add_dependency, add_summary, dependency_order, summary_order,
  checkpoint_at,
}
use goplint.Tabulation.Calls.{
  apply_summary, apply_known_summaries, register_new, register_dependency,
  apply_to_known_dependencies, publish_new, publish_summary,
}
use goplint.Tabulation.Growth.{IsClean, Grows, Extends, Does}
use goplint.Tabulation.Growth.Rules.{
  Spreads-refl, Grows-trans, Queues-trans, Queues-Extends, Extends-trans, Persists, does_then,
  does_each, does_less,
}
use goplint.Tabulation.Growth.Steps.{
  Queues-refl, Queues-IsClean, Nothing, Level, checkpoint_does, checked, reserve_does, done_does,
  Applied, Applied-persists, apply_summary_does,
}
use goplint.Tabulation.Growth.Known.{
  known_dependencies, known_summaries, or_cases, inserted_dependency, inserted_summary,
}

pub Extends-IsClean : {limit : ℕ} (s t : Solver) → Extends limit s t → IsClean t → IsClean s
Extends-IsClean s t q = q.grows.clean

-- A dependency that is there.
abbrev pub Registered : DependencyFact → Solver → Type 0
Registered d t = has_dependency d t.dependencies ≡ true

abbrev pub Published : SummaryFact → Solver → Type 0
Published x t = has_summary x t.summaries ≡ true

module _ {Ast : Type 0} (p : Problem Ast) (c : Control) where
  abbrev pub Wide : Solver → Solver → Type 0
  Wide = Extends (state_limit p.max_states)

  pub widen :
      (Q : Solver → Type 0) (s : Solver) (x : Stepped) → Does (Level p c) Q s x → Does Wide Q s x
  widen Q s x d = record {
    grown = Queues-Extends s x.0.1 d.grown;
    stops = d.stops;
    gives = d.gives;
  }

  pub Wide_refl : (s : Solver) → Wide s s
  Wide_refl s = Queues-Extends s s (Queues-refl s)

  pub Registered-persists : (d : DependencyFact) → Persists Wide (Registered d)
  Registered-persists d s t q h r = q.grows.more_dependencies d r

  pub Published-persists : (x : SummaryFact) → Persists Wide (Published x)
  Published-persists x s t q h r = q.grows.more_summaries x r

  -- The summaries of the entry are applied to `d`.
  known_summaries_does :
      (d : Dependency) (s : Solver) (n : ℕ)
      → Does
          (Level p c)
          (λ t.
            All
              (λ (x : Summary). Applied p c d.fact x.fact t)
              (summaries_of d.fact.callee_entry s.summaries))
          s
          (apply_known_summaries p c d s n)
  unfolding apply_known_summaries
  known_summaries_does d s n =
      does_each (Level p c) Queues-IsClean Queues-trans Queues-refl
        (λ (x : Summary) t. Applied p c d.fact x.fact t) _ (λ x. Applied-persists p c d.fact x.fact)
        (λ x t m.
          checked p c d.caller_path d.caller_witness (Applied p c d.fact x.fact)
            (apply_summary p c d x) t m (apply_summary_does p c d x))
        (summaries_of d.fact.callee_entry s.summaries) s n

  known_dependencies_does :
      (x : Summary) (s : Solver) (n : ℕ)
      → Does
          (Level p c)
          (λ t.
            All
              (λ (d : Dependency). Applied p c d.fact x.fact t)
              (dependencies_of x.fact.entry s.dependencies))
          s
          (apply_to_known_dependencies p c x s n)
  unfolding apply_to_known_dependencies
  known_dependencies_does x s n =
      does_each (Level p c) Queues-IsClean Queues-trans Queues-refl
        (λ (d : Dependency) t. Applied p c d.fact x.fact t) _
        (λ d. Applied-persists p c d.fact x.fact)
        (λ d t m.
          checked p c x.path x.witness (Applied p c d.fact x.fact) (apply_summary p c d x) t m
            (apply_summary_does p c d x))
        (dependencies_of x.fact.entry s.dependencies) s n

  dependency_added :
      (d : Dependency) (s : Solver)
      → Grows
          (state_limit p.max_states)
          s
          (record s { dependencies = insert_by dependency_order d s.dependencies })
  dependency_added d s = record {
    clean = λ h. record {
      in_budget = h.in_budget;
      not_unsafe = h.not_unsafe;
      not_inconclusive = h.not_inconclusive;
    };
    spreads = λ h. Spreads-refl s.contributions;
    more_dependencies = λ f h. ground (arith, inserted_dependency d s.dependencies f);
    more_summaries = λ f h. h;
    labelled = λ h. record { unsafe = h.unsafe; uncertain = h.uncertain };
    charged = λ i h. h;
  }

  summary_added :
      (x : Summary) (s : Solver)
      → Grows
          (state_limit p.max_states)
          s
          (record s { summaries = insert_by summary_order x s.summaries })
  summary_added x s = record {
    clean = λ h. record {
      in_budget = h.in_budget;
      not_unsafe = h.not_unsafe;
      not_inconclusive = h.not_inconclusive;
    };
    spreads = λ h. Spreads-refl s.contributions;
    more_dependencies = λ f h. h;
    more_summaries = λ f h. ground (arith, inserted_summary x s.summaries f);
    labelled = λ h. record { unsafe = h.unsafe; uncertain = h.uncertain };
    charged = λ i h. h;
  }

  register_added :
      (d : Dependency) (s : Solver) (n : ℕ)
      → Does Wide (Registered d.fact) s ((add_dependency d >> apply_known_summaries p c d) s n)
  unfolding add_dependency
  register_added d s n =
      let more = insert_by dependency_order d s.dependencies in
      let t = record s { dependencies = more } in
      let r = known_summaries_does d t n in
      let u = (apply_known_summaries p c d t n).0.1 in
      record {
        grown = record {
          grows = Grows-trans s t u (dependency_added d s) r.grown.grows;
          closes = λ h closed. record {
            applied = λ f x hf hx e agree.
                let x_known = subst (λ xs. has_summary x xs ≡ true) r.grown.same_summaries hx in
                let f_known =
                  subst (λ ds. has_dependency f ds ≡ true) r.grown.same_dependencies hf in
                elim (or_cases _ _ (sym (inserted_dependency d s.dependencies f) ∙ f_known)) [
                  | inl new ↦
                      let same = dependency_eq-≡ d.fact f new in
                      subst (λ g. Applied p c g x u) same
                        (known_summaries (λ y. Applied p c d.fact y u) d.fact.callee_entry
                          s.summaries x (r.gives h) x_known
                          (ap (λ (g : DependencyFact). g.callee_entry) same ∙ sym e))
                        agree
                  | inr old ↦
                      (r.grown.grows.spreads h).kept _ (closed.applied f x old x_known e agree)
                ];
          };
        };
        stops = r.stops;
        gives = λ h.
            subst (λ ds. has_dependency d.fact ds ≡ true) (sym r.grown.same_dependencies)
              (ground
                (arith, inserted_dependency d s.dependencies d.fact, dependency_eq_refl d.fact));
      }

  publish_added :
      (x : Summary) (s : Solver) (n : ℕ)
      → Does Wide (Published x.fact) s ((add_summary x >> apply_to_known_dependencies p c x) s n)
  unfolding add_summary
  publish_added x s n =
      let more = insert_by summary_order x s.summaries in
      let t = record s { summaries = more } in
      let r = known_dependencies_does x t n in
      let u = (apply_to_known_dependencies p c x t n).0.1 in
      record {
        grown = record {
          grows = Grows-trans s t u (summary_added x s) r.grown.grows;
          closes = λ h closed. record {
            applied = λ d f hd hf e agree.
                let d_known =
                  subst (λ ds. has_dependency d ds ≡ true) r.grown.same_dependencies hd in
                let f_known = subst (λ xs. has_summary f xs ≡ true) r.grown.same_summaries hf in
                elim (or_cases _ _ (sym (inserted_summary x s.summaries f) ∙ f_known)) [
                  | inl new ↦
                      let same = summary_eq-≡ x.fact f new in
                      subst (λ g. Applied p c d g u) same
                        (known_dependencies (λ y. Applied p c y x.fact u) x.fact.entry
                          s.dependencies d (r.gives h) d_known
                          (ap (λ (g : SummaryFact). g.entry) same ∙ e))
                        agree
                  | inr old ↦
                      (r.grown.grows.spreads h).kept _ (closed.applied d f d_known old e agree)
                ];
          };
        };
        stops = r.stops;
        gives = λ h.
            subst (λ xs. has_summary x.fact xs ≡ true) (sym r.grown.same_summaries)
              (ground (arith, inserted_summary x s.summaries x.fact, summary_eq_refl x.fact));
      }

  -- A step behind one that leaves nothing in particular.
  behind :
      (Q : Solver → Type 0) (k : Step) (s : Solver) (x : Stepped)
      → Does (Level p c) (Nothing) s x
      → ((t : Solver) (m : ℕ) → Does Wide Q t (k t m))
      → Does Wide Q s (resume k x)
  behind Q k s x d e =
      does_less Wide (λ t. Nothing t × Q t) Q s (resume k x) (λ t h. h.1)
        (does_then Wide Extends-IsClean Extends-trans Nothing Q k s x (λ a b r h q. tt)
          (widen Nothing s x d) e)

  pub guarded :
      (path : List ℤ) (witness : List WitnessEdge) (Q : Solver → Type 0) (k : Step) (s : Solver)
      (n : ℕ)
      → ((t : Solver) (m : ℕ) → Does Wide Q t (k t m))
      → Does Wide Q s ((checkpoint_at p c path witness >> k) s n)
  guarded path witness Q k s n d =
      behind Q k s (checkpoint_at p c path witness s n) (checkpoint_does p c path witness s n) d

  register_new_does :
      (d : Dependency) (s : Solver) (n : ℕ)
      → Does Wide (Registered d.fact) s (register_new p c d s n)
  unfolding register_new
  register_new_does d s n =
      if_branches (Does Wide (Registered d.fact) s) (has_dependency d.fact s.dependencies) _ _
        (λ e. widen (Registered d.fact) s _ (done_does s n (Registered d.fact) (λ h. e)))
        (λ e.
          behind (Registered d.fact) (add_dependency d >> apply_known_summaries p c d) s _
            (reserve_does p c d.caller_path d.caller_witness s n) (register_added d))

  pub register_does :
      (d : Dependency) (s : Solver) (n : ℕ)
      → Does Wide (Registered d.fact) s (register_dependency p c d s n)
  unfolding register_dependency
  register_does d s n =
      guarded d.caller_path d.caller_witness (Registered d.fact) (register_new p c d) s n
        (register_new_does d)

  publish_new_does :
      (x : Summary) (s : Solver) (n : ℕ) → Does Wide (Published x.fact) s (publish_new p c x s n)
  unfolding publish_new
  publish_new_does x s n =
      if_branches (Does Wide (Published x.fact) s) (has_summary x.fact s.summaries) _ _
        (λ e. widen (Published x.fact) s _ (done_does s n (Published x.fact) (λ h. e)))
        (λ e.
          behind (Published x.fact) (add_summary x >> apply_to_known_dependencies p c x) s _
            (reserve_does p c x.path x.witness s n) (publish_added x))

  pub publish_does :
      (x : Summary) (s : Solver) (n : ℕ)
      → Does Wide (Published x.fact) s (publish_summary p c x s n)
  unfolding publish_summary
  publish_does x s n =
      guarded x.path x.witness (Published x.fact) (publish_new p c x) s n (publish_new_does x)
