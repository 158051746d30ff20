-- ===== src/Plan/Cycles.antt =====
-- The search for dependency cycles of internal/soundnessgate/plan_model.go ends, and finds a cycle
-- exactly when there is one.
use goplint.Base.{
  String, contains, contains_tail, contains_cases, true, List, [], ◌∷◌, none, some, ◌≡◌, inl, inr,
  sym, subst, arith,
}
use goplint.Plan.{
  PlanDependency, PlanError, dependency_cycle, out_of_fuel, requires_of, Outcome, cycle, spent,
  reached, bound_ids, search, validate_dependency_cycles,
}
use goplint.Plan.Visiting.{
  Requires, DependsOn, IsOrdered, IsCycle, Fine, start, search_fine, nothing, later, direct,
  through,
}

module _ (deps : List PlanDependency) where
  -- An ordered list of work units, each before all that it requires, with the bound ones in it.
  pub record IsSchedule (ids : List String) : Type 0 where
    pub order : IsOrdered deps ids
    pub whole : (x : String) → contains (bound_ids deps) x ≡ true → contains ids x ≡ true

  abbrev Verdict : Outcome → Type 0
  Verdict cycle = IsCycle deps
  Verdict spent = ⊥
  Verdict (reached s) = IsSchedule s.visited

  verdict : (o : Outcome) → Fine deps o (start deps) (bound_ids deps) → Verdict o
  verdict cycle f = f
  verdict spent f = f
  verdict (reached s) v = record { order = v.ordered nothing; whole = v.now }

  pub Requires-stays :
      (ids : List String) (a b : String)
      → IsOrdered deps ids
      → contains ids a ≡ true
      → Requires deps a b
      → contains ids b ≡ true
  Requires-stays [] a b nothing c r = unfold contains in cc
  Requires-stays (id ∷ ids) a b (later h o) c r = elim (contains_cases id a ids c) [
    | inl e ↦ contains_tail id b ids (h b (subst (λ x. Requires deps x b) (sym e) r))
    | inr more ↦ contains_tail id b ids (Requires-stays ids a b o more r)
  ]

  depends_stays :
      (ids : List String) {a b : String}
      → IsOrdered deps ids
      → contains ids a ≡ true
      → DependsOn deps a b
      → contains ids b ≡ true
  depends_stays ids {a} {b} o c (direct r) = Requires-stays ids a b o c r
  depends_stays ids o c (through {a} {b} r d) = depends_stays ids o (Requires-stays ids a b o c r) d

  comes_back :
      (id : String) (ids : List String) (a : String)
      → ((b : String) → Requires deps id b → contains ids b ≡ true)
      → IsOrdered deps ids
      → id ≡ a
      → DependsOn deps a a
      → contains ids a ≡ true
  comes_back id ids a h o e (direct r) = h a (subst (λ x. Requires deps x a) (sym e) r)
  comes_back id ids a h o e (through {b} r d) =
      depends_stays ids o (h b (subst (λ x. Requires deps x b) (sym e) r)) d

  -- Nothing in an ordered list depends on itself.
  ordered_acyclic :
      (ids : List String) (a : String)
      → IsOrdered deps ids
      → contains ids a ≡ true
      → DependsOn deps a a
      → ⊥
  ordered_acyclic [] a nothing c d = unfold contains in cc
  ordered_acyclic (id ∷ ids) a (later h o) c d = elim (contains_cases id a ids c) [
    | inr more ↦ ordered_acyclic ids a o more d
    | inl e ↦ ordered_acyclic ids a o (comes_back id ids a h o e d) d
  ]

  -- A work unit that requires something is bound.
  pub requires_bound :
      (ds : List PlanDependency) (a b : String)
      → contains (requires_of ds a) b ≡ true
      → contains (bound_ids ds) a ≡ true
  unfolding contains requires_of
  requires_bound [] a b r = cc
  requires_bound (d ∷ ds) a b r = ground (arith, requires_bound ds a b)

  depends_bound : {a b : String} → DependsOn deps a b → contains (bound_ids deps) a ≡ true
  depends_bound (direct {a} {b} r) = requires_bound deps a b r
  depends_bound (through {a} {b} r d) = requires_bound deps a b r

  accepted-IsSchedule :
      (o : Outcome)
      → Verdict o
      → elim o [ cycle ↦ some dependency_cycle | spent ↦ some out_of_fuel | reached s ↦ none ]
        ≡ none
      → (ids : List String) × IsSchedule ids
  accepted-IsSchedule cycle v h = cc
  accepted-IsSchedule spent v h = cc
  accepted-IsSchedule (reached s) v h = (s.visited, v)

  -- Accepted dependencies can be put in an order in which each work unit follows all that it
  -- requires.
  pub validate_dependency_cycles-IsSchedule :
      validate_dependency_cycles deps ≡ none → (ids : List String) × IsSchedule ids
  unfolding validate_dependency_cycles
  validate_dependency_cycles-IsSchedule h =
      accepted-IsSchedule (search deps) (verdict (search deps) (search_fine deps)) h

  -- No work unit of accepted dependencies depends on itself, over any number of others.
  pub validate_dependency_cycles_sound :
      (a : String) → validate_dependency_cycles deps ≡ none → ¬ DependsOn deps a a
  validate_dependency_cycles_sound a h d =
      let (ids, s) = validate_dependency_cycles-IsSchedule h in
      ordered_acyclic ids a s.order (s.whole a (depends_bound d)) d

  rejected_cycle :
      (o : Outcome) (e : PlanError)
      → Verdict o
      → elim o [ cycle ↦ some dependency_cycle | spent ↦ some out_of_fuel | reached s ↦ none ]
        ≡ some e
      → (e ≡ dependency_cycle) × IsCycle deps
  rejected_cycle cycle e v h = (ground arith, v)
  rejected_cycle spent e v h = absurd v
  rejected_cycle (reached s) e v h = cc

  -- The search ends on the fuel that it is given, and what it rejects has a work unit that depends
  -- on itself.
  pub validate_dependency_cycles_complete :
      (e : PlanError)
      → validate_dependency_cycles deps ≡ some e
      → (e ≡ dependency_cycle) × ((id : String) × DependsOn deps id id)
  unfolding validate_dependency_cycles
  validate_dependency_cycles_complete e h =
      rejected_cycle (search deps) e (verdict (search deps) (search_fine deps)) h
