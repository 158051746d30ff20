-- ===== src/Plan/Visiting.antt =====
-- The search for dependency cycles of internal/soundnessgate/plan_model.go, one work unit at a time.
use goplint.Base.{
  ℕ, zero, suc, ◌+◌, ◌≤◌, ◌<◌, String, str_eq, eq_iff, contains, contains_head, contains_tail,
  contains_cases, true, false, List, [], ◌∷◌, length, if◌then◌else◌, ◌≡◌, inl, inr, refl, sym,
  subst, ap, ◌∙◌, arith, Bool-cases,
}
use goplint.Plan.{
  PlanDependency, requires_of, remove, Search, Outcome, cycle, spent, reached, visit_each, leave,
  visit, bound_ids, search,
}

module _ (deps : List PlanDependency) where
  abbrev pub Requires : String → String → Type 0
  Requires a b = contains (requires_of deps a) b ≡ true

  -- The transitive closure.
  pub data DependsOn : String → String → Type 0 where
    direct : {a b : String} → Requires a b → DependsOn a b
    through : {a b c : String} → Requires a b → DependsOn b c → DependsOn a c

  -- The visited work units, the latest first: each stands before all that it requires.
  pub data IsOrdered : List String → Type 0 where
    nothing : IsOrdered []
    later :
        {id : String} {ids : List String}
        → ((b : String) → Requires id b → contains ids b ≡ true)
        → IsOrdered ids
        → IsOrdered (id ∷ ids)

  -- What a search that ends has done: it left the path that it came on as it was, kept what was
  -- visited, and visited `ids`.
  pub record Visits (ids : List String) (s t : Search) : Type 0 where
    pub path : t.visiting ≡ s.visiting
    pub kept : (x : String) → contains s.visited x ≡ true → contains t.visited x ≡ true
    pub now : (x : String) → contains ids x ≡ true → contains t.visited x ≡ true
    pub ordered : IsOrdered s.visited → IsOrdered t.visited

  -- The path of the search: each work unit requires the one before it.
  abbrev IsPath : List String → Type 0
  IsPath [] = Unit
  IsPath (x ∷ []) = Unit
  IsPath (x ∷ y ∷ ids) = Requires y x × IsPath (y ∷ ids)

  abbrev Enters : String → List String → Type 0
  Enters id [] = Unit
  Enters id (x ∷ ids) = Requires x id

  abbrev pub IsCycle : Type 0
  IsCycle = (id : String) × DependsOn id id

  -- The bindings that are not on the path.
  abbrev free : List PlanDependency → List String → ℕ
  free [] ids = 0
  free (d ∷ ds) ids = (if contains ids d.work_unit_id then 0 else 1) + free ds ids

  abbrev pub Fine : (Outcome → Search → List String → Type 0)
  Fine cycle s ids = IsCycle
  Fine spent s ids = ⊥
  Fine (reached t) s ids = Visits ids s t

  remove_absent : (x : String) (ys : List String) → contains ys x ≡ false → remove x ys ≡ ys
  unfolding remove contains
  remove_absent x [] h = refl
  remove_absent x (y ∷ ys) h = ground (arith, remove_absent x ys)

  remove_head : (x : String) (ys : List String) → contains ys x ≡ false → remove x (x ∷ ys) ≡ ys
  unfolding remove
  remove_head x ys h = ground (arith, eq_iff x x, remove_absent x ys h)

  free_mono :
      (ds : List PlanDependency) (id : String) (ids : List String)
      → free ds (id ∷ ids) ≤ free ds ids
  unfolding contains
  free_mono [] id ids = omega arith
  free_mono (d ∷ ds) id ids = ground (arith, free_mono ds id ids)

  -- A work unit that requires something has a binding, which leaves the free ones with it.
  free_less :
      (ds : List PlanDependency) (id b : String) (ids : List String)
      → contains (requires_of ds id) b ≡ true
      → contains ids id ≡ false
      → free ds (id ∷ ids) < free ds ids
  unfolding contains requires_of
  free_less [] id b ids r h = cc
  free_less (d ∷ ds) id b ids r h = elim (Bool-cases (str_eq d.work_unit_id id)) [
    | inl same ↦
        let e = (eq_iff d.work_unit_id id).0 same in
        ground (arith, e, ap (contains ids) e, eq_iff id id, free_mono ds id ids)
    | inr other ↦ ground (arith, free_less ds id b ids, free_mono ds id ids)
  ]

  -- A work unit on the path is required by the one that is entered now, through the path.
  path_cycle :
      (id x : String) (ids : List String)
      → IsPath (x ∷ ids)
      → contains (x ∷ ids) id ≡ true
      → (b : String) → DependsOn x b
      → DependsOn id b
  path_cycle id x [] p h b d = elim (contains_cases x id [] h) [
    | inl e ↦ subst (λ a. DependsOn a b) e d
    | inr none_left ↦ unfold contains in cc
  ]
  path_cycle id x (y ∷ ids) (r, p) h b d = elim (contains_cases x id (y ∷ ids) h) [
    | inl e ↦ subst (λ a. DependsOn a b) e d
    | inr more ↦ path_cycle id y ids p more b (through r d)
  ]

  -- One work unit, and then the others.
  both :
      (id : String) (ids : List String) (s t u : Search)
      → Visits (id ∷ []) s t
      → Visits ids t u
      → Visits (id ∷ ids) s u
  both id ids s t u v w = record {
    path = w.path ∙ v.path;
    kept = λ x h. w.kept x (v.kept x h);
    now = λ x h. elim (contains_cases id x ids h) [
      | inl e ↦
          w.kept x (v.now x (subst (λ y. contains (id ∷ []) y ≡ true) e (contains_head id [])))
      | inr more ↦ w.now x more
    ];
    ordered = λ o. w.ordered (v.ordered o);
  }

  both_fine :
      (o : Outcome) (id : String) (ids : List String) (s t : Search)
      → Visits (id ∷ []) s t
      → Fine o t ids
      → Fine o s (id ∷ ids)
  both_fine cycle id ids s t v f = f
  both_fine spent id ids s t v f = f
  both_fine (reached u) id ids s t v f = both id ids s t u v f

  none_visited : (s : Search) → Visits [] s s
  none_visited s = record {
    path = refl;
    kept = λ x h. h;
    now = λ x h. unfold contains in cc;
    ordered = λ o. o;
  }

  after_one :
      (v : String → Search → Outcome) (o : Outcome) (id : String) (ids : List String) (s : Search)
      → Fine o s (id ∷ [])
      → ((t : Search) → t.visiting ≡ s.visiting → Fine (visit_each v ids t) t ids)
      → Fine
          (elim o [ cycle ↦ cycle | spent ↦ spent | reached t ↦ visit_each v ids t ])
          s
          (id ∷ ids)
  after_one v cycle id ids s f g = f
  after_one v spent id ids s f g = f
  after_one v (reached t) id ids s f g = both_fine (visit_each v ids t) id ids s t f (g t f.path)

  each_fine :
      (v : String → Search → Outcome) (path : List String)
      → ((id : String) (s : Search)
          → s.visiting ≡ path
          → Enters id path
          → Fine (v id s) s (id ∷ []))
      → (ids : List String) (s : Search) → s.visiting ≡ path
      → ((x : String) → contains ids x ≡ true → Enters x path)
      → Fine (visit_each v ids s) s ids
  unfolding visit_each
  each_fine v path one [] s e enters = none_visited s
  each_fine v path one (id ∷ ids) s e enters =
      after_one v (v id s) id ids s (one id s e (enters id (contains_head id ids))) (λ t same.
        each_fine v path one ids t (same ∙ e) (λ x h. enters x (contains_tail id x ids h)))

  -- Leaving a work unit whose requirements are all visited.
  left :
      (id : String) (s t : Search)
      → contains s.visiting id ≡ false
      → Visits (requires_of deps id) (record s { visiting = id ∷ s.visiting }) t
      → Visits (id ∷ []) s (record { visiting = remove id t.visiting; visited = id ∷ t.visited })
  left id s t absent v = record {
    path = ap (remove id) v.path ∙ remove_head id s.visiting absent;
    kept = λ x h. contains_tail id x t.visited (v.kept x h);
    now = λ x h. elim (contains_cases id x [] h) [
      | inl e ↦ subst (λ y. contains (id ∷ t.visited) y ≡ true) e (contains_head id t.visited)
      | inr none_left ↦ unfold contains in cc
    ];
    ordered = λ o. later (λ b r. v.now b r) (v.ordered o);
  }

  left_fine :
      (id : String) (s : Search) (o : Outcome)
      → contains s.visiting id ≡ false
      → Fine o (record s { visiting = id ∷ s.visiting }) (requires_of deps id)
      → Fine (leave id o) s (id ∷ [])
  left_fine id s cycle absent f = f
  left_fine id s spent absent f = f
  left_fine id s (reached t) absent f = left id s t absent f

  seen_before : (id : String) (s : Search) → contains s.visited id ≡ true → Visits (id ∷ []) s s
  seen_before id s h = record {
    path = refl;
    kept = λ x k. k;
    now = λ x k. elim (contains_cases id x [] k) [
      | inl e ↦ subst (λ y. contains s.visited y ≡ true) e h
      | inr none_left ↦ unfold contains in cc
    ];
    ordered = λ o. o;
  }

  entered_cycle :
      (id : String) (path : List String)
      → IsPath path
      → Enters id path
      → contains path id ≡ true
      → IsCycle
  entered_cycle id [] p e h = unfold contains in cc
  entered_cycle id (x ∷ ids) p e h = (id, path_cycle id x ids p h id (direct e))

  longer-IsPath :
      (id : String) (path : List String) → IsPath path → Enters id path → IsPath (id ∷ path)
  longer-IsPath id [] p e = tt
  longer-IsPath id (x ∷ ids) p e = (e, p)

  abbrev IsFineAt : (String → Search → Outcome) → ℕ → Type 0
  IsFineAt v fuel =
      (id : String) (s : Search)
      → IsPath s.visiting
      → Enters id s.visiting
      → free deps s.visiting < fuel
      → Fine (v id s) s (id ∷ [])

  rest_fine :
      (v : String → Search → Outcome) (fuel : ℕ) (id : String) (s : Search) (reqs : List String)
      → requires_of deps id ≡ reqs
      → IsFineAt v fuel
      → IsPath s.visiting
      → Enters id s.visiting
      → contains s.visiting id ≡ false
      → free deps s.visiting < suc fuel
      → Fine
          (visit_each v reqs (record s { visiting = id ∷ s.visiting }))
          (record s { visiting = id ∷ s.visiting })
          reqs
  rest_fine v fuel id s [] q ih p e off h = unfold visit_each in none_visited _
  rest_fine v fuel id s (r ∷ rs) q ih p e off h =
      let less = free_less deps id r s.visiting (rw q (contains_head r rs)) off in
      each_fine v (id ∷ s.visiting)
        (λ x t same enters.
          ih x t (subst IsPath (sym same) (longer-IsPath id s.visiting p e))
            (subst (Enters x) (sym same) enters) (omega (arith, less, ap (free deps) same)))
        (r ∷ rs) (record s { visiting = id ∷ s.visiting }) refl (λ x c. rw q c)

  visit_fine :
      (fuel : ℕ) (id : String) (s : Search)
      → IsPath s.visiting
      → Enters id s.visiting
      → free deps s.visiting < fuel
      → Fine (visit deps fuel id s) s (id ∷ [])
  unfolding visit
  visit_fine zero id s p e h = absurd (omega arith)
  visit_fine (suc fuel) id s p e h = elim (Bool-cases (contains s.visiting id)) [
    | inl on ↦ rw (on, visit) (entered_cycle id s.visiting p e on)
    | inr off ↦ elim (Bool-cases (contains s.visited id)) [
      | inl done ↦ rw (off, done, visit) (seen_before id s done)
      | inr new ↦
          rw (off, new, visit)
            (left_fine id s
              (visit_each (visit deps fuel) (requires_of deps id)
                (record s { visiting = id ∷ s.visiting }))
              off
              (rest_fine (visit deps fuel) fuel id s (requires_of deps id) refl
                (λ t. visit_fine fuel t) p e off h))
    ]
  ]

  free-length : (ds : List PlanDependency) → free ds [] ≤ length ds
  unfolding contains
  free-length [] = omega arith
  free-length (d ∷ ds) = omega (arith, free-length ds)

  abbrev pub start : Search
  start = record { visiting = []; visited = [] }

  pub search_fine : Fine (search deps) start (bound_ids deps)
  unfolding search
  search_fine =
      each_fine (visit deps (suc (length deps))) []
        (λ id s same e.
          visit_fine (suc (length deps)) id s (subst IsPath (sym same) tt)
            (subst (Enters id) (sym same) tt)
            (omega (arith, free-length deps, ap (free deps) same)))
        (bound_ids deps) (record { visiting = []; visited = [] }) refl (λ x h. tt)
