-- ===== src/Tabulation/Growth/Known.antt =====
-- The dependencies and the summaries of an entry in goplint/cfa_ifds_tabulation.go: which are there once
-- one is added, and what holds of each.
use goplint.Base.{
  select, String, str_less, Bool, true, false, ◌||◌, if_branches, Bool-cases, List, [], ◌∷◌,
  insert_by, any, All, ◌≡◌, ◌⊎◌, inl, inr, refl, sym, ap, subst, ◌∙◌, arith, if◌then◌else◌,
}
use goplint.Tabulation.Facts.{
  DependencyFact, SummaryFact, EntryFact, entry_eq, dependency_eq, summary_eq,
}
use goplint.Tabulation.Facts.Same.{entry_eq_refl, dependency_eq-≡, summary_eq-≡}
use goplint.Tabulation.State.{
  Dependency, Summary, has_dependency, has_summary, dependencies_of, summaries_of, dependency_order,
  summary_order,
}

any-insert {ℓ} :
    {A : Type ℓ} (test : A → Bool) (key : A → String) (x : A) (xs : List A)
    → any test (insert_by key x xs) ≡ (test x || any test xs)
any-insert test key x [] = refl
any-insert test key x (y ∷ ys) =
    if_branches (λ zs. any test zs ≡ (test x || any test (y ∷ ys))) (str_less (key x) (key y)) _ _
      (λ e. refl) (λ e. ground (arith, any-insert test key x ys))

-- What holds of the selected elements holds of a fact that one of them has.
known {ℓ κ} :
    {A : Type ℓ} {F : Type κ} (P : F → Type 0) (fact : A → F) (same : F → F → Bool)
    (test : A → Bool) (f : F)
    → ((a b : F) → same a b ≡ true → a ≡ b)
    → ((x : A) → fact x ≡ f → test x ≡ true)
    → (xs : List A) → All (λ x. P (fact x)) (select test xs)
    → any (λ x. same (fact x) f) xs ≡ true
    → P f
known P fact same test f sound ok [] h k = cc
known {A} P fact same test f sound ok (x ∷ xs) h k = elim (Bool-cases (same (fact x) f)) [
  | inl e ↦
      let is = sound (fact x) f e in subst P is (head_of (test x) (select test xs) (ok x is) h)
  | inr e ↦
      known P fact same test f sound ok xs (tail_of (test x) (select test xs) h)
        (subst (λ b. (b || any (λ y. same (fact y) f) xs) ≡ true) e k)
]
  where
    head_of :
        (b : Bool) (rest : List A)
        → b ≡ true
        → All (λ y. P (fact y)) (if b then x ∷ rest else rest)
        → P (fact x)
    head_of true rest e g = g.0
    head_of false rest e g = absurd (cc e)

    tail_of :
        (b : Bool) (rest : List A)
        → All (λ y. P (fact y)) (if b then x ∷ rest else rest)
        → All (λ y. P (fact y)) rest
    tail_of true rest g = g.1
    tail_of false rest g = g

pub known_dependencies :
    (P : DependencyFact → Type 0) (entry : EntryFact) (ds : List Dependency) (d : DependencyFact)
    → All (λ (x : Dependency). P x.fact) (dependencies_of entry ds)
    → has_dependency d ds ≡ true
    → entry ≡ d.callee_entry
    → P d
unfolding dependencies_of has_dependency
known_dependencies P entry ds d h k e =
    known P (λ (x : Dependency). x.fact) dependency_eq
      (λ (x : Dependency). entry_eq x.fact.callee_entry entry) d dependency_eq-≡
      (λ x q.
        subst (λ y. entry_eq y entry ≡ true)
          (e ∙ sym (ap (λ (y : DependencyFact). y.callee_entry) q)) (entry_eq_refl entry))
      ds h k

pub known_summaries :
    (P : SummaryFact → Type 0) (entry : EntryFact) (xs : List Summary) (x : SummaryFact)
    → All (λ (y : Summary). P y.fact) (summaries_of entry xs)
    → has_summary x xs ≡ true
    → entry ≡ x.entry
    → P x
unfolding summaries_of has_summary
known_summaries P entry xs x h k e =
    known P (λ (y : Summary). y.fact) summary_eq (λ (y : Summary). entry_eq y.fact.entry entry) x
      summary_eq-≡
      (λ y q.
        subst (λ z. entry_eq z entry ≡ true) (e ∙ sym (ap (λ (z : SummaryFact). z.entry) q))
          (entry_eq_refl entry))
      xs h k

pub or_cases : (a b : Bool) → (a || b) ≡ true → (a ≡ true) ⊎ (b ≡ true)
or_cases true b h = inl refl
or_cases false b h = inr h

pub inserted_dependency :
    (d : Dependency) (ds : List Dependency) (f : DependencyFact)
    → has_dependency f (insert_by dependency_order d ds)
      ≡ (dependency_eq d.fact f || has_dependency f ds)
unfolding has_dependency
inserted_dependency d ds f =
    any-insert (λ (x : Dependency). dependency_eq x.fact f) dependency_order d ds

pub inserted_summary :
    (x : Summary) (xs : List Summary) (f : SummaryFact)
    → has_summary f (insert_by summary_order x xs) ≡ (summary_eq x.fact f || has_summary f xs)
unfolding has_summary
inserted_summary x xs f = any-insert (λ (y : Summary). summary_eq y.fact f) summary_order x xs
