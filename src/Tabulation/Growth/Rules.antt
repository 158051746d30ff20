-- ===== src/Tabulation/Growth/Rules.antt =====
-- Steps of goplint/cfa_ifds_tabulation.go one after the other.
use goplint.Base.{
  ℕ, true, false, Option, none, some, List, [], ◌∷◌, All, ◌≡◌, refl, subst, ◌∙◌, ◌⊎◌, inl, inr,
}
use goplint.Tabulation.Facts.{Contribution}
use goplint.Tabulation.Antichain.{Contributions}
use goplint.Tabulation.Antichain.Covers.{is_some}
use goplint.Tabulation.State.{
  Solver, Stepped, Step, resume, each, regardless, has_dependency, has_summary,
}
use goplint.Tabulation.Growth.{Retained, Pending, IsClean, Spreads, Grows, Queues, Extends, Does}

pub none_of_some {ℓ} : {A : Type ℓ} (o : Option A) → is_some o ≡ true → ¬ (o ≡ none)
none_of_some none h e = cc
none_of_some (some a) h e = cc

-- Out of budget, there is a result.
pub broken : (s : Solver) → is_some s.contributions.budget_result ≡ true → ¬ IsClean s
broken s h c = none_of_some s.contributions.budget_result h c.in_budget

pub Spreads-refl : (k : Contributions) → Spreads k k
Spreads-refl k = record { kept = λ x h. h; fresh = λ x h. inl h; waiting = λ x h. h }

fresh_after :
    (j k l : Contributions) (x : Contribution)
    → Spreads j k
    → Spreads k l
    → Retained k x ⊎ Pending l x
    → Retained j x ⊎ Pending l x
fresh_after j k l x a b (inr h) = inr h
fresh_after j k l x a b (inl h) = elim (a.fresh x h) [
  | inl old ↦ inl old
  | inr new ↦ inr (b.waiting x new)
]

Spreads-trans : (j k l : Contributions) → Spreads j k → Spreads k l → Spreads j l
Spreads-trans j k l a b = record {
  kept = λ x h. b.kept x (a.kept x h);
  fresh = λ x h. fresh_after j k l x a b (b.fresh x h);
  waiting = λ x h. b.waiting x (a.waiting x h);
}

module _ {limit : ℕ} where
  pub Grows-refl : (s : Solver) → Grows limit s s
  Grows-refl s = record {
    clean = λ h. h;
    spreads = λ h. Spreads-refl s.contributions;
    more_dependencies = λ d h. h;
    more_summaries = λ x h. h;
    labelled = λ h. h;
    charged = λ k h. h;
  }

  pub Grows-trans : (s t u : Solver) → Grows limit s t → Grows limit t u → Grows limit s u
  Grows-trans s t u a b = record {
    clean = λ h. a.clean (b.clean h);
    spreads = λ h. Spreads-trans _ _ _ (a.spreads (b.clean h)) (b.spreads h);
    more_dependencies = λ d h. b.more_dependencies d (a.more_dependencies d h);
    more_summaries = λ x h. b.more_summaries x (a.more_summaries x h);
    labelled = λ h. b.labelled (a.labelled h);
    charged = λ k h. b.charged k (a.charged k h);
  }

  pub Queues-trans : (s t u : Solver) → Queues limit s t → Queues limit t u → Queues limit s u
  Queues-trans s t u a b = record {
    grows = Grows-trans s t u a.grows b.grows;
    same_dependencies = b.same_dependencies ∙ a.same_dependencies;
    same_summaries = b.same_summaries ∙ a.same_summaries;
  }

  pub Queues-Extends : (s t : Solver) → Queues limit s t → Extends limit s t
  Queues-Extends s t q = record {
    grows = q.grows;
    closes = λ h closed. record {
      applied = λ d x hd hx e agree. (q.grows.spreads h).kept _ (
          closed.applied d x (subst (λ ds. has_dependency d ds ≡ true) q.same_dependencies hd)
            (subst (λ xs. has_summary x xs ≡ true) q.same_summaries hx) e agree);
    };
  }

  pub Extends-trans : (s t u : Solver) → Extends limit s t → Extends limit t u → Extends limit s u
  Extends-trans s t u a b = record {
    grows = Grows-trans s t u a.grows b.grows;
    closes = λ h closed. b.closes h (a.closes (b.grows.clean h) closed);
  }

-- What a step leaves behind is there after a later step.
abbrev pub Persists : (Solver → Solver → Type 0) → (Solver → Type 0) → Type 0
Persists R Q = (s t : Solver) → R s t → IsClean t → Q s → Q t

module _ (R : Solver → Solver → Type 0)
    (clean_before : (s t : Solver) → R s t → IsClean t → IsClean s)
    (trans : (s t u : Solver) → R s t → R t u → R s u) where
  pub does_after :
      (Q : Solver → Type 0) (s t : Solver) (x : Stepped) → R s t → Does R Q t x → Does R Q s x
  does_after Q s t x r d = record {
    grown = trans s t x.0.1 r d.grown;
    stops = d.stops;
    gives = d.gives;
  }

  pub does_then :
      (P Q : Solver → Type 0) (k : Step) (s : Solver) (x : Stepped)
      → Persists R P
      → Does R P s x
      → ((t : Solver) (n : ℕ) → Does R Q t (k t n))
      → Does R (λ t. P t × Q t) s (resume k x)
  does_then P Q k s ((false, t), n) keep d e = record {
    grown = d.grown;
    stops = d.stops;
    gives = λ h. absurd (broken t (d.stops refl) h);
  }
  does_then P Q k s ((true, t), n) keep d e =
      let r = e t n in
      record {
        grown = trans s t (k t n).0.1 d.grown r.grown;
        stops = r.stops;
        gives = λ h. (
          keep t (k t n).0.1 r.grown h (d.gives (clean_before t (k t n).0.1 r.grown h)),
          r.gives h,
        );
      }

  pub does_each {ℓ} :
      {A : Type ℓ} (refl_ : (s : Solver) → R s s) (Q : A → Solver → Type 0) (f : A → Step)
      → ((x : A) → Persists R (Q x))
      → ((x : A) (t : Solver) (n : ℕ) → Does R (Q x) t (f x t n))
      → (xs : List A) (s : Solver) (n : ℕ) → Does R (λ t. All (λ x. Q x t) xs) s (each f xs s n)
  unfolding each
  does_each refl_ Q f keep d [] s n = record {
    grown = refl_ s;
    stops = λ h. absurd (cc h);
    gives = λ h. tt;
  }
  does_each refl_ Q f keep d (x ∷ xs) s n =
      does_then (Q x) (λ t. All (λ y. Q y t) xs) (each f xs) s (f x s n) (keep x) (d x s n)
        (does_each refl_ Q f keep d xs)

-- A weaker thing is left behind too.
pub does_less :
    (R : Solver → Solver → Type 0) (P Q : Solver → Type 0) (s : Solver) (x : Stepped)
    → ((t : Solver) → P t → Q t)
    → Does R P s x
    → Does R Q s x
does_less R P Q s x f d = record {
  grown = d.grown;
  stops = d.stops;
  gives = λ h. f x.0.1 (d.gives h);
}

-- A step that leaves something out of budget leaves everything behind.
pub does_regardless :
    (R : Solver → Solver → Type 0) (Q : Solver → Type 0) (s : Solver) (x : Stepped)
    → Does R Q s x
    → Does R Q s (regardless x)
does_regardless R Q s ((b, t), n) d = record {
  grown = d.grown;
  stops = λ h. absurd (cc h);
  gives = d.gives;
}
