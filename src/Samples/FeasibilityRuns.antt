-- ===== src/Samples/FeasibilityRuns.antt =====
-- goplint/cfa_feasibility_ssa_constraints.go at concrete formulas. A constant denotes the number
-- of its characters, but for `0x10` and `16`, which denote sixteen; that meets what the development
-- assumes of `math/big` and of the order of the program's values.
use goplint.Base.{
  ◌≢◌, ℕ, String, ◌≡◌, refl, true, false, [], ◌∷◌, none, some, arith, ◌&&◌, ◌||◌, if◌then◌else◌,
  ◌==◌, str_eq, eq_iff, sym, ap, ◌∙◌, ◌⊎◌, inl, inr, ltb, length, compare, Bool, Ordering,
}
use goplint.Base.Text.{codes}
use goplint.Feasibility.Constraint.{
  PredicateConstraint, Rationals, op_gt, op_lt, constraints_contradict, compare_numeric_constants,
  is_lt, is_gt,
}
use goplint.Feasibility.Semantics.{ValueOrder, holds}
use goplint.Feasibility.Semantics.Sound.{constraints_contradict_sound}
use goplint.Feasibility.Formula.{ConstraintFormula, constraint_subjects}
use goplint.Feasibility.Formula.Meaning.{satisfies, canonical_formula, canonical_any, canonical_all}
use goplint.Feasibility.Evidence.{
  Evidence, new_evidence, build_evidence, build_loop, find_contradiction, find_partner,
  check_with_subjects, check_loop, constraint_present, constraint_eq, check_evidence,
}
use goplint.Feasibility.Evidence.Sound.{build_evidence_sound, check_evidence_sound}
use goplint.Feasibility.Evidence.Aliases.{build_evidence_aliased, both_equal}
use goplint.Feasibility.Evidence.Accepts.{with_path, check_evidence-build_evidence}

abbrev number_of : String → ℕ
number_of s = if str_eq s "0x10" || str_eq s "16" then 16 else length (codes s)

abbrev pub unary : Rationals
unary = record { Rat = ℕ; set_string = λ s. some (number_of s); cmp = λ a b. compare a b }

abbrev is_canonical : String → Bool
is_canonical s = str_eq s "11" || str_eq s "111" || str_eq s "16"

abbrev spelled : ℕ → String
spelled n = if n == 2 then "11" else if n == 3 then "111" else "16"

canonical_cases : (a : String) → is_canonical a ≡ true → (a ≡ "11") ⊎ (a ≡ "111") ⊎ (a ≡ "16")
canonical_cases a h = ground (arith, eq_iff a "11", eq_iff a "111", eq_iff a "16")

spelled_back : (a : String) → is_canonical a ≡ true → spelled (number_of a) ≡ a
spelled_back a h = elim (canonical_cases a h) [
  | inl two ↦ rw two refl
  | inr (inl three) ↦ rw three refl
  | inr (inr sixteen) ↦ rw sixteen refl
]

pub canonical_alone :
    (a b : String)
    → is_canonical a ≡ true
    → is_canonical b ≡ true
    → number_of a ≡ number_of b
    → a ≡ b
canonical_alone a b p q h = sym (spelled_back a p) ∙ ap spelled h ∙ spelled_back b q

pub unary_same : (a b : ℕ) → (a == b) ≡ true → a ≡ b
unary_same a b h = ground arith

pub unary_refl : (a : ℕ) → (a == a) ≡ true
unary_refl a = ground arith

pub unary_asymm : (a b : ℕ) → ltb a b ≡ true → ltb b a ≡ false
unary_asymm a b h = ground arith

pub unary_weak : (a b c : ℕ) → ltb a c ≡ true → (ltb a b || ltb b c) ≡ true
unary_weak a b c h = ground arith

pub unary_numeric :
    (a b : String) (o : Ordering)
    → is_canonical a ≡ true
    → is_canonical b ≡ true
    → compare_numeric_constants unary a b ≡ some o
    → (ltb (number_of a) (number_of b) ≡ is_lt o) × (ltb (number_of b) (number_of a) ≡ is_gt o)
unfolding compare_numeric_constants
unary_numeric a b o p q h = ground arith

abbrev pub unary_order : ValueOrder unary
unary_order = record {
  Value = ℕ;
  denote = number_of;
  same = ◌==◌;
  same_sound = unary_same;
  same_refl = unary_refl;
  less = ltb;
  less_asymm = unary_asymm;
  less_weak = unary_weak;
  canonical = is_canonical;
  canonical_distinct = canonical_alone;
  less_numeric = unary_numeric;
}

-- x > 3 and x < 2, in unary
abbrev above_three : PredicateConstraint
above_three = record { subject = "x"; op = op_gt; value = "111" }

abbrev below_two : PredicateConstraint
below_two = record { subject = "x"; op = op_lt; value = "11" }

abbrev below_three : PredicateConstraint
below_three = record { subject = "x"; op = op_lt; value = "111" }

abbrev pub crossed : ConstraintFormula
crossed = record { alternatives = (above_three ∷ below_two ∷ []) ∷ []; unsupported = false }

abbrev pub assignment : String → ℕ
assignment subject = 4

abbrev pub crossed_evidence : Evidence
crossed_evidence = record new_evidence {
  contradictions = record { alternative = 0; left = above_three; right = below_two } ∷ [];
}

never : (build_evidence unary none crossed 0).0 ≡ some (some crossed_evidence)
unfolding build_evidence build_loop find_contradiction find_partner constraints_contradict
    compare_numeric_constants
never = refl

touching : constraints_contradict unary above_three below_three ≡ true
unfolding constraints_contradict compare_numeric_constants
touching = refl

constraints_contradict_sound_example :
    (holds unary unary_order assignment above_three && holds unary unary_order assignment below_two)
    ≡ false
unfolding constraints_contradict compare_numeric_constants
constraints_contradict_sound_example =
    constraints_contradict_sound unary unary_order assignment above_three below_two refl refl refl

abbrev above : ConstraintFormula
above = record { alternatives = (above_three ∷ []) ∷ []; unsupported = false }

abbrev below : ConstraintFormula
below = record { alternatives = (below_two ∷ []) ∷ []; unsupported = true }

abbrev both : ConstraintFormula
both = record { alternatives = (above_three ∷ below_two ∷ []) ∷ []; unsupported = true }

abbrev either : ConstraintFormula
either = record { alternatives = (above_three ∷ []) ∷ (below_two ∷ []) ∷ []; unsupported = true }

crossed_canonical : canonical_formula unary_order crossed ≡ true
unfolding canonical_formula canonical_any canonical_all
crossed_canonical = refl

build_evidence_sound_example : satisfies unary unary_order assignment crossed ≡ false
build_evidence_sound_example =
    build_evidence_sound unary unary_order assignment none crossed crossed_evidence 0
      crossed_canonical never

check_evidence_sound_example : satisfies unary unary_order assignment crossed ≡ false
unfolding check_evidence constraint_subjects check_with_subjects check_loop constraint_present
    constraint_eq constraints_contradict compare_numeric_constants
check_evidence_sound_example =
    check_evidence_sound unary unary_order assignment none crossed (1 ∷ [])
      (with_path crossed_evidence (1 ∷ []) ("x" ∷ [])) 0 crossed_canonical refl

check_evidence-build_evidence_example :
    (check_evidence unary none crossed
      (4 ∷ 7 ∷ [])
      (with_path crossed_evidence (4 ∷ 7 ∷ []) ("x" ∷ []))
      0).0
    ≡ some true
unfolding constraint_subjects
check_evidence-build_evidence_example =
    check_evidence-build_evidence unary crossed (4 ∷ 7 ∷ []) ("x" ∷ []) crossed_evidence 0 0 0 never
      refl

-- x == 0x10 && x == 16, for x = 16
abbrev sixteen : String → ℕ
sixteen subject = 16

different : (a b : String) → str_eq a b ≡ false → a ≢ b
different a b h e = ground (arith, eq_iff a b)

build_evidence_aliased_example :
    (satisfies unary unary_order sixteen (both_equal "x" "0x10" "16") ≡ true)
    × (evidence : Evidence) × ((build_evidence unary none (both_equal "x" "0x10" "16") 0).0
        ≡ some (some evidence))
    × ((check_evidence unary none
          (both_equal "x" "0x10" "16")
          (4 ∷ [])
          (with_path evidence (4 ∷ []) ("x" ∷ []))
          0).0
        ≡ some true)
build_evidence_aliased_example =
    build_evidence_aliased unary unary_order sixteen "x" "0x10" "16" (4 ∷ [])
      (different "x" "" refl) (different "0x10" "" refl) (different "16" "" refl)
      (different "0x10" "16" refl) refl refl
