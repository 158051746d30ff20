-- ===== src/Protocol/Lattice.antt =====
-- The order and the join of the abstract states of goplint/protocol_domain.go.
use goplint.Base.{
  ℕ, true, ◌&&◌, ◌≡◌, ◌⊎◌, ap, ◌∙◌, sym, subst, ◌≤◌, max, bit_and, arith, Bool-eq_of_iff, and-intro,
  and-true,
}
use goplint.Base.Bits.{bit_or_comm, bit_or_assoc, bit_or_idem, bit_and-or_left, or_of_within}
use goplint.Protocol.Effects.{join_identity_relevance}
use goplint.Protocol.State.{
  AbstractState, less_equal, join, join_error_results, join_deferred_errors,
}

-- The order as a tuple of facts.
abbrev pub Below : AbstractState → AbstractState → Type 0
Below s t =
    (s.validation ≤ t.validation)
    × (bit_and s.hazards t.hazards ≡ s.hazards)
    × (bit_and s.uncertainty t.uncertainty ≡ s.uncertainty)
    × ((s.result ≡ t.result) ⊎ (t.result ≡ 0))
    × ((s.deferred_error ≡ t.deferred_error) ⊎ (t.deferred_error ≡ 0))
    × (s.identity ≤ t.identity)
    × (bit_and s.possible_effects t.possible_effects ≡ s.possible_effects)

pub less_equal→Below : (s t : AbstractState) → less_equal s t ≡ true → Below s t
unfolding less_equal
less_equal→Below s t h = ground arith

pub Below→less_equal : (s t : AbstractState) → Below s t → less_equal s t ≡ true
unfolding less_equal
Below→less_equal s t h = ground arith

join_comm : (s t : AbstractState) → join s t ≡ join t s
unfolding join
join_comm s t = ground (
  arith,
  bit_or_comm s.hazards t.hazards,
  bit_or_comm s.uncertainty t.uncertainty,
  bit_or_comm s.possible_effects t.possible_effects,
)

error_results_assoc :
    (a b c : ℕ)
    → join_error_results (join_error_results a b) c ≡ join_error_results a (join_error_results b c)
unfolding join_error_results
error_results_assoc a b c = ground arith

deferred_errors_assoc :
    (a b c : ℕ)
    → join_deferred_errors (join_deferred_errors a b) c
      ≡ join_deferred_errors a (join_deferred_errors b c)
unfolding join_deferred_errors
deferred_errors_assoc a b c = ground arith

identity_assoc :
    (a b c : ℕ)
    → join_identity_relevance (join_identity_relevance a b) c
      ≡ join_identity_relevance a (join_identity_relevance b c)
unfolding join_identity_relevance
identity_assoc a b c = ground arith

max_assoc : (a b c : ℕ) → max (max a b) c ≡ max a (max b c)
max_assoc a b c = omega arith

join_assoc : (s t u : AbstractState) → join (join s t) u ≡ join s (join t u)
unfolding join
join_assoc s t u = λ i. record {
  validation = max_assoc s.validation t.validation u.validation i;
  hazards = bit_or_assoc s.hazards t.hazards u.hazards i;
  uncertainty = bit_or_assoc s.uncertainty t.uncertainty u.uncertainty i;
  result = error_results_assoc s.result t.result u.result i;
  deferred_error = deferred_errors_assoc s.deferred_error t.deferred_error u.deferred_error i;
  identity = identity_assoc s.identity t.identity u.identity i;
  possible_effects = bit_or_assoc s.possible_effects t.possible_effects u.possible_effects i;
}

join_idem : (s : AbstractState) → join s s ≡ s
unfolding join
join_idem s =
    ground (arith, bit_or_idem s.hazards, bit_or_idem s.uncertainty, bit_or_idem s.possible_effects)

-- The join is associative, commutative and idempotent, so it depends neither on the order nor on
-- the repetition of the joined states.
pub join_laws :
    (s t u : AbstractState)
    → (join (join s t) u ≡ join s (join t u)) × (join s t ≡ join t s) × (join s s ≡ s)
join_laws s t u = (join_assoc s t u, join_comm s t, join_idem s)

pub join_upper : (s t : AbstractState) → Below s (join s t)
unfolding join
join_upper s t = ground (
  arith,
  bit_and-or_left s.hazards t.hazards,
  bit_and-or_left s.uncertainty t.uncertainty,
  bit_and-or_left s.possible_effects t.possible_effects,
)

join_absorbs : (s t : AbstractState) → Below s t → join s t ≡ t
unfolding join
join_absorbs s t h = ground (
  arith,
  or_of_within s.hazards t.hazards,
  or_of_within s.uncertainty t.uncertainty,
  or_of_within s.possible_effects t.possible_effects,
)

Below-of_join : (s t : AbstractState) → join s t ≡ t → Below s t
Below-of_join s t e = subst (Below s) e (join_upper s t)

Below-trans : (s t u : AbstractState) → Below s t → Below t u → Below s u
Below-trans s t u p q = Below-of_join s u (
    ap (join s) (sym (join_absorbs t u q))
    ∙ sym (join_assoc s t u)
    ∙ ap (λ x. join x u) (join_absorbs s t p)
    ∙ join_absorbs t u q)

join_least : (s t u : AbstractState) → Below s u → Below t u → Below (join s t) u
join_least s t u p q =
    Below-of_join (join s t) u
      (join_assoc s t u ∙ ap (join s) (join_absorbs t u q) ∙ join_absorbs s u p)

pub Below-refl : (s : AbstractState) → Below s s
Below-refl s = Below-of_join s s (join_idem s)

pub less_equal_trans :
    (s t u : AbstractState) → less_equal s t ≡ true → less_equal t u ≡ true → less_equal s u ≡ true
less_equal_trans s t u p q =
    Below→less_equal s u (Below-trans s t u (less_equal→Below s t p) (less_equal→Below t u q))

-- Two states that `lessEqual` orders both ways are equal.
pub less_equal_antisymm :
    (s t : AbstractState) → less_equal s t ≡ true → less_equal t s ≡ true → s ≡ t
less_equal_antisymm s t p q =
    sym (join_absorbs t s (less_equal→Below t s q))
    ∙ join_comm t s
    ∙ join_absorbs s t (less_equal→Below s t p)

-- `join` is the least upper bound of `lessEqual`: it is above both states, and another state is
-- above it exactly when it is above both.
pub join_least_upper_bound :
    (s t u : AbstractState)
    → (less_equal s (join s t) ≡ true)
      × (less_equal t (join s t) ≡ true)
      × (less_equal (join s t) u ≡ (less_equal s u && less_equal t u))
join_least_upper_bound s t u = (
  left,
  right,
  Bool-eq_of_iff (less_equal (join s t) u) (less_equal s u && less_equal t u)
      (λ h.
        and-intro (less_equal s u) (less_equal t u) (less_equal_trans s (join s t) u left h)
          (less_equal_trans t (join s t) u right h))
      (λ h.
        let both = and-true (less_equal s u) (less_equal t u) h in
        Below→less_equal (join s t) u
          (join_least s t u (less_equal→Below s u both.0) (less_equal→Below t u both.1))),
)
  where
    left : less_equal s (join s t) ≡ true
    left = Below→less_equal s (join s t) (join_upper s t)

    right : less_equal t (join s t) ≡ true
    right = Below→less_equal t (join s t) (rw (join_comm s t) (join_upper t s))
