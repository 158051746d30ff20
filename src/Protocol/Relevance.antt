-- ===== src/Protocol/Relevance.antt =====
-- goplint/protocol_relevance.go: whether an uncertainty can change the verdict at a sink.
use goplint.Base.{
  ℕ, Bool, true, false, not, ◌||◌, ◌≤◌, ◌≡◌, ◌==◌, leb, if◌then◌else◌, bit_and, bit_or, arith, sym,
  ap, ◌∙◌,
}
use goplint.Base.Bits.{bit_and-none, bit_or-eq-zero, bit_or-and, or_of_within}
use goplint.Protocol.Effects.{
  possible_effect_mutate, possible_effect_replace, possible_effect_escape, possible_effect_consume,
  possible_effect_constraint, identity_unrelated, identity_may_alias,
}
use goplint.Protocol.State.{AbstractState, validation_proven}

pub record RelevanceQuery : Type 0 where
  pub forward_reachable : Bool
  pub sink_reachable : Bool
  pub identity : ℕ
  pub possible_effects : ℕ

abbrev pub relevant_effects : ℕ
relevant_effects = bit_or possible_effect_mutate (
    bit_or possible_effect_replace
      (bit_or possible_effect_escape (bit_or possible_effect_consume possible_effect_constraint)))

unfoldable pub relevant : RelevanceQuery → AbstractState → Bool
unfolding validation_proven
relevant query state =
    if not query.forward_reachable
      || not query.sink_reachable
      || query.identity == identity_unrelated
      || query.possible_effects == 0
    then false
    else if not (validation_proven state)
    then leb identity_may_alias query.identity
    else not (bit_and query.possible_effects relevant_effects == 0)

-- `q` asks about no more than `r`: no more reach, no surer identity, no more effects.
pub record Narrower (q r : RelevanceQuery) : Type 0 where
  pub forward : q.forward_reachable ≡ true → r.forward_reachable ≡ true
  pub sink : q.sink_reachable ≡ true → r.sink_reachable ≡ true
  pub looser : q.identity ≤ r.identity
  pub effects : bit_and q.possible_effects r.possible_effects ≡ q.possible_effects

zero_within : (a b : ℕ) → bit_and a b ≡ a → b ≡ 0 → a ≡ 0
zero_within a b h z = sym h ∙ ap (bit_and a) z ∙ bit_and-none a

masked_within : (a b m : ℕ) → bit_and a b ≡ a → bit_and b m ≡ 0 → bit_and a m ≡ 0
masked_within a b m h z =
    bit_or-eq-zero (bit_and a m) (bit_and b m)
      (sym (bit_or-and a b m) ∙ ap (λ (t : ℕ). bit_and t m) (or_of_within a b h) ∙ z)

-- A query that is relevant at a state stays relevant when it is widened.
pub relevant_mono :
    (q r : RelevanceQuery) (s : AbstractState)
    → Narrower q r
    → relevant q s ≡ true
    → relevant r s ≡ true
unfolding relevant
relevant_mono q r s n h = ground (
  arith,
  zero_within q.possible_effects r.possible_effects n.effects,
  masked_within q.possible_effects r.possible_effects relevant_effects n.effects,
)
