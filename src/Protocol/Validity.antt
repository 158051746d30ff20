-- ===== src/Protocol/Validity.antt =====
-- The declared values of goplint/protocol_domain.go: `valid`, and the operations that keep it.
use goplint.Base.{ℕ, ◌≤◌, true, ◌≡◌, refl, ap₂, ◌∙◌, bit_and, bit_or, arith}
use goplint.Base.Bits.{bit_or-and}
use goplint.Protocol.Reason.{PathOutcomeReason, no_reason}
use goplint.Protocol.Effects.{unknown_call_effects, join_identity_relevance}
use goplint.Protocol.State.{
  AbstractState, join, with_uncertainty, valid, complement, all_hazards, all_uncertainty,
}
use goplint.Protocol.EdgeFunc.{
  EdgeFunc, EdgeFuncTag, escape_tag, consume_tag, apply_tag, apply_edge, tag_of,
}

abbrev pub IsValid : AbstractState → Type 0
IsValid s =
    (s.validation ≤ 1)
    × (bit_and s.hazards (complement 8 all_hazards) ≡ 0)
    × (s.result ≤ 2)
    × (s.deferred_error ≤ 3)
    × (s.identity ≤ 3)
    × (bit_and s.uncertainty (complement 32 all_uncertainty) ≡ 0)
    × (bit_and s.possible_effects (complement 16 unknown_call_effects) ≡ 0)

pub valid→IsValid : (s : AbstractState) → valid s ≡ true → IsValid s
unfolding valid
valid→IsValid s h = ground arith

pub IsValid→valid : (s : AbstractState) → IsValid s → valid s ≡ true
unfolding valid
IsValid→valid s h = ground arith

-- A union of flags that avoid a mask avoids it.
pub avoids_or : (a b c : ℕ) → bit_and a c ≡ 0 → bit_and b c ≡ 0 → bit_and (bit_or a b) c ≡ 0
avoids_or a b c p q = bit_or-and a b c ∙ ap₂ bit_or p q

join-IsValid : (s t : AbstractState) → IsValid s → IsValid t → IsValid (join s t)
unfolding join
join-IsValid s t p q = ground (
  arith,
  avoids_or s.hazards t.hazards (complement 8 all_hazards),
  avoids_or s.uncertainty t.uncertainty (complement 32 all_uncertainty),
  avoids_or s.possible_effects t.possible_effects (complement 16 unknown_call_effects),
)

-- The join of two valid states is valid.
pub valid-join : (s t : AbstractState) → valid s ≡ true → valid t ≡ true → valid (join s t) ≡ true
valid-join s t p q =
    IsValid→valid (join s t) (join-IsValid s t (valid→IsValid s p) (valid→IsValid t q))

apply_tag-IsValid : (t : EdgeFuncTag) (s : AbstractState) → IsValid s → IsValid (apply_tag t s)
unfolding apply_tag
apply_tag-IsValid escape_tag s h =
    ground (arith, avoids_or s.hazards 1 (complement 8 all_hazards) h.1 refl)
apply_tag-IsValid consume_tag s h =
    ground (arith, avoids_or s.hazards 2 (complement 8 all_hazards) h.1 refl)
apply_tag-IsValid _ s h = ground arith

-- Every edge function maps valid states to valid states.
pub valid-apply_edge :
    (f : EdgeFunc) (s : AbstractState) → valid s ≡ true → valid (apply_edge f s) ≡ true
unfolding apply_edge
valid-apply_edge f s h = IsValid→valid _ (apply_tag-IsValid (tag_of f.tag) s (valid→IsValid s h))

join_identity-le : (a b : ℕ) → a ≤ 3 → b ≤ 3 → join_identity_relevance a b ≤ 3
unfolding join_identity_relevance
join_identity-le a b p q = ground arith

with_uncertainty-IsValid :
    (r : PathOutcomeReason) (s : AbstractState) → IsValid s → IsValid (with_uncertainty s r)
unfolding with_uncertainty
with_uncertainty-IsValid no_reason s h = h
with_uncertainty-IsValid _ s h = (
  h.0,
  h.1,
  h.2,
  h.3,
  join_identity-le s.identity _ h.4 (omega arith),
  avoids_or s.uncertainty _ (complement 32 all_uncertainty) h.5 refl,
  avoids_or s.possible_effects _ (complement 16 unknown_call_effects) h.6 refl,
)

-- Recording a reason keeps a state valid.
pub valid-with_uncertainty :
    (r : PathOutcomeReason) (s : AbstractState)
    → valid s ≡ true
    → valid (with_uncertainty s r) ≡ true
valid-with_uncertainty r s h =
    IsValid→valid (with_uncertainty s r) (with_uncertainty-IsValid r s (valid→IsValid s h))
