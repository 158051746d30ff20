-- ===== src/Protocol/EdgeFunc/Monotone.antt =====
-- The edge functions against the order and the join of the states.
use goplint.Base.{true, ◌≡◌, ◌≢◌, refl, arith}
use goplint.Base.Bits.{within_or_right, within_or_or, or_or_right, or_or_left, or_or_both}
use goplint.Protocol.State.{AbstractState, less_equal, join, valid}
use goplint.Protocol.Lattice.{Below, less_equal→Below, Below→less_equal}
use goplint.Protocol.Validity.{IsValid, valid→IsValid}
use goplint.Protocol.EdgeFunc.{
  EdgeFunc, EdgeFuncTag, invalidate_tag, escape_tag, consume_tag, other_tag, apply_tag, apply_edge,
  tag_of,
}

apply_tag-Below :
    (g : EdgeFuncTag) (s t : AbstractState)
    → IsValid t
    → Below s t
    → Below (apply_tag g s) (apply_tag g t)
unfolding apply_tag
apply_tag-Below escape_tag s t v h =
    ground (arith, within_or_right s.hazards t.hazards 1, within_or_or s.hazards t.hazards 1)
apply_tag-Below consume_tag s t v h =
    ground (arith, within_or_right s.hazards t.hazards 2, within_or_or s.hazards t.hazards 2)
apply_tag-Below _ s t v h = ground arith

-- Every edge function is monotone: over a valid state, a more precise state stays more precise.
pub apply_edge_mono :
    (f : EdgeFunc) (s t : AbstractState)
    → valid t ≡ true
    → less_equal s t ≡ true
    → less_equal (apply_edge f s) (apply_edge f t) ≡ true
unfolding apply_edge
apply_edge_mono f s t v h =
    Below→less_equal (apply_edge f s) (apply_edge f t)
      (apply_tag-Below (tag_of f.tag) s t (valid→IsValid t v) (less_equal→Below s t h))

apply_tag-join :
    (g : EdgeFuncTag) (s t : AbstractState)
    → g ≢ invalidate_tag
    → IsValid s
    → IsValid t
    → apply_tag g (join s t) ≡ join (apply_tag g s) (apply_tag g t)
unfolding apply_tag join
apply_tag-join invalidate_tag s t ne p q = absurd (ne refl)
apply_tag-join escape_tag s t ne p q = ground (
  arith,
  or_or_right s.hazards t.hazards 1,
  or_or_left s.hazards t.hazards 1,
  or_or_both s.hazards t.hazards 1,
)
apply_tag-join consume_tag s t ne p q = ground (
  arith,
  or_or_right s.hazards t.hazards 2,
  or_or_left s.hazards t.hazards 2,
  or_or_both s.hazards t.hazards 2,
)
apply_tag-join _ s t ne p q = ground arith

keeps_other : (g : EdgeFuncTag) → g ≢ invalidate_tag → tag_of g ≢ invalidate_tag
unfolding tag_of
keeps_other (other_tag t) ne = ground arith
keeps_other _ ne = ne

-- An edge function other than invalidation commutes with the join of two valid states, so joining
-- before or after the step loses no precision.
pub apply_edge-join :
    (f : EdgeFunc) (s t : AbstractState)
    → f.tag ≢ invalidate_tag
    → valid s ≡ true
    → valid t ≡ true
    → apply_edge f (join s t) ≡ join (apply_edge f s) (apply_edge f t)
unfolding apply_edge
apply_edge-join f s t ne p q =
    apply_tag-join (tag_of f.tag) s t (keeps_other f.tag ne) (valid→IsValid s p) (valid→IsValid t q)
