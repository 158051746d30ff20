-- ===== src/Tabulation/Conditional/Compose.antt =====
-- Composition of conditional edge functions is composition of what they do to a state.
use goplint.Base.{◌≡◌, sym, ap₂, arith}
use goplint.Base.Bits.{bit_or_assoc}
use goplint.Protocol.State.{AbstractState}
use goplint.Protocol.EdgeFunc.{
  EdgeFuncTag, new_edge_func, apply_edge, apply_tag, tag_of, escape_tag, consume_tag,
}
use goplint.Tabulation.Conditional.{ConditionalEdgeFunc, apply_conditional, then_summary, then_tag}

-- A path and then the summary of a callee do to every state what the two do one after the other.
pub apply_conditional-then_summary :
    (effect next : ConditionalEdgeFunc) (s : AbstractState)
    → apply_conditional (then_summary effect next) s
      ≡ apply_conditional next (apply_conditional effect s)
unfolding apply_conditional then_summary
apply_conditional-then_summary effect next s = ground (
  arith,
  bit_or_assoc s.hazards effect.required.hazards next.required.hazards,
  bit_or_assoc s.hazards effect.required.hazards next.proven.hazards,
  bit_or_assoc s.hazards effect.proven.hazards next.required.hazards,
  bit_or_assoc s.hazards effect.proven.hazards next.proven.hazards,
)

pair : AbstractState → AbstractState → ConditionalEdgeFunc
pair p q = record { required = p; proven = q }

-- Summaries may be composed in any grouping.
pub then_summary_assoc :
    (a b c : ConditionalEdgeFunc)
    → then_summary (then_summary a b) c ≡ then_summary a (then_summary b c)
unfolding then_summary pair
then_summary_assoc a b c =
    ap₂ pair (sym (apply_conditional-then_summary b c a.required))
      (sym (apply_conditional-then_summary b c a.proven))

-- Two states with the same validation, hazards and result.
abbrev pub SameVerdict : AbstractState → AbstractState → Type 0
SameVerdict s t = (s.validation ≡ t.validation) × (s.hazards ≡ t.hazards) × (s.result ≡ t.result)

tag_verdict :
    (t : EdgeFuncTag) (effect : ConditionalEdgeFunc) (s : AbstractState)
    → SameVerdict
        (apply_conditional
          (record { required = apply_tag t effect.required; proven = apply_tag t effect.proven })
          s)
        (apply_tag t (apply_conditional effect s))
unfolding apply_conditional apply_tag
tag_verdict escape_tag effect s = ground (
  arith,
  bit_or_assoc s.hazards effect.required.hazards 1,
  bit_or_assoc s.hazards effect.proven.hazards 1,
)
tag_verdict consume_tag effect s = ground (
  arith,
  bit_or_assoc s.hazards effect.required.hazards 2,
  bit_or_assoc s.hazards effect.proven.hazards 2,
)
tag_verdict _ effect s = ground arith

-- A path and then one edge give every state the validation, the hazards and the result that the
-- edge gives to the state at the end of the path.
pub apply_conditional-then_tag :
    (effect : ConditionalEdgeFunc) (tag : EdgeFuncTag) (s : AbstractState)
    → SameVerdict
        (apply_conditional (then_tag effect tag) s)
        (apply_edge (new_edge_func tag) (apply_conditional effect s))
unfolding then_tag apply_edge
apply_conditional-then_tag effect tag s = tag_verdict (tag_of (new_edge_func tag).tag) effect s
