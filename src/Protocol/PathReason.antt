-- ===== src/Protocol/PathReason.antt =====
-- The reason that a path reports, against the uncertainty that it carries.
use goplint.Base.{ℕ, List, [], ◌∷◌, true, ◌<◌, ◌^◌, ◌≡◌, sym, ◌∙◌, bit_and, bit_or, arith}
use goplint.Base.Bits.{within_full, and_or_zero, bit_and-none}
use goplint.Protocol.Reason.{
  PathOutcomeReason, no_reason, other_reason, feasibility_unknown, first_reason, path_reason_order,
  ReasonEntry,
}
use goplint.Protocol.State.{
  AbstractState, with_uncertainty, valid, path_outcome_reason, complement, all_uncertainty,
}
use goplint.Protocol.Validity.{valid→IsValid}

-- The reason that stands for `r` in a report.
abbrev pub reported : PathOutcomeReason → PathOutcomeReason
reported (other_reason text) = feasibility_unknown
reported r = r

-- A certain path that records a reason reports it if the code declares it, and reports an unknown
-- feasibility for any other text.
pub path_outcome_reason-with_uncertainty :
    (s : AbstractState) (r : PathOutcomeReason)
    → s.uncertainty ≡ 0
    → path_outcome_reason (with_uncertainty s r) ≡ reported r
unfolding path_outcome_reason with_uncertainty
path_outcome_reason-with_uncertainty s no_reason h = rw h
path_outcome_reason-with_uncertainty s _ h = rw h

abbrev Avoids : ℕ → List ReasonEntry → Type 0
Avoids u [] = Unit
Avoids u (e ∷ es) = (bit_and u e.bit ≡ 0) × Avoids u es

silent : (u : ℕ) → first_reason u path_reason_order ≡ no_reason → Avoids u path_reason_order
unfolding first_reason
silent u h = ground arith

-- All the bits of a table.
abbrev bits_of : List ReasonEntry → ℕ
bits_of [] = 0
bits_of (e ∷ es) = bit_or e.bit (bits_of es)

Avoids-all : (u : ℕ) (es : List ReasonEntry) → Avoids u es → bit_and u (bits_of es) ≡ 0
Avoids-all u [] h = bit_and-none u
Avoids-all u (e ∷ es) h = and_or_zero u e.bit (bits_of es) h.0 (Avoids-all u es h.1)

-- A valid path that reports no reason carries no uncertainty: none is dropped silently.
pub path_outcome_reason-certain :
    (s : AbstractState)
    → valid s ≡ true
    → s.uncertainty < 2 ^ 32
    → path_outcome_reason s ≡ no_reason
    → s.uncertainty ≡ 0
unfolding path_outcome_reason
path_outcome_reason-certain s v small h =
    sym (within_full 32 s.uncertainty small)
    ∙ and_or_zero s.uncertainty all_uncertainty (complement 32 all_uncertainty)
        (Avoids-all s.uncertainty path_reason_order (silent s.uncertainty h)) (valid→IsValid s v).5
