-- ===== src/Summary/Transfer/Survival.antt =====
-- What the normal form of a transfer remembers of the order of its effects.
use goplint.Base.{
  ℕ, Bool, true, false, ◌≡◌, refl, ◌∙◌, sym, List, [], ◌∷◌, ◌==◌, ◌&&◌, arith, bit_or,
}
use goplint.Base.Bits.{bit_or-eq-zero, bit_or_comm}
use goplint.Summary.Effect.{
  SummaryEffectKind, effect_validate, effect_mutate, effect_replace, effect_consume,
}
use goplint.Summary.Transfer.{TransferBuilder, new_builder, apply_effect, finish}

-- Whether the last validation is followed by no mutation and no replacement.
unfoldable pub survives : Bool → List SummaryEffectKind → Bool
survives v [] = v
survives v (effect_validate ∷ ks) = survives true ks
survives v (effect_mutate ∷ ks) = survives false ks
survives v (effect_replace ∷ ks) = survives false ks
survives v (k ∷ ks) = survives v ks

unfoldable pub apply_all : TransferBuilder → List SummaryEffectKind → TransferBuilder
apply_all b [] = b
apply_all b (k ∷ ks) = apply_all (apply_effect b k) ks

or_right_zero : (a b : ℕ) → bit_or a b ≡ 0 → b ≡ 0
or_right_zero a b h = bit_or-eq-zero b a (bit_or_comm b a ∙ h)

abbrev Tracks : TransferBuilder → Type 0
Tracks b = b.validated ≡ (b.validation && (b.post_invalidations == 0))

apply_effect-Tracks :
    (b : TransferBuilder) (k : SummaryEffectKind) → Tracks b → Tracks (apply_effect b k)
unfolding apply_effect
apply_effect-Tracks b effect_mutate h = ground (arith, or_right_zero b.post_invalidations 1)
apply_effect-Tracks b effect_replace h = ground (arith, or_right_zero b.post_invalidations 2)
apply_effect-Tracks b _ h = ground arith

apply_all-Tracks :
    (ks : List SummaryEffectKind) (b : TransferBuilder) → Tracks b → Tracks (apply_all b ks)
unfolding apply_all
apply_all-Tracks [] b h = h
apply_all-Tracks (k ∷ ks) b h = apply_all-Tracks ks (apply_effect b k) (apply_effect-Tracks b k h)

step_validated :
    (b : TransferBuilder) (k : SummaryEffectKind) (ks : List SummaryEffectKind)
    → survives b.validated (k ∷ ks) ≡ survives (apply_effect b k).validated ks
unfolding apply_effect survives
step_validated b effect_validate ks = refl
step_validated b effect_consume ks = ground arith
step_validated b _ ks = refl

all_validated :
    (ks : List SummaryEffectKind) (b : TransferBuilder)
    → (apply_all b ks).validated ≡ survives b.validated ks
unfolding apply_all
all_validated [] b = unfold survives in refl
all_validated (k ∷ ks) b = all_validated ks (apply_effect b k) ∙ sym (step_validated b k ks)

-- The transfer built from a sequence of effects validates, with nothing invalidated behind the
-- validation, exactly when the last validation of the sequence survives it.
pub finish-survives :
    (ks : List SummaryEffectKind)
    → let t = finish (apply_all new_builder ks) in
      (t.validation && (t.post_invalidations == 0)) ≡ survives false ks
unfolding finish
finish-survives ks = sym (apply_all-Tracks ks new_builder refl) ∙ all_validated ks new_builder
