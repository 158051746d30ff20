-- ===== src/Summary/Transfer/Replay.antt =====
-- A published transfer read back: its effects, applied one by one, are the transfer.
use goplint.Base.{
  ℕ, String, Bool, true, false, ◌≡◌, refl, ap, ◌∙◌, Option, List, [], ◌∷◌, ◌++◌, sym,
}
use goplint.Summary.Effect.{
  SummaryEffectFact, effect_mutate, effect_replace, effect_escape, effect_consume, effect_validate,
  new_target_effect, new_summary_effect,
}
use goplint.Summary.Transfer.{
  EffectTransfer, TransferBuilder, apply_effect, apply_invalidations, apply_transfer,
  transfer_effects, append_invalidations, append_when, apply_when, has_flag, invalidates_mutation,
  invalidates_replacement,
}

-- The effects applied in order.
abbrev pub replay : TransferBuilder → List SummaryEffectFact → TransferBuilder
replay b [] = b
replay b (e ∷ es) = replay (apply_effect b e.kind) es

replay-append :
    (b : TransferBuilder) (xs ys : List SummaryEffectFact)
    → replay b (xs ++ ys) ≡ replay (replay b xs) ys
replay-append b [] ys = refl
replay-append b (x ∷ xs) ys = replay-append (apply_effect b x.kind) xs ys

replay_when :
    (b : TransferBuilder) (test : Bool) (e : SummaryEffectFact) (es : List SummaryEffectFact)
    → replay b (append_when test e es) ≡ apply_when test e.kind (replay b es)
replay_when b true e es = replay-append b es (e ∷ [])
replay_when b false e es = refl

replay_invalidations :
    (b : TransferBuilder) (es : List SummaryEffectFact) (i : ℕ) (k : String) (s : ℕ)
    → replay b (append_invalidations es i k s) ≡ apply_invalidations (replay b es) i
unfolding append_invalidations apply_invalidations
replay_invalidations b es i k s =
    replay_when b (has_flag i invalidates_replacement) (new_target_effect effect_replace k s)
      (append_when (has_flag i invalidates_mutation) (new_target_effect effect_mutate k s) es)
    ∙ ap (apply_when (has_flag i invalidates_replacement) effect_replace)
        (replay_when b (has_flag i invalidates_mutation) (new_target_effect effect_mutate k s) es)

-- Applying an available transfer is applying the effects that it publishes, in their order.
pub apply_transfer-transfer_effects :
    (b : TransferBuilder) (t : EffectTransfer) (k : String) (slot : ℕ) (r : Option ℕ)
    → t.available ≡ true
    → apply_transfer b t ≡ replay b (transfer_effects t k slot r)
unfolding apply_transfer transfer_effects
apply_transfer-transfer_effects b t k slot r h =
    let consume : SummaryEffectFact = new_target_effect effect_consume k slot in
    let e1 = append_when t.escape (new_target_effect effect_escape k slot) [] in
    let e2 = append_when t.consume_before_valid consume e1 in
    let e3 = append_invalidations e2 t.pre_invalidations k slot in
    let e4 = append_when t.validation (new_summary_effect k slot r) e3 in
    let e5 = append_when t.consume_after_valid consume e4 in
    rw (h, apply_transfer)
      (sym (
        replay_invalidations b e5 t.post_invalidations k slot
        ∙ ap (λ x. apply_invalidations x t.post_invalidations)
            (replay_when b t.consume_after_valid consume e4
              ∙ ap (apply_when t.consume_after_valid effect_consume) (
                  replay_when b t.validation (new_summary_effect k slot r) e3
                  ∙ ap (apply_when t.validation effect_validate) (
                      replay_invalidations b e2 t.pre_invalidations k slot
                      ∙ ap (λ x. apply_invalidations x t.pre_invalidations)
                          (replay_when b t.consume_before_valid consume e1
                            ∙ ap (apply_when t.consume_before_valid effect_consume) (
                                replay_when b t.escape (new_target_effect effect_escape k slot)
                                  [])))))))
