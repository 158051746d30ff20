-- ===== src/Oracle/Ends.antt =====
-- The end of `interpretIdentity` in internal/protocoloracle/reference.go.
use goplint.Base.{
  ℕ, zero, suc, ◌+◌, ◌<◌, ◌≤◌, String, Bool, true, false, Option, none, some, List, [], ◌∷◌, length,
  ◌≡◌, ◌⊎◌, refl, ap, arith, Bool-cases, inl, inr,
}
use goplint.Oracle.{
  Program, ReferenceSummary, Outcome, outcome_none, violation, inconclusive, IdentityResult,
}
use goplint.Oracle.Effects.{join_outcome}
use goplint.Oracle.Worklist.{Interpretation}
use goplint.Oracle.Interpret.{
  result_of, visit_key, interpret_loop, start, nothing_done, root_edge, charge, interpret_identity,
}
use goplint.Oracle.Budget.{IsCharged, enqueue-IsCharged, visit_key-IsCharged}

module _ (max_states : ℕ) where
  take :
      (k : ℕ) (key : String) (rest : List String) (s : Interpretation)
      → s.queue ≡ key ∷ rest
      → IsCharged max_states k s
      → IsCharged max_states (suc k) (record s { queue = rest })
  take k key rest s e h =
      let same = ap (length {A = String}) e in
      record { worked = omega (arith, same, h.worked); within = omega (arith, same, h.within) }

  -- The state that the loop ends in.
  record IsDone (s : Interpretation) : Type 0 where
    drained : (s.budget_exceeded ≡ true) ⊎ (s.queue ≡ [])
    bounded : length s.summaries ≤ max_states

  done :
      (k : ℕ) (s : Interpretation)
      → IsCharged max_states k s
      → (s.budget_exceeded ≡ true) ⊎ (s.queue ≡ [])
      → IsDone s
  done k s h d = record { drained = d; bounded = omega (arith, h.within) }

  ending :
      (s : Interpretation) (b : Bool) (queue : List String)
      (go : String → List String → Option Interpretation)
      → (b ≡ true → IsDone s)
      → (queue ≡ [] → IsDone s)
      → ((key : String) (rest : List String)
          → queue ≡ key ∷ rest
          → (t : Interpretation) × (go key rest ≡ some t) × IsDone t)
      → (t : Interpretation) × ((elim b as (λ _. Option Interpretation) [
        | true ↦ some s
        | false ↦ elim queue as (λ _. Option Interpretation) [
          | [] ↦ some s
          | key ∷ rest ↦ go key rest
        ]
      ])
          ≡ some t)
        × IsDone t
  ending s true queue go over empty next = (s, refl, over refl)
  ending s false [] go over empty next = (s, refl, empty refl)
  ending s false (key ∷ rest) go over empty next = next key rest refl

  interpret_loop-IsDone :
      (program : Program) (tracked fuel k : ℕ) (s : Interpretation)
      → max_states < fuel + k
      → IsCharged max_states k s
      → (t : Interpretation) × (interpret_loop max_states program tracked fuel s ≡ some t)
        × IsDone t
  unfolding interpret_loop
  interpret_loop-IsDone program tracked zero k s enough h = absurd (omega (arith, enough, h.within))
  interpret_loop-IsDone program tracked (suc fuel) k s enough h =
      ending s s.budget_exceeded s.queue _ (λ e. done k s h (inl e)) (λ e. done k s h (inr e))
        (λ key rest e.
          interpret_loop-IsDone program tracked fuel (suc k)
            (visit_key max_states program tracked key (record s { queue = rest }))
            (omega (arith, enough))
            (visit_key-IsCharged max_states (suc k) program tracked key (record s { queue = rest })
              (take k key rest s e h)))

  start-IsCharged : (program : Program) → IsCharged max_states 0 (start max_states program)
  unfolding start
  start-IsCharged program =
      enqueue-IsCharged max_states 0 (root_edge max_states program) (nothing_done max_states)
        (record { worked = omega arith; within = omega arith })

  never_none : (o : Outcome) → ¬ (join_outcome o inconclusive ≡ outcome_none)
  unfolding join_outcome
  never_none outcome_none e = cc
  never_none violation e = cc
  never_none inconclusive e = cc

  charged_none :
      (s : Interpretation)
      → (charge max_states s).outcome ≡ outcome_none
      → s.budget_exceeded ≡ false
  unfolding charge join_outcome
  charged_none s h = elim (Bool-cases s.budget_exceeded) [
    | inl e ↦ absurd (never_none s.outcome (ground arith))
    | inr e ↦ e
  ]

  charge-summaries : (s : Interpretation) → (charge max_states s).summaries ≡ s.summaries
  unfolding charge
  charge-summaries s = ground arith

  drained_if : (b : Bool) (queue : List String) → (b ≡ true) ⊎ (queue ≡ []) → b ≡ false → queue ≡ []
  drained_if b queue (inl e) h = absurd (cc (e, h))
  drained_if b queue (inr e) h = e

  -- The interpretation of a program ends. It has published at most `max_states` summaries, and it
  -- answers none only after it has taken every path off its queue.
  pub interpret_identity_ends :
      (program : Program) (tracked : ℕ)
      → (r : IdentityResult) × (interpret_identity max_states program tracked ≡ some r)
        × (r.summaries ≤ max_states)
        × (s : Interpretation) × (interpret_loop max_states program tracked
              (max_states + 1)
              (start max_states program)
            ≡ some s)
        × (r.outcome ≡ outcome_none → s.queue ≡ [])
  unfolding interpret_identity
  interpret_identity_ends program tracked =
      let (s, ends, d) =
        interpret_loop-IsDone program tracked (max_states + 1) 0 (start max_states program)
          (omega arith) (start-IsCharged program) in
      (
        result_of max_states (charge max_states s),
        ap
            (λ (o : Option Interpretation). elim o as (λ _. Option IdentityResult) [
              | none ↦ none
              | some t ↦ some (result_of max_states (charge max_states t))
            ])
            ends,
        omega (arith, d.bounded, ap (length {A = String × ReferenceSummary}) (charge-summaries s)),
        s,
        ends,
        λ h. drained_if s.budget_exceeded s.queue d.drained (charged_none s h),
      )
