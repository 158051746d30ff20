-- ===== src/Summary/Transfer.antt =====
-- goplint/protocol_recursive_validation.go: the normal form of the effects of a recursive callee,
-- the builder that composes it, and the effects that it publishes.
pub mod Replay
pub mod Survival
use goplint.Base.{
  ℕ, String, Bool, true, false, ◌||◌, not, Option, none, some, List, [], ◌∷◌, ◌++◌, ◌==◌,
  if◌then◌else◌, bit_and, bit_or, ◌^◌,
}
use goplint.Summary.Effect.{
  SummaryEffectKind, SummaryEffectFact, effect_pure, effect_preserve, effect_validate,
  effect_mutate, effect_replace, effect_escape, effect_consume, effect_terminal, other_effect,
  new_target_effect, new_summary_effect,
}

abbrev pub invalidates_mutation : ℕ
invalidates_mutation = 2 ^ 0

abbrev pub invalidates_replacement : ℕ
invalidates_replacement = 2 ^ 1

pub record EffectTransfer : Type 0 where
  pub available : Bool
  pub validation : Bool
  pub pre_invalidations : ℕ
  pub post_invalidations : ℕ
  pub escape : Bool
  pub consume_before_valid : Bool
  pub consume_after_valid : Bool

-- The embedded transfer of the builder is its first field here.
pub record TransferBuilder : Type 0 where
  pub transfer : EffectTransfer
  pub open transfer use *
  pub validated : Bool

abbrev pub empty_transfer : EffectTransfer
empty_transfer = record {
  available = false;
  validation = false;
  pre_invalidations = 0;
  post_invalidations = 0;
  escape = false;
  consume_before_valid = false;
  consume_after_valid = false;
}

abbrev pub new_builder : TransferBuilder
new_builder = record { transfer = empty_transfer; validated = false }

unfoldable pub apply_invalidation : TransferBuilder → ℕ → TransferBuilder
apply_invalidation b kind = record {
  transfer =
      if b.validation
      then record b.transfer { post_invalidations = bit_or b.post_invalidations kind }
      else record b.transfer { pre_invalidations = bit_or b.pre_invalidations kind };
  validated = false;
}

unfoldable pub apply_effect : TransferBuilder → SummaryEffectKind → TransferBuilder
unfolding apply_invalidation
apply_effect b effect_validate = record {
  transfer = record b.transfer {
    pre_invalidations = bit_or b.pre_invalidations b.post_invalidations;
    post_invalidations = 0;
    validation = true;
  };
  validated = true;
}
apply_effect b effect_mutate = apply_invalidation b invalidates_mutation
apply_effect b effect_replace = apply_invalidation b invalidates_replacement
apply_effect b effect_escape = record b { transfer = record b.transfer { escape = true } }
apply_effect b effect_consume =
    if b.validated
    then record b { transfer = record b.transfer { consume_after_valid = true } }
    else record b { transfer = record b.transfer { consume_before_valid = true } }
apply_effect b _ = b

-- `if test { builder.apply(k) }`
abbrev pub apply_when : Bool → SummaryEffectKind → TransferBuilder → TransferBuilder
apply_when test k b = if test then apply_effect b k else b

abbrev pub has_flag : ℕ → ℕ → Bool
has_flag flags flag = not (bit_and flags flag == 0)

unfoldable pub apply_invalidations : TransferBuilder → ℕ → TransferBuilder
apply_invalidations b invalidations =
    apply_when (has_flag invalidations invalidates_replacement) effect_replace
      (apply_when (has_flag invalidations invalidates_mutation) effect_mutate b)

unfoldable pub apply_transfer : TransferBuilder → EffectTransfer → TransferBuilder
apply_transfer b t =
    if not t.available
    then b
    else let b1 = apply_when t.escape effect_escape b in
      let b2 = apply_when t.consume_before_valid effect_consume b1 in
      let b3 = apply_invalidations b2 t.pre_invalidations in
      let b4 = apply_when t.validation effect_validate b3 in
      let b5 = apply_when t.consume_after_valid effect_consume b4 in
      apply_invalidations b5 t.post_invalidations

abbrev pub kind_number : SummaryEffectKind → ℕ
kind_number effect_pure = 0
kind_number effect_preserve = 1
kind_number effect_validate = 2
kind_number effect_mutate = 3
kind_number effect_replace = 4
kind_number effect_escape = 5
kind_number effect_consume = 6
kind_number effect_terminal = 7
kind_number (other_effect s) = 8

-- The inner loop: every effect of one of the four kinds, in order.
unfoldable pub apply_effects_of_kind :
    SummaryEffectKind → List SummaryEffectKind → TransferBuilder → TransferBuilder
apply_effects_of_kind k [] b = b
apply_effects_of_kind k (e ∷ es) b =
    apply_effects_of_kind k es (if kind_number e == kind_number k then apply_effect b e else b)

unfoldable pub apply_local_effects : TransferBuilder → List SummaryEffectKind → TransferBuilder
unfolding apply_effects_of_kind
apply_local_effects b effects = apply_effects_of_kind effect_consume effects (
    apply_effects_of_kind effect_escape effects (
      apply_effects_of_kind effect_replace effects (apply_effects_of_kind effect_mutate effects b)))

unfoldable pub finish : TransferBuilder → EffectTransfer
finish b = record b.transfer { available = true }

unfoldable pub validation_transfer : EffectTransfer
unfolding apply_effect finish
validation_transfer = finish (apply_effect new_builder effect_validate)

unfoldable pub join_transfers : EffectTransfer → EffectTransfer → EffectTransfer
join_transfers left right =
    if not left.available then right else if not right.available then left else record {
      available = true;
      validation = left.validation || right.validation;
      pre_invalidations = bit_or left.pre_invalidations right.pre_invalidations;
      post_invalidations = bit_or left.post_invalidations right.post_invalidations;
      escape = left.escape || right.escape;
      consume_before_valid = left.consume_before_valid || right.consume_before_valid;
      consume_after_valid = left.consume_after_valid || right.consume_after_valid;
    }

-- `if test { effects = append(effects, e) }`
abbrev pub append_when : Bool → SummaryEffectFact → List SummaryEffectFact → List SummaryEffectFact
append_when test e es = if test then es ++ e ∷ [] else es

unfoldable pub append_invalidations :
    List SummaryEffectFact → ℕ → String → ℕ → List SummaryEffectFact
append_invalidations effects invalidations target_kind target_slot =
    append_when (has_flag invalidations invalidates_replacement)
      (new_target_effect effect_replace target_kind target_slot)
      (append_when (has_flag invalidations invalidates_mutation)
        (new_target_effect effect_mutate target_kind target_slot) effects)

unfoldable pub transfer_effects : EffectTransfer → String → ℕ → Option ℕ → List SummaryEffectFact
transfer_effects t target_kind target_slot result_slot =
    let e1 = append_when t.escape (new_target_effect effect_escape target_kind target_slot) [] in
    let e2 =
      append_when t.consume_before_valid (new_target_effect effect_consume target_kind target_slot)
        e1 in
    let e3 = append_invalidations e2 t.pre_invalidations target_kind target_slot in
    let e4 = append_when t.validation (new_summary_effect target_kind target_slot result_slot) e3 in
    let e5 =
      append_when t.consume_after_valid (new_target_effect effect_consume target_kind target_slot)
        e4 in
    append_invalidations e5 t.post_invalidations target_kind target_slot

-- A returning route through a function: a direct validation, or a call of a dependency, with the
-- local effects before and after it. (The instructions of the route are not read here.)
pub record SummaryRoute : Type 0 where
  pub direct : Bool
  pub dependency_key : String
  pub before : List SummaryEffectKind
  pub after : List SummaryEffectKind

unfoldable pub route_transfer : SummaryRoute → EffectTransfer → EffectTransfer
unfolding apply_local_effects apply_transfer finish
route_transfer route middle = finish (
    apply_local_effects (apply_transfer (apply_local_effects new_builder route.before) middle)
      route.after)

-- `transfers[key]` of a Go map, and the test of its second result and of `available`.
unfoldable pub middle_of : SummaryRoute → (String → Option EffectTransfer) → Option EffectTransfer
unfolding validation_transfer
middle_of route transfers =
    if route.direct then some validation_transfer else elim (transfers route.dependency_key) [
      | none ↦ none
      | some t ↦ if t.available then some t else none
    ]

-- The loop over the routes; `none` is the early return of a missing dependency.
unfoldable pub join_routes :
    (String → Option EffectTransfer)
    → Bool
    → List SummaryRoute
    → EffectTransfer
    → Bool
    → Option (EffectTransfer × Bool)
join_routes transfers require_all [] joined observed = some (joined, observed)
join_routes transfers require_all (route ∷ routes) joined observed =
    elim (middle_of route transfers) [
      | none ↦
          if require_all then none else join_routes transfers require_all routes joined observed
      | some middle ↦
          join_routes transfers require_all routes
            (join_transfers joined (route_transfer route middle)) true
    ]

unfoldable pub node_transfer :
    List SummaryRoute → (String → Option EffectTransfer) → Bool → EffectTransfer × Bool
unfolding join_routes
node_transfer routes transfers require_all =
    elim (join_routes transfers require_all routes empty_transfer false) [
      | none ↦ (empty_transfer, false)
      | some r ↦ r
    ]
