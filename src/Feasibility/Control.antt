-- ===== src/Feasibility/Control.antt =====
-- `protocolAnalysisControl` of goplint/cfa_feasibility.go. The clock is not part of the program: a
-- control answers its n-th question by `e n`, whatever that is, and a number counts the questions.
use goplint.Base.{ℕ, suc, Bool, true, false, Option, none, some, ◌≡◌, refl, arith}

abbrev pub Control : Type 0
Control = Option (ℕ → Bool)

-- `feasibilityDeadlineReached` at the n-th question; a nil control never expires.
abbrev pub deadline_reached : Control → ℕ → Bool
deadline_reached none n = false
deadline_reached (some e) n = e n

-- A step that may be cut short: `none` is the early return on expiry.
abbrev pub Timed {ℓ} : Type ℓ → Type ℓ
Timed A = ℕ → Option A × ℕ

module _ {ℓ} {A : Type ℓ} where
  abbrev pub pure : A → Timed A
  pure a n = (some a, n)

  -- `if feasibilityDeadlineReached(control) { return expired }`, and then the rest.
  abbrev pub checkpoint : Control → Timed A → Timed A
  checkpoint c rest n = elim (deadline_reached c n) [ true ↦ (none, suc n) | false ↦ rest (suc n) ]

module _ {ℓ κ} {A : Type ℓ} {B : Type κ} where
  abbrev pub continue : (A → Timed B) → Option A × ℕ → Option B × ℕ
  continue f (none, n) = (none, n)
  continue f (some a, n) = f a n

  infixl 5 ◌>>=◌
  abbrev pub ◌>>=◌ : Timed A → (A → Timed B) → Timed B
  ◌>>=◌ m f n = continue f (m n)

-- A step that ends in time has passed its checkpoint.
pub checkpoint-eq_some {ℓ} :
    {A : Type ℓ} (c : Control) (m : Timed A) (n : ℕ) (a : A)
    → (checkpoint c m n).0 ≡ some a
    → (m (suc n)).0 ≡ some a
checkpoint-eq_some c m n a h = ground arith

continue-eq_some {ℓ κ} :
    {A : Type ℓ} {B : Type κ} (f : A → Timed B) (r : Option A × ℕ) (b : B)
    → (continue f r).0 ≡ some b
    → (a : A) × (r.0 ≡ some a) × ((f a r.1).0 ≡ some b)
continue-eq_some f (none, n) b h = cc
continue-eq_some f (some a, n) b h = (a, refl, h)

-- Two steps that end in time, one by one.
pub >>=-eq_some {ℓ κ} :
    {A : Type ℓ} {B : Type κ} (m : Timed A) (f : A → Timed B) (n : ℕ) (b : B)
    → ((m >>= f) n).0 ≡ some b
    → (a : A) × ((m n).0 ≡ some a) × ((f a (m n).1).0 ≡ some b)
>>=-eq_some m f n b h = continue-eq_some f (m n) b h
