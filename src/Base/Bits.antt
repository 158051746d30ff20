-- ===== src/Base/Bits.antt =====
-- The laws of `&` and `|` on words that serve as sets of flags.
use Prim.Native.Nat.{
  ℕ, zero, suc, ◌+◌, ◌*◌, ◌/◌, ◌%◌, ◌≤◌, ◌<◌, ◌-◌, ◌^◌, min, max, bit_and, bit_or, digits, bitwise,
  bit_and-bitwise, bit_or-bitwise,
}
use mathlib.Core.Path.{◌≡◌, refl, sym, ◌∙◌, ap, ap₂}
use native.Mathlib.Nat.{pow-suc, one-le-pow}
use native.Mathlib.Omega.{arith}

-- Fuel that covers the first word is enough, and more changes nothing.
module _ (z : ℕ → ℕ) (f : ℕ → ℕ → ℕ) where
  fuel_irrelevant : (n m a b : ℕ) → a ≤ n → a ≤ m → digits z f n a b ≡ digits z f m a b
  fuel_irrelevant zero zero a b p q = refl
  fuel_irrelevant (suc n) (suc m) zero b p q = refl
  fuel_irrelevant (suc n) zero zero b p q = refl
  fuel_irrelevant zero (suc m) zero b p q = refl
  fuel_irrelevant zero (suc m) (suc a) b p q = elim p [ ]
  fuel_irrelevant (suc n) zero (suc a) b p q = elim q [ ]
  fuel_irrelevant (suc n) (suc m) (suc a) b p q =
      ap (λ (t : ℕ). t * 2 + f (suc a % 2) (b % 2))
        (fuel_irrelevant n m (suc a / 2) (b / 2) (omega arith) (omega arith))

  bitwise_unfold :
      (a b : ℕ)
      → bitwise z f (suc a) b ≡ bitwise z f (suc a / 2) (b / 2) * 2 + f (suc a % 2) (b % 2)
  bitwise_unfold a b =
      ap (λ (t : ℕ). t * 2 + f (suc a % 2) (b % 2))
        (fuel_irrelevant a (suc a / 2) (suc a / 2) (b / 2) (omega arith) (omega arith))

zero-bit_or : (b : ℕ) → bit_or 0 b ≡ b
zero-bit_or b = bit_or-bitwise 0 b

zero-bit_and : (b : ℕ) → bit_and 0 b ≡ 0
zero-bit_and b = bit_and-bitwise 0 b

-- The last digit, and the rest.
or_split : (a b : ℕ) → bit_or a b ≡ bit_or (a / 2) (b / 2) * 2 + max (a % 2) (b % 2)
or_split zero b = omega (arith, zero-bit_or b, zero-bit_or (b / 2))
or_split (suc a) b = omega (
  arith,
  bit_or-bitwise (suc a) b,
  bit_or-bitwise (suc a / 2) (b / 2),
  bitwise_unfold (λ y. y) max a b,
)

and_split : (a b : ℕ) → bit_and a b ≡ bit_and (a / 2) (b / 2) * 2 + min (a % 2) (b % 2)
and_split zero b = omega (arith, zero-bit_and b, zero-bit_and (b / 2))
and_split (suc a) b = omega (
  arith,
  bit_and-bitwise (suc a) b,
  bit_and-bitwise (suc a / 2) (b / 2),
  bitwise_unfold (λ y. 0) min a b,
)

or_split_half : (a b : ℕ) → bit_or a b / 2 ≡ bit_or (a / 2) (b / 2)
or_split_half a b = omega (arith, or_split a b)

or_split_low : (a b : ℕ) → bit_or a b % 2 ≡ max (a % 2) (b % 2)
or_split_low a b = omega (arith, or_split a b)

and_split_half : (a b : ℕ) → bit_and a b / 2 ≡ bit_and (a / 2) (b / 2)
and_split_half a b = omega (arith, and_split a b)

and_split_low : (a b : ℕ) → bit_and a b % 2 ≡ min (a % 2) (b % 2)
and_split_low a b = omega (arith, and_split a b)

halves-eq : (a b : ℕ) → a / 2 ≡ b / 2 → a % 2 ≡ b % 2 → a ≡ b
halves-eq a b h l = omega arith

or_comm_upto : (n a b : ℕ) → a ≤ n → b ≤ n → bit_or a b ≡ bit_or b a
or_comm_upto zero zero zero p q = refl
or_comm_upto zero zero (suc b) p q = elim q [ ]
or_comm_upto zero (suc a) b p q = elim p [ ]
or_comm_upto (suc n) a b p q =
    omega (
      arith,
      or_split a b,
      or_split b a,
      or_comm_upto n (a / 2) (b / 2) (omega arith) (omega arith),
    )

pub bit_or_comm : (a b : ℕ) → bit_or a b ≡ bit_or b a
bit_or_comm a b = or_comm_upto (a + b) a b (omega arith) (omega arith)

pub bit_or-zero : (a : ℕ) → bit_or a 0 ≡ a
bit_or-zero a = bit_or_comm a 0 ∙ zero-bit_or a

and_comm_upto : (n a b : ℕ) → a ≤ n → b ≤ n → bit_and a b ≡ bit_and b a
and_comm_upto zero zero zero p q = refl
and_comm_upto zero zero (suc b) p q = elim q [ ]
and_comm_upto zero (suc a) b p q = elim p [ ]
and_comm_upto (suc n) a b p q = omega (
  arith,
  and_split a b,
  and_split b a,
  and_comm_upto n (a / 2) (b / 2) (omega arith) (omega arith),
)

pub bit_and_comm : (a b : ℕ) → bit_and a b ≡ bit_and b a
bit_and_comm a b = and_comm_upto (a + b) a b (omega arith) (omega arith)

or_idem_upto : (n a : ℕ) → a ≤ n → bit_or a a ≡ a
or_idem_upto zero zero p = refl
or_idem_upto zero (suc a) p = elim p [ ]
or_idem_upto (suc n) a p = omega (arith, or_split a a, or_idem_upto n (a / 2) (omega arith))

pub bit_or_idem : (a : ℕ) → bit_or a a ≡ a
bit_or_idem a = or_idem_upto a a (omega arith)

and_idem_upto : (n a : ℕ) → a ≤ n → bit_and a a ≡ a
and_idem_upto zero zero p = refl
and_idem_upto zero (suc a) p = elim p [ ]
and_idem_upto (suc n) a p = omega (arith, and_split a a, and_idem_upto n (a / 2) (omega arith))

pub bit_and_idem : (a : ℕ) → bit_and a a ≡ a
bit_and_idem a = and_idem_upto a a (omega arith)

or_assoc_upto :
    (n a b c : ℕ) → a ≤ n → b ≤ n → c ≤ n → bit_or (bit_or a b) c ≡ bit_or a (bit_or b c)
or_assoc_upto zero zero zero zero p q r = refl
or_assoc_upto zero zero zero (suc c) p q r = elim r [ ]
or_assoc_upto zero zero (suc b) c p q r = elim q [ ]
or_assoc_upto zero (suc a) b c p q r = elim p [ ]
or_assoc_upto (suc n) a b c p q r =
    halves-eq _ _
      (rw (or_split_half, or_split_half a b, or_split_half a (bit_or b c), or_split_half b c)
        (or_assoc_upto n (a / 2) (b / 2) (c / 2) (omega arith) (omega arith) (omega arith)))
      (rw (or_split_low, or_split_low a b, or_split_low a (bit_or b c), or_split_low b c)
        (omega arith))

pub bit_or_assoc : (a b c : ℕ) → bit_or (bit_or a b) c ≡ bit_or a (bit_or b c)
bit_or_assoc a b c = or_assoc_upto (a + b + c) a b c (omega arith) (omega arith) (omega arith)

-- `&` distributes over `|`.
and_or_upto :
    (n a b c : ℕ)
    → a ≤ n
    → b ≤ n
    → c ≤ n
    → bit_and (bit_or a b) c ≡ bit_or (bit_and a c) (bit_and b c)
and_or_upto zero zero zero zero p q r = refl
and_or_upto zero zero zero (suc c) p q r = elim r [ ]
and_or_upto zero zero (suc b) c p q r = elim q [ ]
and_or_upto zero (suc a) b c p q r = elim p [ ]
and_or_upto (suc n) a b c p q r =
    halves-eq _ _
      (rw
        (
          and_split_half (bit_or a b) c,
          or_split_half a b,
          or_split_half (bit_and a c) (bit_and b c),
          and_split_half a c,
          and_split_half b c,
        )
        (and_or_upto n (a / 2) (b / 2) (c / 2) (omega arith) (omega arith) (omega arith)))
      (rw
        (
          and_split_low (bit_or a b) c,
          or_split_low a b,
          or_split_low (bit_and a c) (bit_and b c),
          and_split_low a c,
          and_split_low b c,
        )
        (omega arith))

pub bit_or-and : (a b c : ℕ) → bit_and (bit_or a b) c ≡ bit_or (bit_and a c) (bit_and b c)
bit_or-and a b c = and_or_upto (a + b + c) a b c (omega arith) (omega arith) (omega arith)

and_absorb_upto : (n a b : ℕ) → a ≤ n → b ≤ n → bit_and a (bit_or a b) ≡ a
and_absorb_upto zero zero zero p q = refl
and_absorb_upto zero zero (suc b) p q = elim q [ ]
and_absorb_upto zero (suc a) b p q = elim p [ ]
and_absorb_upto (suc n) a b p q =
    halves-eq _ _
      (rw (and_split_half, or_split_half a b)
        (and_absorb_upto n (a / 2) (b / 2) (omega arith) (omega arith)))
      (rw (and_split_low, or_split_low a b) (omega arith))

-- A set of flags lies within its union with another.
pub bit_and-or_left : (a b : ℕ) → bit_and a (bit_or a b) ≡ a
bit_and-or_left a b = and_absorb_upto (a + b) a b (omega arith) (omega arith)

pub bit_and-or_right : (a b : ℕ) → bit_and b (bit_or a b) ≡ b
bit_and-or_right a b = rw (bit_or_comm a b) (bit_and-or_left b a)

or_absorb_upto : (n a b : ℕ) → a ≤ n → b ≤ n → bit_or (bit_and a b) b ≡ b
or_absorb_upto zero zero zero p q = refl
or_absorb_upto zero zero (suc b) p q = elim q [ ]
or_absorb_upto zero (suc a) b p q = elim p [ ]
or_absorb_upto (suc n) a b p q =
    halves-eq _ _
      (rw (or_split_half, and_split_half a b)
        (or_absorb_upto n (a / 2) (b / 2) (omega arith) (omega arith)))
      (rw (or_split_low, and_split_low a b) (omega arith))

pub bit_or-and_left : (a b : ℕ) → bit_or (bit_and a b) b ≡ b
bit_or-and_left a b = or_absorb_upto (a + b) a b (omega arith) (omega arith)

-- Inclusion, in the form of the tests of the code, and as a union.
pub or_of_within : (a b : ℕ) → bit_and a b ≡ a → bit_or a b ≡ b
or_of_within a b h = ap (λ (t : ℕ). bit_or t b) (sym h) ∙ bit_or-and_left a b

pub within_of_or : (a b : ℕ) → bit_or a b ≡ b → bit_and a b ≡ a
within_of_or a b h = ap (bit_and a) (sym h) ∙ bit_and-or_left a b

or_zero_upto : (n a b : ℕ) → a ≤ n → b ≤ n → bit_or a b ≡ 0 → a ≡ 0
or_zero_upto zero zero b p q h = refl
or_zero_upto zero (suc a) b p q h = elim p [ ]
or_zero_upto (suc n) a b p q h = omega (
  arith,
  or_split a b,
  or_zero_upto n (a / 2) (b / 2) (omega arith) (omega arith) (omega (arith, or_split a b)),
)

pub bit_or-eq-zero : (a b : ℕ) → bit_or a b ≡ 0 → a ≡ 0
bit_or-eq-zero a b h = or_zero_upto (a + b) a b (omega arith) (omega arith) h

pub within_or_right : (a b c : ℕ) → bit_and a b ≡ a → bit_and a (bit_or b c) ≡ a
within_or_right a b c h =
    within_of_or a (bit_or b c)
      (sym (bit_or_assoc a b c) ∙ ap (λ (t : ℕ). bit_or t c) (or_of_within a b h))

-- Unions of unions.
pub or_or_right : (a b c : ℕ) → bit_or (bit_or a c) b ≡ bit_or (bit_or a b) c
or_or_right a b c = bit_or_assoc a c b ∙ ap (bit_or a) (bit_or_comm c b) ∙ sym (bit_or_assoc a b c)

pub or_or_left : (a b c : ℕ) → bit_or a (bit_or b c) ≡ bit_or (bit_or a b) c
or_or_left a b c = sym (bit_or_assoc a b c)

pub or_or_both : (a b c : ℕ) → bit_or (bit_or a c) (bit_or b c) ≡ bit_or (bit_or a b) c
or_or_both a b c =
    or_or_right a (bit_or b c) c
    ∙ ap (λ (t : ℕ). bit_or t c) (or_or_left a b c)
    ∙ bit_or_assoc (bit_or a b) c c
    ∙ ap (bit_or (bit_or a b)) (bit_or_idem c)

pub within_or_or : (a b c : ℕ) → bit_and a b ≡ a → bit_and (bit_or a c) (bit_or b c) ≡ bit_or a c
within_or_or a b c h =
    within_of_or (bit_or a c) (bit_or b c)
      (or_or_both a b c ∙ ap (λ (t : ℕ). bit_or t c) (or_of_within a b h))

half_mask : (k : ℕ) → (2 ^ suc k - 1) / 2 ≡ 2 ^ k - 1
half_mask k = omega (arith, pow-suc 2 k, one-le-pow k 2)

pub and_or_zero : (u a b : ℕ) → bit_and u a ≡ 0 → bit_and u b ≡ 0 → bit_and u (bit_or a b) ≡ 0
and_or_zero u a b p q =
    bit_and_comm u (bit_or a b)
    ∙ bit_or-and a b u
    ∙ ap₂ bit_or (bit_and_comm a u ∙ p) (bit_and_comm b u ∙ q)

-- A word of `k` bits lies within the mask of `k` ones.
pub within_full : (k u : ℕ) → u < 2 ^ k → bit_and u (2 ^ k - 1) ≡ u
within_full zero zero h = refl
within_full zero (suc u) h = absurd (omega arith)
within_full (suc k) u h = omega (
  arith,
  pow-suc 2 k,
  one-le-pow k 2,
  and_split u (2 ^ suc k - 1),
  within_full k (u / 2) (omega (arith, pow-suc 2 k)),
  ap (bit_and (u / 2)) (half_mask k),
)

pub bit_and-none : (a : ℕ) → bit_and a 0 ≡ 0
bit_and-none a = bit_and_comm a 0 ∙ zero-bit_and a
