-- ===== src/Base/Ints.antt =====
-- Signed integers over the native numbers, as far as the code prints and compares them.
use Prim.Native.Nat.{ℕ, zero, suc, ◌/◌, ◌%◌, ◌<◌}
use Prim.Native.String.{String, ◌++◌ as append}
use mathlib.Core.Path.{◌≡◌}
use mathlib.Core.Bool.{Bool, true, false}
use native.Mathlib.Omega.{arith}
use goplint.Base.Tests.{◌==◌, ltb, if◌then◌else◌}

pub data ℤ : Type 0 where
  pos negsuc : ℕ → ℤ

unfoldable pub int_eq : ℤ → ℤ → Bool
int_eq (pos a) (pos b) = a == b
int_eq (negsuc a) (negsuc b) = a == b
int_eq _ _ = false

unfoldable pub int_less : ℤ → ℤ → Bool
int_less (pos a) (pos b) = ltb a b
int_less (negsuc a) (negsuc b) = ltb b a
int_less (negsuc a) (pos b) = true
int_less (pos a) (negsuc b) = false

pub int_eq-≡ : (a b : ℤ) → int_eq a b ≡ true → a ≡ b
unfolding int_eq
int_eq-≡ a b h = ground arith

pub int_eq_refl : (a : ℤ) → int_eq a a ≡ true
unfolding int_eq
int_eq_refl (pos a) = ground arith
int_eq_refl (negsuc a) = ground arith

digit : ℕ → String
digit n =
    if n == 0
    then "0"
    else if n == 1
    then "1"
    else if n == 2
    then "2"
    else if n == 3
    then "3"
    else if n == 4
    then "4"
    else if n == 5
    then "5"
    else if n == 6
    then "6"
    else if n == 7
    then "7"
    else if n == 8
    then "8"
    else "9"

-- The digits of a number before `rest`, on fuel.
digits : ℕ → ℕ → String → String
unfolding digit
digits zero n rest = rest
digits (suc fuel) n rest =
    let more = digits fuel (n / 10) (append (digit (n % 10)) rest) in
    if ltb n 10 then append (digit n) rest else more

-- A number has less digits than its successor, so this fuel is enough.
abbrev decimal_nat : ℕ → String
decimal_nat n = digits (suc n) n ""

digits_enough : (f g n : ℕ) (rest : String) → n < f → n < g → digits f n rest ≡ digits g n rest
unfolding digits
digits_enough zero g n rest h k = absurd (omega arith)
digits_enough (suc f) zero n rest h k = absurd (omega arith)
digits_enough (suc f) (suc g) n rest h k =
    ground (arith, digits_enough f g (n / 10) (append (digit (n % 10)) rest))

-- `%d`
unfoldable pub decimal : ℤ → String
unfolding digits
decimal (pos n) = decimal_nat n
decimal (negsuc n) = append "-" (decimal_nat (suc n))
