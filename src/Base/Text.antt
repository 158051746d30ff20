-- ===== src/Base/Text.antt =====
-- Texts in the order of their code points, which is the order of Go on UTF-8 strings.
use Prim.Native.Nat.{ℕ, compare, Ordering}
use Prim.Native.Char.{code}
use Prim.Native.String.{String}
use mathlib.Core.List.{List, [], ◌∷◌}
use mathlib.Core.Bool.{Bool, true, false, ◌&&◌, ◌||◌}
use mathlib.Core.Logic.{◌⊎◌}
use mathlib.Core.Path.{◌≡◌, refl}
use native.Mathlib.Omega.{arith}
use text.Mathlib.Text.{◌==◌ as str_eq}
use text.Mathlib.TextEquality.{eq_iff}
use Prim.Native.String.{◌++◌ as append}
use goplint.Base.Tests.{if◌then◌else◌, ◌==◌}

abbrev pub codes : String → List ℕ
codes String.[] = []
codes (String.◌∷◌ c s) = code c ∷ codes s

unfoldable pub codes_less : List ℕ → List ℕ → Bool
codes_less [] [] = false
codes_less [] (y ∷ ys) = true
codes_less (x ∷ xs) [] = false
codes_less (x ∷ xs) (y ∷ ys) = elim (compare x y) [
  | Ordering.lt ↦ true
  | Ordering.eq ↦ codes_less xs ys
  | Ordering.gt ↦ false
]

unfoldable pub str_less : String → String → Bool
unfolding codes_less
str_less s t = codes_less (codes s) (codes t)

-- `slices.Equal` on texts.
unfoldable pub texts_eq : List String → List String → Bool
texts_eq [] [] = true
texts_eq (x ∷ xs) (y ∷ ys) = str_eq x y && texts_eq xs ys
texts_eq _ _ = false

pub texts_eq_refl : (xs : List String) → texts_eq xs xs ≡ true
unfolding texts_eq
texts_eq_refl [] = refl
texts_eq_refl (x ∷ xs) = ground (arith, eq_iff x x, texts_eq_refl xs)

unfoldable pub contains : List String → String → Bool
contains [] x = false
contains (y ∷ ys) x = str_eq y x || contains ys x

pub contains_head : (x : String) (xs : List String) → contains (x ∷ xs) x ≡ true
unfolding contains
contains_head x xs = ground (arith, eq_iff x x)

pub contains_tail :
    (y x : String) (xs : List String) → contains xs x ≡ true → contains (y ∷ xs) x ≡ true
unfolding contains
contains_tail y x xs h = ground arith

pub contains_cases :
    (y x : String) (xs : List String)
    → contains (y ∷ xs) x ≡ true
    → (y ≡ x) ⊎ (contains xs x ≡ true)
unfolding contains
contains_cases y x xs h = ground (arith, eq_iff y x)

-- `strings.Join`
abbrev pub join_texts : String → List String → String
join_texts separator [] = ""
join_texts separator (x ∷ []) = x
join_texts separator (x ∷ y ∷ ys) = append x (append separator (join_texts separator (y ∷ ys)))

-- `strings.Join` with no separator, for the formats.
abbrev pub concat_texts : List String → String
concat_texts = join_texts ""

abbrev pub insert_by {ℓ} : {A : Type ℓ} → (A → String) → A → List A → List A
insert_by key x [] = x ∷ []
insert_by key x (y ∷ ys) =
    let rest = insert_by key x ys in if str_less (key x) (key y) then x ∷ y ∷ ys else y ∷ rest

-- `sort.Slice` by a key. Values with the same key are the same.
unfoldable pub sort_by {ℓ} : {A : Type ℓ} → (A → String) → List A → List A
sort_by key [] = []
sort_by key (x ∷ xs) = insert_by key x (sort_by key xs)

is_prefix : List ℕ → List ℕ → Bool
is_prefix [] ys = true
is_prefix (x ∷ xs) [] = false
is_prefix (x ∷ xs) (y ∷ ys) = (x == y) && is_prefix xs ys

-- `strings.HasPrefix`
unfoldable pub has_prefix : String → String → Bool
unfolding is_prefix
has_prefix s prefix = is_prefix (codes prefix) (codes s)
