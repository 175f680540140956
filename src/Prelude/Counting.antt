-- ===== src/Prelude/Counting.antt =====
-- How many elements of a list pass a test, and ascending lists of numbers.
use Prim.Native.Nat.{ℕ, zero, suc, ◌+◌, ◌≤◌, ◌<◌}
use mathlib.Core.Path.{◌≡◌, refl, ap}
use mathlib.Core.Bool.{Bool, true, false}
use mathlib.Core.List.{List, [], ◌∷◌, ◌++◌}
use native.Mathlib.Omega.{arith}
use stellar_rpc.Prelude.Tests.{ltb, leb, ◌==◌, some_eq}
use mathlib.Core.Option.{some}
use stellar_rpc.Prelude.Lists.{length, get_elem?, set, replicate}

abbrev pub one_if : Bool → ℕ
one_if true = 1
one_if false = 0

module _ {ℓ} {A : Type ℓ} where
  abbrev pub count_if : (A → Bool) → List A → ℕ
  count_if p [] = 0
  count_if p (x ∷ xs) = one_if (p x) + count_if p xs

  pub count_if-append :
      (p : A → Bool) (xs ys : List A) → count_if p (xs ++ ys) ≡ count_if p xs + count_if p ys
  count_if-append p [] ys = omega arith
  count_if-append p (x ∷ xs) ys = omega (arith, count_if-append p xs ys)

  pub count_if-le-length : (p : A → Bool) (xs : List A) → count_if p xs ≤ length xs
  count_if-le-length p [] = omega arith
  count_if-le-length p (x ∷ xs) = ground (arith, count_if-le-length p xs)

  abbrev pub All {κ} : (A → Type κ) → List A → Type κ
  All P [] = Unit
  All P (x ∷ xs) = P x × All P xs

-- How often a number occurs, how many elements are at most it, and how many are below it.
abbrev pub count : ℕ → List ℕ → ℕ
count v = count_if (λ x. x == v)

abbrev pub count_le : ℕ → List ℕ → ℕ
count_le v = count_if (λ x. leb x v)

abbrev pub count_lt : ℕ → List ℕ → ℕ
count_lt v = count_if (λ x. ltb x v)

-- Ascending, equal neighbours allowed.
abbrev pub IsSorted : List ℕ → Type 0
IsSorted [] = Unit
IsSorted (x ∷ xs) = All (λ y. x ≤ y) xs × IsSorted xs

pub All-le_trans : (a b : ℕ) (xs : List ℕ) → a ≤ b → All (λ y. b ≤ y) xs → All (λ y. a ≤ y) xs
All-le_trans a b [] h k = tt
All-le_trans a b (x ∷ xs) h k = (omega arith, All-le_trans a b xs h k.1)

-- A number below every element does not occur.
pub count_of_lt : (v : ℕ) (xs : List ℕ) → All (λ y. v < y) xs → count v xs ≡ 0
count_of_lt v [] h = refl
count_of_lt v (x ∷ xs) h = ground (arith, count_of_lt v xs h.1)

-- Changing one element changes a count by that element alone.
pub count_if-set {ℓ} :
    {A : Type ℓ} (p : A → Bool) (xs : List A) (i : ℕ) (old new : A)
    → get_elem? xs i ≡ some old
    → count_if p (set xs i new) + one_if (p old) ≡ count_if p xs + one_if (p new)
count_if-set p [] i old new h = cc
count_if-set p (x ∷ xs) zero old new h = omega (arith, ap (λ a. one_if (p a)) (some_eq h))
count_if-set p (x ∷ xs) (suc i) old new h = omega (arith, count_if-set p xs i old new h)

pub count_if-replicate {ℓ} :
    {A : Type ℓ} (p : A → Bool) (n : ℕ) (a : A) → p a ≡ false → count_if p (replicate n a) ≡ 0
count_if-replicate p zero a h = refl
count_if-replicate p (suc n) a h = rw h (omega (arith, count_if-replicate p n a h))
