-- ===== src/FeeWindow/Sort.antt =====
-- The sort puts the same fees in ascending order.
use stellar_rpc.Prelude.{
  ℕ, ◌+◌, ◌≤◌, ◌≡◌, refl, ◌∙◌, ap, Bool, List, [], ◌∷◌, arith, leb, leb→le, leb→lt, Bool-cases, inl,
  inr, length,
}
use stellar_rpc.Prelude.Counting.{count_if, one_if, IsSorted, All, All-le_trans}
use stellar_rpc.FeeWindow.{insert, sort}

count_if-insert :
    (p : ℕ → Bool) (x : ℕ) (ys : List ℕ) → count_if p (insert x ys) ≡ one_if (p x) + count_if p ys
unfolding insert
count_if-insert p x [] = refl
count_if-insert p x (y ∷ ys) = elim (Bool-cases (leb x y)) [
  | inl le ↦ rw le
  | inr gt ↦ rw gt (omega (arith, count_if-insert p x ys))
]

-- No fee is lost or added: every test counts the same.
pub count_if-sort : (p : ℕ → Bool) (xs : List ℕ) → count_if p (sort xs) ≡ count_if p xs
unfolding sort
count_if-sort p [] = refl
count_if-sort p (x ∷ xs) =
    count_if-insert p x (sort xs) ∙ ap (◌+◌ (one_if (p x))) (count_if-sort p xs)

length-insert : (x : ℕ) (ys : List ℕ) → length (insert x ys) ≡ length ys + 1
unfolding insert
length-insert x [] = refl
length-insert x (y ∷ ys) = elim (Bool-cases (leb x y)) [
  | inl le ↦ rw le (omega arith)
  | inr gt ↦ rw gt (omega (arith, length-insert x ys))
]

pub length-sort : (xs : List ℕ) → length (sort xs) ≡ length xs
unfolding sort
length-sort [] = refl
length-sort (x ∷ xs) = omega (arith, length-insert x (sort xs), length-sort xs)

All-insert : (a x : ℕ) (ys : List ℕ) → a ≤ x → All (λ y. a ≤ y) ys → All (λ y. a ≤ y) (insert x ys)
unfolding insert
All-insert a x [] h k = (h, tt)
All-insert a x (y ∷ ys) h k = elim (Bool-cases (leb x y)) [
  | inl le ↦ rw le (h, k)
  | inr gt ↦ rw gt (k.0, All-insert a x ys h k.1)
]

insert-IsSorted : (x : ℕ) (ys : List ℕ) → IsSorted ys → IsSorted (insert x ys)
unfolding insert
insert-IsSorted x [] h = (tt, tt)
insert-IsSorted x (y ∷ ys) h = elim (Bool-cases (leb x y)) [
  | inl le ↦ rw le ((leb→le _ _ le, All-le_trans x y ys (leb→le _ _ le) h.0), h)
  | inr gt ↦ rw gt (All-insert y x ys (omega (arith, leb→lt _ _ gt)) h.0, insert-IsSorted x ys h.1)
]

pub sort-IsSorted : (xs : List ℕ) → IsSorted (sort xs)
unfolding sort
sort-IsSorted [] = tt
sort-IsSorted (x ∷ xs) = insert-IsSorted x (sort xs) (sort-IsSorted xs)
