-- ===== src/FeeWindow/Percentile.antt =====
-- The closure `percentile`: the index that it computes, and what stands there in sorted fees.
use stellar_rpc.Prelude.{
  ℕ, zero, suc, ◌+◌, ◌*◌, ◌/◌, ◌≤◌, ◌<◌, ◌≡◌, refl, some, List, [], ◌∷◌, arith, length, get_or,
  get_elem?-eq-get_or, u64, sub64,
}
use stellar_rpc.Prelude.Counting.{count_le, count_lt, IsSorted, All}
use stellar_rpc.FeeWindow.{percentile}
use stellar_rpc.FeeWindow.Spec.{IsPercentile}

-- Below this many fees no product of `computeFeeDistribution` reaches 2^64.
abbrev pub max_fees : ℕ
max_fees = 184467440737095515

All-get_or : (a : ℕ) (ys : List ℕ) (k : ℕ) → All (λ y. a ≤ y) ys → k < length ys → a ≤ get_or ys k 0
All-get_or a [] k h i = absurd (omega arith)
All-get_or a (y ∷ ys) zero h i = h.0
All-get_or a (y ∷ ys) (suc k) h i = All-get_or a ys k h.1 (omega arith)

pub count_lt_of_le : (v : ℕ) (ys : List ℕ) → All (λ y. v ≤ y) ys → count_lt v ys ≡ 0
count_lt_of_le v [] h = refl
count_lt_of_le v (y ∷ ys) h = ground (arith, count_lt_of_le v ys h.1)

-- In ascending order at least k + 1 elements are at most the one at index k, and at most k are
-- below it.
pub rank :
    (ys : List ℕ) (k : ℕ)
    → IsSorted ys
    → k < length ys
    → (k < count_le (get_or ys k 0) ys) × (count_lt (get_or ys k 0) ys ≤ k)
rank [] k s h = absurd (omega arith)
rank (y ∷ ys) zero s h = ground (arith, count_lt_of_le y ys s.0)
rank (y ∷ ys) (suc k) s h =
    let le : y ≤ get_or ys k 0 = All-get_or y ys k s.0 (omega arith) in
    let (below, above) = rank ys k s.1 (omega arith) in ground (arith, below, above)

-- The index of the p-th percentile among n values: one less than the ceiling of p * n / 100.
abbrev index_of : ℕ → ℕ → ℕ
index_of p n = sub64 (u64 (u64 (p * n) + 99) / 100) 1

product_le : (p n : ℕ) → p ≤ 100 → p * n ≤ 100 * n
product_le p n h = grind arith

product_pos : (p n : ℕ) → 0 < p → 0 < n → 0 < p * n
product_pos p n h k = grind arith

index_bounds :
    (p n : ℕ)
    → 0 < p
    → p ≤ 100
    → 0 < n
    → n < max_fees
    → (index_of p n < n) × (p * n ≤ 100 * (index_of p n + 1)) × (100 * index_of p n < p * n)
index_bounds p n hp hq hn hm =
    let top : p * n ≤ 100 * n = product_le p n hq in
    let pos : 0 < p * n = product_pos p n hp hn in index_arith (p * n) n pos top hm
  where
    index_arith :
        (t n : ℕ)
        → 0 < t
        → t ≤ 100 * n
        → n < max_fees
        → (sub64 (u64 (u64 t + 99) / 100) 1 < n)
          × (t ≤ 100 * (sub64 (u64 (u64 t + 99) / 100) 1 + 1))
          × (100 * sub64 (u64 (u64 t + 99) / 100) 1 < t)
    index_arith t n h k m = omega arith

-- Of sorted fees, not empty and fewer than 2^64 / 100, `percentile` returns a value for each p from
-- 1 to 100, and that is the p-th percentile by nearest rank.
pub percentile_lem :
    (ys : List ℕ) (p : ℕ)
    → IsSorted ys
    → 0 < length ys
    → length ys < max_fees
    → 0 < p
    → p ≤ 100
    → (v : ℕ) × (percentile ys (length ys) p ≡ some v) × IsPercentile p ys v
unfolding percentile
percentile_lem ys p s hn hm hp hq =
    let n = length ys in
    let (inside, over, under) = index_bounds p n hp hq hn hm in
    let (reached, least) = rank ys (index_of p n) s inside in
    (
      get_or ys (index_of p n) 0,
      get_elem?-eq-get_or ys (index_of p n) 0 inside,
      record { reached = omega arith; least = omega arith },
    )
