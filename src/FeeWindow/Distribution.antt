-- ===== src/FeeWindow/Distribution.antt =====
-- `computeFeeDistribution` meets its specification by counting.
use stellar_rpc.Prelude.{
  ℕ, zero, suc, ◌-◌, ◌*◌, ◌≤◌, ◌<◌, ◌≡◌, refl, ◌∙◌, sym, ap, some, List, [], ◌∷◌, arith, length,
  get_or, get_elem?, get_elem?-eq-get_or, leb, ltb, ◌==◌, u32, some_eq, ne→==,
}
use mathlib.Core.Path.{subst}
use native.Mathlib.Decide.{dec_lt}
use stellar_rpc.Prelude.Counting.{count, count_le, count_lt, count_if-le-length, IsSorted}
use stellar_rpc.FeeWindow.{
  FeeDistribution, percentile, distribution_of, compute_fee_distribution, cluster_loop, sort,
  no_fees,
}
use stellar_rpc.FeeWindow.Spec.{IsPercentile, IsMode, IsMax, IsMin, IsDistribution}
use stellar_rpc.FeeWindow.Sort.{count_if-sort, length-sort, sort-IsSorted}
use stellar_rpc.FeeWindow.Percentile.{max_fees, percentile_lem, rank, count_lt_of_le}
use stellar_rpc.FeeWindow.Mode.{cluster_loop-IsMode, last_val-cluster_loop, clusters_at, chosen}

count-get_or : (ys : List ℕ) (k : ℕ) → k < length ys → 0 < count (get_or ys k 0) ys
count-get_or [] k h = absurd (omega arith)
count-get_or (y ∷ ys) zero h = ground arith
count-get_or (y ∷ ys) (suc k) h = ground (arith, count-get_or ys k)

last-IsMax : (ys : List ℕ) (k : ℕ) → IsSorted ys → length ys ≡ suc k → IsMax ys (get_or ys k 0)
last-IsMax ys k s e = record {
  occurs = count-get_or ys k (omega arith);
  above =
      omega
        (arith, (rank ys k s (omega arith)).0, count_if-le-length (λ x. leb x (get_or ys k 0)) ys);
}

first-IsMin : (fee : ℕ) (rest : List ℕ) → IsSorted (fee ∷ rest) → IsMin (fee ∷ rest) fee
first-IsMin fee rest s = record {
  occurs = ground arith;
  below = ground (arith, count_lt_of_le fee rest s.0);
}

-- The distribution of sorted fees.
sorted_lem :
    (fee : ℕ) (rest : List ℕ) (ledgers : ℕ)
    → IsSorted (fee ∷ rest)
    → length (fee ∷ rest) < max_fees
    → (d : FeeDistribution) × (distribution_of (fee ∷ rest) ledgers ≡ some d)
      × IsDistribution (fee ∷ rest) ledgers d
unfolding distribution_of
sorted_lem fee rest ledgers s m =
    let top = get_or (fee ∷ rest) (length rest) 0 in
    let end = cluster_loop (clusters_at fee) rest in
    let top_at : get_elem? (fee ∷ rest) (length rest) ≡ some top =
      get_elem?-eq-get_or (fee ∷ rest) (length rest) 0 (omega arith) in
    let before : suc (length rest) - 1 ≡ length rest = omega arith in
    let is_last : end.last_val ≡ top =
      some_eq (sym (last_val-cluster_loop (clusters_at fee) rest) ∙ top_at) in
    let (v10, e10, h10) = at 10 (omega arith) (omega arith) in
    let (v20, e20, h20) = at 20 (omega arith) (omega arith) in
    let (v30, e30, h30) = at 30 (omega arith) (omega arith) in
    let (v40, e40, h40) = at 40 (omega arith) (omega arith) in
    let (v50, e50, h50) = at 50 (omega arith) (omega arith) in
    let (v60, e60, h60) = at 60 (omega arith) (omega arith) in
    let (v70, e70, h70) = at 70 (omega arith) (omega arith) in
    let (v80, e80, h80) = at 80 (omega arith) (omega arith) in
    let (v90, e90, h90) = at 90 (omega arith) (omega arith) in
    let (v95, e95, h95) = at 95 (omega arith) (omega arith) in
    let (v99, e99, h99) = at 99 (omega arith) (omega arith) in
    (
      record {
        maximum = top;
        minimum = fee;
        mode = chosen (record end { last_val = top });
        p10 = v10;
        p20 = v20;
        p30 = v30;
        p40 = v40;
        p50 = v50;
        p60 = v60;
        p70 = v70;
        p80 = v80;
        p90 = v90;
        p95 = v95;
        p99 = v99;
        fee_count = u32 (length (fee ∷ rest));
        ledger_count = ledgers;
      },
      rw (before, top_at, e10, e20, e30, e40, e50, e60, e70, e80, e90, e95, e99),
      record {
        maximum = last-IsMax (fee ∷ rest) (length rest) s refl;
        minimum = first-IsMin fee rest s;
        mode =
            subst (λ l. IsMode (fee ∷ rest) (chosen (record end { last_val = l }))) is_last
              (cluster_loop-IsMode fee rest s);
        p10 = h10;
        p20 = h20;
        p30 = h30;
        p40 = h40;
        p50 = h50;
        p60 = h60;
        p70 = h70;
        p80 = h80;
        p90 = h90;
        p95 = h95;
        p99 = h99;
        fee_count = refl;
        ledger_count = refl;
      },
    )
  where
    at :
        (p : ℕ)
        → 0 < p
        → p ≤ 100
        → (v : ℕ) × (percentile (fee ∷ rest) (length (fee ∷ rest)) p ≡ some v)
          × IsPercentile p (fee ∷ rest) v
    at p h k = percentile_lem (fee ∷ rest) p s (omega arith) m h k

IsPercentile-sort :
    (p : ℕ) (fees : List ℕ) (v : ℕ) → IsPercentile p (sort fees) v → IsPercentile p fees v
IsPercentile-sort p fees v h = record {
  reached = omega (arith, h.reached, count_if-sort (λ x. leb x v) fees, product);
  least = omega (arith, h.least, count_if-sort (λ x. ltb x v) fees, product);
}
  where
    product : p * length (sort fees) ≡ p * length fees
    product = ap (λ n. p * n) (length-sort fees)

IsMode-sort : (fees : List ℕ) (m : ℕ) → IsMode (sort fees) m → IsMode fees m
IsMode-sort fees m h = record {
  most = λ v. omega (arith, h.most v, same v, same m);
  smallest = λ v e. h.smallest v (omega (arith, same v, same m));
}
  where
    same : (v : ℕ) → count v (sort fees) ≡ count v fees
    same v = count_if-sort (λ x. x == v) fees

IsMax-sort : (fees : List ℕ) (v : ℕ) → IsMax (sort fees) v → IsMax fees v
IsMax-sort fees v h = record {
  occurs = omega (arith, h.occurs, count_if-sort (λ x. x == v) fees);
  above = omega (arith, h.above, count_if-sort (λ x. leb x v) fees, length-sort fees);
}

IsMin-sort : (fees : List ℕ) (v : ℕ) → IsMin (sort fees) v → IsMin fees v
IsMin-sort fees v h = record {
  occurs = omega (arith, h.occurs, count_if-sort (λ x. x == v) fees);
  below = omega (arith, h.below, count_if-sort (λ x. ltb x v) fees);
}

-- The order of the fees does not matter to any part of the specification.
IsDistribution-sort :
    (fees : List ℕ) (ledgers : ℕ) (d : FeeDistribution)
    → IsDistribution (sort fees) ledgers d
    → IsDistribution fees ledgers d
IsDistribution-sort fees ledgers d h = record {
  maximum = IsMax-sort fees d.maximum h.maximum;
  minimum = IsMin-sort fees d.minimum h.minimum;
  mode = IsMode-sort fees d.mode h.mode;
  p10 = IsPercentile-sort 10 fees d.p10 h.p10;
  p20 = IsPercentile-sort 20 fees d.p20 h.p20;
  p30 = IsPercentile-sort 30 fees d.p30 h.p30;
  p40 = IsPercentile-sort 40 fees d.p40 h.p40;
  p50 = IsPercentile-sort 50 fees d.p50 h.p50;
  p60 = IsPercentile-sort 60 fees d.p60 h.p60;
  p70 = IsPercentile-sort 70 fees d.p70 h.p70;
  p80 = IsPercentile-sort 80 fees d.p80 h.p80;
  p90 = IsPercentile-sort 90 fees d.p90 h.p90;
  p95 = IsPercentile-sort 95 fees d.p95 h.p95;
  p99 = IsPercentile-sort 99 fees d.p99 h.p99;
  fee_count = h.fee_count ∙ ap u32 (length-sort fees);
  ledger_count = h.ledger_count;
}

List-sorted_cases : (ys : List ℕ) → 0 < length ys → (fee : ℕ) × (rest : List ℕ) × (ys ≡ fee ∷ rest)
List-sorted_cases [] h = absurd (omega arith)
List-sorted_cases (fee ∷ rest) h = (fee, rest, refl)

-- Of at least one and fewer than 2^64 / 100 fees, in any order, `computeFeeDistribution` never panics
-- and returns their distribution: the largest and the smallest fee, the most frequent one (the
-- smallest of those), the percentiles by nearest rank, and the number of the fees modulo 2^32, with
-- the ledger count that it was given.
pub compute_fee_distribution_lem :
    (fees : List ℕ) (ledgers : ℕ)
    → 0 < length fees
    → length fees < max_fees
    → (d : FeeDistribution) × (compute_fee_distribution fees ledgers ≡ some d)
      × IsDistribution fees ledgers d
unfolding compute_fee_distribution
compute_fee_distribution_lem fees ledgers h m =
    let (fee, rest, e) = List-sorted_cases (sort fees) (omega (arith, length-sort fees)) in
    let (d, done, meets) =
      sorted_lem fee rest ledgers (subst IsSorted e (sort-IsSorted fees))
        (omega (arith, length-sort fees, ap length e)) in
    (
      d,
      rw (ne→== (length fees) 0 (omega arith), e) done,
      IsDistribution-sort fees ledgers d (subst (λ ys. IsDistribution ys ledgers d) (sym e) meets),
    )

pub compute_fee_distribution-nil :
    (ledgers : ℕ) → compute_fee_distribution [] ledgers ≡ some no_fees
unfolding compute_fee_distribution
compute_fee_distribution-nil ledgers = refl

-- A smaller value is at most as often reached as a larger one is passed.
count_le-le-count_lt : (w v : ℕ) (ys : List ℕ) → w < v → count_le w ys ≤ count_lt v ys
count_le-le-count_lt w v [] h = omega arith
count_le-le-count_lt w v (y ∷ ys) h = ground (arith, count_le-le-count_lt w v ys h)

-- A higher percentile is no smaller.
pub IsPercentile-mono :
    (p q : ℕ) (fees : List ℕ) (v w : ℕ)
    → p ≤ q
    → IsPercentile p fees v
    → IsPercentile q fees w
    → v ≤ w
IsPercentile-mono p q fees v w h hv hw = elim (dec_lt w v) [
  | no over ↦ omega arith
  | yes under ↦ absurd (
      omega (
        arith,
        hv.least,
        hw.reached,
        count_le-le-count_lt w v fees under,
        mul_mono p q (length fees) h,
      ))
]
  where
    mul_mono : (p q n : ℕ) → p ≤ q → p * n ≤ q * n
    mul_mono p q n k = grind arith
