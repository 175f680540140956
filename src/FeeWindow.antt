-- ===== src/FeeWindow.antt =====
-- cmd/stellar-rpc/internal/feewindow/feewindow.go: the distribution of the fees of the latest
-- ledgers. `none` is a panic (an index out of range).
pub mod Sort
pub mod Spec
pub mod Mode
pub mod Percentile
pub mod Distribution
pub mod Ingest
pub mod Invariant
mod Tests
use stellar_rpc.Prelude.{
  ℕ, zero, suc, ◌+◌, ◌-◌, ◌*◌, ◌/◌, ◌%◌, ◌≡◌, Bool, true, false, Option, none, some, List, [], ◌∷◌,
  ◌++◌, ltb, leb, ◌==◌, if◌then◌else◌, length, get_elem?, u32, u64, sub64,
}
use stellar_rpc.Window.{
  LedgerBucket, LedgerBucketWindow, Appended, evicted, not_contiguous, len, get, append, reset,
  new_ledger_bucket_window,
}

-- `FeeDistribution`: uint64 fees and uint32 counts
pub record FeeDistribution : Type 0 where
  pub maximum : ℕ
  pub minimum : ℕ
  pub mode : ℕ
  pub p10 : ℕ
  pub p20 : ℕ
  pub p30 : ℕ
  pub p40 : ℕ
  pub p50 : ℕ
  pub p60 : ℕ
  pub p70 : ℕ
  pub p80 : ℕ
  pub p90 : ℕ
  pub p95 : ℕ
  pub p99 : ℕ
  pub fee_count : ℕ
  pub ledger_count : ℕ

-- `FeeDistribution{}`
abbrev pub no_fees : FeeDistribution
no_fees = record {
  maximum = 0;
  minimum = 0;
  mode = 0;
  p10 = 0;
  p20 = 0;
  p30 = 0;
  p40 = 0;
  p50 = 0;
  p60 = 0;
  p70 = 0;
  p80 = 0;
  p90 = 0;
  p95 = 0;
  p99 = 0;
  fee_count = 0;
  ledger_count = 0;
}

infixl 5 ◌>>=◌
abbrev pub ◌>>=◌ : {A B : Type 0} → Option A → (A → Option B) → Option B
none >>= f = none
some a >>= f = f a

-- `slices.Sort` puts the values in ascending order.
unfoldable pub insert : ℕ → List ℕ → List ℕ
insert x [] = x ∷ []
insert x (y ∷ ys) = if leb x y then x ∷ y ∷ ys else y ∷ insert x ys

unfoldable pub sort : List ℕ → List ℕ
sort [] = []
sort (x ∷ xs) = insert x (sort xs)

-- The variables of the loop that looks for the mode. The repetitions are Go's int and count
-- elements of a slice, so they stay below 2^63.
pub record Clusters : Type 0 where
  pub mode : ℕ
  pub last_val : ℕ
  pub max_repetitions : ℕ
  pub local_repetitions : ℕ

-- One round of the loop, at the value `fee`.
unfoldable pub cluster_step : Clusters → ℕ → Clusters
cluster_step s fee =
    if fee == s.last_val
    then record s { local_repetitions = s.local_repetitions + 1 }
    else if ltb s.max_repetitions s.local_repetitions
    then record {
      mode = s.last_val;
      last_val = fee;
      max_repetitions = s.local_repetitions;
      local_repetitions = 0;
    }
    else record s { last_val = fee; local_repetitions = 0 }

unfoldable pub cluster_loop : Clusters → List ℕ → Clusters
cluster_loop s [] = s
cluster_loop s (fee ∷ fees) = cluster_loop (cluster_step s fee) fees

-- The closure `percentile` of `computeFeeDistribution`.
unfoldable pub percentile : List ℕ → ℕ → ℕ → Option ℕ
percentile fees count p = get_elem? fees (sub64 (u64 (u64 (p * count) + 99) / 100) 1)

-- `computeFeeDistribution` after the sort
unfoldable pub distribution_of : List ℕ → ℕ → Option FeeDistribution
distribution_of [] ledger_count = none
distribution_of (fee ∷ rest) ledger_count = do
  let fees = fee ∷ rest
  let count = length fees
  let s =
      cluster_loop
        (record { mode = fee; last_val = fee; max_repetitions = 0; local_repetitions = 0 }) rest
  top ← get_elem? fees (count - 1)
  p10 ← percentile fees count 10
  p20 ← percentile fees count 20
  p30 ← percentile fees count 30
  p40 ← percentile fees count 40
  p50 ← percentile fees count 50
  p60 ← percentile fees count 60
  p70 ← percentile fees count 70
  p80 ← percentile fees count 80
  p90 ← percentile fees count 90
  p95 ← percentile fees count 95
  p99 ← percentile fees count 99
  some (record {
    maximum = top;
    minimum = fee;
    mode = if ltb s.max_repetitions s.local_repetitions then top else s.mode;
    p10 = p10;
    p20 = p20;
    p30 = p30;
    p40 = p40;
    p50 = p50;
    p60 = p60;
    p70 = p70;
    p80 = p80;
    p90 = p90;
    p95 = p95;
    p99 = p99;
    fee_count = u32 count;
    ledger_count = ledger_count;
  })

-- `computeFeeDistribution`
unfoldable pub compute_fee_distribution : List ℕ → ℕ → Option FeeDistribution
compute_fee_distribution fees ledger_count =
    if length fees == 0 then some no_fees else distribution_of (sort fees) ledger_count

-- `FeeWindow`. Every method holds the lock from its first line to its return.
pub record FeeWindow : Type 0 where
  pub fees_per_ledger : LedgerBucketWindow (List ℕ)
  pub distribution : FeeDistribution

-- `NewFeeWindow`
unfoldable pub new_fee_window : ℕ → FeeWindow
new_fee_window retention_window = record {
  fees_per_ledger = new_ledger_bucket_window (List ℕ) retention_window;
  distribution = no_fees;
}

-- The loop of `AppendLedgerFees`: `rounds` more buckets from index `i` on.
unfoldable pub gather : LedgerBucketWindow (List ℕ) → ℕ → ℕ → List ℕ → Option (List ℕ)
gather w zero i all_fees = some all_fees
gather w (suc rounds) i all_fees = elim (get w i) [
  | none ↦ none
  | some b ↦ gather w rounds (i + 1) (all_fees ++ b.bucket_content)
]

-- `AppendLedgerFees` once `Append` has returned: on its error (the two sequences) nothing more is
-- done; otherwise the distribution is computed anew from all the window's buckets.
unfoldable pub settle :
    FeeWindow
    → LedgerBucketWindow (List ℕ)
    → Appended (List ℕ)
    → Option (FeeWindow × Option (ℕ × ℕ))
settle fw w (not_contiguous expected received) =
    some (record fw { fees_per_ledger = w }, some (expected, received))
settle fw w (evicted _) = do
  all_fees ← gather w (len w) 0 []
  d ← compute_fee_distribution all_fees (len w)
  some (record { fees_per_ledger = w; distribution = d }, none)

-- `AppendLedgerFees`
unfoldable pub append_ledger_fees :
    FeeWindow → LedgerBucket (List ℕ) → Option (FeeWindow × Option (ℕ × ℕ))
append_ledger_fees fw fees = elim (append fw.fees_per_ledger fees) [
  | none ↦ none
  | some (w, r) ↦ settle fw w r
]

-- `Reset`
unfoldable pub reset_fees : FeeWindow → FeeWindow
reset_fees fw = record { fees_per_ledger = reset fw.fees_per_ledger; distribution = no_fees }

-- `GetFeeDistribution`
unfoldable pub get_fee_distribution : FeeWindow → FeeDistribution
get_fee_distribution fw = fw.distribution
