-- ===== src/FeeWindow/Spec.antt =====
-- What a fee distribution promises of a list of fees, by counting alone: no order, no index.
use stellar_rpc.Prelude.{ℕ, ◌*◌, ◌≤◌, ◌<◌, ◌≡◌, List, length, u32}
use stellar_rpc.Prelude.Counting.{count, count_le, count_lt}
use stellar_rpc.FeeWindow.{FeeDistribution}

-- The nearest-rank percentile: at least p% of the fees are at most `v`, and fewer are below it.
pub record IsPercentile (p : ℕ) (fees : List ℕ) (v : ℕ) : Type 0 where
  pub reached : p * length fees ≤ 100 * count_le v fees
  pub least : 100 * count_lt v fees < p * length fees

-- The most frequent fee, and the smallest of those.
pub record IsMode (fees : List ℕ) (m : ℕ) : Type 0 where
  pub most : (v : ℕ) → count v fees ≤ count m fees
  pub smallest : (v : ℕ) → count v fees ≡ count m fees → m ≤ v

-- A fee of the list, above or below all others.
pub record IsMax (fees : List ℕ) (v : ℕ) : Type 0 where
  pub occurs : 0 < count v fees
  pub above : count_le v fees ≡ length fees

pub record IsMin (fees : List ℕ) (v : ℕ) : Type 0 where
  pub occurs : 0 < count v fees
  pub below : count_lt v fees ≡ 0

pub record IsDistribution (fees : List ℕ) (ledgers : ℕ) (d : FeeDistribution) : Type 0 where
  pub maximum : IsMax fees d.maximum
  pub minimum : IsMin fees d.minimum
  pub mode : IsMode fees d.mode
  pub p10 : IsPercentile 10 fees d.p10
  pub p20 : IsPercentile 20 fees d.p20
  pub p30 : IsPercentile 30 fees d.p30
  pub p40 : IsPercentile 40 fees d.p40
  pub p50 : IsPercentile 50 fees d.p50
  pub p60 : IsPercentile 60 fees d.p60
  pub p70 : IsPercentile 70 fees d.p70
  pub p80 : IsPercentile 80 fees d.p80
  pub p90 : IsPercentile 90 fees d.p90
  pub p95 : IsPercentile 95 fees d.p95
  pub p99 : IsPercentile 99 fees d.p99
  pub fee_count : d.fee_count ≡ u32 (length fees)
  pub ledger_count : d.ledger_count ≡ ledgers
