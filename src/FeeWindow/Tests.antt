-- ===== src/FeeWindow/Tests.antt =====
-- The fee distribution at concrete fees.
use stellar_rpc.Prelude.{ℕ, ◌≡◌, refl, some, List, [], ◌∷◌, arith}
use stellar_rpc.Window
use stellar_rpc.Window.Queue
use stellar_rpc.Window.{LedgerBucket, pos}
use stellar_rpc.FeeWindow.{
  FeeDistribution, compute_fee_distribution, distribution_of, sort, insert, percentile,
  cluster_loop, cluster_step, append_ledger_fees, new_fee_window,
}
use stellar_rpc.FeeWindow.Spec.{IsDistribution, IsPercentile}
use stellar_rpc.FeeWindow.Distribution.{compute_fee_distribution_lem}
use stellar_rpc.FeeWindow.Invariant.{Settled, append_ledger_fees_lem, new_fee_window-IsCurrent}

abbrev fees : List ℕ
fees = 300 ∷ 100 ∷ 200 ∷ 200 ∷ 100 ∷ 700 ∷ []

abbrev expected : FeeDistribution
expected = record {
  maximum = 700;
  minimum = 100;
  mode = 100;
  p10 = 100;
  p20 = 100;
  p30 = 100;
  p40 = 200;
  p50 = 200;
  p60 = 200;
  p70 = 300;
  p80 = 300;
  p90 = 700;
  p95 = 700;
  p99 = 700;
  fee_count = 6;
  ledger_count = 2;
}

fees_distribution : compute_fee_distribution fees 2 ≡ some expected
unfolding compute_fee_distribution distribution_of sort insert percentile cluster_loop cluster_step
fees_distribution = refl

compute_fee_distribution_lem_example :
    (d : FeeDistribution) × (compute_fee_distribution fees 2 ≡ some d) × IsDistribution fees 2 d
compute_fee_distribution_lem_example =
    compute_fee_distribution_lem fees 2 (omega arith) (omega arith)

p40-is-200 : IsPercentile 40 fees 200
p40-is-200 = omega arith

p70-is-300 : IsPercentile 70 fees 300
p70-is-300 = omega arith

abbrev ledger_5 : LedgerBucket (List ℕ)
ledger_5 = record { ledger_seq = 5; ledger_close_timestamp = pos 25; bucket_content = fees }

append_ledger_fees_lem_example :
    Settled (new_fee_window 3) ledger_5 (append_ledger_fees (new_fee_window 3) ledger_5)
unfolding new_fee_window
append_ledger_fees_lem_example =
    append_ledger_fees_lem (new_fee_window 3) ledger_5
      (new_fee_window-IsCurrent 3 (omega arith) (omega arith))
      (unfold new_fee_window Window.new_ledger_bucket_window Queue.push Queue.enqueue in
        omega arith)
