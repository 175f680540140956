-- ===== src/FeeWindow/Ingest/Tests.antt =====
-- One ledger with a classic and a Soroban transaction.
use stellar_rpc.Prelude.{ℕ, ◌≡◌, refl, Option, none, some, List, [], ◌∷◌, arith}
use stellar_rpc.Window
use stellar_rpc.Window.{pos}
use stellar_rpc.Window.Queue
use stellar_rpc.FeeWindow.{
  new_fee_window, append_ledger_fees, settle, gather, compute_fee_distribution, distribution_of,
  sort, insert, percentile, cluster_loop, cluster_step,
}
use stellar_rpc.FeeWindow.Invariant.{new_fee_window-IsCurrent}
use stellar_rpc.FeeWindow.Ingest.{
  invoke_host_function, other_operation, Transaction, Read, transaction, LedgerCloseMeta,
  IngestError, v1, v4, other_meta, share, share_of, soroban_share, FeeWindows, ingest_fees,
  new_fee_windows, collect, collected, no_shares, bucket_of, ingest_classic, ingest_soroban,
  int64_to_uint64, classic_gap,
}
use stellar_rpc.FeeWindow.Ingest.Laws.{soroban_fees, classic_fees, first_error}
use stellar_rpc.FeeWindow.Ingest.Retry.{ingest_fees-twice}
use stellar_rpc.FeeWindow.Ingest.Lockstep.{IsLockstep, HasRoom}

abbrev payment : Transaction
payment = record {
  fee_charged = 400;
  operations = other_operation ∷ other_operation ∷ [];
  unsafe_meta = other_meta;
}

abbrev call : Transaction
call = record {
  fee_charged = 5000;
  operations = invoke_host_function ∷ [];
  unsafe_meta = v4 (some (v1 3000 1500));
}

abbrev reads : List Read
reads = transaction payment ∷ transaction call ∷ []

abbrev meta : LedgerCloseMeta
meta = record { reader = some reads; ledger_sequence = 8; ledger_close_time = pos 40 }

abbrev unreadable_meta : LedgerCloseMeta
unreadable_meta = record meta { reader = none }

collect-reads :
    collect reads no_shares
    ≡ collected (record { soroban_inclusion_fees = 500 ∷ []; classic_fees = 200 ∷ [] })
unfolding collect share share_of soroban_share
collect-reads = refl

new-IsLockstep : IsLockstep (new_fee_windows 3 2)
unfolding new_fee_windows
new-IsLockstep = record {
  classic = new_fee_window-IsCurrent 3 (omega arith) (omega arith);
  soroban = new_fee_window-IsCurrent 2 (omega arith) (omega arith);
  classic_run = unfold new_fee_window Window.new_ledger_bucket_window in tt;
  soroban_run = unfold new_fee_window Window.new_ledger_bucket_window in tt;
  same_next = unfold new_fee_window Window.new_ledger_bucket_window in refl;
}

abbrev windows : FeeWindows
windows = new_fee_windows 3 2

-- The windows after that ledger.
abbrev windows_of : Option (FeeWindows × Option IngestError) → FeeWindows
windows_of none = windows
windows_of (some (fw, e)) = fw

abbrev after_meta : FeeWindows
after_meta = windows_of (ingest_fees windows meta)

ingested : ingest_fees windows meta ≡ some (after_meta, none)
unfolding ingest_fees ingest_classic ingest_soroban collect share share_of soroban_share
    int64_to_uint64 append_ledger_fees Window.append Window.place Window.len Window.get
    new_fee_windows new_fee_window Window.new_ledger_bucket_window settle gather
    compute_fee_distribution distribution_of sort insert percentile cluster_loop cluster_step
ingested = refl

after_meta-HasRoom : HasRoom after_meta.classic_fee_window (bucket_of meta (classic_fees reads))
unfolding ingest_fees ingest_classic ingest_soroban collect share share_of soroban_share
    int64_to_uint64 append_ledger_fees Window.append Window.place Window.len Window.get
    new_fee_windows new_fee_window Window.new_ledger_bucket_window settle gather
    compute_fee_distribution distribution_of sort insert percentile cluster_loop cluster_step
    classic_fees Queue.push Queue.enqueue
after_meta-HasRoom = omega arith

ingest_fees-twice_example :
    (again : FeeWindows) × (e : ℕ) × (r : ℕ) × (ingest_fees after_meta meta
      ≡ some (again, some (classic_gap e r)))
ingest_fees-twice_example =
    ingest_fees-twice windows after_meta meta reads refl
      (unfold first_error share share_of soroban_share in refl) new-IsLockstep (omega arith)
      (unfold new_fee_windows new_fee_window Window.new_ledger_bucket_window Queue.push
          Queue.enqueue classic_fees share share_of soroban_share in
        omega arith)
      (unfold new_fee_windows new_fee_window Window.new_ledger_bucket_window Queue.push
          Queue.enqueue soroban_fees share share_of soroban_share in
        omega arith)
      ingested after_meta-HasRoom
