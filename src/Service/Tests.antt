-- ===== src/Service/Tests.antt =====
-- A service that ingests its first ledger, and one whose commit is refused.
use stellar_rpc.Prelude.{
  ap, inl, inr, ◌+◌, ◌-◌, ◌==◌, ne→==, ◌∷◌, ℕ, ◌≡◌, refl, true, false, Option, none, some, [],
  arith,
}
use stellar_rpc.Window
use stellar_rpc.Window.{pos}
use stellar_rpc.Window.Queue
use stellar_rpc.LedgerStore.Stale.{all_done}
use stellar_rpc.FeeWindow.{
  new_fee_window, append_ledger_fees, settle, gather, compute_fee_distribution, distribution_of,
  sort,
}
use stellar_rpc.FeeWindow.Ingest.{
  FeeWindows, IngestError, LedgerCloseMeta, new_fee_windows, ingest_fees, ingest_classic,
  ingest_soroban, collect, bucket_of,
}
use stellar_rpc.FeeWindow.Ingest.Laws.{soroban_fees, classic_fees}
use stellar_rpc.FeeWindow.Ingest.Lockstep.{IsLockstep, HasRoom}
use stellar_rpc.FeeWindow.Invariant.{new_fee_window-IsCurrent}
use stellar_rpc.Service.{Service, Calls}
use stellar_rpc.Service.Sound.{IsSound}
use stellar_rpc.LedgerStore.{
  get_latest_ledger_sequence, get_ledger_range, get_ledger_range_without_cache, edge_rows,
}
use stellar_rpc.Service.{get_next_ledger_sequence}
use stellar_rpc.Service.{NextLedger, next_ledger}
use stellar_rpc.Service.Range.{RangeCalls, ingest_range}
use stellar_rpc.Service.Range.Appends.{infos}
use stellar_rpc.Service.Range.Whole.{RangeOutcome, ingest_range-RangeOutcome}
use stellar_rpc.Service.Run.{run}
use stellar_rpc.Service.Run.Trace.{RunsFrom, run-RunsFrom}

-- A ledger with no transaction.
abbrev meta : LedgerCloseMeta
meta = record { reader = some []; ledger_sequence = 8; ledger_close_time = pos 40 }

abbrev calls : Calls
calls = record {
  get_ledger = some meta;
  new_tx = true;
  insert_transactions = true;
  insert_events = true;
  commit_calls = all_done;
}

abbrev refused_calls : Calls
refused_calls = record calls { commit_calls = record all_done { tx_commit = false } }

abbrev fresh : Service
fresh = record {
  store = record {
    rows = [];
    cache = record {
      latest_ledger_seq = 0;
      latest_ledger_close_time = pos 0;
      first_ledger_seq = 0;
      first_ledger_close_time = pos 0;
    };
    history_retention_window = 3;
  };
  fee_windows = new_fee_windows 3 2;
  latest_ingested_seq = 0;
  ingested = [];
}

new-IsLockstep : IsLockstep (new_fee_windows 3 2)
unfolding new_fee_windows
new-IsLockstep = record {
  classic = new_fee_window-IsCurrent 3 (omega arith) (omega arith);
  soroban = new_fee_window-IsCurrent 2 (omega arith) (omega arith);
  classic_run = unfold new_fee_window Window.new_ledger_bucket_window in tt;
  soroban_run = unfold new_fee_window Window.new_ledger_bucket_window in tt;
  same_next = unfold new_fee_window Window.new_ledger_bucket_window in refl;
}

fresh-IsSound : IsSound fresh
fresh-IsSound = record {
  store = record { ascending = tt; agrees = (refl, refl) };
  fees = new-IsLockstep;
}

fresh-HasRoom : HasRoom fresh.fee_windows.classic_fee_window (bucket_of meta (classic_fees []))
unfolding new_fee_windows new_fee_window Window.new_ledger_bucket_window Queue.push Queue.enqueue
    classic_fees
fresh-HasRoom = omega arith

soroban-HasRoom :
    HasRoom fresh.fee_windows.soroban_inclusion_fee_window (bucket_of meta (soroban_fees []))
unfolding new_fee_windows new_fee_window Window.new_ledger_bucket_window Queue.push Queue.enqueue
    soroban_fees
soroban-HasRoom = omega arith

abbrev windows_of : Option (FeeWindows × Option IngestError) → FeeWindows
windows_of none = new_fee_windows 3 2
windows_of (some (fw, e)) = fw

abbrev after_meta : FeeWindows
after_meta = windows_of (ingest_fees (new_fee_windows 3 2) meta)

ingested : ingest_fees (new_fee_windows 3 2) meta ≡ some (after_meta, none)
unfolding ingest_fees ingest_classic ingest_soroban collect append_ledger_fees Window.append
    Window.place Window.len Window.get new_fee_windows new_fee_window
    Window.new_ledger_bucket_window settle gather compute_fee_distribution distribution_of sort
ingested = refl

-- Ledgers without transactions, whatever their sequence.
abbrev meta_at : ℕ → LedgerCloseMeta
meta_at seq = record { reader = some []; ledger_sequence = seq; ledger_close_time = pos 40 }

abbrev range_calls : RangeCalls
range_calls = record {
  new_tx = true;
  of = λ seq. record calls { get_ledger = some (meta_at seq) };
  done_at = λ seq. seq == 12;
  commit_calls = all_done;
}

-- The context ends before ledger 12, the last of the range, is handed over.
ingest_range-RangeOutcome_example :
    RangeOutcome fresh
      (8 + 4 - 1)
      (infos meta_at 4 8)
      (ingest_range range_calls (record { first = 8; last = 12 }) fresh)
ingest_range-RangeOutcome_example =
    ingest_range-RangeOutcome range_calls fresh meta_at fresh-IsSound.store (omega arith)
      (omega arith) (record { first = 8; last = 12 }) 4 (omega arith) (omega arith) (inr refl)
      (omega arith) (omega arith, tt) (λ at lo hi. (ne→== at 12 (λ e. omega arith), inr refl, refl))

abbrev sequence_of : NextLedger → ℕ
sequence_of (next_ledger seq) = seq
sequence_of other = 0

starts_at_8 :
    (seq : ℕ)
    → (get_next_ledger_sequence true (λ seq. true) (some 8) fresh.store).1 ≡ next_ledger seq
    → 8 ≡ seq
unfolding get_next_ledger_sequence get_latest_ledger_sequence get_ledger_range
    get_ledger_range_without_cache edge_rows
starts_at_8 seq e = ap sequence_of e

-- The first ledger of an empty database, and then one that the backend does not have.
run-RunsFrom_example :
    let next = get_next_ledger_sequence true (λ seq. true) (some 8) fresh.store in
    RunsFrom
      (record fresh { store = next.0 })
      next.1
      (run true (λ seq. true) (some 8) (calls ∷ record calls { get_ledger = none } ∷ []) fresh)
run-RunsFrom_example =
    run-RunsFrom (λ seq. true) (some 8) (calls ∷ record calls { get_ledger = none } ∷ []) fresh
      fresh-IsSound (omega arith) (omega arith) tt
      (λ seq e. inr (
        meta,
        [],
        refl,
        starts_at_8 seq e,
        omega (arith, starts_at_8 seq e),
        refl,
        fresh-HasRoom,
        soroban-HasRoom,
        λ next e'. inl refl,
      ))
