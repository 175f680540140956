-- ===== src/Backfill/Tests.antt =====
-- The theorems on filling, at small databases and datastores.
use stellar_rpc.Prelude.{List, ℕ, ◌+◌, ◌-◌, ◌/◌, ◌*◌, ◌≡◌, refl, true, false, some, arith, some_eq}
use stellar_rpc.SeqRange.{is_empty, no_range}
use stellar_rpc.Backfill.{
  Outside, DatabaseInfo, FillBounds, Planned, planned, refused, range, backfill_chunks,
  frontfill_chunks, set_bounds, run_frontfill, need_backfill_phase,
}
use stellar_rpc.Backfill.Down.{FillsDown, backfill_chunks-FillsDown}
use stellar_rpc.Backfill.Up.{FillsUp, frontfill_chunks-FillsUp}
use stellar_rpc.Backfill.Bounds.{IsWindowStart, Fits, set_bounds-Fits}
use stellar_rpc.Window.{LedgerInfo, pos}
use stellar_rpc.LedgerStore.{LedgerStore}
use stellar_rpc.Backfill.Skip.{Gapless, run_frontfill_skips}

-- A datastore that always answers, whose tip grows by 200 with each call.
abbrev growing : Outside
growing = record {
  tip = λ k. some (5000 + 200 * k);
  cancelled_at = λ i. false;
  has_backend = λ i. true;
  prepares = λ r. true;
  ingests = λ r. true;
  prev_checkpoint = λ seq. 64 * ((seq + 1) / 64) - 1;
}

-- The same, at a standstill.
abbrev still : Outside
still = record growing { tip = λ k. some 5000 }

abbrev gap_bounds : FillBounds
gap_bounds = record { backfill = range 2001 4100; frontfill = range 4201 0; n_backfill = 3000 }

backfill_chunks-FillsDown_example : FillsDown 2 4101 (backfill_chunks still 2 1 gap_bounds)
backfill_chunks-FillsDown_example =
    backfill_chunks-FillsDown still 2 1 gap_bounds
      (λ k tip e. let t : 5000 ≡ tip = some_eq e in (omega arith, omega arith)) (omega arith)
      (omega arith) (omega arith) (omega arith)

frontfill_chunks-FillsUp_example : FillsUp 3001 5001 (frontfill_chunks growing (range 3001 5000))
frontfill_chunks-FillsUp_example =
    frontfill_chunks-FillsUp growing (range 3001 5000) (omega arith) (omega arith)

abbrev held : DatabaseInfo
held = record { sequences = range 4101 4200; is_new_db = false }

set_bounds-Fits_example :
    (start : ℕ) × IsWindowStart 5000 3000 2 start
    × Fits held 5000 3000 start (set_bounds growing held 2 3000)
set_bounds-Fits_example =
    set_bounds-Fits growing held 2 3000 5000 (omega arith) (omega arith)
      (λ e. (omega arith, omega arith, omega arith)) refl

-- The database ends just below the checkpoint 4991; the tip then passes the next one, 5055.
abbrev at_checkpoint : FillBounds
at_checkpoint = record { backfill = no_range; frontfill = range 4991 0; n_backfill = 3000 }

run_frontfill_skips_example : Gapless 4992 (run_frontfill growing 0 at_checkpoint)
unfolding need_backfill_phase is_empty
run_frontfill_skips_example =
    run_frontfill_skips growing at_checkpoint 5000 5200 refl refl refl refl (omega arith)
      (omega arith)

-- A datastore that stands still at the checkpoint 12.
abbrev at_twelve : Outside
at_twelve = record growing { tip = λ k. some 12; prev_checkpoint = λ seq. seq }

abbrev empty_info : DatabaseInfo
empty_info = record { sequences = no_range; is_new_db = true }

-- A store with these rows and a cold cache.
abbrev cold : List LedgerInfo → LedgerStore
cold rows = record {
  rows = rows;
  cache = record {
    latest_ledger_seq = 0;
    latest_ledger_close_time = pos 0;
    first_ledger_seq = 0;
    first_ledger_close_time = pos 0;
  };
  history_retention_window = 3;
}

abbrev first_of : Planned → ℕ
first_of (planned b) = b.frontfill.first
first_of (refused e) = 0
