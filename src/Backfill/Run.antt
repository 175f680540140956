-- ===== src/Backfill/Run.antt =====
-- `NewBackfillMeta`, `RunBackfill` up to its last check (the first check of the database, the plan and the
-- two phases of filling), and that last check.
use stellar_rpc.Prelude.{
  ℕ, ◌+◌, Bool, true, false, Option, none, some, List, [], ltb, if◌then◌else◌, u32, sub32, max,
}
use stellar_rpc.SeqRange.{SeqRange, no_range}
use stellar_rpc.LedgerStore.{LedgerStore, Ranged, ranged, empty_db, query_failed, out_of_bounds}
use stellar_rpc.Backfill.{
  Outside, DatabaseInfo, FillBounds, FillError, Filled, filled, stopped, out_of_fuel, Planned,
  planned, refused, range, backfill_chunks, run_frontfill, set_bounds, need_backfill_phase,
}
use stellar_rpc.Backfill.Verify.{Verified, gapless, gap_detected, not_verified, verify_db_gapless}

-- What `NewBackfillMeta` ends with: what it found of the database and the datastore's oldest ledger,
-- an error, or a panic.
pub data Created : Type 0 where
  created : DatabaseInfo → (oldest : ℕ) → Created
  not_created : Created
  create_panicked : Created

abbrev pub created_with : DatabaseInfo → Option ℕ → Created
created_with db none = not_created
created_with db (some oldest) = created db oldest

-- `NewBackfillMeta`, by the answers of GetLedgerRange and of FindOldestLedgerSequence
unfoldable pub new_backfill_meta : Ranged → Option ℕ → Created
new_backfill_meta (ranged r) oldest =
    created_with
      (record {
        sequences = range r.first_ledger.sequence r.last_ledger.sequence;
        is_new_db = false;
      })
      oldest
new_backfill_meta empty_db oldest =
    created_with (record { sequences = no_range; is_new_db = true }) oldest
new_backfill_meta query_failed oldest = not_created
new_backfill_meta out_of_bounds oldest = create_panicked

-- `ledgerThreshold`
abbrev pub ledger_threshold : ℕ
ledger_threshold = 384

-- How a filling ends: with the number of ledgers to fill, with an error, or with what the first check
-- found.
pub data Ending : Type 0 where
  completed : (n_backfill : ℕ) → Ending
  aborted : FillError → Ending
  check_failed : Verified → Ending
  endless : Ending

-- A run: what it ends with, the sequences that it then takes the database to hold, and the chunks
-- that it committed downwards and upwards, each in that order.
pub record Run : Type 0 where
  pub ending : Ending
  pub sequences : SeqRange
  pub down : List SeqRange
  pub up : List SeqRange

abbrev pub run_of : Ending → SeqRange → List SeqRange → List SeqRange → Run
run_of e held down up = record { ending = e; sequences = held; down = down; up = up }

-- `verifyBounds`: whether it warns
unfoldable pub verify_bounds : ℕ → ℕ → ℕ → Bool
verify_bounds n_backfill min_seq max_seq =
    ltb (u32 (u32 (sub32 max_seq min_seq + 1) + ledger_threshold)) n_backfill

-- What the last check says: the ends of the database and whether it warns of too few ledgers, or why it
-- fails
pub data Checked : Type 0 where
  passed : (min_seq max_seq : ℕ) → (warned : Bool) → Checked
  not_passed : Verified → Checked

abbrev pub conclude : ℕ → Verified → Checked
conclude n (gapless low high) = passed low high (verify_bounds n low high)
conclude n (gap_detected expected got) = not_passed (gap_detected expected got)
conclude n not_verified = not_passed not_verified

-- The last check of `RunBackfill`, of the store as it is then
unfoldable pub last_check : ℕ → Bool → LedgerStore → Checked
last_check n answers store = conclude n (verify_db_gapless answers store).1

-- The filling, of the store that it finds; `answers` says whether SQLite answers the first check.
module _ (o : Outside) (answers : Bool) (before : LedgerStore) (db : DatabaseInfo)
    (oldest retention_window : ℕ) where
  -- What follows `runFrontfill`, where the database reaches down to `first`
  unfoldable pub after_frontfill : ℕ → ℕ → List SeqRange → Filled → Run
  after_frontfill n first down (filled next k up) =
      run_of (completed n) (range first (max (sub32 next 1) db.sequences.last)) down up
  after_frontfill n first down (stopped e up) =
      run_of (aborted e) (range first db.sequences.last) down up
  after_frontfill n first down out_of_fuel = run_of endless db.sequences down []

  -- What follows `runBackfill`, whose loop reports the left bound
  unfoldable pub after_backfill : FillBounds → Filled → Run
  after_backfill b (filled bound k down) =
      after_frontfill b.n_backfill (if need_backfill_phase b then bound else db.sequences.first)
        down (run_frontfill o k (record b { backfill = range bound b.backfill.last }))
  after_backfill b (stopped e down) = run_of (aborted e) db.sequences down []
  after_backfill b out_of_fuel = run_of endless db.sequences [] []

  -- `runBackfill`: no chunk where the phase is skipped
  unfoldable pub backfill_phase : FillBounds → Filled
  backfill_phase b =
      if need_backfill_phase b then backfill_chunks o oldest 1 b else filled b.backfill.first 1 []

  unfoldable pub after_bounds : Planned → Run
  after_bounds (planned b) = after_backfill b (backfill_phase b)
  after_bounds (refused e) = run_of (aborted e) db.sequences [] []

  unfoldable pub after_check : Verified → Run
  after_check (gapless low high) = after_bounds (set_bounds o db oldest retention_window)
  after_check (gap_detected expected got) =
      run_of (check_failed (gap_detected expected got)) db.sequences [] []
  after_check not_verified = run_of (check_failed not_verified) db.sequences [] []

  -- `RunBackfill` up to its last check
  unfoldable pub fill : Run
  fill = after_check (verify_db_gapless answers before).1
