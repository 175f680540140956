-- ===== src/Backfill/Whole.antt =====
-- What the filling of `RunBackfill` commits, and what its first check says of the database.
use stellar_rpc.Prelude.{ℕ, Bool, List, []}
use stellar_rpc.SeqRange.{SeqRange}
use stellar_rpc.LedgerStore.{LedgerStore}
use stellar_rpc.Backfill.{Outside, DatabaseInfo, Filled, filled, stopped, out_of_fuel}
use stellar_rpc.Backfill.Tiles.{TilesUp}
use stellar_rpc.Backfill.Edges.{ReachesDown}
use stellar_rpc.Backfill.Run.{Created, created, not_created, create_panicked, Run, Ending, aborted}
use stellar_rpc.Backfill.Endings.{Concludes, Spans, Completes}

module _ (o : Outside) (answers : Bool) (before : LedgerStore) (db : DatabaseInfo)
    (oldest retention_window : ℕ) where
  abbrev pub Outcome : ℕ → ℕ → Run → Type 0
  Outcome n start r =
      Spans db.is_new_db db.sequences start (Completes o n oldest r.ending) r.down r.up
      × Concludes before.rows r.ending

  -- Whatever run follows upwards from `front`, the chunks span what they should.
  abbrev Backs : ℕ → ℕ → ℕ → Filled → Type 0
  Backs n start front (filled bound k down) =
      (up : List SeqRange) (top : ℕ) (ending : Ending)
      → TilesUp front up top
      → ((lo : ℕ) → ReachesDown o n oldest lo → Completes o n oldest ending lo top)
      → Spans db.is_new_db db.sequences start (Completes o n oldest ending) down up
  Backs n start front (stopped e down) =
      Spans db.is_new_db db.sequences start (Completes o n oldest (aborted e)) down []
  Backs n start front out_of_fuel = ⊥

unfoldable db_of : DatabaseInfo → Created → DatabaseInfo
db_of other (created db oldest) = db
db_of other not_created = other
db_of other create_panicked = other
