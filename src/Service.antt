-- ===== src/Service.antt =====
-- cmd/stellar-rpc/internal/ingest/service.go: writing one ledger, or a range of them, to the database
-- and to the fee windows. What the ledger backend and the database's other tables answer is a
-- parameter; the metrics and the log are left out.
pub mod Sound
pub mod Retry
pub mod Turn
pub mod Range
pub mod Run
mod Tests
use stellar_rpc.Prelude.{
  ℕ, ◌≡◌, Bool, true, false, not, Option, none, some, List, [], ◌∷◌, ◌++◌, ltb, if◌then◌else◌, ◌+◌,
  ◌==◌, u32,
}
use stellar_rpc.Window.{LedgerInfo}
use stellar_rpc.LedgerStore.{
  LedgerStore, insert_ledger, commit, get_latest_ledger_sequence, CommitCalls, CommitError,
}
use stellar_rpc.FeeWindow.Ingest.{LedgerCloseMeta, FeeWindows, IngestError, ingest_fees}

-- `Service`: `ingested` are the calls of onLedgerIngested.
pub record Service : Type 0 where
  pub store : LedgerStore
  pub fee_windows : FeeWindows
  pub latest_ingested_seq : ℕ
  pub ingested : List ℕ

-- The answers of the calls of one `ingest`
pub record Calls : Type 0 where
  pub get_ledger : Option LedgerCloseMeta
  pub new_tx : Bool
  pub insert_transactions : Bool
  pub insert_events : Bool
  pub commit_calls : CommitCalls

pub data ServiceError : Type 0 where
  no_ledger no_tx ledger_not_inserted transactions_not_inserted events_not_inserted : ServiceError
  fees_not_ingested : IngestError → ServiceError
  commit_failed : CommitError → ServiceError

-- The rows that the transaction sees, or the first error.
pub data Written : Type 0 where
  written : List LedgerInfo → Written
  unwritten : ServiceError → Written

abbrev pub ledger_info : LedgerCloseMeta → LedgerInfo
ledger_info meta = record { sequence = meta.ledger_sequence; close_time = meta.ledger_close_time }

-- `ingestLedgerCloseMeta`
unfoldable pub ingest_ledger_close_meta : Calls → List LedgerInfo → LedgerCloseMeta → Written
ingest_ledger_close_meta c rows meta = elim (insert_ledger (ledger_info meta) rows) [
  | none ↦ unwritten ledger_not_inserted
  | some rows' ↦
      if not c.insert_transactions
      then unwritten transactions_not_inserted
      else if not c.insert_events
      then unwritten events_not_inserted
      else written rows'
]

-- The end of `ingest`, after `Commit`
unfoldable pub after_commit :
    ℕ → Service → LedgerStore × Option CommitError → Service × Option ServiceError
after_commit seq s (store, some e) = (record s { store = store }, some (commit_failed e))
after_commit seq s (store, none) = (
  record s {
    store = store;
    ingested = s.ingested ++ (seq ∷ []);
    latest_ingested_seq = if ltb s.latest_ingested_seq seq then seq else s.latest_ingested_seq;
  },
  none,
)

-- `ingest` after `IngestFees`, whose windows stay as they are if `Commit` fails
unfoldable pub after_fees :
    Calls
    → ℕ
    → Service
    → LedgerCloseMeta
    → List LedgerInfo
    → Option (FeeWindows × Option IngestError)
    → Option (Service × Option ServiceError)
after_fees c seq s meta rows none = none
after_fees c seq s meta rows (some (fw, some e)) =
    some (record s { fee_windows = fw }, some (fees_not_ingested e))
after_fees c seq s meta rows (some (fw, none)) = some (
    after_commit seq (record s { fee_windows = fw })
      (commit c.commit_calls s.store rows (ledger_info meta)))

-- `ingest`; `none` is a panic.
unfoldable pub ingest : Calls → ℕ → Service → Option (Service × Option ServiceError)
ingest c seq s = elim c.get_ledger [
  | none ↦ some (s, some no_ledger)
  | some meta ↦
      if not c.new_tx
      then some (s, some no_tx)
      else elim (ingest_ledger_close_meta c s.store.rows meta) [
        | unwritten e ↦ some (s, some e)
        | written rows ↦ after_fees c seq s meta rows (ingest_fees s.fee_windows meta)
      ]
]

pub data NextLedger : Type 0 where
  next_ledger : ℕ → NextLedger
  db_failed no_root empty_archives not_prepared : NextLedger

-- `PrepareRange` from a sequence on
abbrev pub prepared : (ℕ → Bool) → ℕ → NextLedger
prepared prepares seq = if prepares seq then next_ledger seq else not_prepared

-- The current ledger of the history archives, on an empty database.
abbrev pub from_archive : (ℕ → Bool) → Option ℕ → NextLedger
from_archive prepares none = no_root
from_archive prepares (some current) =
    if current == 0 then empty_archives else prepared prepares current

abbrev pub next_after : Bool → (ℕ → Bool) → Option ℕ → Option ℕ → NextLedger
next_after answers prepares root (some current) = prepared prepares (u32 (current + 1))
next_after true prepares root none = from_archive prepares root
next_after false prepares root none = db_failed

-- `getNextLedgerSequence`, with what `GetRootHAS` returns
unfoldable pub get_next_ledger_sequence :
    Bool → (ℕ → Bool) → Option ℕ → LedgerStore → LedgerStore × NextLedger
get_next_ledger_sequence answers prepares root s =
    let out = get_latest_ledger_sequence answers s in
    (out.0, next_after answers prepares root out.1)
