-- ===== src/Service/Range.antt =====
-- cmd/stellar-rpc/internal/ingest/service.go: `ingestRange`, a range of ledgers in one transaction.
-- A goroutine fetches ledgers ahead and hands them over in order; so what the loop ranges over is
-- the list of those that it hands over.
pub mod Appends
pub mod Whole
use stellar_rpc.Prelude.{
  ℕ, zero, suc, ◌+◌, ◌-◌, Bool, not, Option, none, some, List, [], ◌∷◌, ltb, if◌then◌else◌,
}
use stellar_rpc.SeqRange.{SeqRange}
use stellar_rpc.Window.{LedgerInfo}
use stellar_rpc.LedgerStore.{LedgerStore, commit, CommitCalls, CommitError}
use stellar_rpc.FeeWindow.Ingest.{LedgerCloseMeta}
use stellar_rpc.Service.{
  Service, Calls, ServiceError, no_ledger, no_tx, commit_failed, Written, written, unwritten,
  ledger_info, ingest_ledger_close_meta,
}

-- The answers of the calls of one `ingestRange`: those about the ledger at a sequence, and whether
-- the context is done when it would be handed over.
pub record RangeCalls : Type 0 where
  pub new_tx : Bool
  pub of : ℕ → Calls
  pub done_at : ℕ → Bool
  pub commit_calls : CommitCalls

-- The goroutine: up to `rounds` ledgers from `seq` on, to the first that fails.
unfoldable pub fetches : RangeCalls → (rounds seq : ℕ) → List Calls
fetches c zero seq = []
fetches c (suc rounds) seq =
    let rest = fetches c rounds (seq + 1) in
    if c.done_at seq
    then []
    else c.of seq ∷ elim (c.of seq).get_ledger [ none ↦ [] | some meta ↦ rest ]

-- The end of the loop: the rows that the transaction sees and the last ledger, or the first error.
pub data Drained : Type 0 where
  drained : List LedgerInfo → Option LedgerCloseMeta → Drained
  stopped : ServiceError → Drained

-- The loop over what is fetched
unfoldable pub drain : List Calls → List LedgerInfo → Option LedgerCloseMeta → Drained
drain [] rows last = drained rows last
drain (k ∷ ks) rows last = elim k.get_ledger [
  | none ↦ stopped no_ledger
  | some meta ↦ elim (ingest_ledger_close_meta k rows meta) [
    | unwritten e ↦ stopped e
    | written rows' ↦ drain ks rows' (some meta)
  ]
]

-- The end of `ingestRange`, after `Commit`
unfoldable pub after_range_commit :
    ℕ → Service → LedgerStore × Option CommitError → Service × Option ServiceError
after_range_commit to s (store, some e) = (record s { store = store }, some (commit_failed e))
after_range_commit to s (store, none) = (
  record s {
    store = store;
    latest_ingested_seq = if ltb s.latest_ingested_seq to then to else s.latest_ingested_seq;
  },
  none,
)

-- What follows the loop; `Commit` panics on the ledger that was never set.
unfoldable pub after_drain :
    RangeCalls → ℕ → Service → Drained → Option (Service × Option ServiceError)
after_drain c to s (stopped e) = some (s, some e)
after_drain c to s (drained rows none) = none
after_drain c to s (drained rows (some meta)) =
    some (after_range_commit to s (commit c.commit_calls s.store rows (ledger_info meta)))

-- `ingestRange`; `none` is a panic.
unfoldable pub ingest_range :
    RangeCalls → SeqRange → Service → Option (Service × Option ServiceError)
ingest_range c range s =
    if not c.new_tx
    then some (s, some no_tx)
    else after_drain c range.last s
        (drain (fetches c (range.last + 1 - range.first) range.first) s.store.rows none)
