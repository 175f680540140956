-- ===== src/Service/Retry.antt =====
-- `ingest` again, after a commit that failed.
use stellar_rpc.Prelude.{◌≡◌, true, false, some}
use stellar_rpc.LedgerStore.{LedgerStore, CommitCalls}
use stellar_rpc.FeeWindow.Ingest.{LedgerCloseMeta}
use stellar_rpc.Service.{Service, Calls}

-- Every call up to `IngestFees` answers, with this ledger.
abbrev pub Prepares : Calls → LedgerCloseMeta → Type 0
Prepares c meta =
    (c.get_ledger ≡ some meta)
    × (c.new_tx ≡ true)
    × (c.insert_transactions ≡ true)
    × (c.insert_events ≡ true)

-- SQLite refuses the commit itself.
abbrev pub RefusesCommit : CommitCalls → Type 0
RefusesCommit k = (k.flush_writers ≡ true) × (k.trim_tables ≡ true) × (k.tx_commit ≡ false)
