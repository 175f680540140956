-- ===== src/LedgerStore/Readers.antt =====
-- cmd/stellar-rpc/internal/db/ledger.go and db.go: `GetLedgerRange` and `getLatestLedgerSequence` while
-- ledgers are committed. A reader's critical sections and its query are steps of their own. `Commit`
-- writes the table and the cache while it holds the cache's lock, so that no reader sees the cache
-- between the two, and a query that sees the new table there sees what it sees right afterwards.
pub mod Holds
pub mod Writes
pub mod Invariant
pub mod Alone
use stellar_rpc.Prelude.{
  ℕ, ◌+◌, ◌<◌, ◌≡◌, ◌≢◌, Bool, some, List, [], ◌∷◌, ◌++◌, get_elem?, set, replicate, u32_mod,
}
use stellar_rpc.Window.{LedgerInfo, LedgerRange, Timestamp}
use stellar_rpc.LedgerStore.{
  DbCache, LedgerStore, Ranged, ranged, memoize, fill_latest, get_ledger_range_with_cache,
  get_ledger_range_without_cache, CommitCalls, commit,
}
use stellar_rpc.LedgerStore.Rows.{IsAbove}

-- Where a reader stands.
pub data Reader : Type 0 where
  calling : Reader
  knows_latest : ℕ → Timestamp → Reader  -- found the latest ledger cached, and not the first
  knows_nothing : Reader
  queried : ℕ → Ranged → Reader  -- before the second critical section
  answered : Ranged → Reader
  filled : Reader  -- past the write in `getLatestLedgerSequence`

abbrev pub cached_range : DbCache → LedgerRange
cached_range c = record {
  first_ledger = record { sequence = c.first_ledger_seq; close_time = c.first_ledger_close_time };
  last_ledger = record { sequence = c.latest_ledger_seq; close_time = c.latest_ledger_close_time };
}

-- The second critical section, whose query may have failed
abbrev pub remembered : LedgerStore → ℕ → Ranged → LedgerStore
remembered s latest (ranged r) = record s { cache = memoize latest r.first_ledger s.cache }
remembered s latest other = s

-- One step of a reader. The last is the end of a `getLatestLedgerSequence` that found nothing cached,
-- after its `GetLedgerRange`.
pub data Read (s : LedgerStore) : Reader → LedgerStore → Reader → Type 0 where
  read_both :
      s.cache.latest_ledger_seq ≢ 0
      → s.cache.first_ledger_seq ≢ 0
      → Read s calling s (answered (ranged (cached_range s.cache)))
  read_latest :
      s.cache.latest_ledger_seq ≢ 0
      → s.cache.first_ledger_seq ≡ 0
      → Read s calling s (knows_latest s.cache.latest_ledger_seq s.cache.latest_ledger_close_time)
  read_nothing : s.cache.latest_ledger_seq ≡ 0 → Read s calling s knows_nothing
  query_first :
      (answers : Bool) {latest : ℕ} {time : Timestamp}
      → Read s
          (knows_latest latest time)
          s
          (queried latest (get_ledger_range_with_cache answers s.rows latest time))
  query_both :
      (answers : Bool)
      → Read s knows_nothing s (answered (get_ledger_range_without_cache answers s.rows))
  remember_first :
      {latest : ℕ} {out : Ranged}
      → Read s (queried latest out) (remembered s latest out) (answered out)
  fill :
      {r : LedgerRange}
      → Read s (answered (ranged r)) (record s { cache = fill_latest r.last_ledger s.cache }) filled

pub record System : Type 0 where
  pub store : LedgerStore
  pub readers : List Reader

-- A step of a reader, or a commit of a newer ledger, whichever of its calls fails.
pub data Step (s : System) : System → Type 0 where
  reads :
      (i : ℕ) {p p' : Reader} {store : LedgerStore}
      → get_elem? s.readers i ≡ some p
      → Read s.store p store p'
      → Step s (record { store = store; readers = set s.readers i p' })
  commits :
      (calls : CommitCalls) (l : LedgerInfo)
      → IsAbove 0 (s.store.rows ++ (l ∷ []))
      → l.sequence + 1 < u32_mod
      → Step s (record s { store = (commit calls s.store (s.store.rows ++ (l ∷ [])) l).0 })

abbrev pub start : LedgerStore → ℕ → System
start store n = record { store = store; readers = replicate n calling }

pub data Reach (store : LedgerStore) (n : ℕ) : System → Type 0 where
  here : Reach store n (start store n)
  next : {s t : System} → Reach store n s → Step s t → Reach store n t
