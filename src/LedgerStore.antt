-- ===== src/LedgerStore.antt =====
-- cmd/stellar-rpc/internal/db/ledger.go and db.go: the table of ledgers and the cache of its two ends.
-- The table is a list in the order of its primary key, the sequence, so that MIN and MAX are those of
-- its first and last row. Of a ledger's meta, the sequence and the close time are kept; its bytes are
-- the outside's. Whether SQLite answers a query is a parameter.
pub mod Rows
pub mod Coherent
pub mod Latest
pub mod Commit
pub mod Stale
pub mod Insert
pub mod Readers
mod Tests
use stellar_rpc.Prelude.{
  ℕ, ◌+◌, ◌-◌, ◌≡◌, Bool, true, false, Option, none, some, List, [], ◌∷◌, ◌&&◌, ◌||◌, not, ltb, leb,
  ◌==◌, if◌then◌else◌, length, get_elem?, u32, sub32,
}
use stellar_rpc.Window.{LedgerInfo, LedgerRange, Timestamp, pos}

-- `dbCache`: 0 stands for an unknown sequence.
pub record DbCache : Type 0 where
  pub latest_ledger_seq : ℕ
  pub latest_ledger_close_time : Timestamp
  pub first_ledger_seq : ℕ
  pub first_ledger_close_time : Timestamp

-- `DB`, with the retention window of its `readWriter`
pub record LedgerStore : Type 0 where
  pub rows : List LedgerInfo  -- ledger_close_meta
  pub cache : DbCache
  pub history_retention_window : ℕ  -- uint32

-- `ResetCache`
unfoldable pub reset_cache : LedgerStore → LedgerStore
reset_cache s = record s {
  cache = record {
    latest_ledger_seq = 0;
    latest_ledger_close_time = pos 0;
    first_ledger_seq = 0;
    first_ledger_close_time = pos 0;
  };
}

-- SELECT ... WHERE
unfoldable pub select : (LedgerInfo → Bool) → List LedgerInfo → List LedgerInfo
select p [] = []
select p (r ∷ rs) = if p r then r ∷ select p rs else select p rs

abbrev pub last_row : LedgerInfo → List LedgerInfo → LedgerInfo
last_row r [] = r
last_row r (r' ∷ rs) = last_row r' rs

-- The row of the smallest sequence, and those of the smallest and of the greatest.
unfoldable pub oldest_rows : List LedgerInfo → List LedgerInfo
oldest_rows [] = []
oldest_rows (r ∷ rs) = select (λ x. x.sequence == r.sequence) (r ∷ rs)

unfoldable pub edge_rows : List LedgerInfo → List LedgerInfo
edge_rows [] = []
edge_rows (r ∷ rs) =
    select (λ x. (x.sequence == r.sequence) || (x.sequence == (last_row r rs).sequence)) (r ∷ rs)

-- What `GetLedgerRange` returns.
pub data Ranged : Type 0 where
  ranged : LedgerRange → Ranged
  empty_db : Ranged
  query_failed : Ranged
  out_of_bounds : Ranged  -- an index panic

-- `getLedgerRangeWithCache`
unfoldable pub get_ledger_range_with_cache : Bool → List LedgerInfo → ℕ → Timestamp → Ranged
get_ledger_range_with_cache answers rows latest_seq latest_time =
    if answers
    then elim (oldest_rows rows) [
      | [] ↦ empty_db
      | lcm ∷ lcms ↦ ranged (record {
        first_ledger = lcm;
        last_ledger = record { sequence = latest_seq; close_time = latest_time };
      })
    ]
    else query_failed

-- `getLedgerRangeWithoutCache`
unfoldable pub get_ledger_range_without_cache : Bool → List LedgerInfo → Ranged
get_ledger_range_without_cache answers rows =
    if answers
    then elim (edge_rows rows) [
      | [] ↦ empty_db
      | lcm ∷ lcms ↦ elim (get_elem? (lcm ∷ lcms) (length (lcm ∷ lcms) - 1)) [
        | none ↦ out_of_bounds
        | some newest ↦ ranged (record { first_ledger = lcm; last_ledger = newest })
      ]
    ]
    else query_failed

-- The second critical section of `ledgerReader.GetLedgerRange`, the latest sequence of the cache being
-- `latest` when the query began.
unfoldable pub memoize : ℕ → LedgerInfo → DbCache → DbCache
memoize latest first c =
    if (c.first_ledger_seq == 0) && (c.latest_ledger_seq == latest)
    then record c { first_ledger_seq = first.sequence; first_ledger_close_time = first.close_time }
    else c

-- What is remembered of a range that was found.
abbrev pub remember : LedgerStore → Ranged → LedgerStore × Ranged
remember s (ranged r) =
    (record s { cache = memoize s.cache.latest_ledger_seq r.first_ledger s.cache }, ranged r)
remember s other = (s, other)

-- `ledgerReader.GetLedgerRange`, with no commit while it runs
unfoldable pub get_ledger_range : Bool → LedgerStore → LedgerStore × Ranged
get_ledger_range answers s =
    if not (s.cache.latest_ledger_seq == 0) && not (s.cache.first_ledger_seq == 0)
    then (
      s,
      ranged (record {
        first_ledger = record {
          sequence = s.cache.first_ledger_seq;
          close_time = s.cache.first_ledger_close_time;
        };
        last_ledger = record {
          sequence = s.cache.latest_ledger_seq;
          close_time = s.cache.latest_ledger_close_time;
        };
      }),
    )
    else if not (s.cache.latest_ledger_seq == 0)
    then remember s (
        get_ledger_range_with_cache answers s.rows s.cache.latest_ledger_seq
          s.cache.latest_ledger_close_time)
    else (s, get_ledger_range_without_cache answers s.rows)

-- The write to the cache in `getLatestLedgerSequence`
unfoldable pub fill_latest : LedgerInfo → DbCache → DbCache
fill_latest newest c =
    if ltb c.latest_ledger_seq newest.sequence
    then record c {
      latest_ledger_seq = newest.sequence;
      latest_ledger_close_time = newest.close_time;
    }
    else c

abbrev pub take_latest : LedgerStore × Ranged → LedgerStore × Option ℕ
take_latest (s, ranged r) =
    (record s { cache = fill_latest r.last_ledger s.cache }, some r.last_ledger.sequence)
take_latest (s, _) = (s, none)

-- `getLatestLedgerSequence`; `none` is an error.
unfoldable pub get_latest_ledger_sequence : Bool → LedgerStore → LedgerStore × Option ℕ
get_latest_ledger_sequence answers s =
    if not (s.cache.latest_ledger_seq == 0)
    then (s, some s.cache.latest_ledger_seq)
    else take_latest (get_ledger_range answers s)

abbrev pub behind : LedgerInfo → Option (List LedgerInfo) → Option (List LedgerInfo)
behind r none = none
behind r (some rs) = some (r ∷ rs)

-- `InsertLedger`: `none` where the primary key is taken.
unfoldable pub insert_ledger : LedgerInfo → List LedgerInfo → Option (List LedgerInfo)
insert_ledger l [] = some (l ∷ [])
insert_ledger l (r ∷ rs) =
    let rest = insert_ledger l rs in
    if l.sequence == r.sequence
    then none
    else if ltb l.sequence r.sequence
    then some (l ∷ r ∷ rs)
    else behind r rest

-- `trimLedgers`
unfoldable pub trim_ledgers : ℕ → ℕ → List LedgerInfo → List LedgerInfo
trim_ledgers latest_ledger_seq retention_window rows =
    if leb (u32 (latest_ledger_seq + 1)) retention_window
    then rows
    else select (λ r. leb (sub32 (u32 (latest_ledger_seq + 1)) retention_window) r.sequence) rows

-- The cache after a commit of `ledger`, within `commitAndUpdateCache`
unfoldable pub advance_latest : LedgerInfo → DbCache → DbCache
advance_latest ledger c =
    if ltb c.latest_ledger_seq ledger.sequence
    then record c {
      latest_ledger_seq = ledger.sequence;
      latest_ledger_close_time = ledger.close_time;
    }
    else c

-- Whether the cached first ledger has been trimmed.
abbrev pub is_trimmed : ℕ → ℕ → DbCache → Bool
is_trimmed seq retention_window c =
    not (retention_window == 0)
    && ltb retention_window (u32 (seq + 1))
    && (not (c.first_ledger_seq == 0)
        && ltb c.first_ledger_seq (sub32 (u32 (seq + 1)) retention_window))

unfoldable pub forget_trimmed : ℕ → ℕ → DbCache → DbCache
forget_trimmed seq retention_window c =
    if is_trimmed seq retention_window c
    then record c { first_ledger_seq = 0; first_ledger_close_time = pos 0 }
    else c

pub data CommitError : Type 0 where
  not_flushed not_trimmed not_committed no_checkpoint : CommitError

-- How the calls of the database inside `Commit` end, in their order.
pub record CommitCalls : Type 0 where
  pub flush_writers : Bool
  pub trim_tables : Bool
  pub tx_commit : Bool
  pub post_commit : Bool

-- `writeTx.Commit` of a transaction that sees the given rows, and `Rollback` where it fails.
unfoldable pub commit :
    CommitCalls → LedgerStore → List LedgerInfo → LedgerInfo → LedgerStore × Option CommitError
commit calls s tx_rows ledger =
    let done = record s {
      rows = trim_ledgers ledger.sequence s.history_retention_window tx_rows;
      cache =
          forget_trimmed ledger.sequence s.history_retention_window (advance_latest ledger s.cache);
    } in
    if not calls.flush_writers
    then (s, some not_flushed)
    else if not calls.trim_tables
    then (s, some not_trimmed)
    else if not calls.tx_commit
    then (s, some not_committed)
    else if not calls.post_commit
    then (done, some no_checkpoint)
    else (done, none)

-- `getLedgerCountInRange`: the count and the smallest and greatest sequence; zeros where it is 0.
unfoldable pub get_ledger_count_in_range : List LedgerInfo → ℕ → ℕ → ℕ × ℕ × ℕ
get_ledger_count_in_range rows start end =
    elim (select (λ r. leb start r.sequence && leb r.sequence end) rows) [
      | [] ↦ (0, 0, 0)
      | r ∷ rs ↦ (u32 (length (r ∷ rs)), r.sequence, (last_row r rs).sequence)
    ]

-- `getLedgerFromDB`, up to the decoding of the meta
pub data Lookup : Type 0 where
  found : LedgerInfo → Lookup
  not_found : Lookup
  multiple_entries : ℕ → Lookup

abbrev pub lookup : List LedgerInfo → Lookup
lookup [] = not_found
lookup (r ∷ []) = found r
lookup (r ∷ r' ∷ rs) = multiple_entries (length (r ∷ r' ∷ rs))

unfoldable pub get_ledger : List LedgerInfo → ℕ → Lookup
get_ledger rows sequence = lookup (select (λ r. r.sequence == sequence) rows)

-- `BatchGetLedgers`; `none` is its error.
unfoldable pub batch_get_ledgers : List LedgerInfo → ℕ → ℕ → Option (List LedgerInfo)
batch_get_ledgers rows start end =
    if ltb end start
    then none
    else some (select (λ r. leb start r.sequence && leb r.sequence end) rows)
