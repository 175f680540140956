-- ===== src/Lib.antt =====
-- stellar-rpc, the JSON-RPC server for Stellar. A daemon ingests the closed ledgers of the network,
-- one by one, into a SQLite database that keeps a retention window of them, keeps the fees of the
-- latest ledgers in memory, and answers requests from both; at start it may fill the database from
-- a datastore in the cloud. This library models parts of its Go code and proves what makes them
-- correct. Paths below are in cmd/stellar-rpc/internal/.
--
-- Parts and files:
-- - Window: ledgerbucketwindow/ledgerbucketwindow.go, the circular buffer of the latest ledgers'
--   data (append, get, len, get_ledger_range, reset). Window/Queue is the bounded queue that it
--   promises to be; Ring, Refine, Range and History relate the two.
-- - FeeWindow: feewindow/feewindow.go, the distribution of a window's fees and AppendLedgerFees;
--   Spec describes the statistics independently. FeeWindow/Ingest: IngestFees, which reads a
--   ledger's transactions and feeds both windows; Lockstep and Retry are about the pair of windows.
-- - LedgerStore: db/ledger.go and db/db.go, the table of ledgers, the cache of its two ends, and
--   commits with their trimming. Rows and Insert are about the table, Coherent and Latest about
--   reads through the cache, Commit about newer ledgers and Stale about older ones.
--   LedgerStore/Readers: readers and commits that interleave; Holds is about what a reader has in hand,
--   Writes about the cache, Invariant about all steps, Alone about a reader with no other.
-- - Service: ingest/service.go, `ingest`: one ledger into the LedgerStore and the FeeWindows, and
--   `getNextLedgerSequence`. Sound is about every branch of `ingest`, Retry about a commit that was
--   refused, Turn about the ledger to start with. Service/Range: `ingestRange`, whose
--   loop Appends is about, and Whole the whole.
--   Service/Run: `run`, one ledger after another; Trace is about a run that is looked at at any time,
--   Retained about the rows that it keeps.
-- - EventStore: db/event.go, the events of a ledger and their cursors. Batches is about writing them
--   in batches, Placed is a plain description of where they belong, Cursors and Keys are about the
--   cursors, which are the table's keys. EventStore/Query:
--   `GetEvents`, the query and the scan of its rows, and `trimEvents`; Scan and Trim are about these.
-- - TransactionStore: db/transaction.go, the table of transactions by their hashes: inserting a
--   ledger's transactions, trimming, and `GetTransaction`. Insert is about the rows that a ledger
--   adds, Lookup about looking a hash up. Methods/GetTransaction: get_transaction.go, which answers
--   from it; Order is about its branches.
-- - LedgerEntries: ledgerentries/main.go and methods/get_ledger_entries.go, the
--   entries that a request's keys name. Getter is about the answers of stellar-core, Sorting about
--   putting them into the order of the keys, Request about a whole call.
-- - Migration: db/migration.go, guarded data migrations that run together in one transaction.
--   Session says what the code relies on of the database's session, AllOrNothing is about their
--   commit, Leak about one that fails, Range about the ledgers that they run over. SeqRange: the
--   ranges of ledgers that it uses.
-- - Backfill: ingest/backfill.go. `set_bounds` plans what to fill, `backfill_chunks` fills
--   downwards and `frontfill_chunks` upwards, `run_frontfill` repeats the latter, and
--   `verify_db_gapless` checks the LedgerStore. Bounds, Down, Up, Skip and Verify are about these
--   in turn; Tiles are runs of chunks and Edges is about how far they reach. Backfill/Run:
--   `new_backfill_meta`, `fill`, which is `RunBackfill` up to its last check and calls all of these,
--   and `last_check`; Whole is about the whole filling, Endings about the ways in which it ends.
-- - Backlog: network/backlogQ.go, the limiter of concurrent requests, as steps of any number of
--   requests that interleave at every atomic access.
-- - Methods: the request handlers of methods/, with the errors they share. Methods/GetLedgers:
--   get_ledgers.go; Fetch is about the run of ledgers that is put together from the LedgerStore and
--   the DatastoreReader, Page about a whole call, Limit about its size, Remote about the datastore's
--   reader. Methods/GetTransactions: get_transactions.go and `ParseTransaction` of
--   db/transaction.go; Process is about one ledger, Loop and Pages about a whole call, Repeat about the end
--   of the latest ledger. Methods/GetEvents: get_events.go; Filters and Topics are about a request's
--   filters, Combine about the one query that they are merged into, Found, Infos, Shown and Split
--   about a whole call as it goes from one cursor to the next, Pages about the call as its request puts it,
--   Panics about the limit that it cannot serve. Methods/Status: get_health.go,
--   get_latest_ledger.go, get_network.go, get_fee_stats.go and get_version_info.go; Agree compares
--   their answers.
-- - DatastoreReader: rpcdatastore/ledger_reader.go, ledgers from the datastore.
-- - RequestDuration: network/requestdurationlimiter.go, the limiter of a request's duration: Loop
--   is about its select loop, Writer about the buffered response of the HTTP form.
-- - Decimal: strconv's FormatUint and ParseUint, which the cursors are written and read with.
-- - Prelude: numbers, tests, lists, searching and counting that the parts share.
--
-- A method that changes its receiver is a function that returns the new value; an error is a value
-- and `none` a panic, where a file does not say otherwise. The wrap-around of uint32 and uint64 is
-- written out. Locks are not modelled where a method holds one throughout: it is then one step.
--
-- Bounds: a window's capacity is at most 2^31, it holds fewer than 2^64 / 100 fees, fewer than 2^64
-- requests meet a limiter, and a bound of a filling leaves room for one chunk of 960 ledgers below
-- 2^32. The ledgers whose transactions are asked for are below 2^31 - 1, as Go's int32 loop wants.
-- Fuel: the loop over those ledgers has as many rounds as there are to the last, and one for its
-- end; `backfill_loop` has one unit more than its right bound and `frontfill_loop` two more
-- than its bounds lie apart; each round moves the bound by at least one, so neither runs out. The
-- ledgers of `ingestRange` are fetched in as many rounds as its range has ledgers; a `run` is as long
-- as the list of what its calls answer, and goes on where that ends.
--
-- Parameters, for code that is not in the repository: what the datastore, the ledger backend, the
-- checkpoint manager, stellar-core, SQLite and the xdr, ingest, toid, strkey and protocol packages
-- answer. A request's transaction sees the store as it is when the request begins.
--
-- Not modelled: the daemon's wiring and the HTTP servers, metrics and logs, configuration, the calls
-- into the Rust libraries and the pool of workers that makes them, sendTransaction and
-- simulateTransaction, the group that runs goroutines and catches their panics, the opening and the
-- bulk load of SQLite, and the retries of `run`, which the backoff package makes. Whether
-- `ingestRange` fails for a chunk of a filling is an answer there, not its model in Service/Range, so
-- nothing is said of the database's rows after a filling.
pub mod Prelude
pub mod Window
pub mod FeeWindow
pub mod Backfill
pub mod Backlog
pub mod DatastoreReader
pub mod Decimal
pub mod EventStore
pub mod LedgerEntries
pub mod LedgerStore
pub mod Methods
pub mod Migration
pub mod RequestDuration
pub mod SeqRange
pub mod Service
pub mod TransactionStore
