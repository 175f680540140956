-- ===== src/TransactionStore.antt =====
-- db/transaction.go: under which ledger and order a transaction is found by its hash. The ingest
-- package's reader hands over a ledger's transactions as a list; ParseTransaction is in
-- Methods/GetTransactions.
pub mod Insert
pub mod Lookup
mod Tests
use stellar_rpc.Prelude.{
  ℕ, zero, suc, ◌+◌, ◌-◌, Bool, true, false, not, Option, none, some, List, [], ◌∷◌, ◌++◌, map, leb,
  ltb, ◌==◌, if◌then◌else◌, length, take, drop, get_elem?, u32, sub32, filter,
}
use stellar_rpc.Window.{LedgerInfo}
use stellar_rpc.Methods.GetTransactions.{LedgerTransaction, Transaction, parse_transaction}

-- `pendingTx`, which is also a row of the table
pub record PendingTx : Type 0 where
  pub hash : ℕ
  pub seq : ℕ
  pub index : ℕ

-- `transactionHandler`: what is pending, and what was written
pub record TransactionHandler : Type 0 where
  pub pending : List PendingTx
  pub table : List PendingTx

-- `maxTxRowsPerBatch`
abbrev pub max_tx_rows_per_batch : ℕ
max_tx_rows_per_batch = 10000

-- A transaction that is read, with the inner hash of its result, which a fee bump has
pub record IngestTransaction : Type 0 where
  pub tx : LedgerTransaction
  pub inner_hash : ℕ

-- What the reader of a ledger gives: its transactions, of which some cannot be read, and the orders that it
-- can seek.
pub record LedgerContents : Type 0 where
  pub is_open : Bool
  pub count_transactions : ℕ
  pub seeks : ℕ → Bool
  pub items : List (Option IngestTransaction)

-- A write to the map of transactions by hash, of which the order is used
unfoldable pub put : ℕ → ℕ → List (ℕ × ℕ) → List (ℕ × ℕ)
put hash index [] = (hash, index) ∷ []
put hash index ((h, i) ∷ entries) =
    if h == hash then (hash, index) ∷ entries else (h, i) ∷ put hash index entries

-- The entries of a transaction: a fee bump's are those of both hashes.
unfoldable pub put_transaction : IngestTransaction → List (ℕ × ℕ) → List (ℕ × ℕ)
put_transaction t entries =
    put t.tx.hash t.tx.index
      (if t.tx.is_fee_bump then put t.inner_hash t.tx.index entries else entries)

-- The loop that reads the ledger, with as many rounds as it counts transactions; `none` is an error.
unfoldable pub read_transactions :
    ℕ → List (Option IngestTransaction) → List (ℕ × ℕ) → Option (List (ℕ × ℕ))
read_transactions zero items entries = some entries
read_transactions (suc rounds) [] entries = none
read_transactions (suc rounds) (none ∷ items) entries = none
read_transactions (suc rounds) (some t ∷ items) entries =
    read_transactions rounds items (put_transaction t entries)

-- `flush`, where the insertion is done or refused, by the rows that it inserts
unfoldable pub flush : (List PendingTx → Bool) → ℕ → TransactionHandler → Option TransactionHandler
flush inserts n w =
    if inserts (take n w.pending)
    then some (record { pending = drop n w.pending; table = w.table ++ take n w.pending })
    else none

-- `flushPending`
unfoldable pub flush_pending :
    (List PendingTx → Bool) → TransactionHandler → Option TransactionHandler
flush_pending inserts w =
    if length w.pending == 0 then some w else flush inserts (length w.pending) w

-- The loop of full batches, with as many rounds as there are rows
unfoldable pub flush_full :
    (List PendingTx → Bool) → ℕ → TransactionHandler → Option TransactionHandler
flush_full inserts zero w = some w
flush_full inserts (suc rounds) w =
    let rest : Option TransactionHandler = elim (flush inserts max_tx_rows_per_batch w) [
      | none ↦ none
      | some w' ↦ flush_full inserts rounds w'
    ] in
    if leb max_tx_rows_per_batch (length w.pending) then rest else some w

abbrev pub pending_tx : ℕ → ℕ × ℕ → PendingTx
pending_tx seq (hash, index) = record { hash = hash; seq = seq; index = index }

-- `InsertTransactions` of the ledger `seq`; `iterate` is the order in which Go ranges over the map.
unfoldable pub insert_transactions :
    (List PendingTx → Bool)
    → (List (ℕ × ℕ) → List (ℕ × ℕ))
    → Bool
    → ℕ
    → LedgerContents
    → TransactionHandler
    → Option TransactionHandler
insert_transactions inserts iterate has_stmt_cache seq contents w =
    let inserted : Option TransactionHandler =
      elim (read_transactions contents.count_transactions contents.items []) [
        | none ↦ none
        | some entries ↦
            let pending = w.pending ++ map (pending_tx seq) (iterate entries) in
            flush_full inserts (length pending) (record w { pending = pending })
      ] in
    if not has_stmt_cache
    then none
    else if contents.count_transactions == 0
    then some w
    else if contents.is_open
    then inserted
    else none

-- `trimTransactions`, where the deletion is done
unfoldable pub trim_transactions : ℕ → ℕ → List PendingTx → List PendingTx
trim_transactions latest_ledger_seq retention_window table =
    if leb (u32 (latest_ledger_seq + 1)) retention_window
    then table
    else filter (λ row. not (ltb row.seq (sub32 (u32 (latest_ledger_seq + 1)) retention_window)))
        table

-- What a lookup answers: `read_failed` is any error but ErrNoTransaction.
pub data Looked {ℓ} (A : Type ℓ) : Type ℓ where
  no_transaction read_failed : Looked A
  got : A → Looked A

-- A ledger of the table of ledgers
unfoldable pub ledger_of : List LedgerInfo → ℕ → Option LedgerInfo
ledger_of [] seq = none
ledger_of (l ∷ ledgers) seq = if l.sequence == seq then some l else ledger_of ledgers seq

-- The rows of the table of transactions joined with those of ledgers, for a hash, and the first of them
unfoldable pub select_by_hash : List PendingTx → List LedgerInfo → ℕ → Option (ℕ × LedgerInfo)
select_by_hash [] ledgers hash = none
select_by_hash (row ∷ table) ledgers hash =
    let rest = select_by_hash table ledgers hash in
    let joined : Option (ℕ × LedgerInfo) = elim (ledger_of ledgers row.seq) [
      | none ↦ rest
      | some lcm ↦ some (row.index, lcm)
    ] in
    if row.hash == hash then joined else rest

-- `reader.Read` after `reader.Seek(txIndex - 1)`
unfoldable pub read_at : LedgerContents → ℕ → Option IngestTransaction
read_at contents tx_index =
    if contents.seeks tx_index
    then elim (get_elem? contents.items (tx_index - 1)) [ none ↦ none | some item ↦ item ]
    else none

-- `getTransactionByHash`
unfoldable pub get_transaction_by_hash :
    (LedgerInfo → LedgerContents)
    → Bool
    → List PendingTx
    → List LedgerInfo
    → ℕ
    → Looked (LedgerInfo × LedgerTransaction)
get_transaction_by_hash reader answers table ledgers hash =
    let read : Looked (LedgerInfo × LedgerTransaction) = elim (select_by_hash table ledgers hash) [
      | none ↦ no_transaction
      | some (tx_index, lcm) ↦
          let found : Looked (LedgerInfo × LedgerTransaction) =
            elim (read_at (reader lcm) tx_index) [
              | none ↦ read_failed
              | some t ↦ got (lcm, t.tx)
            ] in
          if (reader lcm).is_open then found else read_failed
    ] in
    if answers then read else read_failed

-- `GetTransaction`
unfoldable pub get_transaction :
    (LedgerInfo → LedgerContents) → Bool → List PendingTx → List LedgerInfo → ℕ → Looked Transaction
get_transaction reader answers table ledgers hash =
    elim (get_transaction_by_hash reader answers table ledgers hash) [
      | no_transaction ↦ no_transaction
      | read_failed ↦ read_failed
      | got (lcm, tx) ↦ elim (parse_transaction lcm tx) [ none ↦ read_failed | some t ↦ got t ]
    ]
