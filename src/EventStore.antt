-- ===== src/EventStore.antt =====
-- cmd/stellar-rpc/internal/db/event.go: the events of a ledger, each under a cursor, gathered and
-- written to the table in batches. The ingest package hands over a ledger's transactions with their
-- events; an event's encoding is the outside's.
pub mod Batches
pub mod Cursors
pub mod Keys
pub mod Placed
pub mod Query
mod Tests
use stellar_rpc.Prelude.{
  ℕ, zero, suc, ◌+◌, ◌≡◌, Bool, true, false, Option, none, some, List, [], ◌∷◌, ◌++◌, leb, ltb,
  ◌==◌, if◌then◌else◌, length, take, drop, u32,
}

-- `protocol.Cursor`
pub record Cursor : Type 0 where
  pub ledger : ℕ
  pub tx : ℕ
  pub op : ℕ
  pub event : ℕ

-- `xdr.TransactionEventStage`
pub data Stage : Type 0 where
  before_all_txs after_all_txs after_tx other_stage : Stage

-- `txEventIndices`
pub record TxEventIndices : Type 0 where
  pub before_all : ℕ
  pub after_all : ℕ
  pub after_tx_count : ℕ

-- toid's TransactionMask and OperationMask
pub record Masks : Type 0 where
  pub transaction_mask : ℕ
  pub operation_mask : ℕ

-- `txEventIndices.cursor`
unfoldable pub cursor_at : Masks → TxEventIndices → Stage → ℕ → ℕ → Option (Cursor × TxEventIndices)
cursor_at masks indices before_all_txs ledger_seq tx_index = some (
  record { ledger = ledger_seq; tx = 0; op = 0; event = indices.before_all },
  record indices { before_all = u32 (indices.before_all + 1) },
)
cursor_at masks indices after_all_txs ledger_seq tx_index = some (
  record { ledger = ledger_seq; tx = masks.transaction_mask; op = 0; event = indices.after_all },
  record indices { after_all = u32 (indices.after_all + 1) },
)
cursor_at masks indices after_tx ledger_seq tx_index = some (
  record {
    ledger = ledger_seq;
    tx = tx_index;
    op = masks.operation_mask;
    event = indices.after_tx_count;
  },
  record indices { after_tx_count = u32 (indices.after_tx_count + 1) },
)
cursor_at masks indices other_stage ledger_seq tx_index = none

-- A transaction's events: those of the transaction by stage, and those of each operation. Each event is
-- a number.
pub record TransactionEvents : Type 0 where
  pub tx_hash : ℕ
  pub index : ℕ
  pub transaction_events : List (Stage × ℕ)
  pub operation_events : List (List ℕ)

-- `dbEvent`, without the close time of its ledger
pub record DbEvent : Type 0 where
  pub hash : ℕ
  pub content : ℕ
  pub cursor : Cursor

-- What is pending, and what was written
pub record EventHandler : Type 0 where
  pub pending : List DbEvent
  pub table : List DbEvent

-- `maxEventsPerBatch`
abbrev pub max_events_per_batch : ℕ
max_events_per_batch = 3000

-- `flush`, where the insertion is done or refused, by the rows that it inserts
unfoldable pub flush : (List DbEvent → Bool) → ℕ → EventHandler → Option EventHandler
flush inserts n w =
    if inserts (take n w.pending)
    then some (record { pending = drop n w.pending; table = w.table ++ take n w.pending })
    else none

-- `flushPending`
unfoldable pub flush_pending : (List DbEvent → Bool) → EventHandler → Option EventHandler
flush_pending inserts w =
    if length w.pending == 0 then some w else flush inserts (length w.pending) w

-- The loop of full batches, with as many rounds as there are rows
unfoldable pub flush_full : (List DbEvent → Bool) → ℕ → EventHandler → Option EventHandler
flush_full inserts zero w = some w
flush_full inserts (suc rounds) w =
    let rest : Option EventHandler = elim (flush inserts max_events_per_batch w) [
      | none ↦ none
      | some w' ↦ flush_full inserts rounds w'
    ] in
    if leb max_events_per_batch (length w.pending) then rest else some w

-- The events of the transaction itself: `none` is an unhandled stage.
unfoldable pub stage_events :
    Masks
    → ℕ
    → TransactionEvents
    → List (Stage × ℕ)
    → TxEventIndices
    → Option (List DbEvent × TxEventIndices)
stage_events masks ledger_seq tx [] indices = some ([], indices)
stage_events masks ledger_seq tx ((stage, event) ∷ events) indices =
    elim (cursor_at masks indices stage ledger_seq tx.index) [
      | none ↦ none
      | some (cursor, indices') ↦ elim (stage_events masks ledger_seq tx events indices') [
        | none ↦ none
        | some (rest, indices'') ↦
            some (record { hash = tx.tx_hash; content = event; cursor = cursor } ∷ rest, indices'')
      ]
    ]

-- The events of one operation from the n-th on, and those of all operations from the n-th on
unfoldable pub inner_op_events : ℕ → TransactionEvents → ℕ → ℕ → List ℕ → List DbEvent
inner_op_events ledger_seq tx op n [] = []
inner_op_events ledger_seq tx op n (event ∷ events) =
    record {
      hash = tx.tx_hash;
      content = event;
      cursor = record { ledger = ledger_seq; tx = tx.index; op = u32 op; event = u32 n };
    }
    ∷ inner_op_events ledger_seq tx op (n + 1) events

unfoldable pub op_events : ℕ → TransactionEvents → ℕ → List (List ℕ) → List DbEvent
op_events ledger_seq tx op [] = []
op_events ledger_seq tx op (inner ∷ rest) =
    inner_op_events ledger_seq tx op 0 inner ++ op_events ledger_seq tx (op + 1) rest

-- The loop of `InsertEvents` over the transactions
unfoldable pub insert_from :
    Masks
    → (List DbEvent → Bool)
    → ℕ
    → List TransactionEvents
    → TxEventIndices
    → EventHandler
    → Option EventHandler
insert_from masks inserts ledger_seq [] indices w = some w
insert_from masks inserts ledger_seq (tx ∷ txs) indices w =
    elim (stage_events masks ledger_seq tx tx.transaction_events
      (record indices { after_tx_count = 0 })) [
        | none ↦ none
        | some (events, indices') ↦
            let pending = w.pending ++ (events ++ op_events ledger_seq tx 0 tx.operation_events) in
            elim (flush_full inserts (length pending) (record w { pending = pending })) [
              | none ↦ none
              | some w' ↦ insert_from masks inserts ledger_seq txs indices' w'
            ]
      ]

-- `InsertEvents`, for a ledger whose reader opens and reads all of its transactions; `none` is an error.
unfoldable pub insert_events :
    Masks → (List DbEvent → Bool) → ℕ → List TransactionEvents → EventHandler → Option EventHandler
insert_events masks inserts ledger_seq txs w =
    insert_from masks inserts ledger_seq txs
      (record { before_all = 0; after_all = 0; after_tx_count = 0 }) w
