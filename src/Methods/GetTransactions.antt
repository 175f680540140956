-- ===== src/Methods/GetTransactions.antt =====
-- methods/get_transactions.go: pages of transactions, through the ledgers of the local database, with
-- `ParseTransaction` of db/transaction.go. The ingest package's reader hands over a ledger's transactions
-- as a list; the toid package packs a position into a number and back.
pub mod Process
pub mod Loop
pub mod Pages
pub mod Repeat
mod Tests
use stellar_rpc.Prelude.{
  ℕ, zero, suc, ◌+◌, ◌-◌, ◌≡◌, Bool, true, false, not, ◌&&◌, ◌||◌, Option, none, some, List, [],
  ◌∷◌, ◌++◌, ltb, leb, ◌==◌, if◌then◌else◌, length, drop, u32,
}
use stellar_rpc.Window.{LedgerInfo, LedgerRange, LedgerSeqRange, to_ledger_seq_range}
use stellar_rpc.LedgerStore.{LedgerStore, Lookup, found, not_found, multiple_entries, get_ledger}
use stellar_rpc.Decimal.{Text}
use stellar_rpc.Methods.{
  RpcError, internal_error, invalid_request, invalid_params, Result, ok, err, ◌>>=◌, ◌>>◌, or_fail,
  check,
}
use stellar_rpc.Methods.GetLedgers.{Pagination, range_or_fail, tx_ledger_range}

-- An int32: `negsuc n` is -(n + 1).
pub data Int32 : Type 0 where
  pos : ℕ → Int32
  negsuc : ℕ → Int32

-- Go's int32(n) of an uint32
abbrev pub int32 : ℕ → Int32
int32 n = if ltb n 2147483648 then pos n else negsuc (4294967295 - n)

abbrev pub le_int : Int32 → Int32 → Bool
le_int (pos a) (pos b) = leb a b
le_int (pos a) (negsuc b) = false
le_int (negsuc a) (pos b) = true
le_int (negsuc a) (negsuc b) = leb b a

abbrev pub eq_int : Int32 → Int32 → Bool
eq_int (pos a) (pos b) = a == b
eq_int (negsuc a) (negsuc b) = a == b
eq_int _ _ = false

-- `toid.ID`; its orders are not negative.
pub record Toid : Type 0 where
  pub ledger_sequence : Int32
  pub transaction_order : ℕ
  pub operation_order : ℕ

-- A transaction as the ingest package reads it; `encodes` tells whether its parts can be encoded.
pub record LedgerTransaction : Type 0 where
  pub hash : ℕ
  pub index : ℕ  -- uint32
  pub is_fee_bump : Bool
  pub is_successful : Bool
  pub encodes : Bool

-- What `NewLedgerTransactionReaderFromLedgerCloseMeta` gives of a ledger: its transactions, of which
-- some cannot be read, and where it cannot be moved to.
pub record Reader : Type 0 where
  pub is_open : Bool
  pub count_transactions : ℕ
  pub seeks : ℕ → Bool
  pub items : List (Option LedgerTransaction)

-- `Transaction` of the store, without the encoded parts
pub record Transaction : Type 0 where
  pub transaction_hash : ℕ
  pub application_order : ℕ
  pub fee_bump : Bool
  pub successful : Bool
  pub ledger : LedgerInfo

-- `ParseTransaction`; `none` is an error.
unfoldable pub parse_transaction : LedgerInfo → LedgerTransaction → Option Transaction
parse_transaction lcm tx =
    if ltb tx.index 2147483648 && tx.encodes
    then some (record {
      transaction_hash = tx.hash;
      application_order = tx.index;
      fee_bump = tx.is_fee_bump;
      successful = tx.is_successful;
      ledger = lcm;
    })
    else none

pub data Status : Type 0 where
  status_failed status_success : Status

pub record TransactionInfo : Type 0 where
  pub transaction_hash : ℕ
  pub application_order : ℕ
  pub fee_bump : Bool
  pub ledger : LedgerInfo
  pub status : Status

abbrev pub status_of : Bool → Status
status_of successful = if successful then status_success else status_failed

abbrev pub info_of : Transaction → TransactionInfo
info_of tx = record {
  transaction_hash = tx.transaction_hash;
  application_order = tx.application_order;
  fee_bump = tx.fee_bump;
  ledger = tx.ledger;
  status = status_of tx.successful;
}

pub record Request : Type 0 where
  pub start_ledger : ℕ
  pub pagination : Option Pagination
  pub is_json : Bool

pub record Response : Type 0 where
  pub transactions : List TransactionInfo
  pub latest_ledger : LedgerInfo
  pub oldest_ledger : LedgerInfo
  pub cursor : Text

-- `transactionsRPCHandler`, with what it calls: `is_valid` is the protocol's check, `parse_id` is
-- strconv.ParseInt with toid.Parse, `to_text` is `ID.String`, `formats` tells whether a transaction can be
-- rendered.
pub record Handler : Type 0 where
  pub max_limit : ℕ
  pub default_limit : ℕ
  pub is_valid : Request → ℕ → LedgerSeqRange → Bool
  pub parse_id : Text → Option Toid
  pub to_text : Toid → Text
  pub reader : LedgerInfo → Reader
  pub formats : Bool → Transaction → Bool

-- `uint32ToInt32`
unfoldable pub uint32_to_int32 : ℕ → Option Int32
uint32_to_int32 value = if ltb value 2147483648 then some (pos value) else none

-- The start of the page
abbrev pub start_at : Handler → Toid → Text → Result Toid
start_at h start [] = ok start
start_at h start (c ∷ cs) = do
  id ← or_fail (h.parse_id (c ∷ cs)) invalid_params
  ok (record id { transaction_order = id.transaction_order + 1 })

-- `initializePagination`
unfoldable pub initialize_pagination : Handler → Request → Result (Toid × ℕ)
unfolding uint32_to_int32
initialize_pagination h request = do
  start_ledger ← or_fail (uint32_to_int32 request.start_ledger) invalid_params
  let start : Toid = record {
    ledger_sequence = start_ledger;
    transaction_order = 1;
    operation_order = 1;
  }
  elim request.pagination [
    | none ↦ ok (start, h.default_limit)
    | some p ↦ start_at h start p.cursor >>= λ id.
        ok (id, if ltb 0 p.limit then p.limit else h.default_limit)
  ]

-- `fetchLedgerData`, where the database answers
abbrev pub ledger_data : Lookup → Result LedgerInfo
ledger_data (found l) = ok l
ledger_data not_found = err invalid_params
ledger_data (multiple_entries n) = err internal_error

unfoldable pub fetch_ledger_data : LedgerStore → ℕ → Result LedgerInfo
fetch_ledger_data s ledger_seq = ledger_data (get_ledger s.rows ledger_seq)

-- What `processTransactionsInLedger` has got so far: the transactions, the order that its cursor is
-- at, and whether the limit is reached.
pub record Progress : Type 0 where
  pub txns : List TransactionInfo
  pub order : ℕ
  pub is_done : Bool

-- The loop of `processTransactionsInLedger` at transaction `i`, with the rounds and the reader's
-- transactions that are left
module _ (h : Handler) (is_json : Bool) (limit : ℕ) (ledger : LedgerInfo) where
  unfoldable pub process_from :
      ℕ → ℕ → List (Option LedgerTransaction) → List TransactionInfo → ℕ → Result Progress
  process_from zero i items txns order = ok (record { txns = txns; order = order; is_done = false })
  process_from (suc rounds) i [] txns order =
      ok (record { txns = txns; order = i; is_done = false })
  process_from (suc rounds) i (none ∷ items) txns order = err invalid_params
  process_from (suc rounds) i (some ingest_tx ∷ items) txns order =
      or_fail (parse_transaction ledger ingest_tx) internal_error >>= λ tx.
      let rest = process_from rounds (i + 1) items (txns ++ (info_of tx ∷ [])) i in
      if h.formats is_json tx
      then if leb limit (length (txns ++ (info_of tx ∷ [])))
        then ok (record { txns = txns ++ (info_of tx ∷ []); order = i; is_done = true })
        else rest
      else err internal_error

-- The first transaction of the ledger that is wanted
abbrev pub start_tx_idx : Toid → Int32 → ℕ
start_tx_idx start ledger_seq =
    if eq_int ledger_seq start.ledger_sequence then start.transaction_order else 1

-- `processTransactionsInLedger`
unfoldable pub process_transactions_in_ledger :
    Handler
    → LedgerInfo
    → Toid
    → List TransactionInfo
    → ℕ
    → Bool
    → Result (Toid × List TransactionInfo × Bool)
unfolding uint32_to_int32
process_transactions_in_ledger h ledger start txns limit is_json = do
  check (ltb limit 9223372036854775808) invalid_params
  let reader = h.reader ledger
  check reader.is_open internal_error
  ledger_seq ← or_fail (uint32_to_int32 ledger.sequence) internal_error
  let first = start_tx_idx start ledger_seq
  check (not (eq_int ledger_seq start.ledger_sequence) || reader.seeks (first - 1)) internal_error
  progress ←
      process_from h is_json limit ledger (reader.count_transactions + 1 - first) first
        (drop (first - 1) reader.items) txns 0
  ok (
    record {
      ledger_sequence = ledger_seq;
      transaction_order = progress.order;
      operation_order = 1;
    },
    progress.txns,
    progress.is_done,
  )

-- The loop of `getTransactionsByLedgerSequence`, with the rounds that are left
module _ (h : Handler) (s : LedgerStore) (is_json : Bool) (start : Toid) (limit : ℕ)
    (last : Int32) where
  abbrev pub turn :
      (Toid → List TransactionInfo → Result (Toid × List TransactionInfo))
      → ℕ
      → List TransactionInfo
      → Result (Toid × List TransactionInfo)
  turn next seq txns = do
    ledger ← fetch_ledger_data s seq
    (cursor, txns', is_done) ← process_transactions_in_ledger h ledger start txns limit is_json
    if is_done then ok (cursor, txns') else next cursor txns'

  unfoldable pub page_from :
      ℕ → Int32 → Toid → List TransactionInfo → Result (Toid × List TransactionInfo)
  page_from rounds (negsuc n) cursor txns =
      if le_int (negsuc n) last then err invalid_params else ok (cursor, txns)
  page_from zero (pos n) cursor txns = ok (cursor, txns)
  page_from (suc rounds) (pos n) cursor txns =
      if le_int (pos n) last
      then turn (page_from rounds (int32 (n + 1))) n txns
      else ok (cursor, txns)

-- As many rounds as there are ledgers to the last, and one for the end.
abbrev pub rounds_to : Int32 → Int32 → ℕ
rounds_to (pos m) (pos n) = m + 2 - n
rounds_to _ _ = 1

-- `getTransactionsByLedgerSequence`, with a transaction that begins and sees the store
unfoldable pub get_transactions : Handler → Bool → LedgerStore → Request → Result Response
get_transactions h answers s request = do
  range ← range_or_fail (tx_ledger_range answers s)
  check (h.is_valid request h.max_limit (to_ledger_seq_range range)) invalid_request
  (start, limit) ← initialize_pagination h request
  let last = int32 range.last_ledger.sequence
  let no_id : Toid = record { ledger_sequence = pos 0; transaction_order = 0; operation_order = 0 }
  (cursor, txns) ←
      page_from h s request.is_json start limit last (rounds_to last start.ledger_sequence)
        start.ledger_sequence no_id []
  ok (record {
    transactions = txns;
    latest_ledger = range.last_ledger;
    oldest_ledger = range.first_ledger;
    cursor = h.to_text cursor;
  })
