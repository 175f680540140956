-- ===== src/Methods/GetTransaction.antt =====
-- methods/get_transaction.go: a transaction by its hash, with the range of ledgers. The transaction is
-- looked up first and the range is read after it, and what other goroutines do to the database between
-- the two reads is an argument, so that the second read sees another state than the first.
pub mod Order
mod Tests
use stellar_rpc.Prelude.{
  ℕ, ◌/◌, Bool, true, false, Option, none, some, List, [], ◌∷◌, ◌==◌, if◌then◌else◌, length,
}
use stellar_rpc.Window.{LedgerInfo, LedgerRange}
use stellar_rpc.LedgerStore.{LedgerStore, Ranged, get_ledger_range}
use stellar_rpc.TransactionStore as TransactionStore
use stellar_rpc.TransactionStore.{
  PendingTx, LedgerContents, Looked, no_transaction, read_failed, got,
}
use stellar_rpc.Methods.{
  RpcError, internal_error, invalid_params, Result, ok, err, ◌>>=◌, ◌>>◌, or_fail, check,
}
use stellar_rpc.Methods.GetLedgers.{range_or_fail}
use stellar_rpc.Methods.GetTransactions.{Transaction}

-- The statuses of the protocol's response
pub data TransactionStatus : Type 0 where
  not_found success failed : TransactionStatus

-- What a response says of a transaction that was found
pub record Details : Type 0 where
  pub application_order : ℕ
  pub fee_bump : Bool
  pub ledger : LedgerInfo

pub record Response : Type 0 where
  pub status : TransactionStatus
  pub transaction_hash : List ℕ
  pub details : Option Details
  pub latest_ledger : LedgerInfo
  pub oldest_ledger : LedgerInfo

-- The request's hash, as its characters, and its format
pub record Request : Type 0 where
  pub hash : List ℕ
  pub format : ℕ

-- What the code calls: `decode` is hex.Decode of 32 bytes, and `formats` tells whether a transaction can
-- be rendered.
pub record Handler : Type 0 where
  pub is_valid_format : ℕ → Bool
  pub decode : List ℕ → Option ℕ
  pub formats : ℕ → Transaction → Bool

abbrev pub status_of : Bool → TransactionStatus
status_of successful = if successful then success else failed

-- The response, from what the lookup answered and the range
unfoldable pub respond : Handler → Request → Looked Transaction → LedgerRange → Result Response
respond h request no_transaction range = ok (record {
  status = not_found;
  transaction_hash = request.hash;
  details = none;
  latest_ledger = range.last_ledger;
  oldest_ledger = range.first_ledger;
})
respond h request read_failed range = err internal_error
respond h request (got tx) range =
    if h.formats request.format tx
    then ok (record {
      status = status_of tx.successful;
      transaction_hash = request.hash;
      details = some (record {
        application_order = tx.application_order;
        fee_bump = tx.fee_bump;
        ledger = tx.ledger;
      });
      latest_ledger = range.last_ledger;
      oldest_ledger = range.first_ledger;
    })
    else err internal_error

-- The checks of the format and of the hash
unfoldable pub parse_hash : Handler → Request → Result ℕ
parse_hash h request = do
  check (h.is_valid_format request.format) invalid_params
  check (length request.hash / 2 == 32) invalid_params
  or_fail (h.decode request.hash) invalid_params

-- The database that the readers share: the table of transactions, and the store of ledgers
pub record Db : Type 0 where
  pub table : List PendingTx
  pub store : LedgerStore

-- `GetTransaction`, in a database that the others leave so between the lookup and the range
unfoldable pub get_transaction :
    Handler
    → (LedgerInfo → LedgerContents)
    → Bool
    → (others : Db → Db) → Bool
    → Db
    → Request
    → Result Response
get_transaction h reader reads others answers db request = do
  tx_hash ← parse_hash h request
  let looked = TransactionStore.get_transaction reader reads db.table db.store.rows tx_hash
  range ← range_or_fail (get_ledger_range answers (others db).store).1
  respond h request looked range
