-- ===== src/Methods/GetTransaction/Order.antt =====
-- Why the transaction is read before the range of ledgers.
use stellar_rpc.Prelude.{◌≤◌, ◌≡◌, ◌⊎◌, true, false, Option, none, some}
use stellar_rpc.Window.{LedgerInfo}
use stellar_rpc.TransactionStore as TransactionStore
use stellar_rpc.TransactionStore.{Looked, no_transaction, read_failed, got}
use stellar_rpc.Methods.{Result, ok, err, internal_error}
use stellar_rpc.Methods.GetTransactions.{Transaction}
use stellar_rpc.Methods.GetTransaction.{
  TransactionStatus, not_found, success, failed, Handler, Request, Response, Details,
}

-- A ledger of a list that satisfies P, if one was found
abbrev FoundHas : (LedgerInfo → Type 0) → Option LedgerInfo → Type 0
FoundHas P none = Unit
FoundHas P (some l) = P l

abbrev pub NotNewer : LedgerInfo → Option Details → Type 0
NotNewer latest none = Unit
NotNewer latest (some d) = d.ledger.sequence ≤ latest.sequence

-- A response to the request about the ledgers from `oldest` to `newest`: that there is no such
-- transaction, or of this status, with what was found of it, no newer than the newest ledger
pub record Answers (request : Request) (oldest newest : LedgerInfo) (status : TransactionStatus)
    (details : Option Details) (out : Result Response) : Type 0 where
  pub response : Response
  pub returned : out ≡ ok response
  pub is_status : response.status ≡ status
  pub is_hash : response.transaction_hash ≡ request.hash
  pub is_details : response.details ≡ details
  pub is_latest : response.latest_ledger ≡ newest
  pub is_oldest : response.oldest_ledger ≡ oldest
  pub not_newer : NotNewer response.latest_ledger response.details

-- What each outcome of the lookup gives
abbrev pub Outcome :
    Handler → Request → LedgerInfo → LedgerInfo → Looked Transaction → Result Response → Type 0
Outcome h request oldest newest no_transaction out =
    Answers request oldest newest not_found none out
Outcome h request oldest newest read_failed out = out ≡ err internal_error
Outcome h request oldest newest (got tx) out =
    ((h.formats request.format tx ≡ false) × (out ≡ err internal_error))
    ⊎ ((status : TransactionStatus) × (((tx.successful ≡ true) × (status ≡ success))
          ⊎ ((tx.successful ≡ false) × (status ≡ failed)))
        × Answers request oldest newest status
            (some (record {
              application_order = tx.application_order;
              fee_bump = tx.fee_bump;
              ledger = tx.ledger;
            }))
            out)
