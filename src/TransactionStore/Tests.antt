-- ===== src/TransactionStore/Tests.antt =====
-- A ledger with a fee bump, found by the inner hash.
use stellar_rpc.Prelude.{◌≡◌, refl, inl, inr, true, false, some, [], ◌∷◌, leb, arith}
use stellar_rpc.Window.{LedgerInfo, pos}
use stellar_rpc.Methods.GetTransactions.{Transaction, parse_transaction}
use stellar_rpc.TransactionStore.{
  TransactionHandler, IngestTransaction, LedgerContents, insert_transactions, flush_pending,
  trim_transactions, got, ledger_of, get_transaction,
}
use stellar_rpc.TransactionStore.Insert.{LacksKey}
use stellar_rpc.TransactionStore.Lookup.{
  Holding, get_transaction-insert_transactions, get_transaction-trim_transactions,
}

abbrev ledger : LedgerInfo
ledger = record { sequence = 7; close_time = pos 100 }

abbrev bump : IngestTransaction
bump = record {
  tx = record { hash = 11; index = 1; is_fee_bump = true; is_successful = true; encodes = true };
  inner_hash = 12;
}

abbrev plain : IngestTransaction
plain = record {
  tx = record { hash = 13; index = 2; is_fee_bump = false; is_successful = true; encodes = true };
  inner_hash = 0;
}

abbrev contents : LedgerContents
contents = record {
  is_open = true;
  count_transactions = 2;
  seeks = λ order. leb order 2;
  items = some bump ∷ some plain ∷ [];
}

abbrev handler : TransactionHandler
handler = record { pending = []; table = record { hash = 3; seq = 6; index = 1 } ∷ [] }

abbrev parsed : Transaction
parsed = record {
  transaction_hash = 11;
  application_order = 1;
  fee_bump = true;
  successful = true;
  ledger = ledger;
}

parses : parse_transaction ledger bump.tx ≡ some parsed
unfolding parse_transaction
parses = refl

bump-Holding : Holding (λ l. contents) (ledger ∷ []) 7 12 ledger bump
unfolding ledger_of
bump-Holding = record {
  before = [];
  after = plain ∷ [];
  known = refl;
  opens = refl;
  items = refl;
  counted = refl;
  order = refl;
  seeks = refl;
  key = inr (refl, refl);
  apart_before = tt;
  apart_after = (apart, tt);
}
  where
    apart : LacksKey 12 plain
    apart (inl e) = omega arith
    apart (inr (e, e')) = omega arith

get_transaction-insert_transactions_example :
    (w' : TransactionHandler) × (w'' : TransactionHandler) × (insert_transactions
        (λ rows. true)
        (λ entries. entries)
        true
        7
        contents
        handler
      ≡ some w')
    × (flush_pending (λ rows. true) w' ≡ some w'')
    × (get_transaction (λ l. contents) true w''.table (ledger ∷ []) 12 ≡ got parsed)
get_transaction-insert_transactions_example =
    get_transaction-insert_transactions (λ rows. true) (λ entries. entries) (λ l. contents)
      (ledger ∷ []) 7 12 ledger bump parsed handler (λ rows. refl) (λ entries e. (λ m. m, λ m. m))
      bump-Holding parses (omega arith) ((λ e. omega arith), tt)

get_transaction-trim_transactions_example :
    get_transaction (λ l. contents) true (trim_transactions 7 1 handler.table) (ledger ∷ []) 3
    ≡ get_transaction (λ l. contents) true handler.table (ledger ∷ []) 3
get_transaction-trim_transactions_example =
    get_transaction-trim_transactions (λ l. contents) true handler.table (ledger ∷ []) 3 7 1
      (omega arith) (omega arith, tt)
