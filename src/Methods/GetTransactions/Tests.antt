-- ===== src/Methods/GetTransactions/Tests.antt =====
-- `getTransactions` on concrete ledgers.
use stellar_rpc.Prelude.{
  ℕ, ◌+◌, ◌*◌, ◌≡◌, refl, Bool, true, false, Option, none, some, List, [], ◌∷◌, inl, inr, arith,
  map,
}
use stellar_rpc.Window.{LedgerInfo, LedgerRange}
use stellar_rpc.LedgerStore.{
  LedgerStore, get_ledger_range_with_cache, oldest_rows, select, get_ledger,
}
use stellar_rpc.LedgerStore.Coherent.{IsCoherent}
use stellar_rpc.Decimal.{Text}
use stellar_rpc.Methods.{ok}
use stellar_rpc.Methods.GetLedgers.{tx_ledger_range}
use stellar_rpc.Methods.GetTransactions.{
  Handler, pos, negsuc, Toid, LedgerTransaction, Reader, Request, Response, initialize_pagination,
  get_transactions, uint32_to_int32,
}
use stellar_rpc.Methods.GetTransactions.Process.{Readable}
use stellar_rpc.Methods.GetTransactions.Pages.{IsPage, get_transactions-IsPage}
use stellar_rpc.Methods.GetTransactions.Repeat.{get_transactions-rewinds}

abbrev ledger : ℕ → LedgerInfo
ledger n = record { sequence = n; close_time = stellar_rpc.Window.pos n }

-- Two transactions in each ledger
abbrev transaction : ℕ → ℕ → LedgerTransaction
transaction n i = record {
  hash = 10 * n + i;
  index = i;
  is_fee_bump = false;
  is_successful = true;
  encodes = true;
}

abbrev txs : LedgerInfo → List LedgerTransaction
txs l = transaction l.sequence 1 ∷ transaction l.sequence 2 ∷ []

abbrev reader_of : LedgerInfo → Reader
reader_of l = record {
  is_open = true;
  count_transactions = 2;
  seeks = λ k. true;
  items = map some (txs l);
}

-- A text of a position, and back
abbrev to_text : Toid → Text
to_text id = elim id.ledger_sequence [
  | pos n ↦ n ∷ id.transaction_order ∷ id.operation_order ∷ []
  | negsuc n ↦ []
]

abbrev parse_id : Text → Option Toid
parse_id (n ∷ order ∷ op ∷ []) =
    some (record { ledger_sequence = pos n; transaction_order = order; operation_order = op })
parse_id _ = none

abbrev handler : Handler
handler = record {
  max_limit = 10;
  default_limit = 5;
  is_valid = λ request max range. true;
  parse_id = parse_id;
  to_text = to_text;
  reader = reader_of;
  formats = λ is_json tx. true;
}

abbrev store : LedgerStore
store = record {
  rows = ledger 5 ∷ ledger 6 ∷ ledger 7 ∷ [];
  cache = record {
    latest_ledger_seq = 7;
    latest_ledger_close_time = stellar_rpc.Window.pos 7;
    first_ledger_seq = 0;
    first_ledger_close_time = stellar_rpc.Window.pos 0;
  };
  history_retention_window = 3;
}

store-IsCoherent : IsCoherent store
store-IsCoherent = record {
  ascending = (omega arith, (omega arith, (omega arith, tt)));
  agrees = (inr (refl, refl), inl refl);
}

reader-Readable : (is_json : Bool) (l : LedgerInfo) → Readable handler is_json l (txs l)
reader-Readable is_json l = record {
  opens = refl;
  count = refl;
  seeks = λ k. refl;
  items = refl;
  encode = (omega arith, refl, (omega arith, refl, tt));
  formats = λ tx. refl;
}

abbrev request : Text → Request
request cursor = record {
  start_ledger = 0;
  pagination = some (record { cursor = cursor; limit = 2 });
  is_json = false;
}

-- After the first transaction of ledger 5
get_transactions-IsPage_example :
    (response : Response) × (get_transactions handler true store (request (5 ∷ 1 ∷ 1 ∷ []))
      ≡ ok response)
    × IsPage handler txs store.rows 2 2 (ledger 5) (ledger 6 ∷ ledger 7 ∷ []) response
unfolding initialize_pagination uint32_to_int32
get_transactions-IsPage_example =
    get_transactions-IsPage handler store (request (5 ∷ 1 ∷ 1 ∷ [])) txs (ledger 5)
      (ledger 6 ∷ ledger 7 ∷ []) [] (ledger 6 ∷ ledger 7 ∷ []) (ledger 5)
      (record { ledger_sequence = pos 5; transaction_order = 2; operation_order = 1 }) 2
      store-IsCoherent refl refl (refl, (refl, (refl, tt))) (omega arith) (reader-Readable false)
      refl refl refl (omega arith) (omega arith) (omega arith)

-- After the last transaction of ledger 7
get_transactions-rewinds_example :
    (get_transactions handler true store (request (7 ∷ 2 ∷ 1 ∷ []))
      ≡ ok (record {
        transactions = [];
        latest_ledger = ledger 7;
        oldest_ledger = ledger 5;
        cursor = 7 ∷ 0 ∷ 1 ∷ [];
      }))
    × (limit : ℕ) × (initialize_pagination handler (request (7 ∷ 0 ∷ 1 ∷ []))
        ≡ ok
            (record { ledger_sequence = pos 7; transaction_order = 1; operation_order = 1 }, limit))
unfolding initialize_pagination uint32_to_int32 tx_ledger_range get_ledger_range_with_cache
    oldest_rows select get_ledger
get_transactions-rewinds_example =
    get_transactions-rewinds handler store (request (7 ∷ 2 ∷ 1 ∷ [])) (request (7 ∷ 0 ∷ 1 ∷ []))
      (record { first_ledger = ledger 5; last_ledger = ledger 7 }) (txs (ledger 7))
      (record { ledger_sequence = pos 7; transaction_order = 3; operation_order = 1 }) 2
      (record { cursor = 7 ∷ 0 ∷ 1 ∷ []; limit = 2 }) refl refl (omega arith)
      (reader-Readable false (ledger 7)) refl refl refl refl (omega arith) (omega arith)
      (omega arith) refl refl refl (7, 0 ∷ 1 ∷ [], refl)
