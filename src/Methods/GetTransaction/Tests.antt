-- ===== src/Methods/GetTransaction/Tests.antt =====
-- A transaction of ledger 7, when the range is read after ledger 8 was ingested.
use stellar_rpc.Prelude.{ℕ, true, false, some, List, [], ◌∷◌, replicate}
use stellar_rpc.Window.{LedgerInfo, pos}
use stellar_rpc.LedgerStore.{LedgerStore}
use stellar_rpc.TransactionStore as TransactionStore
use stellar_rpc.TransactionStore.{PendingTx, LedgerContents}
use stellar_rpc.Methods.GetTransaction.{Handler, Request, Db}

abbrev at : ℕ → LedgerInfo
at n = record { sequence = n; close_time = pos n }

abbrev handler : Handler
handler = record {
  is_valid_format = λ format. true;
  decode = λ hash. some 11;
  formats = λ format tx. true;
}

abbrev request : Request
request = record { hash = replicate 64 0; format = 0 }

abbrev contents : LedgerContents
contents = record {
  is_open = true;
  count_transactions = 1;
  seeks = λ order. true;
  items =
      some (record {
        tx = record {
          hash = 11;
          index = 1;
          is_fee_bump = false;
          is_successful = true;
          encodes = true;
        };
        inner_hash = 0;
      })
      ∷ [];
}

abbrev table : List PendingTx
table = record { hash = 11; seq = 7; index = 1 } ∷ []

abbrev later : LedgerStore
later = record {
  rows = at 7 ∷ at 8 ∷ [];
  cache = record {
    latest_ledger_seq = 0;
    latest_ledger_close_time = pos 0;
    first_ledger_seq = 0;
    first_ledger_close_time = pos 0;
  };
  history_retention_window = 3;
}

-- Ledger 8 is ingested after the lookup.
abbrev db : Db
db = record { table = table; store = record later { rows = at 7 ∷ [] } }

abbrev ingest_8 : Db → Db
ingest_8 d = record d { store = later }
