-- ===== src/Methods/GetLedgers/Tests.antt =====
-- `getLedgers` on concrete inputs.
use stellar_rpc.Prelude.{
  ℕ, ◌≤◌, ◌≡◌, refl, Bool, true, false, Option, none, some, [], ◌∷◌, ◌&&◌, inl, inr, arith, leb,
  length,
}
use stellar_rpc.Window.{LedgerInfo, LedgerSeqRange, pos, to_ledger_seq_range}
use stellar_rpc.LedgerStore.{
  LedgerStore, get_ledger_range_with_cache, oldest_rows, select, batch_get_ledgers,
}
use stellar_rpc.LedgerStore.Coherent.{IsCoherent}
use stellar_rpc.DatastoreReader.{Backend, fetch_from, ledger_reader}
use stellar_rpc.Decimal.{parse_uint, format_uint}
use stellar_rpc.Methods.{ok}
use stellar_rpc.Methods.GetLedgers.{
  Handler, Request, Response, Pagination, get_ledgers, initialize_pagination, available_first,
  tx_ledger_range, fetch_ledgers, fetch_from_datastore, meta_to_chunk, add_to_result,
  fetch_from_local_db, cursor_after,
}
use stellar_rpc.Methods.GetLedgers.Page.{IsPage, Covers, available_of, get_ledgers-IsPage}
use stellar_rpc.Methods.GetLedgers.Limit.{get_ledgers-IsBounded, limit_of}
use stellar_rpc.Methods.GetLedgers.Remote.{Works, ledger_reader-Serves}

abbrev ledger : ℕ → LedgerInfo
ledger n = record { sequence = n; close_time = pos n }

abbrev backend : Backend
backend = record {
  is_created = true;
  prepare_range = λ s. λ e. true;
  get_ledger = λ n. some (ledger n);
}

backend-Works : Works backend 5
backend-Works = record {
  created = refl;
  prepares = λ s e low ordered high. refl;
  has = λ n low high. (ledger n, refl, refl);
}

abbrev within : ℕ → LedgerSeqRange → Bool
within n range = leb range.first_ledger n && leb n range.last_ledger

abbrev handler : Handler
handler = record {
  max_limit = 10;
  default_limit = 5;
  datastore = some (ledger_reader backend);
  validate = λ request max range. leb (limit_asked request.pagination) max;
  is_within = within;
  marshals = λ l. true;
  formats = λ is_json l. true;
}
  where
    limit_asked : Option Pagination → ℕ
    limit_asked none = 0
    limit_asked (some p) = p.limit

abbrev store : LedgerStore
store = record {
  rows = ledger 5 ∷ ledger 6 ∷ ledger 7 ∷ [];
  cache = record {
    latest_ledger_seq = 7;
    latest_ledger_close_time = pos 7;
    first_ledger_seq = 0;
    first_ledger_close_time = pos 0;
  };
  history_retention_window = 3;
}

store-IsCoherent : IsCoherent store
store-IsCoherent = record {
  ascending = (omega arith, (omega arith, (omega arith, tt)));
  agrees = (inr (refl, refl), inl refl);
}

abbrev request : Request
request = record {
  start_ledger = 3;
  pagination = some (record { cursor = []; limit = 4 });
  is_json = false;
}

covers : Covers handler.datastore 5
unfolding ledger_reader
covers = (ledger_reader-Serves backend 5 backend-Works (omega arith), omega arith)

abbrev page : Response
page = record {
  ledgers = ledger 3 ∷ ledger 4 ∷ ledger 5 ∷ ledger 6 ∷ [];
  latest_ledger = ledger 7;
  oldest_ledger = ledger 5;
  cursor = 54 ∷ [];
}

two_sources : get_ledgers handler true store request ≡ ok page
unfolding get_ledgers tx_ledger_range get_ledger_range_with_cache oldest_rows select
    initialize_pagination fetch_ledgers to_ledger_seq_range fetch_from_datastore ledger_reader
    fetch_from meta_to_chunk add_to_result fetch_from_local_db batch_get_ledgers cursor_after
    format_uint
two_sources = refl

get_ledgers-IsPage_example :
    (response : Response) × (get_ledgers handler true store request ≡ ok response)
    × IsPage (available_of handler (ledger 5) (ledger 6 ∷ ledger 7 ∷ [])) 3 4 response
unfolding available_first ledger_reader initialize_pagination
get_ledgers-IsPage_example =
    get_ledgers-IsPage handler store request (ledger 5) (ledger 6 ∷ ledger 7 ∷ []) 3 4
      store-IsCoherent refl (refl, (refl, (refl, tt))) covers ((λ is_json l. refl), (λ l. refl))
      refl refl (omega arith) (omega arith) (omega arith) (omega arith)

abbrev all_ledgers : LedgerSeqRange
all_ledgers = record { first_ledger = 2; last_ledger = 7 }

page-IsPage : IsPage all_ledgers 3 4 page
unfolding parse_uint
page-IsPage = record {
  run = ((refl, (refl, (refl, (refl, tt)))), refl);
  cursor = refl;
  latest = refl;
}

abbrev continued : Pagination
continued = record { cursor = page.cursor; limit = 0 }

get_ledgers-IsBounded_example : length page.ledgers ≤ limit_of handler request
get_ledgers-IsBounded_example =
    get_ledgers-IsBounded handler true store request page (omega arith) two_sources
