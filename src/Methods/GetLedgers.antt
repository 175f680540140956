-- ===== src/Methods/GetLedgers.antt =====
-- methods/get_ledgers.go: pages of ledgers, from the local database and, before its first ledger, from
-- the datastore. Of the ledgers of a response the sequence and the close time are kept.
pub mod Fetch
pub mod Page
pub mod Limit
pub mod Remote
mod Tests
use stellar_rpc.Prelude.{
  ℕ, zero, suc, ◌+◌, ◌-◌, ◌≡◌, Bool, true, false, not, Option, none, some, List, [], ◌∷◌, ◌++◌, ltb,
  leb, ◌==◌, if◌then◌else◌, length, get_elem?, u32, sub32, min,
}
use stellar_rpc.Window.{LedgerInfo, LedgerRange, LedgerSeqRange, to_ledger_seq_range, Timestamp}
use stellar_rpc.LedgerStore.{
  LedgerStore, Ranged, ranged, get_ledger_range_with_cache, get_ledger_range_without_cache,
  batch_get_ledgers,
}
use stellar_rpc.DatastoreReader.{LedgerReader, ◌∷?◌}
use stellar_rpc.Decimal.{Text, format_uint, parse_uint}
use stellar_rpc.Methods.{
  RpcError, internal_error, invalid_request, invalid_params, joined_errors, Result, ok, err, ◌>>=◌,
  ◌>>◌, or_fail, check,
}

-- `PaginationOptions` and `GetLedgersRequest` of the protocol; limit is an uint.
pub record Pagination : Type 0 where
  pub cursor : Text
  pub limit : ℕ

pub record Request : Type 0 where
  pub start_ledger : ℕ
  pub pagination : Option Pagination
  pub is_json : Bool

pub record Response : Type 0 where
  pub ledgers : List LedgerInfo
  pub latest_ledger : LedgerInfo
  pub oldest_ledger : LedgerInfo
  pub cursor : Text

-- `ledgersHandler`, with what it calls: `validate` and `is_within` are the protocol's
-- `GetLedgersRequest.Validate` and `IsLedgerWithinRange`, `marshals` and
-- `formats` tell whether a ledger can be serialized and rendered.
pub record Handler : Type 0 where
  pub max_limit : ℕ
  pub default_limit : ℕ
  pub datastore : Option LedgerReader
  pub validate : Request → ℕ → LedgerSeqRange → Bool
  pub is_within : ℕ → LedgerSeqRange → Bool
  pub marshals : LedgerInfo → Bool
  pub formats : Bool → LedgerInfo → Bool

-- `ledgerReaderTx.GetLedgerRange`, with the cache as it was when the transaction began
unfoldable pub tx_ledger_range : Bool → LedgerStore → Ranged
tx_ledger_range answers s =
    if s.cache.latest_ledger_seq == 0
    then get_ledger_range_without_cache answers s.rows
    else get_ledger_range_with_cache answers s.rows s.cache.latest_ledger_seq
        s.cache.latest_ledger_close_time

abbrev pub range_or_fail : Ranged → Result LedgerRange
range_or_fail (ranged r) = ok r
range_or_fail _ = err internal_error

-- `parseLedgerInfo` of each chunk, up to the limit
unfoldable pub add_to_result :
    Handler → Bool → ℕ → List LedgerInfo → List LedgerInfo → Result (List LedgerInfo)
add_to_result h is_json limit result [] = ok result
add_to_result h is_json limit result (chunk ∷ chunks) =
    let rest = add_to_result h is_json limit (result ++ (chunk ∷ [])) chunks in
    if leb limit (length result)
    then ok result
    else if h.formats is_json chunk
    then rest
    else err internal_error

-- `metaToChunk`; `none` is an error.
unfoldable pub meta_to_chunk : Handler → List LedgerInfo → Option (List LedgerInfo)
meta_to_chunk h [] = some []
meta_to_chunk h (l ∷ ls) = if h.marshals l then some l ∷? meta_to_chunk h ls else none

-- The three closures of `fetchLedgers`, on the result so far
module _ (h : Handler) (is_json : Bool) (limit : ℕ) where
  unfoldable pub fetch_from_local_db :
      List LedgerInfo → ℕ → ℕ → List LedgerInfo → Result (List LedgerInfo)
  fetch_from_local_db rows start end result = do
    ledgers ← or_fail (batch_get_ledgers rows start end) internal_error
    add_to_result h is_json limit result ledgers

  unfoldable pub fetch_from_datastore : ℕ → ℕ → List LedgerInfo → Result (List LedgerInfo)
  fetch_from_datastore start end result = do
    reader ← or_fail h.datastore invalid_params
    ledgers ← or_fail (reader.get_ledgers start end) internal_error
    chunks ← or_fail (meta_to_chunk h ledgers) internal_error
    add_to_result h is_json limit result chunks

-- errors.Join of both parts: the second runs whatever the first did, and any error is one of both.
abbrev pub join_results :
    Result (List LedgerInfo) → Result (List LedgerInfo) → Result (List LedgerInfo)
join_results (ok a) (ok b) = ok b
join_results _ _ = err joined_errors

abbrev pub result_of : Result (List LedgerInfo) → List LedgerInfo
result_of (ok ls) = ls
result_of (err e) = []

-- `fetchLedgers`
unfoldable pub fetch_ledgers :
    Handler → List LedgerInfo → ℕ → ℕ → Bool → LedgerSeqRange → Result (List LedgerInfo)
fetch_ledgers h rows start end is_json local =
    let limit = u32 (sub32 end start + 1) in
    if leb local.first_ledger start
    then fetch_from_local_db h is_json limit rows start end []
    else if ltb end local.first_ledger
    then fetch_from_datastore h is_json limit start end []
    else let remote = fetch_from_datastore h is_json limit start (sub32 local.first_ledger 1) [] in
      join_results remote
        (fetch_from_local_db h is_json limit rows local.first_ledger end (result_of remote))

-- The first ledger that is available, with the datastore's; where its range is not known, it is left
-- out.
unfoldable pub available_first : Option LedgerReader → ℕ → ℕ
available_first none first = first
available_first (some reader) first = elim reader.get_available_ledger_range [
  | none ↦ first
  | some r ↦ min r.first_ledger first
]

-- `parseCursor`
unfoldable pub parse_cursor : Handler → Text → LedgerSeqRange → Result ℕ
parse_cursor h cursor range = do
  last ← or_fail (parse_uint 4294967295 cursor) invalid_params
  check (h.is_within (u32 (last + 1)) range) invalid_params
  ok (u32 (last + 1))

abbrev pub start_of : Handler → Request → Text → LedgerSeqRange → Result ℕ
start_of h request [] range = ok request.start_ledger
start_of h request (c ∷ cs) range = parse_cursor h (c ∷ cs) range

-- `initializePagination`
unfoldable pub initialize_pagination : Handler → Request → LedgerSeqRange → Result (ℕ × ℕ)
initialize_pagination h request range = elim request.pagination [
  | none ↦ ok (request.start_ledger, h.default_limit)
  | some p ↦ start_of h request p.cursor range >>= λ start.
      ok (start, if p.limit == 0 then h.default_limit else p.limit)
]

-- The cursor of a page with no ledger
abbrev pub cursor_before : Option Pagination → ℕ → Text
cursor_before none start = format_uint (sub32 start 1)
cursor_before (some p) start = elim p.cursor [ [] ↦ format_uint (sub32 start 1) | c ∷ cs ↦ c ∷ cs ]

-- The cursor of a response
unfoldable pub cursor_after : Option Pagination → ℕ → List LedgerInfo → Text
cursor_after pagination start [] = cursor_before pagination start
cursor_after pagination start (l ∷ []) = format_uint l.sequence
cursor_after pagination start (l ∷ l' ∷ ls) = cursor_after pagination start (l' ∷ ls)

-- The range that the request is checked against
abbrev pub available_range : Handler → LedgerRange → LedgerSeqRange
available_range h range = record {
  first_ledger = available_first h.datastore (to_ledger_seq_range range).first_ledger;
  last_ledger = (to_ledger_seq_range range).last_ledger;
}

-- `getLedgers` once the request has passed the protocol's checks
unfoldable pub respond :
    Handler → LedgerStore → Request → LedgerRange → LedgerSeqRange → Result Response
respond h s request range available = do
  (start, limit) ← initialize_pagination h request available
  ledgers ←
      fetch_ledgers h s.rows start (sub32 (u32 (start + limit)) 1) request.is_json
        (to_ledger_seq_range range)
  ok (record {
    ledgers = ledgers;
    latest_ledger = range.last_ledger;
    oldest_ledger = range.first_ledger;
    cursor = cursor_after request.pagination start ledgers;
  })

-- `getLedgers`, with a transaction that begins and sees the store
unfoldable pub get_ledgers : Handler → Bool → LedgerStore → Request → Result Response
unfolding respond
get_ledgers h answers s request = do
  range ← range_or_fail (tx_ledger_range answers s)
  check (h.validate request h.max_limit (available_range h range)) invalid_request
  respond h s request range (available_range h range)
