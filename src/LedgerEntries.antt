-- ===== src/LedgerEntries.antt =====
-- ledgerentries/main.go, the getter that asks stellar-core for ledger entries, and
-- methods/get_ledger_entries.go, the request that shows them in the order of its keys.
pub mod Getter
pub mod Sorting
pub mod Request
mod Tests
use stellar_rpc.Prelude.{
  ℕ, zero, suc, ◌+◌, Bool, true, false, not, ◌||◌, ◌&&◌, Option, none, some, List, [], ◌∷◌, ◌++◌,
  map, leb, ltb, ◌==◌, if◌then◌else◌, length,
}
use stellar_rpc.LedgerStore.{LedgerStore, get_latest_ledger_sequence}
use stellar_rpc.Methods.{
  RpcError, internal_error, invalid_params, plain_error, panicked, Result, ok, err, ◌>>=◌, ◌>>◌,
  or_fail, check,
}

-- `xdr.LedgerKey`: whether it is of type TTL, and what names the entry
pub record LedgerKey : Type 0 where
  pub is_ttl : Bool
  pub name : ℕ

-- `LedgerKeyAndEntry`
pub record LedgerKeyAndEntry : Type 0 where
  pub key : LedgerKey
  pub entry : ℕ
  pub live_until_ledger_seq : Option ℕ

-- A `LedgerEntryResponse` of stellar-core
pub data State : Type 0 where
  not_found archived live : State

pub record CoreEntry : Type 0 where
  pub state : State
  pub entry : ℕ
  pub live_until_ledger_seq : ℕ

-- `coreLedgerEntryGetter`: `core` is the client's `GetLedgerEntries`, `decode` is the entries' XDR.
pub record CoreLedgerEntryGetter : Type 0 where
  pub at_ledger : ℕ
  pub core : ℕ → List LedgerKey → Option (List CoreEntry)
  pub decode : ℕ → Option ℕ

-- The live-until ledger of an entry: that of an archived one is there even if it is 0.
unfoldable pub live_until : CoreEntry → Option ℕ
live_until e = elim e.state [
  | archived ↦ some e.live_until_ledger_seq
  | _ ↦ if e.live_until_ledger_seq == 0 then none else some e.live_until_ledger_seq
]

abbrev pub is_not_found : State → Bool
is_not_found not_found = true
is_not_found _ = false

-- The loop over the response, beside the keys from the same position on: past the last of them `keys[i]`
-- panics.
unfoldable pub collect_entries :
    (ℕ → Option ℕ) → List LedgerKey → List CoreEntry → Result (List LedgerKeyAndEntry)
collect_entries decode keys [] = ok []
collect_entries decode [] (e ∷ entries) =
    let rest = collect_entries decode [] entries in
    if is_not_found e.state
    then rest
    else elim (decode e.entry) [ none ↦ err plain_error | some x ↦ err panicked ]
collect_entries decode (key ∷ keys) (e ∷ entries) =
    let rest = collect_entries decode keys entries in
    let added : Result (List LedgerKeyAndEntry) = elim (decode e.entry) [
      | none ↦ err plain_error
      | some xdr_entry ↦ rest >>= λ result.
          ok
            (record { key = key; entry = xdr_entry; live_until_ledger_seq = live_until e } ∷ result)
    ] in
    if is_not_found e.state then rest else added

-- `GetLedgerEntries`, with the store of ledgers, whose cache it may fill
unfoldable pub get_ledger_entries :
    CoreLedgerEntryGetter
    → Bool
    → LedgerStore
    → List LedgerKey
    → LedgerStore × Result (List LedgerKeyAndEntry × ℕ)
get_ledger_entries c answers store keys =
    let (store', latest) = get_latest_ledger_sequence answers store in
    let fetch : ℕ → Result (List LedgerKeyAndEntry × ℕ) = λ at_ledger.
      or_fail (c.core at_ledger keys) plain_error >>= λ entries.
      collect_entries c.decode keys entries >>= λ result. ok (result, at_ledger) in
    if c.at_ledger == 0
    then (store', or_fail latest plain_error >>= fetch)
    else (store, fetch c.at_ledger)

-- `getLedgerEntriesMaxKeys`
abbrev pub get_ledger_entries_max_keys : ℕ
get_ledger_entries_max_keys = 200

-- The loop that decodes the request's keys
unfoldable pub decode_keys : (ℕ → Option LedgerKey) → List ℕ → Result (List LedgerKey)
decode_keys decode [] = ok []
decode_keys decode (request_key ∷ keys) = do
  ledger_key ← or_fail (decode request_key) invalid_params
  check (not ledger_key.is_ttl) invalid_params
  rest ← decode_keys decode keys
  ok (ledger_key ∷ rest)

-- `requestKeyToOrder`: the last position of a key, from `i` on
unfoldable pub order_of : ℕ → List ℕ → ℕ → Option ℕ
order_of i [] key = none
order_of i (k ∷ keys) key = elim (order_of (i + 1) keys key) [
  | some order ↦ some order
  | none ↦ if k == key then some i else none
]

-- `ordering`, beside the entries; `none` is an error.
unfoldable pub with_orders :
    (LedgerKey → Option ℕ) → List ℕ → List LedgerKeyAndEntry → Option (List (ℕ × LedgerKeyAndEntry))
with_orders marshal request_keys [] = some []
with_orders marshal request_keys (e ∷ entries) = elim (marshal e.key) [
  | none ↦ none
  | some b64_key ↦ elim (order_of 0 request_keys b64_key) [
    | none ↦ none
    | some order ↦ elim (with_orders marshal request_keys entries) [
      | none ↦ none
      | some rest ↦ some ((order, e) ∷ rest)
    ]
  ]
]

-- `sort.Sort` of the entries by their orders, as an insertion sort
unfoldable pub insert_by_order :
    ℕ × LedgerKeyAndEntry → List (ℕ × LedgerKeyAndEntry) → List (ℕ × LedgerKeyAndEntry)
insert_by_order x [] = x ∷ []
insert_by_order x (y ∷ ys) = if leb x.0 y.0 then x ∷ y ∷ ys else y ∷ insert_by_order x ys

unfoldable pub sort_by_order : List (ℕ × LedgerKeyAndEntry) → List (ℕ × LedgerKeyAndEntry)
sort_by_order [] = []
sort_by_order (x ∷ xs) = insert_by_order x (sort_by_order xs)

-- `sortKeysAndEntriesAccordingToRequest`
unfoldable pub sort_according_to_request :
    (LedgerKey → Option ℕ) → List ℕ → List LedgerKeyAndEntry → Option (List LedgerKeyAndEntry)
sort_according_to_request marshal request_keys entries =
    elim (with_orders marshal request_keys entries) [
      | none ↦ none
      | some ordered ↦ some (map (λ x. x.1) (sort_by_order ordered))
    ]

-- `LedgerEntryResult`, its parts in the format that was asked for
pub record LedgerEntryResult : Type 0 where
  pub key : ℕ
  pub value : ℕ
  pub live_until_ledger_seq : Option ℕ

-- `newGetLedgerEntriesHandlerFromGetter`: `getter` is a `LedgerEntryGetter`, `render_key` and
-- `render_entry` are the conversions of `ledgerKeyEntryToResult`.
pub record Handler : Type 0 where
  pub valid_format : ℕ → Bool
  pub decode_key : ℕ → Option LedgerKey
  pub marshal_key : LedgerKey → Option ℕ
  pub getter : List LedgerKey → Result (List LedgerKeyAndEntry × ℕ)
  pub render_key : ℕ → LedgerKey → Option ℕ
  pub render_entry : ℕ → ℕ → Option ℕ

-- `ledgerKeyEntryToResult`
unfoldable pub ledger_key_entry_to_result :
    Handler → ℕ → LedgerKeyAndEntry → Option LedgerEntryResult
ledger_key_entry_to_result h format e = elim (h.render_key format e.key) [
  | none ↦ none
  | some key ↦ elim (h.render_entry format e.entry) [
    | none ↦ none
    | some value ↦
        some (record { key = key; value = value; live_until_ledger_seq = e.live_until_ledger_seq })
  ]
]

unfoldable pub results_of : Handler → ℕ → List LedgerKeyAndEntry → Option (List LedgerEntryResult)
results_of h format [] = some []
results_of h format (e ∷ entries) = elim (ledger_key_entry_to_result h format e) [
  | none ↦ none
  | some result ↦ elim (results_of h format entries) [
    | none ↦ none
    | some results ↦ some (result ∷ results)
  ]
]

-- Any error of the getter is an internal one; a panic stays one.
abbrev pub as_internal {ℓ} : {A : Type ℓ} → Result A → Result A
as_internal (ok a) = ok a
as_internal (err panicked) = err panicked
as_internal (err e) = err internal_error

-- The handler, on the request's keys and format
unfoldable pub handle : Handler → List ℕ → ℕ → Result (List LedgerEntryResult × ℕ)
handle h request_keys format = do
  check (h.valid_format format) invalid_params
  check (leb (length request_keys) get_ledger_entries_max_keys) invalid_params
  ledger_keys ← decode_keys h.decode_key request_keys
  (entries, latest_ledger) ← as_internal (h.getter ledger_keys)
  sorted ← or_fail (sort_according_to_request h.marshal_key request_keys entries) internal_error
  results ← or_fail (results_of h format sorted) internal_error
  ok (results, latest_ledger)
