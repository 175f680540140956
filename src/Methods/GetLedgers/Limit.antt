-- ===== src/Methods/GetLedgers/Limit.antt =====
-- The size of a response of `getLedgers`.
use stellar_rpc.Prelude.{
  ℕ, ◌+◌, ◌≤◌, ◌<◌, ◌≡◌, refl, Bool, Option, none, some, List, [], ◌∷◌, ◌++◌, inl, inr, arith, leb,
  leb→lt, ltb, ◌==◌, Bool-cases, length, length-append, u32, sub32, u32_mod, if◌then◌else◌,
}
use mathlib.Core.Path.{subst}
use stellar_rpc.Window.{LedgerInfo, LedgerRange, LedgerSeqRange, to_ledger_seq_range}
use stellar_rpc.LedgerStore.{LedgerStore, batch_get_ledgers}
use stellar_rpc.Decimal.{Text, parse_uint}
use stellar_rpc.Methods.{
  Result, ok, err, internal_error, invalid_params, invalid_request, check, Holds, bind-Holds,
  or_fail,
}
use stellar_rpc.Methods.GetLedgers.{
  Handler, Request, Response, Pagination, meta_to_chunk, add_to_result, fetch_from_local_db,
  fetch_from_datastore, fetch_ledgers, join_results, initialize_pagination, parse_cursor, start_of,
  get_ledgers, tx_ledger_range, range_or_fail, available_range, respond, result_of,
}

module _ (h : Handler) (is_json : Bool) (limit : ℕ) where
  -- A result of at most `limit` ledgers, if there is one.
  abbrev IsBounded : Result (List LedgerInfo) → Type 0
  IsBounded = Holds (λ ls. length ls ≤ limit)

  add_to_result-IsBounded :
      (result chunks : List LedgerInfo)
      → length result ≤ limit
      → IsBounded (add_to_result h is_json limit result chunks)
  unfolding add_to_result
  add_to_result-IsBounded result [] room = room
  add_to_result-IsBounded result (c ∷ cs) room = elim (Bool-cases (leb limit (length result))) [
    | inl full ↦ rw (full) room
    | inr open' ↦
        let lt = leb→lt _ _ open' in
        elim (Bool-cases (h.formats is_json c)) [
          | inl formatted ↦
              rw (open', formatted)
                (add_to_result-IsBounded (result ++ (c ∷ [])) cs
                  (omega (arith, length-append result (c ∷ []))))
          | inr failed ↦ rw (open', failed) tt
        ]
  ]

  local-IsBounded :
      (rows result : List LedgerInfo) (start end : ℕ)
      → length result ≤ limit
      → IsBounded (fetch_from_local_db h is_json limit rows start end result)
  unfolding fetch_from_local_db
  local-IsBounded rows result start end room =
      bind-Holds _ (or_fail (batch_get_ledgers rows start end) internal_error) _
        (λ ls. λ e. add_to_result-IsBounded result ls room)

  datastore-IsBounded :
      (start end : ℕ) → IsBounded (fetch_from_datastore h is_json limit start end [])
  unfolding fetch_from_datastore
  datastore-IsBounded start end = bind-Holds _ (or_fail h.datastore invalid_params) _ (λ reader.
      λ e. bind-Holds _ (or_fail (reader.get_ledgers start end) internal_error) _ (λ ls. λ e'.
        bind-Holds _ (or_fail (meta_to_chunk h ls) internal_error) _
          (λ cs. λ e''. add_to_result-IsBounded [] cs empty)))
    where
      empty : length {A = LedgerInfo} [] ≤ limit
      empty = omega arith

  join-IsBounded : (a b : Result (List LedgerInfo)) → IsBounded b → IsBounded (join_results a b)
  join-IsBounded (ok a) (ok b) bounded = bounded
  join-IsBounded (ok a) (err e) bounded = tt
  join-IsBounded (err e) b bounded = tt

  result_of-IsBounded : (a : Result (List LedgerInfo)) → IsBounded a → length (result_of a) ≤ limit
  result_of-IsBounded (ok ls) bounded = bounded
  result_of-IsBounded (err e) bounded = omega arith

fetch_ledgers-IsBounded :
    (h : Handler) (is_json : Bool) (rows : List LedgerInfo) (start end : ℕ) (local : LedgerSeqRange)
    → IsBounded h is_json (u32 (sub32 end start + 1)) (fetch_ledgers h rows start end is_json local)
unfolding fetch_ledgers
fetch_ledgers-IsBounded h is_json rows start end local =
    let limit = u32 (sub32 end start + 1) in
    elim (Bool-cases (leb local.first_ledger start)) [
      | inl here ↦ rw (here) (local-IsBounded h is_json limit rows [] start end (omega arith))
      | inr before ↦ elim (Bool-cases (ltb end local.first_ledger)) [
        | inl remote ↦ rw (before, remote) (datastore-IsBounded h is_json limit start end)
        | inr both ↦
            let first =
              fetch_from_datastore h is_json limit start (sub32 local.first_ledger 1) [] in
            let bounded =
              result_of-IsBounded h is_json limit first
                (datastore-IsBounded h is_json limit start (sub32 local.first_ledger 1)) in
            rw (before, both)
              (join-IsBounded h is_json limit first _ (
                local-IsBounded h is_json limit rows (result_of first) local.first_ledger end
                  bounded))
      ]
    ]

-- The number of ledgers that a request asks for.
abbrev pub limit_of : Handler → Request → ℕ
limit_of h request = elim request.pagination [
  | none ↦ h.default_limit
  | some p ↦ if p.limit == 0 then h.default_limit else p.limit
]

parse_cursor-IsWord :
    (h : Handler) (cursor : Text) (range : LedgerSeqRange)
    → Holds (λ n. n < u32_mod) (parse_cursor h cursor range)
unfolding parse_cursor
parse_cursor-IsWord h cursor range =
    bind-Holds _ (or_fail (parse_uint 4294967295 cursor) invalid_params) _ (λ last. λ e.
      bind-Holds _ (check (h.is_within (u32 (last + 1)) range) invalid_params) _
        (λ u. λ e'. word last))
  where
    word : (last : ℕ) → u32 (last + 1) < u32_mod
    word last = omega arith

start_of-IsWord :
    (h : Handler) (request : Request) (cursor : Text) (range : LedgerSeqRange)
    → request.start_ledger < u32_mod
    → Holds (λ n. n < u32_mod) (start_of h request cursor range)
start_of-IsWord h request [] range small = small
start_of-IsWord h request (c ∷ cs) range small = parse_cursor-IsWord h (c ∷ cs) range

initialize_pagination-limit :
    (h : Handler) (request : Request) (range : LedgerSeqRange)
    → request.start_ledger < u32_mod
    → Holds
        (λ page. (page.0 < u32_mod) × (page.1 ≡ limit_of h request))
        (initialize_pagination h request range)
unfolding initialize_pagination
initialize_pagination-limit h request range small = by_pagination request.pagination refl
  where
    by_pagination :
        (p : Option Pagination)
        → request.pagination ≡ p
        → Holds
            (λ page. (page.0 < u32_mod) × (page.1 ≡ limit_of h request))
            (initialize_pagination h request range)
    by_pagination none e = rw (e) (small, refl)
    by_pagination (some p) e = rw (e) (
        bind-Holds _ (start_of h request p.cursor range) _ (λ start. λ parsed. (
          subst (Holds (λ n. n < u32_mod)) parsed (start_of-IsWord h request p.cursor range small),
          refl,
        )))

page-IsWithin :
    (h : Handler) (s : LedgerStore) (request : Request) (range : LedgerRange)
    (available : LedgerSeqRange)
    → request.start_ledger < u32_mod
    → Holds
        (λ response. length response.ledgers ≤ limit_of h request)
        (respond h s request range available)
unfolding respond
page-IsWithin h s request range available small =
    bind-Holds _ (initialize_pagination h request available) _ (λ (start, limit). λ paged.
      let end = sub32 (u32 (start + limit)) 1 in
      let local = to_ledger_seq_range range in
      bind-Holds _ (fetch_ledgers h s.rows start end request.is_json local) _ (λ ls. λ got.
        let bounded : IsBounded h request.is_json (u32 (sub32 end start + 1)) (ok ls) =
          subst (IsBounded h request.is_json (u32 (sub32 end start + 1))) got
            (fetch_ledgers-IsBounded h request.is_json s.rows start end local) in
        let (word, same) =
          subst (Holds (λ page. (page.0 < u32_mod) × (page.1 ≡ limit_of h request))) paged
            (initialize_pagination-limit h request available small) in
        omega (arith, bounded, same, word)))

-- A response has at most as many ledgers as the request asks for (whose start is a 32-bit number),
-- whatever the local database and the datastore answer.
pub get_ledgers-IsBounded :
    (h : Handler) (answers : Bool) (s : LedgerStore) (request : Request) (response : Response)
    → request.start_ledger < u32_mod
    → get_ledgers h answers s request ≡ ok response
    → length response.ledgers ≤ limit_of h request
unfolding get_ledgers
get_ledgers-IsBounded h answers s request response small e =
    subst (Holds (λ response. length response.ledgers ≤ limit_of h request)) e (
      bind-Holds _ (range_or_fail (tx_ledger_range answers s)) _ (λ range. λ known.
        bind-Holds _
          (check (h.validate request h.max_limit (available_range h range)) invalid_request) _
          (λ u. λ valid. page-IsWithin h s request range (available_range h range) small)))
