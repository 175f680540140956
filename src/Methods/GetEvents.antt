-- ===== src/Methods/GetEvents.antt =====
-- methods/get_events.go: events in a range of cursors that match a request's filters.
mod Sample
mod Tests
pub mod Combine
pub mod Infos
pub mod Pages
pub mod Shown
pub mod Panics
pub mod Split
pub mod Found
pub mod Filters
pub mod Topics
use stellar_rpc.Prelude.{
  ℕ, zero, suc, ◌+◌, Bool, true, false, not, ◌||◌, ◌&&◌, Option, none, some, List, [], ◌∷◌, ◌++◌,
  ltb, leb, ◌==◌, if◌then◌else◌, length, u32, sub32, min, contains, is_nil,
}
use stellar_rpc.Window.{LedgerInfo, LedgerRange}
use stellar_rpc.LedgerStore.{LedgerStore, Ranged, get_ledger_range}
use stellar_rpc.EventStore.{Cursor}
use stellar_rpc.EventStore.Query as Query
use stellar_rpc.EventStore.Query.{Codec, Event, Row, TopicCondition, Answer}
use stellar_rpc.Methods.{
  RpcError, internal_error, invalid_request, invalid_params, plain_error, panicked, Result, ok, err,
  ◌>>=◌, ◌>>◌, or_fail, check,
}
use stellar_rpc.Methods.GetLedgers.{range_or_fail}

-- `SegmentFilter`, `EventFilter`, with the keys of the set of its types, and `GetEventsRequest` of the protocol
pub record SegmentFilter : Type 0 where
  pub wildcard : Bool
  pub scval : Option ℕ

pub record EventFilter : Type 0 where
  pub event_types : List ℕ
  pub contract_ids : List ℕ
  pub topics : List (List SegmentFilter)

pub record Pagination : Type 0 where
  pub cursor : Option Cursor
  pub limit : ℕ

pub record Request : Type 0 where
  pub start_ledger : ℕ
  pub end_ledger : ℕ
  pub filters : List EventFilter
  pub pagination : Option Pagination
  pub is_json : Bool

-- `EventInfo`; its id is a cursor's string, and its topics and value are in the format that was asked for.
pub record EventInfo : Type 0 where
  pub event_type : ℕ
  pub ledger : ℕ
  pub ledger_closed_at : ℕ
  pub id : ℕ
  pub in_successful_contract_call : Bool
  pub transaction_hash : ℕ
  pub op_index : ℕ
  pub tx_index : ℕ
  pub topics : List ℕ
  pub value : ℕ
  pub contract_id : Option ℕ

pub record Response : Type 0 where
  pub events : List EventInfo
  pub cursor : ℕ
  pub latest_ledger : LedgerInfo
  pub oldest_ledger : LedgerInfo

-- `eventsRPCHandler`, with what it calls: `valid` and `matches` are the request's `Valid` and `Matches`,
-- `event_type_xdr` and `event_type_from_xdr` the protocol's maps of types, `convert_json` is xdr2json's and
-- `marshal_base64` xdr's.
pub record Handler : Type 0 where
  pub max_limit : ℕ
  pub default_limit : ℕ
  pub codec : Codec
  pub valid : Request → ℕ → Bool
  pub matches : List EventFilter → Event → Bool
  pub event_type_xdr : ℕ → ℕ
  pub event_type_from_xdr : ℕ → Option ℕ
  pub convert_json : ℕ → Option ℕ
  pub marshal_base64 : ℕ → Option ℕ
  pub must_encode : ℕ → ℕ

-- `LedgerScanLimit`
abbrev pub ledger_scan_limit : ℕ
ledger_scan_limit = 10000

-- The inner loop of `combineContractIDs`, on the set of those seen and the ids so far
unfoldable pub add_contract_ids :
    (ℕ → Option ℕ) → List ℕ → List ℕ → List ℕ → Option (List ℕ × List ℕ)
add_contract_ids decode seen ids [] = some (seen, ids)
add_contract_ids decode seen ids (contract_id ∷ rest) =
    let skipped = add_contract_ids decode seen ids rest in
    let added : Option (List ℕ × List ℕ) = elim (decode contract_id) [
      | none ↦ none
      | some id ↦ add_contract_ids decode (seen ++ (contract_id ∷ [])) (ids ++ (id ∷ [])) rest
    ] in
    if contains seen contract_id then skipped else added

unfoldable pub contract_ids_from :
    (ℕ → Option ℕ) → List ℕ → List ℕ → List EventFilter → Option (List ℕ)
contract_ids_from decode seen ids [] = some ids
contract_ids_from decode seen ids (filter ∷ filters) =
    let rest : Option (List ℕ) = elim (add_contract_ids decode seen ids filter.contract_ids) [
      | none ↦ none
      | some (seen', ids') ↦ contract_ids_from decode seen' ids' filters
    ] in
    if is_nil filter.contract_ids then some [] else rest

-- `combineContractIDs`; `none` is an error.
unfoldable pub combine_contract_ids : (ℕ → Option ℕ) → List EventFilter → Option (List ℕ)
combine_contract_ids decode filters = contract_ids_from decode [] [] filters

-- The inner loop of `combineEventTypes`: a set is a list without duplicates.
unfoldable pub add_event_types : (ℕ → ℕ) → List ℕ → List ℕ → List ℕ
add_event_types to_xdr types [] = types
add_event_types to_xdr types (t ∷ rest) =
    let kept = add_event_types to_xdr types rest in
    let added = add_event_types to_xdr (types ++ (to_xdr t ∷ [])) rest in
    if contains types (to_xdr t) then kept else added

unfoldable pub event_types_from : (ℕ → ℕ) → List ℕ → List EventFilter → List ℕ
event_types_from to_xdr types [] = types
event_types_from to_xdr types (filter ∷ filters) =
    let rest = event_types_from to_xdr (add_event_types to_xdr types filter.event_types) filters in
    if is_nil filter.event_types then [] else rest

-- `combineEventTypes`
unfoldable pub combine_event_types : (ℕ → ℕ) → List EventFilter → List ℕ
combine_event_types to_xdr filters = event_types_from to_xdr [] filters

-- A segment's value, unless it is skipped
unfoldable pub segment_value : SegmentFilter → Option ℕ
segment_value segment = if segment.wildcard then none else segment.scval

-- The i-th segment's condition before those of the rest
unfoldable pub with_condition :
    (ℕ → Option ℕ) → ℕ → Option ℕ → Option (List TopicCondition) → Option (List TopicCondition)
with_condition marshal i none rest = rest
with_condition marshal i (some scval) rest = elim (marshal scval) [
  | none ↦ none
  | some encoded_topic ↦ elim rest [
    | none ↦ none
    | some conditions ↦ some (record { column = i + 1; value = encoded_topic } ∷ conditions)
  ]
]

-- The conditions of a topic from its i-th segment on; `none` is an error.
unfoldable pub conditions_from :
    (ℕ → Option ℕ) → ℕ → List SegmentFilter → Option (List TopicCondition)
conditions_from marshal i [] = some []
conditions_from marshal i (segment ∷ segments) =
    with_condition marshal i (segment_value segment) (conditions_from marshal (i + 1) segments)

-- What becomes of the topics: an error, no restriction, or filters so far
pub data Combined : Type 0 where
  failed unrestricted : Combined
  combined : List (List TopicCondition) → Combined

-- The loop over a filter's topics
unfoldable pub add_topics :
    (ℕ → Option ℕ) → List (List TopicCondition) → List (List SegmentFilter) → Combined
add_topics marshal topic_filters [] = combined topic_filters
add_topics marshal topic_filters (topic ∷ topics) = elim (conditions_from marshal 0 topic) [
  | none ↦ failed
  | some [] ↦ unrestricted
  | some (cond ∷ conds) ↦ add_topics marshal (topic_filters ++ ((cond ∷ conds) ∷ [])) topics
]

unfoldable pub topics_from :
    (ℕ → Option ℕ) → List (List TopicCondition) → List EventFilter → Combined
topics_from marshal topic_filters [] = combined topic_filters
topics_from marshal topic_filters (filter ∷ filters) =
    let rest : Combined = elim (add_topics marshal topic_filters filter.topics) [
      | failed ↦ failed
      | unrestricted ↦ unrestricted
      | combined topic_filters' ↦ topics_from marshal topic_filters' filters
    ] in
    if is_nil filter.topics then unrestricted else rest

-- `combineTopics`
unfoldable pub combine_topics :
    (ℕ → Option ℕ) → List EventFilter → Option (List (List TopicCondition))
combine_topics marshal filters = elim (topics_from marshal [] filters) [
  | failed ↦ none
  | unrestricted ↦ some []
  | combined topic_filters ↦ some topic_filters
]

-- `entry`
pub record Entry : Type 0 where
  pub cursor : Cursor
  pub ledger_close_timestamp : ℕ
  pub event : Event
  pub tx_hash : ℕ

-- `eventScanFunction`, on the entries found so far
unfoldable pub event_scan_function :
    (Event → Bool) → ℕ → Event → Cursor → ℕ → ℕ → List Entry → List Entry × Bool
event_scan_function matches limit event cursor timestamp tx_hash found =
    let entry : Entry = record {
      cursor = cursor;
      ledger_close_timestamp = timestamp;
      event = event;
      tx_hash = tx_hash;
    } in
    let found' = if matches event then found ++ (entry ∷ []) else found in
    (found', ltb (length found') limit)

unfoldable pub convert_all : (ℕ → Option ℕ) → List ℕ → Option (List ℕ)
convert_all convert [] = some []
convert_all convert (topic ∷ topics) = elim (convert topic) [
  | none ↦ none
  | some t ↦ elim (convert_all convert topics) [ none ↦ none | some ts ↦ some (t ∷ ts) ]
]

-- `eventInfoForEvent`; the close time is formatted elsewhere.
unfoldable pub event_info_for_event : Handler → Bool → Entry → Option EventInfo
event_info_for_event h is_json e =
    let convert = if is_json then h.convert_json else h.marshal_base64 in
    elim e.event.topics [
      | none ↦ none
      | some v0 ↦ elim (h.event_type_from_xdr e.event.event_type) [
        | none ↦ none
        | some event_type ↦ elim (ltb e.cursor.ledger 2147483648) [
          | false ↦ none
          | true ↦ elim (convert_all convert v0) [
            | none ↦ none
            | some topics ↦ elim (convert e.event.payload) [
              | none ↦ none
              | some value ↦ some (record {
                event_type = event_type;
                ledger = e.cursor.ledger;
                ledger_closed_at = e.ledger_close_timestamp;
                id = h.codec.cursor_string e.cursor;
                in_successful_contract_call = e.event.in_successful_contract_call;
                transaction_hash = e.tx_hash;
                op_index = e.cursor.op;
                tx_index = e.cursor.tx;
                topics = topics;
                value = value;
                contract_id = elim e.event.contract_id [
                  | none ↦ none
                  | some id ↦ some (h.must_encode id)
                ];
              })
            ]
          ]
        ]
      ]
    ]

unfoldable pub infos_of : Handler → Bool → List Entry → Option (List EventInfo)
infos_of h is_json [] = some []
infos_of h is_json (entry ∷ found) = elim (event_info_for_event h is_json entry) [
  | none ↦ none
  | some info ↦ elim (infos_of h is_json found) [ none ↦ none | some infos ↦ some (info ∷ infos) ]
]

-- The cursor after the one of a request
unfoldable pub resume : Cursor → Cursor
resume c = record c { event = u32 (c.event + 1) }

unfoldable pub start_of : Request → Cursor
start_of request = elim request.pagination [
  | none ↦ record { ledger = request.start_ledger; tx = 0; op = 0; event = 0 }
  | some p ↦ elim p.cursor [
    | none ↦ record { ledger = request.start_ledger; tx = 0; op = 0; event = 0 }
    | some cursor ↦ resume cursor
  ]
]

unfoldable pub limit_of : Handler → Request → ℕ
limit_of h request = elim request.pagination [
  | none ↦ h.default_limit
  | some p ↦ if ltb 0 p.limit then p.limit else h.default_limit
]

-- `endLedger`, which is exclusive
unfoldable pub end_ledger_of : Request → LedgerRange → Cursor → ℕ
end_ledger_of request range start =
    let scanned =
      min (u32 (range.last_ledger.sequence + 1)) (u32 (start.ledger + ledger_scan_limit)) in
    if request.end_ledger == 0 then scanned else min request.end_ledger scanned

-- The entries that are found, from the filters' combination to the database
unfoldable pub find_entries :
    Handler → Answer → List Row → List EventFilter → Cursor × Cursor → ℕ → Result (List Entry)
find_entries h answer table filters range limit = do
  contract_ids ← or_fail (combine_contract_ids h.codec.decode_contract filters) invalid_params
  topics ← or_fail (combine_topics h.codec.marshal_segment filters) invalid_params
  or_fail
      (Query.get_events h.codec answer table range contract_ids topics
        (combine_event_types h.event_type_xdr filters)
        (event_scan_function (h.matches filters) limit) [])
      invalid_request

-- The id of the last event: there is none where the list is empty, and the code panics.
unfoldable pub last_id : List EventInfo → Result ℕ
last_id [] = err panicked
last_id (info ∷ []) = ok info.id
last_id (info ∷ next ∷ infos) = last_id (next ∷ infos)

-- The cursor of the response
unfoldable pub cursor_after : Codec → List EventInfo → ℕ → ℕ → Result ℕ
cursor_after x results limit end_ledger =
    if length results == limit
    then last_id results
    else ok (x.cursor_string (record x.max_cursor { ledger = sub32 end_ledger 1 }))

-- `getEvents` once it knows the range of ledgers
unfoldable pub respond : Handler → Answer → List Row → Request → LedgerRange → Result Response
respond h answer table request range =
    let start = start_of request in
    let limit = limit_of h request in
    let end_ledger = end_ledger_of request range start in
    let end : Cursor = record { ledger = end_ledger; tx = 0; op = 0; event = 0 } in
    check
      (leb range.first_ledger.sequence start.ledger && leb start.ledger range.last_ledger.sequence)
      invalid_request
    >> (find_entries h answer table request.filters (start, end) limit >>= λ found.
        or_fail (infos_of h request.is_json found) plain_error >>= λ results.
        cursor_after h.codec results limit end_ledger >>= λ cursor. ok (record {
          events = results;
          cursor = cursor;
          latest_ledger = range.last_ledger;
          oldest_ledger = range.first_ledger;
        }))

-- `getEvents`, with the store of ledgers, whose cache it may fill, and the table of events
unfoldable pub get_events :
    Handler → Bool → Answer → LedgerStore → List Row → Request → LedgerStore × Result Response
get_events h answers answer store table request =
    let (store', found) = get_ledger_range answers store in
    let response = range_or_fail found >>= λ range. respond h answer table request range in
    if h.valid request h.max_limit then (store', response) else (store, err invalid_params)
