-- ===== src/EventStore/Query.antt =====
-- db/event.go, the table of events as it is read: a row's columns, the conditions of `GetEvents` with its
-- scan, and `trimEvents`. The table is the list of its rows in the order of their keys; a string of
-- bytes is a number, and a key stands for its place in the order of strings.
pub mod Scan
pub mod Trim
use stellar_rpc.Prelude.{
  ℕ, zero, suc, ◌+◌, ◌-◌, Bool, true, false, not, ◌&&◌, Option, none, some, List, [], ◌∷◌, ◌++◌,
  leb, ltb, ◌==◌, if◌then◌else◌, get_elem?, u32, sub32, any, filter, contains, is_nil,
}
use stellar_rpc.EventStore.{Cursor}

-- `xdr.DiagnosticEvent`: its contract, its type, the topics and the data of its body, which is `none` for
-- a version that is not V0, and whether its call was successful
pub record Event : Type 0 where
  pub contract_id : Option ℕ
  pub event_type : ℕ
  pub topics : Option (List ℕ)
  pub payload : ℕ
  pub in_successful_contract_call : Bool

-- What xdr, strkey and the protocol's cursors encode and decode
pub record Codec : Type 0 where
  pub marshal_segment : ℕ → Option ℕ
  pub marshal_event : Event → Option ℕ
  pub unmarshal_event : ℕ → Option Event
  pub encode_contract : ℕ → Option ℕ
  pub decode_contract : ℕ → Option ℕ
  pub cursor_string : Cursor → ℕ
  pub parse_cursor : ℕ → Option Cursor
  pub max_cursor : Cursor

-- `dbEvent`, with its event
pub record StoredEvent : Type 0 where
  pub tx_hash : ℕ
  pub event : Event
  pub cursor : Cursor
  pub close_time : ℕ

-- A row of the table
pub record Row : Type 0 where
  pub id : ℕ
  pub contract_id : Option ℕ
  pub event_type : ℕ
  pub event_data : ℕ
  pub ledger_close_time : ℕ
  pub transaction_hash : ℕ
  pub topics : List (Option ℕ)

-- `topicList`: as many columns as given, which are null past the event's topics
unfoldable pub topic_list : (ℕ → Option ℕ) → ℕ → List ℕ → Option (List (Option ℕ))
topic_list marshal zero segments = some []
topic_list marshal (suc n) [] = elim (topic_list marshal n []) [
  | none ↦ none
  | some columns ↦ some (none ∷ columns)
]
topic_list marshal (suc n) (segment ∷ segments) = elim (marshal segment) [
  | none ↦ none
  | some seg ↦ elim (topic_list marshal n segments) [
    | none ↦ none
    | some columns ↦ some (some seg ∷ columns)
  ]
]

-- `protocol.MaxTopicCount`, which is the number of the table's columns for topics
abbrev pub max_topic_count : ℕ
max_topic_count = 4

-- `insertEvents`: the values that are inserted for an event
unfoldable pub insert_event : Codec → StoredEvent → Option Row
insert_event x e = elim (x.marshal_event e.event) [
  | none ↦ none
  | some blob ↦ elim e.event.topics [
    | none ↦ none
    | some segments ↦ elim (topic_list x.marshal_segment max_topic_count segments) [
      | none ↦ none
      | some columns ↦ some (record {
        id = x.cursor_string e.cursor;
        contract_id = e.event.contract_id;
        event_type = e.event.event_type;
        event_data = blob;
        ledger_close_time = e.close_time;
        transaction_hash = e.tx_hash;
        topics = columns;
      })
    ]
  ]
]

-- `TopicCondition`; a `TopicFilter` is a list of them, and `TopicFilters` a list of those.
pub record TopicCondition : Type 0 where
  pub column : ℕ
  pub value : ℕ

-- An equation of SQL, which a null never satisfies
unfoldable pub column_is : Option ℕ → ℕ → Bool
column_is none value = false
column_is (some v) value = v == value

-- `sq.Eq` of a topic's column
unfoldable pub condition_holds : Row → TopicCondition → Bool
condition_holds row cond = elim (get_elem? row.topics (cond.column - 1)) [
  | none ↦ false
  | some column ↦ column_is column cond.value
]

-- `sq.And` of a filter's conditions
unfoldable pub all_hold : Row → List TopicCondition → Bool
all_hold row [] = true
all_hold row (cond ∷ conds) = if condition_holds row cond then all_hold row conds else false

-- `sq.Or` of the filters; those with no condition are left out, and so is an empty disjunction.
unfoldable pub topics_hold : List (List TopicCondition) → Row → Bool
topics_hold topics row =
    let ors = filter (λ conds. not (is_nil conds)) topics in
    if is_nil ors then true else any (all_hold row) ors

-- An `IN` of SQL, left out when there is nothing to be in
unfoldable pub is_in : List ℕ → Option ℕ → Bool
is_in [] column = true
is_in (v ∷ vs) none = false
is_in (v ∷ vs) (some column) = contains (v ∷ vs) column

-- The conditions of the query of `GetEvents` that come from the filters
unfoldable pub filters_hold : List ℕ → List (List TopicCondition) → List ℕ → Row → Bool
filters_hold contract_ids topics event_types row =
    is_in contract_ids row.contract_id
    && (is_in event_types (some row.event_type) && topics_hold topics row)

-- The rows that it selects
unfoldable pub selects :
    Codec → Cursor × Cursor → List ℕ → List (List TopicCondition) → List ℕ → Row → Bool
selects x (start, end) contract_ids topics event_types row =
    (leb (x.cursor_string start) row.id && ltb row.id (x.cursor_string end))
    && filters_hold contract_ids topics event_types row

-- A condition's column is not one of the table: SQLite refuses the query.
abbrev pub is_unknown : TopicCondition → Bool
is_unknown cond = not (leb 1 cond.column && leb cond.column max_topic_count)

unfoldable pub columns_exist : List (List TopicCondition) → Bool
columns_exist topics = not (any (any is_unknown) topics)

-- `strkey.Encode` of the contracts' ids, for the log
unfoldable pub encode_all : (ℕ → Option ℕ) → List ℕ → Bool
encode_all encode [] = true
encode_all encode (id ∷ ids) = elim (encode id) [ none ↦ false | some s ↦ encode_all encode ids ]

-- Whether the database answers the query, and whether its rows end without an error
pub record Answer : Type 0 where
  pub opens : Bool
  pub ends : Bool

-- The loop over the rows, with a scan function on a state S; `none` is an error.
unfoldable pub scan_rows {ℓ} :
    {S : Type ℓ} → Codec → Bool → (Event → Cursor → ℕ → ℕ → S → S × Bool) → List Row → S → Option S
scan_rows x ends scanner [] s = if ends then some s else none
scan_rows x ends scanner (row ∷ rows) s = elim (x.parse_cursor row.id) [
  | none ↦ none
  | some cur ↦ elim (x.unmarshal_event row.event_data) [
    | none ↦ none
    | some event ↦
        let (s', continues) = scanner event cur row.ledger_close_time row.transaction_hash s in
        let rest = scan_rows x ends scanner rows s' in if continues then rest else some s'
  ]
]

-- `GetEvents`
unfoldable pub get_events {ℓ} :
    {S : Type ℓ}
    → Codec
    → Answer
    → List Row
    → Cursor × Cursor
    → List ℕ
    → List (List TopicCondition)
    → List ℕ
    → (Event → Cursor → ℕ → ℕ → S → S × Bool)
    → S
    → Option S
get_events x answer table range contract_ids topics event_types scanner s =
    if not (encode_all x.encode_contract contract_ids)
    then none
    else if not (answer.opens && columns_exist topics)
    then none
    else scan_rows x answer.ends scanner
        (filter (selects x range contract_ids topics event_types) table) s

-- `trimEvents`, where the deletion is done
unfoldable pub trim_events : Codec → ℕ → ℕ → List Row → List Row
trim_events x latest_ledger_seq retention_window table =
    let cutoff : Cursor = record {
      ledger = sub32 (u32 (latest_ledger_seq + 1)) retention_window;
      tx = 0;
      op = 0;
      event = 0;
    } in
    if leb (u32 (latest_ledger_seq + 1)) retention_window
    then table
    else filter (λ row. not (ltb row.id (x.cursor_string cutoff))) table
