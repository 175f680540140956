-- ===== src/Methods/GetEvents/Tests.antt =====
-- A table of three events, read in pages of one.
use stellar_rpc.Prelude.{
  ℕ, ◌<◌, ◌≤◌, ◌≡◌, ◌≢◌, refl, inl, true, false, not, none, some, List, [], ◌∷◌, leb, arith, filter,
  Each,
}
use stellar_rpc.Window.{LedgerRange, pos}
use stellar_rpc.EventStore.{Cursor}
use stellar_rpc.EventStore.Query.{
  StoredEvent, Row, TopicCondition, Answer, insert_event, topic_list, columns_exist, filters_hold,
  encode_all, trim_events,
}
use stellar_rpc.EventStore.Query.Scan.{Fits, before, rows_of}
use stellar_rpc.EventStore.Query.Trim.{trim_events_lem, cutoff_of}
use stellar_rpc.Methods.{ok, err, panicked}
use stellar_rpc.Methods.GetEvents.{
  EventFilter, Request, Response, segment_value, with_condition, conditions_from, add_topics,
  topics_from, combine_topics, contract_ids_from, combine_contract_ids, add_contract_ids,
  combine_event_types, event_info_for_event, convert_all, limit_of, respond,
}
use stellar_rpc.Methods.GetEvents.Filters.{filters_hold_of_matches}
use stellar_rpc.Methods.GetEvents.Split.{IsStored}
use stellar_rpc.Methods.GetEvents.Shown.{Readable}
use stellar_rpc.Methods.GetEvents.Pages.{WellFormed, Page, respond-Page}
use stellar_rpc.Methods.GetEvents.Panics.{respond_calm}
use stellar_rpc.Methods.GetEvents.Sample.{
  masks, number_of, event_of, marshal_parts, codec, codec-Lawful, one_contract, agrees, one_topic,
  accepts, handler, handler-MatchesByFilter,
}

abbrev stored_at : ℕ → ℕ → ℕ → StoredEvent
stored_at ledger number topic = record {
  tx_hash = 7;
  event = event_of topic;
  cursor = record { ledger = ledger; tx = 1; op = 0; event = number };
  close_time = 100;
}

abbrev events : List StoredEvent
events = stored_at 3 0 9 ∷ stored_at 3 1 8 ∷ stored_at 4 0 9 ∷ []

abbrev row_of : StoredEvent → ℕ → Row
row_of e topic = record {
  id = number_of e.cursor;
  contract_id = some 5;
  event_type = 1;
  event_data = topic;
  ledger_close_time = 100;
  transaction_hash = 7;
  topics = some topic ∷ none ∷ none ∷ none ∷ [];
}

abbrev table : List Row
table = row_of (stored_at 3 0 9) 9 ∷ row_of (stored_at 3 1 8) 8 ∷ row_of (stored_at 4 0 9) 9 ∷ []

rows_of_events : rows_of codec events ≡ some table
unfolding insert_event topic_list marshal_parts
rows_of_events = refl

abbrev filters : List EventFilter
filters =
    record {
      event_types = [];
      contract_ids = 5 ∷ [];
      topics = (record { wildcard = false; scval = some 9 } ∷ []) ∷ [];
    }
    ∷ []

abbrev request : Request
request = record {
  start_ledger = 3;
  end_ledger = 0;
  filters = filters;
  pagination = some (record { cursor = none; limit = 1 });
  is_json = false;
}

abbrev range : LedgerRange
range = record {
  first_ledger = record { sequence = 2; close_time = pos 90 };
  last_ledger = record { sequence = 10; close_time = pos 150 };
}

abbrev answer : Answer
answer = record { opens = true; ends = true }

stored_at-IsStored :
    (ledger number topic : ℕ)
    → ledger < 100
    → number < 100
    → IsStored masks (stored_at ledger number topic).cursor
stored_at-IsStored ledger number topic low small = record {
  fits = record {
    ledger_fits = omega arith;
    tx_fits = omega arith;
    op_fits = omega arith;
    event_fits = omega arith;
  };
  below = inl (omega arith);
  grows = omega arith;
}

combined_ids : combine_contract_ids codec.decode_contract filters ≡ some (5 ∷ [])
unfolding combine_contract_ids contract_ids_from add_contract_ids
combined_ids = refl

abbrev topic_filters : List (List TopicCondition)
topic_filters = (record { column = 1; value = 9 } ∷ []) ∷ []

combined_topics : combine_topics codec.marshal_segment filters ≡ some topic_filters
unfolding combine_topics topics_from add_topics conditions_from with_condition segment_value
combined_topics = refl

known : columns_exist topic_filters ≡ true
unfolding columns_exist
known = refl

encodes : encode_all codec.encode_contract (5 ∷ []) ≡ true
unfolding encode_all
encodes = refl

events-Fits : Each (λ e. Fits masks e.cursor) events
events-Fits = (
  (stored_at-IsStored 3 0 9 (omega arith) (omega arith)).fits,
  (
    (stored_at-IsStored 3 1 8 (omega arith) (omega arith)).fits,
    ((stored_at-IsStored 4 0 9 (omega arith) (omega arith)).fits, tt),
  ),
)

start-Fits :
    (ledger : ℕ) → ledger < 100 → Fits masks (record { ledger = ledger; tx = 0; op = 0; event = 0 })
start-Fits ledger small = record {
  ledger_fits = omega arith;
  tx_fits = omega arith;
  op_fits = omega arith;
  event_fits = omega arith;
}

matched : handler.matches filters (event_of 9) ≡ true
unfolding accepts one_contract one_topic agrees segment_value
matched = refl

made : insert_event codec (stored_at 3 0 9) ≡ some (row_of (stored_at 3 0 9) 9)
unfolding insert_event topic_list marshal_parts
made = refl

filters_hold_of_matches_example :
    filters_hold
      (5 ∷ [])
      topic_filters
      (combine_event_types handler.event_type_xdr filters)
      (row_of (stored_at 3 0 9) 9)
    ≡ true
filters_hold_of_matches_example =
    filters_hold_of_matches handler filters (5 ∷ []) topic_filters (stored_at 3 0 9)
      (row_of (stored_at 3 0 9) 9) handler-MatchesByFilter combined_ids combined_topics known made
      matched

events-Readable : Readable masks handler answer false events table
unfolding event_info_for_event convert_all
events-Readable = record {
  laws = codec-Lawful;
  by_filter = handler-MatchesByFilter;
  max_tx = refl;
  max_op = refl;
  max_event = omega arith;
  opens = refl;
  ends = refl;
  rows = rows_of_events;
  stored = (
    stored_at-IsStored 3 0 9 (omega arith) (omega arith),
    (
      stored_at-IsStored 3 1 8 (omega arith) (omega arith),
      (stored_at-IsStored 4 0 9 (omega arith) (omega arith), tt),
    ),
  );
  ascending = ((refl, (refl, tt)), ((refl, tt), (tt, tt)));
  renders = ((_, refl), ((_, refl), ((_, refl), tt)));
}

request-WellFormed : WellFormed masks handler request range
request-WellFormed = record {
  ids = 5 ∷ [];
  topics = topic_filters;
  combined = combined_ids;
  encodes = encodes;
  combined_topics = combined_topics;
  known = known;
  room = omega arith;
  fits = omega arith;
  low = omega arith;
  high = omega arith;
  recent = omega arith;
  forward = inl refl;
}

respond-Page_example :
    (r : Response) × (respond handler answer table request range ≡ ok r)
    × Page masks handler request range events r
respond-Page_example =
    respond-Page masks handler answer request range events table events-Readable request-WellFormed

limit_positive : 0 < limit_of handler request
unfolding limit_of
limit_positive = omega arith

respond_calm_example : respond handler answer [] request range ≢ err panicked
respond_calm_example = respond_calm handler answer [] request range limit_positive

trim_events_lem_example :
    (kept : List StoredEvent) × (rows_of codec kept ≡ some (trim_events codec 5 2 table))
    × (kept ≡ filter (λ e. leb (cutoff_of 5 2) e.cursor.ledger) events)
    × ((start : Cursor)
        → cutoff_of 5 2 ≤ start.ledger
        → filter (λ e. not (before e.cursor start)) kept
          ≡ filter (λ e. not (before e.cursor start)) events)
trim_events_lem_example =
    trim_events_lem masks codec 5 2 events table codec-Lawful rows_of_events events-Fits
      (omega arith)
