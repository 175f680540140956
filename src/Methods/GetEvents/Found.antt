-- ===== src/Methods/GetEvents/Found.antt =====
-- The entries that are found: the first of those that are asked for.
use stellar_rpc.Prelude.{
  ℕ, suc, ◌-◌, ◌<◌, ◌≡◌, refl, sym, ap, ◌∙◌, inl, inr, Bool, true, false, not, ◌&&◌, Option, some,
  List, [], ◌∷◌, ◌++◌, map, append-nil, append_assoc, Bool-cases, some_eq, if◌then◌else◌, length,
  length-append, take, take_of_le, ap₂, ltb, leb, ltb→lt, lt→ltb, ltb→le, arith, filter, Each,
}
use mathlib.Core.Path.{subst}
use stellar_rpc.EventStore.{Cursor, Masks}
use stellar_rpc.EventStore.Query as Query
use stellar_rpc.EventStore.Query.{
  Codec, Event, StoredEvent, Row, TopicCondition, Answer, insert_event, scan_rows, selects,
  filters_hold, columns_exist, encode_all,
}
use stellar_rpc.EventStore.Query.Scan.{
  insert_event-Holds, rows_of, first_row, Fits, Lawful, before, ltb-cursor_string,
  leb-cursor_string,
}
use stellar_rpc.Methods.{ok}
use stellar_rpc.Methods.GetEvents.{
  Handler, EventFilter, Entry, combine_contract_ids, combine_event_types, combine_topics,
  event_scan_function, find_entries,
}
use stellar_rpc.Methods.GetEvents.Filters.{MatchesByFilter, filters_hold_of_matches}

abbrev pub entry_of : StoredEvent → Entry
entry_of e = record {
  cursor = e.cursor;
  ledger_close_timestamp = e.close_time;
  event = e.event;
  tx_hash = e.tx_hash;
}

-- From a cursor on, and before another one
abbrev pub in_range : Cursor × Cursor → Cursor → Bool
in_range (start, end) c = not (before c start) && before c end

-- The events that are asked for
abbrev pub asked_for :
    Handler → List EventFilter → Cursor × Cursor → List StoredEvent → List StoredEvent
asked_for h filters range events =
    filter (λ e. in_range range e.cursor && h.matches filters e.event) events

-- One more entry, which may be the last
add_entry :
    {limit : ℕ} (entry : Entry) (rest : List Entry) (scan : List Entry → Option (List Entry))
    (found : List Entry)
    → length found < limit
    → (length (found ++ (entry ∷ [])) < limit
        → scan (found ++ (entry ∷ []))
          ≡ some ((found ++ (entry ∷ [])) ++ take (limit - length (found ++ (entry ∷ []))) rest))
    → (if ltb (length (found ++ (entry ∷ []))) limit
        then scan (found ++ (entry ∷ []))
        else some (found ++ (entry ∷ [])))
      ≡ some (found ++ take (limit - length found) (entry ∷ rest))
add_entry {limit} entry rest scan found room others =
    elim (Bool-cases (ltb (length (found ++ (entry ∷ []))) limit)) [
      | inl more ↦ rw (more) (
          others (ltb→lt _ _ more)
          ∙ ap some (
              append_assoc found (entry ∷ []) (take (limit - length (found ++ (entry ∷ []))) rest)
              ∙ ap (λ ys. found ++ ys)
                  (ap (λ k. take k (entry ∷ rest))
                    {x = suc (limit - length (found ++ (entry ∷ [])))}
                    (omega (arith, ltb→lt _ _ more, length-append found (entry ∷ []))))))
      | inr full ↦ rw (full) (
          ap (λ k. some (found ++ take k (entry ∷ rest))) {x = 1}
            (omega (arith, ltb→le _ _ full, length-append found (entry ∷ []))))
    ]

module _ (masks : Masks) (x : Codec) (laws : Lawful masks x) (matches : Event → Bool)
    (limit : ℕ) where
  scan_step :
      (e : StoredEvent) (row : Row) (rows : List Row) (found : List Entry)
      → insert_event x e ≡ some row
      → Fits masks e.cursor
      → scan_rows x true (event_scan_function matches limit) (row ∷ rows) found ≡ (
          let found' = if matches e.event then found ++ (entry_of e ∷ []) else found in
          if ltb (length found') limit
          then scan_rows x true (event_scan_function matches limit) rows found'
          else some found')
  unfolding scan_rows event_scan_function
  scan_step e row rows found made fits =
      let holds = insert_event-Holds x e row made in
      let parsed : x.parse_cursor row.id ≡ some e.cursor =
        ap x.parse_cursor holds.key ∙ laws.parses e.cursor fits in
      let read = laws.reads e.event row.event_data holds.blob in
      rw (parsed, read, holds.closed, holds.hash, scan_rows) refl

  scan_end :
      (found : List Entry)
      → scan_rows x true (event_scan_function matches limit) [] found
        ≡ some (found ++ take (limit - length found) [])
  unfolding scan_rows
  scan_end found = ap some (
      sym (append-nil found)
      ∙ ap (λ ys. found ++ ys) (sym (take_of_le (limit - length found) [] (omega arith))))

  scan_lem :
      (p : Row → Bool) (q : StoredEvent → Bool) (events : List StoredEvent) (rows : List Row)
      (found : List Entry)
      → rows_of x events ≡ some rows
      → Each (λ e. Fits masks e.cursor) events
      → ((e : StoredEvent) (row : Row)
          → insert_event x e ≡ some row
          → Fits masks e.cursor
          → (p row && matches e.event) ≡ q e)
      → length found < limit
      → scan_rows x true (event_scan_function matches limit) (filter p rows) found
        ≡ some (found ++ take (limit - length found) (map entry_of (filter q events)))
  scan_lem p q [] rows found stored fits agree room =
      subst
        (λ rs.
          scan_rows x true (event_scan_function matches limit) (filter p rs) found
          ≡ some (found ++ take (limit - length found) []))
        (some_eq stored) (scan_end found)
  scan_lem p q (e ∷ es) rows found stored fits agree room =
      let (row, rs, made, stored', same) = first_row x e es rows stored in
      let here = agree e row made fits.0 in
      let rest : (found' : List Entry)
          → length found' < limit
          → scan_rows x true (event_scan_function matches limit) (filter p rs) found'
            ≡ some (found' ++ take (limit - length found') (map entry_of (filter q es))) =
        λ found' room'. scan_lem p q es rs found' stored' fits.1 agree room' in
      subst
        (λ rows.
          scan_rows x true (event_scan_function matches limit) (filter p rows) found
          ≡ some (found ++ take (limit - length found) (map entry_of (filter q (e ∷ es)))))
        same
        (elim (Bool-cases (p row)) [
          | inr out ↦
              let skipped : q e ≡ false = sym here ∙ ap (λ b. b && matches e.event) out in
              rw (out, skipped) (rest found room)
          | inl selected ↦
              let step = scan_step e row (filter p rs) found made fits.0 in
              elim (Bool-cases (matches e.event)) [
                | inr unmatched ↦
                    let skipped : q e ≡ false = sym here ∙ ap₂ (λ a b. a && b) selected unmatched in
                    let goes_on = lt→ltb (length found) limit room in
                    rw (selected, skipped) (step ∙ (rw (unmatched, goes_on) (rest found room)))
                | inl matched ↦
                    let kept : q e ≡ true = sym here ∙ ap₂ (λ a b. a && b) selected matched in
                    rw (selected, kept)
                      (step
                        ∙ (rw (matched) (
                            add_entry (entry_of e) (map entry_of (filter q es))
                              (scan_rows x true (event_scan_function matches limit) (filter p rs))
                              found room (rest (found ++ (entry_of e ∷ []))))))
              ]
        ])

module _ (masks : Masks) (h : Handler) (laws : Lawful masks h.codec)
    (by_filter : MatchesByFilter h) where
  selects_lem :
      (filters : List EventFilter) (ids : List ℕ) (topics : List (List TopicCondition))
      (start end : Cursor) (e : StoredEvent) (row : Row)
      → combine_contract_ids h.codec.decode_contract filters ≡ some ids
      → combine_topics h.codec.marshal_segment filters ≡ some topics
      → columns_exist topics ≡ true
      → Fits masks start
      → Fits masks end
      → insert_event h.codec e ≡ some row
      → Fits masks e.cursor
      → (selects h.codec (start, end) ids topics (combine_event_types h.event_type_xdr filters) row
          && h.matches filters e.event)
        ≡ (in_range (start, end) e.cursor && h.matches filters e.event)
  unfolding selects
  selects_lem filters ids topics start end e row c t known from to made fits =
      let x = h.codec in
      let holds = insert_event-Holds x e row made in
      let low : leb (x.cursor_string start) row.id ≡ not (before e.cursor start) =
        ap (leb (x.cursor_string start)) holds.key
        ∙ leb-cursor_string masks x laws start e.cursor from fits in
      let high : ltb row.id (x.cursor_string end) ≡ before e.cursor end =
        ap (λ k. ltb k (x.cursor_string end)) holds.key
        ∙ ltb-cursor_string masks x laws e.cursor end fits to in
      elim (Bool-cases (h.matches filters e.event)) [
        | inl matched ↦
            let hold =
              filters_hold_of_matches h filters ids topics e row by_filter c t known made matched in
            same_tests low high hold matched
        | inr unmatched ↦ rw (unmatched) (and_false _ ∙ sym (and_false _))
      ]
    where
      and_false : (b : Bool) → (b && false) ≡ false
      and_false true = refl
      and_false false = refl

      and_true : (b : Bool) → (b && true) ≡ b
      and_true true = refl
      and_true false = refl

      same_tests :
          {a b a' b' f m : Bool}
          → a ≡ a'
          → b ≡ b'
          → f ≡ true
          → m ≡ true
          → (((a && b) && f) && m) ≡ ((a' && b') && m)
      same_tests {a} {b} {a'} {b'} p q r s =
          rw (p, q, r, s) (ap (λ b. b && true) (and_true (a' && b')))

  -- Where the database answers, the filters combine and name its columns, and there is room for an
  -- entry, the entries found are the first `limit` of those asked for: the events of the table, in the
  -- order of their cursors, from `start` on and before `end`, that match the request's filters. No event
  -- is lost by the conditions that the database applies, and none is added.
  pub find_entries_lem :
      (answer : Answer) (events : List StoredEvent) (table : List Row) (filters : List EventFilter)
      (ids : List ℕ) (topics : List (List TopicCondition)) (start end : Cursor) (limit : ℕ)
      → answer.opens ≡ true
      → answer.ends ≡ true
      → rows_of h.codec events ≡ some table
      → Each (λ e. Fits masks e.cursor) events
      → combine_contract_ids h.codec.decode_contract filters ≡ some ids
      → encode_all h.codec.encode_contract ids ≡ true
      → combine_topics h.codec.marshal_segment filters ≡ some topics
      → columns_exist topics ≡ true
      → Fits masks start
      → Fits masks end
      → 0 < limit
      → find_entries h answer table filters (start, end) limit
        ≡ ok (take limit (map entry_of (asked_for h filters (start, end) events)))
  unfolding find_entries Query.get_events
  find_entries_lem answer events table filters ids topics start end limit opens ends stored fits c
        encodes t known from to room =
      let scanned =
        scan_lem masks h.codec laws (h.matches filters) limit
          (selects h.codec (start, end) ids topics (combine_event_types h.event_type_xdr filters))
          (λ e. in_range (start, end) e.cursor && h.matches filters e.event) events table [] stored
          fits
          (λ e row made fits'.
            selects_lem filters ids topics start end e row c t known from to made fits')
          room in
      rw (c, t, encodes, opens, ends, known, scanned)
        (ap (λ k. ok (take k (map entry_of (asked_for h filters (start, end) events))))
          {x = limit - 0} (omega arith))
