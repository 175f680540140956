-- ===== src/Methods/GetEvents/Shown.antt =====
-- A whole call of getEvents, from the cursor that it starts at to the one that it would start at next.
use stellar_rpc.Prelude.{
  ℕ, zero, suc, ◌+◌, ◌-◌, ◌<◌, ◌≤◌, ◌≡◌, ◌⊎◌, refl, sym, ap, ◌∙◌, inl, inr, Bool, true, false, not,
  ◌&&◌, some, List, [], ◌∷◌, ◌++◌, map, Bool-cases, length, length-append, length-take, take,
  take_of_le, take-append_left, le→leb, ◌==◌, ==→eq, ==→ne, ne→==, arith, u32, sub32, u32_mod,
  filter, filter_congr, filter-Each, Each, weaken-Each,
}
use mathlib.Core.Path.{subst}
use stellar_rpc.Window.{LedgerRange}
use stellar_rpc.EventStore.{Cursor, Masks}
use stellar_rpc.EventStore.Query.{
  StoredEvent, Row, TopicCondition, Answer, columns_exist, encode_all,
}
use stellar_rpc.EventStore.Query.Scan.{Fits, Lawful, before, rows_of, Ascending}
use stellar_rpc.Methods.{ok}
use stellar_rpc.Methods.GetEvents.{
  Handler, Request, Response, EventInfo, combine_contract_ids, combine_topics, resume, start_of,
  limit_of, end_ledger_of, find_entries, infos_of, cursor_after, respond,
}
use stellar_rpc.Methods.GetEvents.Filters.{MatchesByFilter}
use stellar_rpc.Methods.GetEvents.Found.{entry_of, in_range, asked_for, find_entries_lem}
use stellar_rpc.Methods.GetEvents.Split.{
  IsStored, Resumable, last_or, last_or-Each, late, next_lem, split_lem, take-Each,
}
use stellar_rpc.Methods.GetEvents.Infos.{Renders, AreInfos, infos_lem}

-- A database that answers, with a table of the given events, which the handler can read and render
pub record Readable (masks : Masks) (h : Handler) (answer : Answer) (is_json : Bool)
    (events : List StoredEvent) (table : List Row) : Type 0 where
  pub laws : Lawful masks h.codec
  pub by_filter : MatchesByFilter h
  pub max_tx : h.codec.max_cursor.tx ≡ masks.transaction_mask
  pub max_op : h.codec.max_cursor.op ≡ masks.operation_mask
  pub opens : answer.opens ≡ true
  pub ends : answer.ends ≡ true
  pub max_event : h.codec.max_cursor.event < u32_mod
  pub rows : rows_of h.codec events ≡ some table
  pub stored : Each (λ e. IsStored masks e.cursor) events
  pub ascending : Ascending events
  pub renders : Each (Renders h is_json) events

-- A request whose filters combine, that starts within the ledgers that are kept and does not end before
pub record StartsWithin (masks : Masks) (h : Handler) (request : Request) (range : LedgerRange)
    : Type 0 where
  pub ids : List ℕ
  pub topics : List (List TopicCondition)
  pub combined : combine_contract_ids h.codec.decode_contract request.filters ≡ some ids
  pub encodes : encode_all h.codec.encode_contract ids ≡ true
  pub combined_topics : combine_topics h.codec.marshal_segment request.filters ≡ some topics
  pub known : columns_exist topics ≡ true
  pub room : 0 < limit_of h request
  pub fits : Fits masks (start_of request)
  pub low : range.first_ledger.sequence ≤ (start_of request).ledger
  pub high : (start_of request).ledger ≤ range.last_ledger.sequence
  pub recent : range.last_ledger.sequence + 1 < 2147483648
  pub forward : (request.end_ledger ≡ 0) ⊎ ((start_of request).ledger < request.end_ledger)

-- A response that shows the first events from its start on that match, and a cursor, from which the
-- other ones are those that it does not show
pub record Shown (masks : Masks) (h : Handler) (request : Request) (range : LedgerRange)
    (events : List StoredEvent) (response : Response) : Type 0 where
  pub found : List StoredEvent
  pub next : Cursor
  pub shows : AreInfos h request.is_json found response.events
  pub goes_on : Resumable masks next
  pub onward : (length found ≡ limit_of h request) ⊎ ((start_of request).ledger ≤ next.ledger)
  pub few : length found ≤ limit_of h request
  pub cursor : response.cursor ≡ h.codec.cursor_string next
  pub whole :
      found ++ filter (late (λ e. h.matches request.filters e.event) (resume next)) events
      ≡ filter (late (λ e. h.matches request.filters e.event) (start_of request)) events
  pub latest : response.latest_ledger ≡ range.last_ledger
  pub oldest : response.oldest_ledger ≡ range.first_ledger

map-take {ℓ κ} :
    {A : Type ℓ} {B : Type κ} (f : A → B) (n : ℕ) (xs : List A)
    → take n (map f xs) ≡ map f (take n xs)
map-take f zero xs = refl
map-take f (suc n) [] = refl
map-take f (suc n) (x ∷ xs) = ap (◌∷◌ (f x)) (map-take f n xs)

end_ledger_lem :
    (masks : Masks) (h : Handler) (request : Request) (range : LedgerRange)
    → StartsWithin masks h request range
    → ((start_of request).ledger < end_ledger_of request range (start_of request))
      × (end_ledger_of request range (start_of request) < 2147483648)
unfolding end_ledger_of
end_ledger_lem masks h request range w =
    let recent = w.recent in
    let high = w.high in
    elim (Bool-cases (request.end_ledger == 0)) [
      | inl open_end ↦ rw (open_end) (omega arith, omega arith)
      | inr bounded ↦
          let positive = ==→ne _ _ bounded in
          let forward : (start_of request).ledger < request.end_ledger = elim w.forward [
            | inl e ↦ absurd (positive e)
            | inr later ↦ later
          ] in
          rw (bounded) (omega arith, omega arith)
    ]

-- The cursor at the end of a range goes on with the events after it.
window_end_lem :
    (masks : Masks) (c : Cursor) (end_ledger tx op event : ℕ)
    → IsStored masks c
    → tx ≡ masks.transaction_mask
    → op ≡ masks.operation_mask
    → 0 < end_ledger
    → end_ledger < 2147483648
    → before c (record { ledger = sub32 end_ledger 1; tx = tx; op = op; event = event })
      ≡ before c (record { ledger = end_ledger; tx = 0; op = 0; event = 0 })
window_end_lem masks c end_ledger tx op event stored max_tx max_op positive small =
    let tx_fits = stored.fits.tx_fits in
    let op_fits = stored.fits.op_fits in
    let below = stored.below in
    let e : sub32 end_ledger 1 ≡ end_ledger - 1 = omega arith in rw (e) (ground arith)

module _ (masks : Masks) (h : Handler) (answer : Answer) (request : Request) (range : LedgerRange)
    (events : List StoredEvent) (table : List Row)
    (readable : Readable masks h answer request.is_json events table)
    (w : StartsWithin masks h request range) where
  abbrev matched : StoredEvent → Bool
  matched e = h.matches request.filters e.event

  abbrev end_of : Cursor
  end_of = record {
    ledger = end_ledger_of request range (start_of request);
    tx = 0;
    op = 0;
    event = 0;
  }

  abbrev first_found : List StoredEvent
  first_found =
      take (limit_of h request) (asked_for h request.filters (start_of request, end_of) events)

  found_lem :
      find_entries h answer table request.filters (start_of request, end_of) (limit_of h request)
      ≡ ok (map entry_of first_found)
  found_lem =
      let (later, small) = end_ledger_lem masks h request range w in
      let end_fits : Fits masks end_of = record {
        ledger_fits = small;
        tx_fits = omega arith;
        op_fits = omega arith;
        event_fits = omega arith;
      } in
      find_entries_lem masks h readable.laws readable.by_filter answer events table request.filters
        w.ids w.topics (start_of request) end_of (limit_of h request) readable.opens readable.ends
        readable.rows
        (weaken-Each (λ e. IsStored masks e.cursor) (λ e. Fits masks e.cursor) events
          (λ e stored. stored.fits) readable.stored)
        w.combined w.encodes w.combined_topics w.known w.fits end_fits w.room
      ∙ ap ok (
          map-take entry_of (limit_of h request)
            (asked_for h request.filters (start_of request, end_of) events))

  split_here :
      asked_for h request.filters (start_of request, end_of) events
        ++ filter (late matched end_of) events
      ≡ filter (late matched (start_of request)) events
  split_here =
      let (later, small) = end_ledger_lem masks h request range w in
      split_lem matched (start_of request) end_of events readable.ascending
        (forward (start_of request) end_of later)
    where
      forward : (c d : Cursor) → c.ledger < d.ledger → before d c ≡ false
      forward c d later = ground arith

  -- Fewer than the limit: the whole range was searched.
  window_whole :
      length first_found < limit_of h request
      → first_found
          ++ filter
              (late matched (resume (record h.codec.max_cursor { ledger = sub32 end_of.ledger 1 })))
              events
        ≡ filter (late matched (start_of request)) events
  unfolding resume
  window_whole few =
      let (later, small) = end_ledger_lem masks h request range w in
      let all = asked_for h request.filters (start_of request, end_of) events in
      let n = limit_of h request in
      let most : length all ≤ n = omega (arith, length-take n all) in
      let max = h.codec.max_cursor in
      ap
        (λ vs.
          vs
          ++ filter (late matched (resume (record max { ledger = sub32 end_of.ledger 1 }))) events)
        (take_of_le n all most)
      ∙ ap (λ vs. all ++ vs)
          (filter_congr (λ e. IsStored masks e.cursor)
            (late matched (resume (record max { ledger = sub32 end_of.ledger 1 })))
            (late matched end_of) events
            (λ e stored.
              ap (λ b. not b && matched e)
                (window_end_lem masks e.cursor end_of.ledger max.tx max.op (u32 (max.event + 1))
                  stored readable.max_tx readable.max_op (omega arith) small))
            readable.stored)
      ∙ split_here

  -- As many as the limit: the page ends at the last one.
  full_whole :
      (e : StoredEvent) (es : List StoredEvent)
      → first_found ≡ e ∷ es
      → length first_found ≡ limit_of h request
      → (e ∷ es) ++ filter (late matched (resume (last_or e es).cursor)) events
        ≡ filter (late matched (start_of request)) events
  full_whole e es found full =
      let all = asked_for h request.filters (start_of request, end_of) events in
      let rest = filter (late matched end_of) events in
      let n = limit_of h request in
      let size : n ≡ suc (length es) = sym full ∙ ap length found in
      let enough : n ≤ length all = omega (arith, length-take n all) in
      let same : take (suc (length es)) (all ++ rest) ≡ e ∷ es =
        ap (λ k. take k (all ++ rest)) (sym size) ∙ take-append_left n all rest enough ∙ found in
      let whole =
        next_lem matched masks (start_of request) e (length es) events (all ++ rest)
          (sym split_here) readable.ascending readable.stored
          (omega (arith, length-append all rest)) in
      subst (λ vs. vs ++ filter (late matched (resume (last_or e vs).cursor)) events ≡ all ++ rest)
        same whole
      ∙ split_here

  respond_lem :
      (infos : List EventInfo) (cursor : ℕ)
      → infos_of h request.is_json (map entry_of first_found) ≡ some infos
      → cursor_after h.codec infos (limit_of h request) end_of.ledger ≡ ok cursor
      → respond h answer table request range
        ≡ ok (record {
          events = infos;
          cursor = cursor;
          latest_ledger = range.last_ledger;
          oldest_ledger = range.first_ledger;
        })
  unfolding respond
  respond_lem infos cursor shown after =
      let low = le→leb _ _ w.low in
      let high = le→leb _ _ w.high in rw (low, high, found_lem, shown, after) refl

  answer_with :
      (found : List StoredEvent) (infos : List EventInfo) (next : Cursor)
      → first_found ≡ found
      → infos_of h request.is_json (map entry_of found) ≡ some infos
      → AreInfos h request.is_json found infos
      → cursor_after h.codec infos (limit_of h request) end_of.ledger
        ≡ ok (h.codec.cursor_string next)
      → Resumable masks next
      → (length found ≡ limit_of h request) ⊎ ((start_of request).ledger ≤ next.ledger)
      → found ++ filter (late matched (resume next)) events
        ≡ filter (late matched (start_of request)) events
      → (r : Response) × (respond h answer table request range ≡ ok r)
        × Shown masks h request range events r
  answer_with found infos next same shown are_infos after goes_on onward whole =
      let all = asked_for h request.filters (start_of request, end_of) events in
      (
        record {
          events = infos;
          cursor = h.codec.cursor_string next;
          latest_ledger = range.last_ledger;
          oldest_ledger = range.first_ledger;
        },
        respond_lem infos (h.codec.cursor_string next)
            (ap (λ es. infos_of h request.is_json (map entry_of es)) same ∙ shown) after,
        record {
          found = found;
          next = next;
          shows = are_infos;
          goes_on = goes_on;
          onward = onward;
          few = omega (arith, sym (ap length same), length-take (limit_of h request) all);
          cursor = refl;
          whole = whole;
          latest = refl;
          oldest = refl;
        },
      )

  window-Resumable : Resumable masks (record h.codec.max_cursor { ledger = sub32 end_of.ledger 1 })
  window-Resumable =
      let (later, small) = end_ledger_lem masks h request range w in
      let max_tx = readable.max_tx in
      let max_op = readable.max_op in
      record {
        fits = record {
          ledger_fits = omega arith;
          tx_fits = omega arith;
          op_fits = omega arith;
          event_fits = readable.max_event;
        };
        grows = inr (max_tx, max_op);
      }

  searched :
      (start_of request).ledger
      ≤ (record h.codec.max_cursor { ledger = sub32 end_of.ledger 1 }).ledger
  searched = let (later, small) = end_ledger_lem masks h request range w in omega arith

  last-Resumable :
      (e : StoredEvent) (es : List StoredEvent)
      → first_found ≡ e ∷ es
      → Resumable masks (last_or e es).cursor
  last-Resumable e es same =
      let all = asked_for h request.filters (start_of request, end_of) events in
      let each : Each (λ x. IsStored masks x.cursor) (e ∷ es) =
        subst (Each (λ x. IsStored masks x.cursor)) same (
          take-Each (λ x. IsStored masks x.cursor) (limit_of h request) all
            (filter-Each (λ x. IsStored masks x.cursor)
              (λ e. in_range (start_of request, end_of) e.cursor && matched e) events
              readable.stored)) in
      let stored = last_or-Each (λ x. IsStored masks x.cursor) e es each.0 each.1 in
      record { fits = stored.fits; grows = inl stored.grows }

  short_of :
      (n : ℕ)
      → length first_found ≡ n
      → (n == limit_of h request) ≡ false
      → length first_found < limit_of h request
  short_of n size short =
      let all = asked_for h request.filters (start_of request, end_of) events in
      omega (arith, length-take (limit_of h request) all, ==→ne _ _ short)

  cases_of :
      (found : List StoredEvent)
      → first_found ≡ found
      → (r : Response) × (respond h answer table request range ≡ ok r)
        × Shown masks h request range events r
  unfolding infos_of cursor_after
  cases_of [] same =
      let next : Cursor = record h.codec.max_cursor { ledger = sub32 end_of.ledger 1 } in
      let room = w.room in
      let short : (0 == limit_of h request) ≡ false = ne→== _ _ (λ e. omega arith) in
      answer_with [] [] next same refl tt (rw (short) refl) window-Resumable (inr searched) (
        subst
          (λ vs.
            vs ++ filter (late matched (resume next)) events
            ≡ filter (late matched (start_of request)) events)
          same (window_whole (short_of 0 (ap length same) short)))
  cases_of (e ∷ es) same =
      let next : Cursor = record h.codec.max_cursor { ledger = sub32 end_of.ledger 1 } in
      let all = asked_for h request.filters (start_of request, end_of) events in
      let each : Each (Renders h request.is_json) (e ∷ es) =
        subst (λ vs. Each (Renders h request.is_json) vs) same
          (take-Each (Renders h request.is_json) (limit_of h request) all (
            filter-Each (Renders h request.is_json)
              (λ e. in_range (start_of request, end_of) e.cursor && matched e) events
              readable.renders)) in
      let (infos, shown, as_many, last, are_infos) = infos_lem h request.is_json e es each in
      elim (Bool-cases (length infos == limit_of h request)) [
        | inl full ↦
            answer_with (e ∷ es) infos (last_or e es).cursor same shown are_infos
              (rw (full, cursor_after) last) (last-Resumable e es same)
              (inl (sym as_many ∙ ==→eq _ _ full))
              (full_whole e es same (ap length same ∙ sym as_many ∙ ==→eq _ _ full))
        | inr short ↦
            answer_with (e ∷ es) infos next same shown are_infos (rw (short, cursor_after) refl)
              window-Resumable (inr searched)
              (subst
                (λ vs.
                  vs ++ filter (late matched (resume next)) events
                  ≡ filter (late matched (start_of request)) events)
                same (window_whole (short_of (length infos) (ap length same ∙ sym as_many) short)))
      ]

  pub respond-Shown :
      (r : Response) × (respond h answer table request range ≡ ok r)
      × Shown masks h request range events r
  respond-Shown = cases_of first_found refl
