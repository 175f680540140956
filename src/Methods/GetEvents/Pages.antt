-- ===== src/Methods/GetEvents/Pages.antt =====
-- A whole call of getEvents, as its request puts it, and where the next one goes on.
use stellar_rpc.Prelude.{
  ℕ, zero, suc, ◌+◌, ◌<◌, ◌≤◌, ◌≡◌, ◌⊎◌, refl, sym, ap, ◌∙◌, inl, inr, Bool, true, not, ◌&&◌,
  Option, none, some, List, ◌++◌, Option-cases, length, leb, ltb, lt→ltb, if◌then◌else◌, arith,
  filter, filter_congr, Each,
}
use mathlib.Core.Path.{subst}
use stellar_rpc.Window.{LedgerRange}
use stellar_rpc.EventStore.{Cursor, Masks}
use stellar_rpc.EventStore.Query.{
  StoredEvent, Row, TopicCondition, Answer, columns_exist, encode_all,
}
use stellar_rpc.EventStore.Query.Scan.{Fits, before}
use stellar_rpc.Methods.{ok}
use stellar_rpc.Methods.GetEvents.{
  Handler, Pagination, Request, Response, combine_contract_ids, combine_topics, resume, start_of,
  limit_of, respond,
}
use stellar_rpc.Methods.GetEvents.Split.{IsStored, Resumable, late, resume_lem}
use stellar_rpc.Methods.GetEvents.Infos.{AreInfos}
use stellar_rpc.Methods.GetEvents.Shown.{Readable, StartsWithin, Shown, respond-Shown}

-- The limit of a request: the one that it names, where that is not 0, and else the default
abbrev pub limit_or : ℕ → ℕ → ℕ
limit_or default zero = default
limit_or default (suc limit) = suc limit

abbrev pub asked_limit : Handler → Option Pagination → ℕ
asked_limit h none = h.default_limit
asked_limit h (some p) = limit_or h.default_limit p.limit

-- The cursor that a request follows, if any, and the ledger that it starts in
abbrev pub cursor_of : Option Pagination → Option Cursor
cursor_of none = none
cursor_of (some p) = p.cursor

abbrev pub first_ledger_of : ℕ → Option Cursor → ℕ
first_ledger_of start_ledger none = start_ledger
first_ledger_of start_ledger (some c) = c.ledger

-- An event is strictly after the cursor, or where there is none in the start ledger or a later one.
abbrev pub is_after : ℕ → Option Cursor → StoredEvent → Bool
is_after start_ledger none e = leb start_ledger e.cursor.ledger
is_after start_ledger (some c) e = before c e.cursor

abbrev pub StartFits : Masks → ℕ → Option Cursor → Type 0
StartFits masks start_ledger none = start_ledger < 2147483648
StartFits masks start_ledger (some c) = Resumable masks c

-- A request whose filters combine, that starts within the ledgers that are kept and does not end before
pub record WellFormed (masks : Masks) (h : Handler) (request : Request) (range : LedgerRange)
    : Type 0 where
  pub ids : List ℕ
  pub topics : List (List TopicCondition)
  pub combined : combine_contract_ids h.codec.decode_contract request.filters ≡ some ids
  pub encodes : encode_all h.codec.encode_contract ids ≡ true
  pub combined_topics : combine_topics h.codec.marshal_segment request.filters ≡ some topics
  pub known : columns_exist topics ≡ true
  pub room : 0 < asked_limit h request.pagination
  pub fits : StartFits masks request.start_ledger (cursor_of request.pagination)
  pub low :
      range.first_ledger.sequence
      ≤ first_ledger_of request.start_ledger (cursor_of request.pagination)
  pub high :
      first_ledger_of request.start_ledger (cursor_of request.pagination)
      ≤ range.last_ledger.sequence
  pub recent : range.last_ledger.sequence + 1 < 2147483648
  pub forward :
      (request.end_ledger ≡ 0)
      ⊎ (first_ledger_of request.start_ledger (cursor_of request.pagination) < request.end_ledger)

-- A response that shows the first events that match after the request's cursor, or from its start ledger
-- on, and a cursor, after which come the other ones
pub record Page (masks : Masks) (h : Handler) (request : Request) (range : LedgerRange)
    (events : List StoredEvent) (response : Response) : Type 0 where
  pub found : List StoredEvent
  pub next : Cursor
  pub shows : AreInfos h request.is_json found response.events
  pub few : length found ≤ asked_limit h request.pagination
  pub cursor : response.cursor ≡ h.codec.cursor_string next
  pub goes_on : Resumable masks next
  pub onward :
      (length found ≡ asked_limit h request.pagination)
      ⊎ (first_ledger_of request.start_ledger (cursor_of request.pagination) ≤ next.ledger)
  pub whole :
      found ++ filter (λ e. before next e.cursor && h.matches request.filters e.event) events
      ≡ filter
          (λ e.
            is_after request.start_ledger (cursor_of request.pagination) e
            && h.matches request.filters e.event)
          events
  pub latest : response.latest_ledger ≡ range.last_ledger
  pub oldest : response.oldest_ledger ≡ range.first_ledger

-- Where the code starts
abbrev start_from : ℕ → Option Cursor → Cursor
start_from start_ledger none = record { ledger = start_ledger; tx = 0; op = 0; event = 0 }
start_from start_ledger (some c) = resume c

start_of_lem :
    (request : Request)
    → start_of request ≡ start_from request.start_ledger (cursor_of request.pagination)
unfolding start_of
start_of_lem request = elim (Option-cases request.pagination) [
  | inl unpaged ↦ rw (unpaged) refl
  | inr (p, paged) ↦ rw (paged) (elim (Option-cases p.cursor) [
    | inl first ↦ rw (first) refl
    | inr (c, follows) ↦ rw (follows) refl
  ])
]

limit_of_lem :
    (h : Handler) (request : Request) → limit_of h request ≡ asked_limit h request.pagination
unfolding limit_of
limit_of_lem h request = elim (Option-cases request.pagination) [
  | inl unpaged ↦ rw (unpaged) refl
  | inr (p, paged) ↦ rw (paged) (named p.limit)
]
  where
    named :
        (limit : ℕ)
        → (if ltb 0 limit then limit else h.default_limit) ≡ limit_or h.default_limit limit
    named zero = refl
    named (suc limit) =
        let positive : ltb 0 (suc limit) ≡ true = lt→ltb _ _ (omega arith) in rw (positive) refl

start_from-ledger :
    (start_ledger : ℕ) (c : Option Cursor)
    → (start_from start_ledger c).ledger ≡ first_ledger_of start_ledger c
unfolding resume
start_from-ledger start_ledger none = refl
start_from-ledger start_ledger (some c) = refl

start_from-Fits :
    (masks : Masks) (start_ledger : ℕ) (c : Option Cursor)
    → StartFits masks start_ledger c
    → Fits masks (start_from start_ledger c)
unfolding resume
start_from-Fits masks start_ledger none small = record {
  ledger_fits = small;
  tx_fits = omega arith;
  op_fits = omega arith;
  event_fits = omega arith;
}
start_from-Fits masks start_ledger (some c) goes_on = record {
  ledger_fits = goes_on.fits.ledger_fits;
  tx_fits = goes_on.fits.tx_fits;
  op_fits = goes_on.fits.op_fits;
  event_fits = omega arith;
}

start_from_lem :
    (masks : Masks) (start_ledger : ℕ) (c : Option Cursor) (e : StoredEvent)
    → StartFits masks start_ledger c
    → IsStored masks e.cursor
    → not (before e.cursor (start_from start_ledger c)) ≡ is_after start_ledger c e
start_from_lem masks start_ledger none e small stored = ground arith
start_from_lem masks start_ledger (some c) e goes_on stored =
    resume_lem masks c e.cursor stored goes_on

start_ledger_lem :
    (request : Request)
    → (start_of request).ledger
      ≡ first_ledger_of request.start_ledger (cursor_of request.pagination)
start_ledger_lem request =
    ap (λ c. c.ledger) (start_of_lem request)
    ∙ start_from-ledger request.start_ledger (cursor_of request.pagination)

starts-StartsWithin :
    (masks : Masks) (h : Handler) (request : Request) (range : LedgerRange)
    → WellFormed masks h request range
    → StartsWithin masks h request range
starts-StartsWithin masks h request range w =
    let c = cursor_of request.pagination in
    let start = start_of_lem request in
    let at = start_ledger_lem request in
    let low = w.low in
    let high = w.high in
    record {
      ids = w.ids;
      topics = w.topics;
      combined = w.combined;
      encodes = w.encodes;
      combined_topics = w.combined_topics;
      known = w.known;
      room = subst (λ n. 0 < n) (sym (limit_of_lem h request)) w.room;
      fits = subst (Fits masks) (sym start) (start_from-Fits masks request.start_ledger c w.fits);
      low = subst (λ n. range.first_ledger.sequence ≤ n) (sym at) low;
      high = subst (λ n. n ≤ range.last_ledger.sequence) (sym at) high;
      recent = w.recent;
      forward = subst (λ n. (request.end_ledger ≡ 0) ⊎ (n < request.end_ledger)) (sym at) w.forward;
    }

Shown-Page :
    (masks : Masks) (h : Handler) (request : Request) (range : LedgerRange)
    (events : List StoredEvent) (r : Response)
    → WellFormed masks h request range
    → Each (λ e. IsStored masks e.cursor) events
    → Shown masks h request range events r
    → Page masks h request range events r
Shown-Page masks h request range events r w stored shown =
    let c = cursor_of request.pagination in
    let matched : StoredEvent → Bool = λ e. h.matches request.filters e.event in
    record {
      found = shown.found;
      next = shown.next;
      shows = shown.shows;
      few = subst (λ n. length shown.found ≤ n) (limit_of_lem h request) shown.few;
      cursor = shown.cursor;
      goes_on = shown.goes_on;
      onward = elim shown.onward [
        | inl full ↦ inl (full ∙ limit_of_lem h request)
        | inr on ↦ inr (subst (λ n. n ≤ shown.next.ledger) (start_ledger_lem request) on)
      ];
      whole =
          ap (λ es. shown.found ++ es)
            (filter_congr (λ e. IsStored masks e.cursor)
              (λ e. before shown.next e.cursor && matched e) (late matched (resume shown.next))
              events
              (λ e stored.
                ap (λ b. b && matched e)
                  (sym (resume_lem masks shown.next e.cursor stored shown.goes_on)))
              stored)
          ∙ shown.whole
          ∙ filter_congr (λ e. IsStored masks e.cursor) (late matched (start_of request))
              (λ e. is_after request.start_ledger c e && matched e) events
              (λ e stored.
                ap (λ s. not (before e.cursor s) && matched e) (start_of_lem request)
                ∙ ap (λ b. b && matched e)
                    (start_from_lem masks request.start_ledger c e w.fits stored))
              stored;
      latest = shown.latest;
      oldest = shown.oldest;
    }

-- A request that is well formed gets a page from a database that can be read: no more events than the
-- limit that it names, or than the default where it names none, each with its own contents. They are
-- the first ones that match strictly after the cursor that the request follows, or from its start ledger
-- on where it follows none, and the page has a cursor that can be followed, strictly after which the
-- events that match are exactly those that the page leaves out. So following the cursors neither skips an
-- event nor shows one twice, also where the cursor is the end of the range that was searched. A page of
-- fewer events than the limit has its cursor in the ledger that the request starts in or a later one.
pub respond-Page :
    (masks : Masks) (h : Handler) (answer : Answer) (request : Request) (range : LedgerRange)
    (events : List StoredEvent) (table : List Row)
    → Readable masks h answer request.is_json events table
    → WellFormed masks h request range
    → (r : Response) × (respond h answer table request range ≡ ok r)
      × Page masks h request range events r
respond-Page masks h answer request range events table readable w =
    let (r, answered, shown) =
      respond-Shown masks h answer request range events table readable
        (starts-StartsWithin masks h request range w) in
    (r, answered, Shown-Page masks h request range events r w readable.stored shown)
