-- ===== src/Methods/GetLedgers/Page.antt =====
-- A whole call of `getLedgers`.
use stellar_rpc.Prelude.{
  ℕ, ◌+◌, ◌-◌, ◌≤◌, ◌<◌, ◌≡◌, refl, ap, ◌∙◌, true, Option, none, some, List, [], ◌∷◌, ◌&&◌, inl,
  inr, arith, leb, leb→le, ◌==◌, ==→ne, Bool-cases, le→leb, leb→lt, length, u32, sub32, u32_mod,
  min, if◌then◌else◌,
}
use mathlib.Core.Path.{subst}
use stellar_rpc.Window.{LedgerInfo, LedgerSeqRange, to_ledger_seq_range}
use stellar_rpc.LedgerStore.{LedgerStore, last_row}
use stellar_rpc.LedgerStore.Rows.{IsAbove, ends_of, without_cache_lem}
use stellar_rpc.LedgerStore.Coherent.{IsCoherent, with_cache_lem}
use stellar_rpc.DatastoreReader.{LedgerReader}
use stellar_rpc.Decimal.{Text, format_uint, parse_uint, parse_uint-format_uint}
use stellar_rpc.Methods.{ok}
use stellar_rpc.Methods.GetLedgers.{
  Handler, Request, Response, Pagination, tx_ledger_range, available_first, initialize_pagination,
  parse_cursor, cursor_after, get_ledgers, start_of, respond,
}
use stellar_rpc.Methods.GetLedgers.Fetch.{
  RunFrom, RunTo, Serves, Renders, Reaches, fetch_ledgers-RunTo,
}

-- The transaction's range is that of the table, whatever is cached.
pub tx_ledger_range_lem : (s : LedgerStore) → IsCoherent s → tx_ledger_range true s ≡ ends_of s.rows
unfolding tx_ledger_range
tx_ledger_range_lem s c = elim (Bool-cases (s.cache.latest_ledger_seq == 0)) [
  | inl cold ↦ rw (cold) (without_cache_lem s.rows c.ascending)
  | inr warm ↦ rw (warm) (with_cache_lem s.rows s.cache c.ascending c.agrees (==→ne _ _ warm))
]

pub last_row_run :
    (n : ℕ) (r : LedgerInfo) (rs : List LedgerInfo)
    → RunFrom n (r ∷ rs)
    → (last_row r rs).sequence + 1 ≡ n + length (r ∷ rs)
last_row_run n r [] h = omega (arith, h.0)
last_row_run n r (x ∷ rs) h = omega (arith, last_row_run (n + 1) x rs h.1)

-- The cursor after a run that is not empty is its last sequence.
cursor_after-run :
    (p : Option Pagination) (start n m : ℕ) (ls : List LedgerInfo)
    → RunTo n m ls
    → n < m
    → cursor_after p start ls ≡ format_uint (m - 1)
unfolding cursor_after
cursor_after-run p start n m [] run lt = absurd (omega (arith, run.1))
cursor_after-run p start n m (l ∷ []) run lt = ap format_uint (omega (arith, run.1, run.0.0))
cursor_after-run p start n m (l ∷ l' ∷ ls) run lt =
    cursor_after-run p start (n + 1) m (l' ∷ ls) (run.0.1, omega (arith, run.1))
      (omega (arith, run.1))

-- The range that a request is checked against.
abbrev pub available_of : Handler → LedgerInfo → List LedgerInfo → LedgerSeqRange
available_of h r rs = record {
  first_ledger = available_first h.datastore r.sequence;
  last_ledger = (last_row r rs).sequence;
}

-- A range that starts at 2 or later, if it is known.
abbrev pub StartsFromTwo : Option LedgerSeqRange → Type 0
StartsFromTwo none = Unit
StartsFromTwo (some range) = 2 ≤ range.first_ledger

-- What the datastore promises, where there is one: all ledgers from 2 to below the local ones.
abbrev pub Covers : Option LedgerReader → ℕ → Type 0
Covers none first = Unit
Covers (some reader) first = Serves reader first × StartsFromTwo reader.get_available_ledger_range

-- One page: the ledgers from `start` on, as many as asked for or as there are, and a cursor that reads
-- as the last of them.
pub record IsPage (range : LedgerSeqRange) (start limit : ℕ) (response : Response) : Type 0 where
  pub run : RunTo start (min (start + limit) (range.last_ledger + 1)) response.ledgers
  pub cursor :
      parse_uint 4294967295 response.cursor ≡ some (min (start + limit) (range.last_ledger + 1) - 1)
  pub latest : response.latest_ledger.sequence ≡ range.last_ledger

abbrev first_of : ℕ → Option LedgerSeqRange → ℕ
first_of first range = elim range [ none ↦ first | some r ↦ min r.first_ledger first ]

reaches :
    (h : Handler) (first start : ℕ)
    → Covers h.datastore first
    → available_first h.datastore first ≤ start
    → Reaches h first start
unfolding available_first
reaches h first start covers low = by_datastore h.datastore refl covers low
  where
    by_range :
        (reader : LedgerReader) (range : Option LedgerSeqRange)
        → h.datastore ≡ some reader
        → Serves reader first
        → StartsFromTwo range
        → first_of first range ≤ start
        → Reaches h first start
    by_range reader none e serves from_two low = inl low
    by_range reader (some range) e serves from_two low = elim (Bool-cases (leb first start)) [
      | inl here ↦ inl (leb→le _ _ here)
      | inr before ↦ inr (reader, e, serves, omega (arith, from_two, low, leb→lt _ _ before))
    ]

    by_datastore :
        (datastore : Option LedgerReader)
        → h.datastore ≡ datastore
        → Covers datastore first
        → available_first datastore first ≤ start
        → Reaches h first start
    by_datastore none e covers low = inl low
    by_datastore (some reader) e covers low =
        by_range reader reader.get_available_ledger_range e covers.0 covers.1 low

-- A request that passes the checks, for `limit` ledgers from an available one on, is answered with a
-- page: where SQLite answers, the local ledgers are a run that the cache agrees with, the datastore
-- keeps what it promises, and every ledger can be rendered.
pub get_ledgers-IsPage :
    (h : Handler) (s : LedgerStore) (request : Request) (r : LedgerInfo) (rs : List LedgerInfo)
    (start limit : ℕ)
    → IsCoherent s
    → s.rows ≡ r ∷ rs
    → RunFrom r.sequence (r ∷ rs)
    → Covers h.datastore r.sequence
    → Renders h
    → h.validate request h.max_limit (available_of h r rs) ≡ true
    → initialize_pagination h request (available_of h r rs) ≡ ok (start, limit)
    → available_first h.datastore r.sequence ≤ start
    → start ≤ (last_row r rs).sequence
    → 0 < limit
    → start + limit < u32_mod
    → (response : Response) × (get_ledgers h true s request ≡ ok response)
      × IsPage (available_of h r rs) start limit response
unfolding get_ledgers respond to_ledger_seq_range available_first initialize_pagination
get_ledgers-IsPage h s request r rs start limit coherent rows run covers renders valid paged low
      high some_limit small =
    let last = (last_row r rs).sequence in
    let above : 0 < r.sequence = (subst (IsAbove 0) rows coherent.ascending).0 in
    let ends = last_row_run r.sequence r rs run in
    let end = sub32 (u32 (start + limit)) 1 in
    let (ls, got, part) =
      fetch_ledgers-RunTo h request.is_json renders start end last r.sequence (r ∷ rs) run above
        (omega arith) (omega arith) (omega arith) (omega arith)
        (reaches h r.sequence start covers low) in
    let part' : RunTo start (min (start + limit) (last + 1)) ls = (part.0, omega (arith, part.1)) in
    (
      record {
        ledgers = ls;
        latest_ledger = last_row r rs;
        oldest_ledger = r;
        cursor = cursor_after request.pagination start ls;
      },
      rw (tx_ledger_range_lem s coherent, rows, to_ledger_seq_range, valid, paged, got) refl,
      record {
        run = part';
        cursor =
            ap (parse_uint 4294967295) (
              cursor_after-run request.pagination start start (min (start + limit) (last + 1)) ls
                part' (omega arith))
            ∙ parse_uint-format_uint (min (start + limit) (last + 1) - 1) 4294967295 (omega arith)
                (omega arith);
        latest = refl;
      },
    )

start_of_lem :
    (h : Handler) (request : Request) (cursor : Text) (range : LedgerSeqRange) (k : ℕ)
    → parse_uint 4294967295 cursor ≡ some k
    → start_of h request cursor range ≡ parse_cursor h cursor range
unfolding parse_uint
start_of_lem h request [] range k e = absurd (clash e)
  where
    clash : ◌≡◌ {A = Option ℕ} none (some k) → ⊥
    clash e = cc
start_of_lem h request (c ∷ cs) range k e = refl

-- A page that does not end at the latest ledger is continued by its cursor: a request with it starts
-- at the next ledger. The protocol's check of a range is by its ends.
pub initialize_pagination-next :
    (h : Handler) (range : LedgerSeqRange) (start limit : ℕ) (response : Response)
    (request : Request) (p : Pagination)
    → ((n : ℕ) → h.is_within n range ≡ (leb range.first_ledger n && leb n range.last_ledger))
    → IsPage range start limit response
    → request.pagination ≡ some p
    → p.cursor ≡ response.cursor
    → range.first_ledger ≤ start
    → 0 < limit
    → start + limit ≤ range.last_ledger
    → range.last_ledger < u32_mod
    → (limit' : ℕ) × (initialize_pagination h request range ≡ ok (start + limit, limit'))
unfolding initialize_pagination parse_cursor
initialize_pagination-next h range start limit response request p within page e same low some_limit
      more small =
    let k = start + limit - 1 in
    let reads : parse_uint 4294967295 p.cursor ≡ some k =
      ap (parse_uint 4294967295) same ∙ page.cursor ∙ ap some (omega arith) in
    let next : u32 (k + 1) ≡ start + limit = omega arith in
    let parsed : parse_cursor h p.cursor range ≡ ok (start + limit) =
      rw
        (
          reads,
          next,
          within (start + limit),
          le→leb range.first_ledger (start + limit) (omega arith),
          le→leb (start + limit) range.last_ledger more,
        )
        refl in
    (
      if p.limit == 0 then h.default_limit else p.limit,
      rw (e, start_of_lem h request p.cursor range k reads, parsed) refl,
    )
