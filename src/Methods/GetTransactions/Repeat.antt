-- ===== src/Methods/GetTransactions/Repeat.antt =====
-- Pages of `getTransactions` at the end of the latest ledger.
use stellar_rpc.Prelude.{
  ℕ, ◌+◌, ◌-◌, ◌<◌, ◌≡◌, refl, sym, ap, ◌∙◌, Bool, true, false, some, List, [], ◌∷◌, map, arith,
  ltb, le→leb, lt→leb, lt→ltb, ==_refl, length, drop, drop_of_le, if◌then◌else◌,
}
use mathlib.Core.Path.{subst}
use stellar_rpc.Window.{LedgerInfo, LedgerRange, to_ledger_seq_range}
use stellar_rpc.Decimal.{Text}
use stellar_rpc.LedgerStore.{LedgerStore, found, ranged, get_ledger}
use stellar_rpc.Methods.{ok}
use stellar_rpc.Methods.GetLedgers.{Pagination, tx_ledger_range}
use stellar_rpc.Methods.GetTransactions.{
  Handler, pos, int32, Toid, LedgerTransaction, TransactionInfo, Request, page_from,
  fetch_ledger_data, initialize_pagination, get_transactions, process_transactions_in_ledger,
  start_tx_idx, uint32_to_int32, start_at,
}
use stellar_rpc.Methods.GetTransactions.Process.{Readable, process-less, order_after, info}
use stellar_rpc.Methods.GetTransactions.Loop.{int32-pos}
use stellar_rpc.Methods.GetTransactions.Pages.{get_transactions-steps, whole_loop, no_id}

-- The position before the first transaction of a ledger
abbrev pub before_all : LedgerInfo → Toid
before_all l = record {
  ledger_sequence = pos l.sequence;
  transaction_order = 0;
  operation_order = 1;
}

module _ (h : Handler) (s : LedgerStore) (is_json : Bool) (start : Toid) (limit : ℕ)
    (l : LedgerInfo) (ts : List LedgerTransaction) (readable : Readable h is_json l ts)
    (small : l.sequence < 2147483647) (limit_small : limit < 9223372036854775808)
    (at : start.ledger_sequence ≡ pos l.sequence)
    (past : start.transaction_order ≡ length ts + 1) where
  same : start_tx_idx start (pos l.sequence) ≡ length ts + 1
  same = rw (at, ==_refl l.sequence) past

  nothing : drop (start_tx_idx start (pos l.sequence) - 1) ts ≡ []
  nothing = drop_of_le (start_tx_idx start (pos l.sequence) - 1) ts (omega (arith, same))

  process-nothing :
      0 < limit
      → process_transactions_in_ledger h l start [] limit is_json ≡ ok (before_all l, [], false)
  process-nothing some_limit =
      process-less h is_json limit start l ts readable (omega arith) limit_small []
        (omega (arith, same))
        (subst (λ ds. length {A = TransactionInfo} [] + length (map (info l) ds) < limit)
          (sym nothing) (omega arith))
      ∙ ap
          (λ ds. ok (
            record {
              ledger_sequence = pos l.sequence;
              transaction_order = order_after 0 (start_tx_idx start (pos l.sequence)) (length ds);
              operation_order = 1;
            },
            map (info l) ds,
            false,
          ))
          nothing

  loop-nothing :
      0 < limit
      → get_ledger s.rows l.sequence ≡ found l
      → page_from h s is_json start limit (pos l.sequence) 2 (pos l.sequence) no_id []
        ≡ ok (before_all l, [])
  unfolding page_from fetch_ledger_data
  loop-nothing some_limit got_l =
      rw
        (
          le→leb l.sequence l.sequence (omega arith),
          got_l,
          process-nothing some_limit,
          int32-pos (l.sequence + 1) (omega arith),
          lt→leb (l.sequence + 1) l.sequence (omega arith),
        )
        refl

start_at-some :
    (h : Handler) (start id : Toid) (cursor : Text)
    → ((c : ℕ) × (cs : Text) × (cursor ≡ c ∷ cs))
    → h.parse_id cursor ≡ some id
    → start_at h start cursor ≡ ok (record id { transaction_order = id.transaction_order + 1 })
start_at-some h start id [] (c, cs, e) parsed = absurd (clash e)
  where
    clash : ◌≡◌ {A = Text} [] (c ∷ cs) → ⊥
    clash e = cc
start_at-some h start id (x ∷ xs) some_text parsed = rw (parsed) refl

-- A valid request from after the last transaction of the latest ledger on, as the cursor of a page that
-- ended there asks for, is answered with no transaction and with a cursor before all of that ledger's
-- transactions: a request that goes on from it (toid reading the cursor back) starts at the first of
-- them again.
pub get_transactions-rewinds :
    (h : Handler) (s : LedgerStore) (request again : Request) (range : LedgerRange)
    (ts : List LedgerTransaction) (start : Toid) (limit : ℕ) (p : Pagination)
    → tx_ledger_range true s ≡ ranged range
    → get_ledger s.rows range.last_ledger.sequence ≡ found range.last_ledger
    → range.last_ledger.sequence < 2147483647
    → Readable h request.is_json range.last_ledger ts
    → h.is_valid request h.max_limit (to_ledger_seq_range range) ≡ true
    → initialize_pagination h request ≡ ok (start, limit)
    → start.ledger_sequence ≡ pos range.last_ledger.sequence
    → start.transaction_order ≡ length ts + 1
    → 0 < limit
    → limit < 9223372036854775808
    → again.start_ledger < 2147483648
    → again.pagination ≡ some p
    → p.cursor ≡ h.to_text (before_all range.last_ledger)
    → h.parse_id (h.to_text (before_all range.last_ledger)) ≡ some (before_all range.last_ledger)
    → ((c : ℕ) × (cs : Text) × (h.to_text (before_all range.last_ledger) ≡ c ∷ cs))
    → (get_transactions h true s request
        ≡ ok (record {
          transactions = [];
          latest_ledger = range.last_ledger;
          oldest_ledger = range.first_ledger;
          cursor = p.cursor;
        }))
      × (limit' : ℕ) × (initialize_pagination h again
          ≡ ok (
            record {
              ledger_sequence = pos range.last_ledger.sequence;
              transaction_order = 1;
              operation_order = 1;
            },
            limit',
          ))
unfolding initialize_pagination uint32_to_int32
get_transactions-rewinds h s request again range ts start limit p known got_l small readable valid
      paged at past some_limit limit_small small' paging same_cursor parsed some_text =
    let l = range.last_ledger in
    let loop = whole_loop h s request.is_json start limit in
    let two : l.sequence + 2 - l.sequence ≡ 2 = omega arith in
    let looped : loop (int32 l.sequence) start.ledger_sequence ≡ ok (before_all l, []) =
      subst (λ x. loop x start.ledger_sequence ≡ ok (before_all l, []))
        (sym (int32-pos l.sequence (omega arith)))
        (subst (λ y. loop (pos l.sequence) y ≡ ok (before_all l, [])) (sym at)
          (subst
            (λ n.
              page_from h s request.is_json start limit (pos l.sequence) n (pos l.sequence) no_id []
              ≡ ok (before_all l, []))
            (sym two)
            (loop-nothing h s request.is_json start limit l ts readable small limit_small at past
              some_limit got_l))) in
    (
      get_transactions-steps h s request range start (before_all l) limit [] known valid paged
            looped
          ∙ ap
              (λ c. ok (record {
                transactions = [];
                latest_ledger = l;
                oldest_ledger = range.first_ledger;
                cursor = c;
              }))
              (sym same_cursor),
      if ltb 0 p.limit then p.limit else h.default_limit,
      rw
          (
            lt→ltb again.start_ledger 2147483648 small',
            paging,
            same_cursor,
            start_at-some h _ (before_all l) (h.to_text (before_all l)) some_text parsed,
          )
          refl,
    )
