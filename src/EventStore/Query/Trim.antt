-- ===== src/EventStore/Query/Trim.antt =====
-- What `trimEvents` keeps.
use stellar_rpc.Prelude.{
  ℕ, ◌+◌, ◌-◌, ◌<◌, ◌≤◌, ◌≡◌, refl, ap, ◌∙◌, inl, inr, Bool, true, false, not, ◌&&◌, some, List, [],
  ◌∷◌, Bool-cases, some_eq, ltb, leb, leb→le, leb→lt, le→leb, arith, u32, sub32, filter,
  filter-filter, filter_congr, Each,
}
use mathlib.Core.Path.{subst}
use stellar_rpc.EventStore.{Cursor, Masks}
use stellar_rpc.EventStore.Query.{Codec, StoredEvent, Row, insert_event, trim_events}
use stellar_rpc.EventStore.Query.Scan.{
  insert_event-Holds, rows_of, first_row, Fits, Lawful, before, ltb-cursor_string,
}

-- The rows of the events that pass a test are those that pass the same test on rows.
filter-rows_of :
    (masks : Masks) (x : Codec) (p : Row → Bool) (q : StoredEvent → Bool)
    (events : List StoredEvent) (rows : List Row)
    → rows_of x events ≡ some rows
    → Each (λ e. Fits masks e.cursor) events
    → ((e : StoredEvent) (row : Row)
        → insert_event x e ≡ some row
        → Fits masks e.cursor
        → p row ≡ q e)
    → rows_of x (filter q events) ≡ some (filter p rows)
filter-rows_of masks x p q [] rows stored fits agree =
    ap (λ rs. some (filter p rs)) (some_eq stored)
filter-rows_of masks x p q (e ∷ es) rows stored fits agree =
    let (row, rs, made, stored', same) = first_row x e es rows stored in
    let rest = filter-rows_of masks x p q es rs stored' fits.1 agree in
    let here : p row ≡ q e = agree e row made fits.0 in
    subst (λ rows. rows_of x (filter q (e ∷ es)) ≡ some (filter p rows)) same
      (elim (Bool-cases (q e)) [
        | inl kept ↦
            let kept' : p row ≡ true = here ∙ kept in rw (kept, kept', made, rest, rows_of) refl
        | inr gone ↦ let gone' : p row ≡ false = here ∙ gone in rw (gone, gone') rest
      ])

-- The first ledger whose events are kept
abbrev pub cutoff_of : ℕ → ℕ → ℕ
cutoff_of latest retention_window = latest + 1 - retention_window

-- Trimming keeps exactly the events of the ledgers in the retention window, of which there are
-- `retention_window` up to the latest one, and from any cursor within them on it changes nothing.
pub trim_events_lem :
    (masks : Masks) (x : Codec) (latest retention_window : ℕ) (events : List StoredEvent)
    (table : List Row)
    → Lawful masks x
    → rows_of x events ≡ some table
    → Each (λ e. Fits masks e.cursor) events
    → latest + 1 < 2147483648
    → (kept : List StoredEvent) × (rows_of x kept
        ≡ some (trim_events x latest retention_window table))
      × (kept ≡ filter (λ e. leb (cutoff_of latest retention_window) e.cursor.ledger) events)
      × ((start : Cursor)
          → cutoff_of latest retention_window ≤ start.ledger
          → filter (λ e. not (before e.cursor start)) kept
            ≡ filter (λ e. not (before e.cursor start)) events)
unfolding trim_events
trim_events_lem masks x latest window events table laws stored fits small =
    let q : StoredEvent → Bool = λ e. leb (cutoff_of latest window) e.cursor.ledger in
    (
      filter q events,
      trimmed,
      refl,
      λ start low.
          filter-filter (λ e. not (before e.cursor start)) q events
          ∙ filter_congr (λ e. Fits masks e.cursor) (λ e. q e && not (before e.cursor start))
              (λ e. not (before e.cursor start)) events
              (λ e fits. both e.cursor start (cutoff_of latest window) low) fits,
    )
  where
    both :
        (c start : Cursor) (cutoff : ℕ)
        → cutoff ≤ start.ledger
        → (leb cutoff c.ledger && not (before c start)) ≡ not (before c start)
    both c start cutoff low = ground arith

    ledger_lem :
        (c : Cursor) (cutoff : ℕ)
        → not (before c (record { ledger = cutoff; tx = 0; op = 0; event = 0 }))
          ≡ leb cutoff c.ledger
    ledger_lem c cutoff = ground arith

    keep_all :
        cutoff_of latest window ≡ 0
        → (es : List StoredEvent)
        → filter (λ e. leb (cutoff_of latest window) e.cursor.ledger) es ≡ es
    keep_all zero_cut [] = refl
    keep_all zero_cut (e ∷ es) =
        let kept : leb (cutoff_of latest window) e.cursor.ledger ≡ true =
          le→leb _ _ (omega arith) in
        rw (kept) (ap (◌∷◌ e) (keep_all zero_cut es))

    trimmed :
        rows_of x (filter (λ e. leb (cutoff_of latest window) e.cursor.ledger) events)
        ≡ some (trim_events x latest window table)
    trimmed = elim (Bool-cases (leb (u32 (latest + 1)) window)) [
      | inl all ↦
          let none_left : cutoff_of latest window ≡ 0 = omega (arith, leb→le _ _ all) in
          rw (all) (ap (rows_of x) (keep_all none_left events) ∙ stored)
      | inr some_left ↦
          let fewer : window < latest + 1 = omega (arith, leb→lt _ _ some_left) in
          let cutoff : Cursor = record {
            ledger = sub32 (u32 (latest + 1)) window;
            tx = 0;
            op = 0;
            event = 0;
          } in
          let same : cutoff.ledger ≡ cutoff_of latest window = omega arith in
          let cutoff_fits : Fits masks cutoff = record {
            ledger_fits = omega arith;
            tx_fits = omega arith;
            op_fits = omega arith;
            event_fits = omega arith;
          } in
          rw (some_left) (
            filter-rows_of masks x (λ row. not (ltb row.id (x.cursor_string cutoff)))
              (λ e. leb (cutoff_of latest window) e.cursor.ledger) events table stored fits
              (λ e row made e_fits.
                ap not (
                  ap (λ k. ltb k (x.cursor_string cutoff)) (insert_event-Holds x e row made).key
                  ∙ ltb-cursor_string masks x laws e.cursor cutoff e_fits cutoff_fits)
                ∙ ledger_lem e.cursor cutoff.ledger
                ∙ ap (λ k. leb k e.cursor.ledger) same))
    ]
