-- ===== src/EventStore/Query/Scan.antt =====
-- The order of cursors, what a table holds, and the range of a query.
use stellar_rpc.Prelude.{
  ℕ, ◌≤◌, ◌<◌, ◌≡◌, refl, sym, ap, ◌∙◌, inl, inr, Bool, true, false, not, Option, none, some, List,
  [], ◌∷◌, ltb, leb, ◌==◌, if◌then◌else◌, lt→ltb, le→ltb, arith, Bool-cases, Option-cases, some_eq,
  u32_mod, Each,
}
use stellar_rpc.EventStore.{Cursor, Masks}
use stellar_rpc.EventStore.Query.{
  Event, Codec, StoredEvent, Row, topic_list, max_topic_count, insert_event,
}
use mathlib.Core.Path.{subst}

-- The order of cursors: by ledger, transaction, operation and event
abbrev pub before : Cursor → Cursor → Bool
before c d =
    if c.ledger == d.ledger
    then if c.tx == d.tx
      then if c.op == d.op then ltb c.event d.event else ltb c.op d.op
      else ltb c.tx d.tx
    else ltb c.ledger d.ledger

-- The cursors that a string holds
pub record Fits (masks : Masks) (c : Cursor) : Type 0 where
  pub ledger_fits : c.ledger < 2147483648
  pub tx_fits : c.tx ≤ masks.transaction_mask
  pub op_fits : c.op ≤ masks.operation_mask
  pub event_fits : c.event < u32_mod

-- What the code relies on of the encodings: what is marshalled is read again, and the strings of
-- cursors are padded, so that they order as the cursors do.
pub record Lawful (masks : Masks) (x : Codec) : Type 0 where
  pub reads :
      (e : Event) (blob : ℕ) → x.marshal_event e ≡ some blob → x.unmarshal_event blob ≡ some e
  pub parses : (c : Cursor) → Fits masks c → x.parse_cursor (x.cursor_string c) ≡ some c
  pub orders :
      (c d : Cursor)
      → Fits masks c
      → Fits masks d
      → before c d ≡ true
      → x.cursor_string c < x.cursor_string d

-- The rows of events, in the same order; `none` where one of them is not inserted
abbrev pub rows_of : Codec → List StoredEvent → Option (List Row)
rows_of x [] = some []
rows_of x (e ∷ events) = elim (insert_event x e) [
  | none ↦ none
  | some row ↦ elim (rows_of x events) [ none ↦ none | some rows ↦ some (row ∷ rows) ]
]

-- What a row holds of its event
pub record Holds (x : Codec) (e : StoredEvent) (row : Row) : Type 0 where
  pub segments : List ℕ
  pub body : e.event.topics ≡ some segments
  pub blob : x.marshal_event e.event ≡ some row.event_data
  pub key : row.id ≡ x.cursor_string e.cursor
  pub contract : row.contract_id ≡ e.event.contract_id
  pub type : row.event_type ≡ e.event.event_type
  pub closed : row.ledger_close_time ≡ e.close_time
  pub hash : row.transaction_hash ≡ e.tx_hash
  pub columns : topic_list x.marshal_segment max_topic_count segments ≡ some row.topics

pub insert_event-Holds :
    (x : Codec) (e : StoredEvent) (row : Row) → insert_event x e ≡ some row → Holds x e row
unfolding insert_event
insert_event-Holds x e row made = elim (Option-cases (x.marshal_event e.event)) [
  | inl bad ↦ absurd (none_some (rw (bad, insert_event) at made))
  | inr (blob, good) ↦ elim (Option-cases e.event.topics) [
    | inl bad ↦ absurd (none_some (rw (good, bad, insert_event) at made))
    | inr (segments, body) ↦
        elim (Option-cases (topic_list x.marshal_segment max_topic_count segments)) [
          | inl bad ↦ absurd (none_some (rw (good, body, bad, insert_event) at made))
          | inr (columns, listed) ↦
              subst (Holds x e) (some_eq (rw (good, body, listed, insert_event) at made)) (record {
                segments = segments;
                body = body;
                blob = good;
                key = refl;
                contract = refl;
                type = refl;
                closed = refl;
                hash = refl;
                columns = listed;
              })
        ]
  ]
]
  where
    none_some : ◌≡◌ {A = Option Row} none (some row) → ⊥
    none_some h = cc

-- The first event's row and those of the others
pub first_row :
    (x : Codec) (e : StoredEvent) (es : List StoredEvent) (rows : List Row)
    → rows_of x (e ∷ es) ≡ some rows
    → (row : Row) × (rs : List Row) × (insert_event x e ≡ some row)
      × (rows_of x es ≡ some rs)
      × (row ∷ rs ≡ rows)
first_row x e es rows stored = elim (Option-cases (insert_event x e)) [
  | inl bad ↦ absurd (none_some (rw (bad, rows_of) at stored))
  | inr (row, made) ↦ elim (Option-cases (rows_of x es)) [
    | inl bad ↦ absurd (none_some (rw (made, bad, rows_of) at stored))
    | inr (rs, others) ↦ (row, rs, made, others, some_eq (rw (made, others, rows_of) at stored))
  ]
]
  where
    none_some : ◌≡◌ {A = Option (List Row)} none (some rows) → ⊥
    none_some h = cc

-- Each event is before those that follow.
abbrev pub Ascending : List StoredEvent → Type 0
Ascending [] = Unit
Ascending (e ∷ events) = Each (λ d. before e.cursor d.cursor ≡ true) events × Ascending events

before_same : (c d : Cursor) → before c d ≡ false → before d c ≡ false → c ≡ d
before_same c d h k =
    let l : c.ledger ≡ d.ledger = ground arith in
    let t : c.tx ≡ d.tx = ground arith in
    let o : c.op ≡ d.op = ground arith in let e : c.event ≡ d.event = ground arith in cc

pub before_trans : (c d e : Cursor) → before c d ≡ true → before d e ≡ true → before c e ≡ true
before_trans c d e h k = ground arith

pub before_asym : (c d : Cursor) → before c d ≡ true → before d c ≡ false
before_asym c d h = ground arith

pub before_irrefl : (c : Cursor) → before c c ≡ false
before_irrefl c = ground arith

module _ (masks : Masks) (x : Codec) (laws : Lawful masks x) where
  pub ltb-cursor_string :
      (c d : Cursor)
      → Fits masks c
      → Fits masks d
      → ltb (x.cursor_string c) (x.cursor_string d) ≡ before c d
  ltb-cursor_string c d fits fits' = elim (Bool-cases (before c d)) [
    | inl e ↦ lt→ltb _ _ (laws.orders c d fits fits' e) ∙ sym e
    | inr e ↦ elim (Bool-cases (before d c)) [
      | inl e' ↦ let later = laws.orders d c fits' fits e' in le→ltb _ _ (omega arith) ∙ sym e
      | inr e' ↦
          let same = ap (λ c. x.cursor_string c) (before_same c d e e') in
          le→ltb _ _ (omega (arith, same)) ∙ sym e
    ]
  ]

  pub leb-cursor_string :
      (c d : Cursor)
      → Fits masks c
      → Fits masks d
      → leb (x.cursor_string c) (x.cursor_string d) ≡ not (before d c)
  leb-cursor_string c d fits fits' =
      leb_not (x.cursor_string c) (x.cursor_string d) ∙ ap not (ltb-cursor_string d c fits' fits)
    where
      leb_not : (a b : ℕ) → leb a b ≡ not (ltb b a)
      leb_not a b = ground arith
