-- ===== src/EventStore/Keys.antt =====
-- The keys of all events of a ledger, and what `InsertEvents` does with them.
use stellar_rpc.Prelude.{
  ℕ, ◌+◌, ◌≤◌, ◌<◌, ◌≡◌, ◌⊎◌, refl, sym, ap, ◌∙◌, Bool, true, Option, some, some_eq, List, [], ◌∷◌,
  ◌++◌, inl, inr, arith, length, u32_mod,
}
use stellar_rpc.EventStore.{
  Masks, Cursor, TxEventIndices, TransactionEvents, DbEvent, EventHandler, max_events_per_batch,
  op_events, insert_events,
}
use mathlib.Core.Path.{subst}
use stellar_rpc.EventStore.Placed.{
  count_before, count_after, placed, stage_events_lem, op_events_lem, count_before_le,
  count_after_le,
}
use stellar_rpc.EventStore.Batches.{gather, rows_of, insert_from_lem}
use stellar_rpc.EventStore.Cursors.{
  All, AllDistinct, weaken, append-All, append-AllDistinct, AllHandled, AllShort, Own, OpFrom,
  stage_events-Staged, op_events-All,
}

-- Transactions in the order of their indices, below the mask, with stages that are handled and fewer
-- operations and events than the masks and words hold.
abbrev pub Ordered : Masks → ℕ → List TransactionEvents → Type 0
Ordered masks p [] = Unit
Ordered masks p (tx ∷ txs) =
    (p < tx.index)
    × (tx.index < masks.transaction_mask)
    × AllHandled tx.transaction_events
    × AllShort tx.operation_events
    × (length tx.operation_events ≤ masks.operation_mask)
    × Ordered masks tx.index txs

abbrev pub count_all : List TransactionEvents → ℕ
count_all [] = 0
count_all (tx ∷ txs) = length tx.transaction_events + count_all txs

-- A cursor that is still to come, after transaction p
abbrev pub Ahead : Masks → TxEventIndices → ℕ → Cursor → Type 0
Ahead masks i p c =
    ((c.tx ≡ 0) × (i.before_all ≤ c.event))
    ⊎ ((c.tx ≡ masks.transaction_mask) × (i.after_all ≤ c.event))
    ⊎ ((p < c.tx) × (c.tx < masks.transaction_mask))

-- A cursor of transaction t, between two states of the indices
abbrev Mine : Masks → TxEventIndices → TxEventIndices → ℕ → Cursor → Type 0
Mine masks i j t c =
    ((c.tx ≡ 0) × (i.before_all ≤ c.event) × (c.event < j.before_all))
    ⊎ ((c.tx ≡ masks.transaction_mask) × (i.after_all ≤ c.event) × (c.event < j.after_all))
    ⊎ (c.tx ≡ t)

this_apart :
    (masks : Masks) (i j : TxEventIndices) (t : ℕ) (c d : Cursor)
    → 0 < t
    → t < masks.transaction_mask
    → Mine masks i j t c
    → Ahead masks j t d
    → c ≡ d
    → ⊥
this_apart masks i j t c d first last mine ahead e =
    let same_tx : c.tx ≡ d.tx = ap (λ x. x.tx) e in
    let same_event : c.event ≡ d.event = ap (λ x. x.event) e in ground arith

this-Ahead :
    (masks : Masks) (i j : TxEventIndices) (p t : ℕ) (c : Cursor)
    → p < t
    → t < masks.transaction_mask
    → Mine masks i j t c
    → Ahead masks i p c
this-Ahead masks i j p t c later last (inl (tx0, from, to)) = inl (tx0, from)
this-Ahead masks i j p t c later last (inr (inl (tx0, from, to))) = inr (inl (tx0, from))
this-Ahead masks i j p t c later last (inr (inr tx0)) = inr (inr (omega arith, omega arith))

later-Ahead :
    (masks : Masks) (i j : TxEventIndices) (p t : ℕ) (c : Cursor)
    → i.before_all ≤ j.before_all
    → i.after_all ≤ j.after_all
    → p < t
    → Ahead masks j t c
    → Ahead masks i p c
later-Ahead masks i j p t c before after later (inl (tx0, from)) = inl (tx0, omega arith)
later-Ahead masks i j p t c before after later (inr (inl (tx0, from))) =
    inr (inl (tx0, omega arith))
later-Ahead masks i j p t c before after later (inr (inr (from, to))) = inr (inr (omega arith, to))

module _ (masks : Masks) (ledger_seq : ℕ) (tx : TransactionEvents) (first : 0 < tx.index)
    (last : tx.index < masks.transaction_mask) where
  this-Mine :
      (i j : TxEventIndices) (c : Cursor)
      → Own masks ledger_seq tx first last (record i { after_tx_count = 0 }) j c
      → Mine masks i j tx.index c
  this-Mine i j c (inl h) = inl h
  this-Mine i j c (inr (inl h)) = inr (inl h)
  this-Mine i j c (inr (inr h)) = inr (inr h.0)

  level_apart :
      (i j : TxEventIndices) (c d : Cursor)
      → Own masks ledger_seq tx first last i j c
      → OpFrom masks ledger_seq tx first last 0 d
      → c ≡ d
      → ⊥
  level_apart i j c d own from e =
      let same_tx : c.tx ≡ d.tx = ap (λ x. x.tx) e in
      let same_op : c.op ≡ d.op = ap (λ x. x.op) e in ground arith

pub record Gathered (masks : Masks) (i : TxEventIndices) (p : ℕ) (out : Option (List DbEvent))
    : Type 0 where
  pub events : List DbEvent
  pub got : out ≡ some events
  pub ahead : All (Ahead masks i p) events
  pub distinct : AllDistinct events

pub gather-Gathered :
    (masks : Masks) (ledger_seq : ℕ) (txs : List TransactionEvents) (i : TxEventIndices) (p : ℕ)
    → Ordered masks p txs
    → masks.operation_mask < u32_mod
    → i.before_all + count_all txs < u32_mod
    → i.after_all + count_all txs < u32_mod
    → Gathered masks i p (gather masks ledger_seq txs i)
gather-Gathered masks ledger_seq [] i p ordered mask before after = record {
  events = [];
  got = refl;
  ahead = tt;
  distinct = tt;
}
gather-Gathered masks ledger_seq (tx ∷ txs) i p (later, last, handled, short, few, ordered) mask
      before after =
    let first : 0 < tx.index = omega arith in
    let i0 : TxEventIndices = record i { after_tx_count = 0 } in
    let staged =
      stage_events-Staged masks ledger_seq tx first last tx.transaction_events i0 handled
        (omega arith, omega arith, omega arith) in
    let j = staged.indices in
    let ops = op_events ledger_seq tx 0 tx.operation_events in
    let (own_ops, distinct_ops) =
      op_events-All masks ledger_seq tx first last 0 tx.operation_events short (omega arith) mask in
    let rest =
      gather-Gathered masks ledger_seq txs j tx.index ordered mask
        (omega (arith, staged.grows.before_to)) (omega (arith, staged.grows.after_to)) in
    let mine : All (Mine masks i j tx.index) (staged.events ++ ops) =
      append-All (Mine masks i j tx.index) staged.events ops
        (weaken (Own masks ledger_seq tx first last i0 j) (Mine masks i j tx.index) staged.events
          (this-Mine masks ledger_seq tx first last i j) staged.own)
        (weaken (OpFrom masks ledger_seq tx first last 0) (Mine masks i j tx.index) ops
          (λ c h. inr (inr h.0)) own_ops) in
    record {
      events = (staged.events ++ ops) ++ rest.events;
      got = rw (staged.got, rest.got, gather) refl;
      ahead =
          append-All (Ahead masks i p) (staged.events ++ ops) rest.events
            (weaken (Mine masks i j tx.index) (Ahead masks i p) (staged.events ++ ops)
              (λ c. this-Ahead masks i j p tx.index c later last) mine)
            (weaken (Ahead masks j tx.index) (Ahead masks i p) rest.events
              (λ c.
                later-Ahead masks i j p tx.index c staged.grows.before_from staged.grows.after_from
                  later)
              rest.ahead);
      distinct =
          append-AllDistinct (Mine masks i j tx.index) (Ahead masks j tx.index)
            (staged.events ++ ops) rest.events (λ c d. this_apart masks i j tx.index c d first last)
            mine rest.ahead
            (append-AllDistinct (Own masks ledger_seq tx first last i0 j)
              (OpFrom masks ledger_seq tx first last 0) staged.events ops
              (level_apart masks ledger_seq tx first last i0 j) staged.own own_ops staged.distinct
              distinct_ops)
            rest.distinct;
    }

-- What is gathered is what is meant to be.
gather_lem :
    (masks : Masks) (seq : ℕ) (txs : List TransactionEvents) (b a t p : ℕ)
    → Ordered masks p txs
    → masks.operation_mask < u32_mod
    → b + count_all txs < u32_mod
    → a + count_all txs < u32_mod
    → gather masks seq txs (record { before_all = b; after_all = a; after_tx_count = t })
      ≡ some (placed masks seq b a txs)
gather_lem masks seq [] b a t p ordered mask hb ha = refl
gather_lem masks seq (tx ∷ txs) b a t p (later, last, handled, short, few, ordered) mask hb ha =
    let (t', staged) =
      stage_events_lem masks seq tx tx.transaction_events b a 0 handled (omega arith) (omega arith)
        (omega arith) in
    let before_le = count_before_le tx.transaction_events in
    let after_le = count_after_le tx.transaction_events in
    let rest =
      gather_lem masks seq txs (b + count_before tx.transaction_events)
        (a + count_after tx.transaction_events) t' tx.index ordered mask (omega arith)
        (omega arith) in
    simp (staged, rest, op_events_lem seq tx 0 tx.operation_events short (omega arith), gather) refl

-- What inserting a ledger's events has done.
pub record Inserted (masks : Masks) (ledger_seq : ℕ) (txs : List TransactionEvents)
    (w : EventHandler) (out : Option EventHandler) : Type 0 where
  pub handler : EventHandler
  pub succeeds : out ≡ some handler
  pub rows : rows_of handler ≡ rows_of w ++ placed masks ledger_seq 0 0 txs
  pub distinct : AllDistinct (placed masks ledger_seq 0 0 txs)
  pub few : length handler.pending < max_events_per_batch

-- Where every insertion is done and less than a batch was pending, inserting the events of a ledger
-- appends all of them, with their contents, to what is written or pending, and leaves less than a batch
-- pending. They come transaction by transaction, first those of the transaction and then those of its
-- operations. An event before or after all transactions has its number among those of the ledger, one after
-- its transaction its number among those of the transaction, and one of an operation the operation's
-- number and its own; no two have the same cursor. The ledger's transactions are in the order of their
-- indices, with stages that are handled, and fit the cursor's words and masks.
pub insert_events-Inserted :
    (masks : Masks) (inserts : List DbEvent → Bool) (ledger_seq : ℕ) (txs : List TransactionEvents)
    (w : EventHandler)
    → ((rows : List DbEvent) → inserts rows ≡ true)
    → length w.pending < max_events_per_batch
    → Ordered masks 0 txs
    → masks.operation_mask < u32_mod
    → count_all txs < u32_mod
    → Inserted masks ledger_seq txs w (insert_events masks inserts ledger_seq txs w)
unfolding insert_events
insert_events-Inserted masks inserts ledger_seq txs w done few ordered mask small =
    let start : TxEventIndices = record { before_all = 0; after_all = 0; after_tx_count = 0 } in
    let all =
      gather-Gathered masks ledger_seq txs start 0 ordered mask (omega arith) (omega arith) in
    let gathered =
      gather_lem masks ledger_seq txs 0 0 0 0 ordered mask (omega arith) (omega arith) in
    let (w', inserted, rows, few') =
      insert_from_lem inserts done masks ledger_seq txs start w (placed masks ledger_seq 0 0 txs)
        gathered few in
    record {
      handler = w';
      succeeds = inserted;
      rows = rows;
      distinct = subst AllDistinct (some_eq (sym all.got ∙ gathered)) all.distinct;
      few = few';
    }
