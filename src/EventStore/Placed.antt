-- ===== src/EventStore/Placed.antt =====
-- The events of a ledger with their cursors, as they are meant to be numbered.
use stellar_rpc.Prelude.{
  ℕ, ◌+◌, ◌≤◌, ◌<◌, ◌≡◌, refl, some, List, [], ◌∷◌, ◌++◌, length, arith, u32, u32_mod,
}
use stellar_rpc.EventStore.{
  Masks, Stage, before_all_txs, after_all_txs, after_tx, other_stage, TransactionEvents, DbEvent,
  cursor_at, stage_events, inner_op_events, op_events,
}
use stellar_rpc.EventStore.Cursors.{AllHandled, AllShort}

abbrev pub count_before : List (Stage × ℕ) → ℕ
count_before [] = 0
count_before ((before_all_txs, event) ∷ events) = count_before events + 1
count_before ((after_all_txs, event) ∷ events) = count_before events
count_before ((after_tx, event) ∷ events) = count_before events
count_before ((other_stage, event) ∷ events) = count_before events

abbrev pub count_after : List (Stage × ℕ) → ℕ
count_after [] = 0
count_after ((before_all_txs, event) ∷ events) = count_after events
count_after ((after_all_txs, event) ∷ events) = count_after events + 1
count_after ((after_tx, event) ∷ events) = count_after events
count_after ((other_stage, event) ∷ events) = count_after events

pub count_before_le : (events : List (Stage × ℕ)) → count_before events ≤ length events
count_before_le [] = omega arith
count_before_le ((before_all_txs, event) ∷ events) = omega (arith, count_before_le events)
count_before_le ((after_all_txs, event) ∷ events) = omega (arith, count_before_le events)
count_before_le ((after_tx, event) ∷ events) = omega (arith, count_before_le events)
count_before_le ((other_stage, event) ∷ events) = omega (arith, count_before_le events)

pub count_after_le : (events : List (Stage × ℕ)) → count_after events ≤ length events
count_after_le [] = omega arith
count_after_le ((before_all_txs, event) ∷ events) = omega (arith, count_after_le events)
count_after_le ((after_all_txs, event) ∷ events) = omega (arith, count_after_le events)
count_after_le ((after_tx, event) ∷ events) = omega (arith, count_after_le events)
count_after_le ((other_stage, event) ∷ events) = omega (arith, count_after_le events)

-- The events of a transaction, where b events stand before all transactions of the ledger, a after all
-- and t after this one
abbrev pub placed_stages :
    Masks → ℕ → TransactionEvents → (b a t : ℕ) → List (Stage × ℕ) → List DbEvent
placed_stages masks seq tx b a t [] = []
placed_stages masks seq tx b a t ((before_all_txs, event) ∷ events) =
    record {
      hash = tx.tx_hash;
      content = event;
      cursor = record { ledger = seq; tx = 0; op = 0; event = b };
    }
    ∷ placed_stages masks seq tx (b + 1) a t events
placed_stages masks seq tx b a t ((after_all_txs, event) ∷ events) =
    record {
      hash = tx.tx_hash;
      content = event;
      cursor = record { ledger = seq; tx = masks.transaction_mask; op = 0; event = a };
    }
    ∷ placed_stages masks seq tx b (a + 1) t events
placed_stages masks seq tx b a t ((after_tx, event) ∷ events) =
    record {
      hash = tx.tx_hash;
      content = event;
      cursor = record { ledger = seq; tx = tx.index; op = masks.operation_mask; event = t };
    }
    ∷ placed_stages masks seq tx b a (t + 1) events
placed_stages masks seq tx b a t ((other_stage, event) ∷ events) = []

-- The events of operation o from the n-th on, and those of the operations from o on
abbrev pub placed_op : ℕ → TransactionEvents → (o n : ℕ) → List ℕ → List DbEvent
placed_op seq tx o n [] = []
placed_op seq tx o n (event ∷ events) =
    record {
      hash = tx.tx_hash;
      content = event;
      cursor = record { ledger = seq; tx = tx.index; op = o; event = n };
    }
    ∷ placed_op seq tx o (n + 1) events

abbrev pub placed_ops : ℕ → TransactionEvents → ℕ → List (List ℕ) → List DbEvent
placed_ops seq tx o [] = []
placed_ops seq tx o (events ∷ ops) = placed_op seq tx o 0 events ++ placed_ops seq tx (o + 1) ops

-- The events of the ledger, transaction by transaction: those of the transaction by its stages, each
-- under its number among those of that stage, and then those of its operations, each under its
-- operation's number and its own.
abbrev pub placed : Masks → ℕ → (b a : ℕ) → List TransactionEvents → List DbEvent
placed masks seq b a [] = []
placed masks seq b a (tx ∷ txs) =
    (placed_stages masks seq tx b a 0 tx.transaction_events
      ++ placed_ops seq tx 0 tx.operation_events)
    ++ placed masks seq (b + count_before tx.transaction_events)
        (a + count_after tx.transaction_events) txs

-- `stage_events` numbers as meant.
pub stage_events_lem :
    (masks : Masks) (seq : ℕ) (tx : TransactionEvents) (events : List (Stage × ℕ)) (b a t : ℕ)
    → AllHandled events
    → b + length events < u32_mod
    → a + length events < u32_mod
    → t + length events < u32_mod
    → (t' : ℕ) × (stage_events masks seq tx events
          (record { before_all = b; after_all = a; after_tx_count = t })
        ≡ some (
          placed_stages masks seq tx b a t events,
          record {
            before_all = b + count_before events;
            after_all = a + count_after events;
            after_tx_count = t';
          },
        ))
unfolding stage_events cursor_at
stage_events_lem masks seq tx [] b a t handled hb ha ht =
    let before : b + 0 ≡ b = omega arith in
    let after : a + 0 ≡ a = omega arith in (t, simp (before, after, stage_events) refl)
stage_events_lem masks seq tx ((before_all_txs, event) ∷ events) b a t handled hb ha ht =
    let next : u32 (b + 1) ≡ b + 1 = omega arith in
    let (t', rest) =
      stage_events_lem masks seq tx events (b + 1) a t handled.1 (omega arith) (omega arith)
        (omega arith) in
    let sum : b + 1 + count_before events ≡ b + (count_before events + 1) = omega arith in
    (t', simp (next, rest, sum, stage_events, cursor_at) refl)
stage_events_lem masks seq tx ((after_all_txs, event) ∷ events) b a t handled hb ha ht =
    let next : u32 (a + 1) ≡ a + 1 = omega arith in
    let (t', rest) =
      stage_events_lem masks seq tx events b (a + 1) t handled.1 (omega arith) (omega arith)
        (omega arith) in
    let sum : a + 1 + count_after events ≡ a + (count_after events + 1) = omega arith in
    (t', simp (next, rest, sum, stage_events, cursor_at) refl)
stage_events_lem masks seq tx ((after_tx, event) ∷ events) b a t handled hb ha ht =
    let next : u32 (t + 1) ≡ t + 1 = omega arith in
    let (t', rest) =
      stage_events_lem masks seq tx events b a (t + 1) handled.1 (omega arith) (omega arith)
        (omega arith) in
    (t', simp (next, rest, stage_events, cursor_at) refl)
stage_events_lem masks seq tx ((other_stage, event) ∷ events) b a t handled hb ha ht =
    absurd handled.0

inner_op_events_lem :
    (seq : ℕ) (tx : TransactionEvents) (o n : ℕ) (events : List ℕ)
    → o < u32_mod
    → n + length events < u32_mod
    → inner_op_events seq tx o n events ≡ placed_op seq tx o n events
unfolding inner_op_events
inner_op_events_lem seq tx o n [] small fits = refl
inner_op_events_lem seq tx o n (event ∷ events) small fits =
    let op : u32 o ≡ o = omega arith in
    let number : u32 n ≡ n = omega arith in
    simp (op, number, inner_op_events_lem seq tx o (n + 1) events small (omega arith)) refl

-- So does `op_events`.
pub op_events_lem :
    (seq : ℕ) (tx : TransactionEvents) (o : ℕ) (ops : List (List ℕ))
    → AllShort ops
    → o + length ops < u32_mod
    → op_events seq tx o ops ≡ placed_ops seq tx o ops
unfolding op_events
op_events_lem seq tx o [] short fits = refl
op_events_lem seq tx o (events ∷ ops) short fits =
    simp
      (
        inner_op_events_lem seq tx o 0 events (omega arith) (omega (arith, short.0)),
        op_events_lem seq tx (o + 1) ops short.1 (omega arith),
      )
      refl
