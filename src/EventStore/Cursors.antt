-- ===== src/EventStore/Cursors.antt =====
-- The cursors of a ledger's events, which are the table's primary keys.
use stellar_rpc.Prelude.{
  ℕ, suc, ◌+◌, ◌≤◌, ◌<◌, ◌≡◌, ◌⊎◌, refl, ap, Option, none, some, List, [], ◌∷◌, ◌++◌, inl, inr,
  arith, length, u32, u32_mod,
}
use stellar_rpc.EventStore.{
  Masks, Cursor, Stage, before_all_txs, after_all_txs, after_tx, other_stage, TxEventIndices,
  TransactionEvents, DbEvent, cursor_at, stage_events, op_events, inner_op_events,
}

-- Of the cursors of all events
abbrev pub All : (Cursor → Type 0) → List DbEvent → Type 0
All P [] = Unit
All P (e ∷ es) = P e.cursor × All P es

abbrev pub AllDistinct : List DbEvent → Type 0
AllDistinct [] = Unit
AllDistinct (e ∷ es) = All (λ c. e.cursor ≡ c → ⊥) es × AllDistinct es

pub weaken :
    (P Q : Cursor → Type 0) (es : List DbEvent) → ((c : Cursor) → P c → Q c) → All P es → All Q es
weaken P Q [] f h = tt
weaken P Q (e ∷ es) f h = (f e.cursor h.0, weaken P Q es f h.1)

pub append-All :
    (P : Cursor → Type 0) (xs ys : List DbEvent) → All P xs → All P ys → All P (xs ++ ys)
append-All P [] ys h k = k
append-All P (x ∷ xs) ys h k = (h.0, append-All P xs ys h.1 k)

pub append-AllDistinct :
    (P Q : Cursor → Type 0) (xs ys : List DbEvent)
    → ((c d : Cursor) → P c → Q d → c ≡ d → ⊥)
    → All P xs
    → All Q ys
    → AllDistinct xs
    → AllDistinct ys
    → AllDistinct (xs ++ ys)
append-AllDistinct P Q [] ys apart p q dx dy = dy
append-AllDistinct P Q (x ∷ xs) ys apart p q dx dy = (
  append-All (λ c. x.cursor ≡ c → ⊥) xs ys dx.0
      (weaken Q (λ c. x.cursor ≡ c → ⊥) ys (λ d. apart x.cursor d p.0) q),
  append-AllDistinct P Q xs ys apart p.1 q dx.1 dy,
)

-- Every stage is one that the code handles.
abbrev pub AllHandled : List (Stage × ℕ) → Type 0
AllHandled [] = Unit
AllHandled ((stage, event) ∷ events) = IsHandled stage × AllHandled events
  where
    IsHandled : Stage → Type 0
    IsHandled other_stage = ⊥
    IsHandled _ = Unit

abbrev pub AllShort : List (List ℕ) → Type 0
AllShort [] = Unit
AllShort (inner ∷ ops) = (length inner < u32_mod) × AllShort ops

module _ (masks : Masks) (ledger_seq : ℕ) (tx : TransactionEvents) (first : 0 < tx.index)
    (last : tx.index < masks.transaction_mask) where
  -- A cursor given between two states of the indices
  abbrev pub Own : TxEventIndices → TxEventIndices → Cursor → Type 0
  Own i j c =
      ((c.tx ≡ 0) × (i.before_all ≤ c.event) × (c.event < j.before_all))
      ⊎ ((c.tx ≡ masks.transaction_mask) × (i.after_all ≤ c.event) × (c.event < j.after_all))
      ⊎ ((c.tx ≡ tx.index)
          × (c.op ≡ masks.operation_mask)
          × (i.after_tx_count ≤ c.event)
          × (c.event < j.after_tx_count))

  pub record Grows (n : ℕ) (i j : TxEventIndices) : Type 0 where
    pub before_from : i.before_all ≤ j.before_all
    pub before_to : j.before_all ≤ i.before_all + n
    pub after_from : i.after_all ≤ j.after_all
    pub after_to : j.after_all ≤ i.after_all + n
    pub tx_from : i.after_tx_count ≤ j.after_tx_count
    pub tx_to : j.after_tx_count ≤ i.after_tx_count + n

  pub record Staged (n : ℕ) (i : TxEventIndices) (out : Option (List DbEvent × TxEventIndices))
      : Type 0 where
    pub events : List DbEvent
    pub indices : TxEventIndices
    pub got : out ≡ some (events, indices)
    pub grows : Grows n i indices
    pub own : All (Own i indices) events
    pub distinct : AllDistinct events

  abbrev pub Small : ℕ → TxEventIndices → Type 0
  Small n i =
      (i.before_all + n < u32_mod) × (i.after_all + n < u32_mod) × (i.after_tx_count + n < u32_mod)

  widen :
      (m n : ℕ) (i i' j j' : TxEventIndices) (c : Cursor)
      → Grows m i i'
      → Grows n j j'
      → Own i' j c
      → Own i j' c
  widen m n i i' j j' c low high (inl (tx0, from, to)) =
      let x = low.before_from in let y = high.before_from in inl (tx0, omega arith, omega arith)
  widen m n i i' j j' c low high (inr (inl (tx0, from, to))) =
      let x = low.after_from in let y = high.after_from in inr (inl (tx0, omega arith, omega arith))
  widen m n i i' j j' c low high (inr (inr (tx0, op0, from, to))) =
      let x = low.tx_from in let y = high.tx_from in inr (inr (tx0, op0, omega arith, omega arith))

  earlier_apart : (i i' j : TxEventIndices) (c d : Cursor) → Own i i' c → Own i' j d → c ≡ d → ⊥
  earlier_apart i i' j c d own own' e =
      let same_tx : c.tx ≡ d.tx = ap (λ x. x.tx) e in
      let same_event : c.event ≡ d.event = ap (λ x. x.event) e in ground arith

  still : (i : TxEventIndices) → Grows 0 i i
  still i = record {
    before_from = omega arith;
    before_to = omega arith;
    after_from = omega arith;
    after_to = omega arith;
    tx_from = omega arith;
    tx_to = omega arith;
  }

  cons-Staged :
      (n : ℕ) (e : DbEvent) (i i' : TxEventIndices) (out : Option (List DbEvent × TxEventIndices))
      → Grows 1 i i'
      → Own i i' e.cursor
      → Staged n i' out
      → Staged
          (suc n)
          i
          (elim out [ none ↦ none | some (rest, indices) ↦ some (e ∷ rest, indices) ])
  cons-Staged n e i i' out one own rest =
      let j = rest.indices in
      record {
        events = e ∷ rest.events;
        indices = j;
        got = rw (rest.got) refl;
        grows = record {
          before_from = omega (arith, one.before_from, rest.grows.before_from);
          before_to = omega (arith, one.before_to, rest.grows.before_to);
          after_from = omega (arith, one.after_from, rest.grows.after_from);
          after_to = omega (arith, one.after_to, rest.grows.after_to);
          tx_from = omega (arith, one.tx_from, rest.grows.tx_from);
          tx_to = omega (arith, one.tx_to, rest.grows.tx_to);
        };
        own = (
          widen 0 n i i i' j e.cursor (still i) rest.grows own,
          weaken (Own i' j) (Own i j) rest.events (λ c. widen 1 0 i i' j j c one (still j))
              rest.own,
        );
        distinct = (
          weaken (Own i' j) (λ c. e.cursor ≡ c → ⊥) rest.events
              (λ c. earlier_apart i i' j e.cursor c own) rest.own,
          rest.distinct,
        );
      }

  pub stage_events-Staged :
      (events : List (Stage × ℕ)) (i : TxEventIndices)
      → AllHandled events
      → Small (length events) i
      → Staged (length events) i (stage_events masks ledger_seq tx events i)
  unfolding stage_events cursor_at
  stage_events-Staged [] i handled small = record {
    events = [];
    indices = i;
    got = refl;
    grows = record {
      before_from = omega arith;
      before_to = omega arith;
      after_from = omega arith;
      after_to = omega arith;
      tx_from = omega arith;
      tx_to = omega arith;
    };
    own = tt;
    distinct = tt;
  }
  stage_events-Staged ((before_all_txs, event) ∷ events) i handled small =
      cons-Staged (length events) _ i (record i { before_all = u32 (i.before_all + 1) }) _
        (record {
          before_from = omega arith;
          before_to = omega arith;
          after_from = omega arith;
          after_to = omega arith;
          tx_from = omega arith;
          tx_to = omega arith;
        })
        (inl (refl, omega arith, omega arith))
        (stage_events-Staged events (record i { before_all = u32 (i.before_all + 1) }) handled.1
          (omega arith, omega arith, omega arith))
  stage_events-Staged ((after_all_txs, event) ∷ events) i handled small =
      cons-Staged (length events) _ i (record i { after_all = u32 (i.after_all + 1) }) _
        (record {
          before_from = omega arith;
          before_to = omega arith;
          after_from = omega arith;
          after_to = omega arith;
          tx_from = omega arith;
          tx_to = omega arith;
        })
        (inr (inl (refl, omega arith, omega arith)))
        (stage_events-Staged events (record i { after_all = u32 (i.after_all + 1) }) handled.1
          (omega arith, omega arith, omega arith))
  stage_events-Staged ((after_tx, event) ∷ events) i handled small =
      cons-Staged (length events) _ i (record i { after_tx_count = u32 (i.after_tx_count + 1) }) _
        (record {
          before_from = omega arith;
          before_to = omega arith;
          after_from = omega arith;
          after_to = omega arith;
          tx_from = omega arith;
          tx_to = omega arith;
        })
        (inr (inr (refl, refl, omega arith, omega arith)))
        (stage_events-Staged events (record i { after_tx_count = u32 (i.after_tx_count + 1) })
          handled.1 (omega arith, omega arith, omega arith))
  stage_events-Staged ((other_stage, event) ∷ events) i handled small = absurd handled.0

  -- A cursor of an event of operation `o`, from the n-th on; and of operation `o` or a later one
  abbrev pub InnerFrom : ℕ → ℕ → Cursor → Type 0
  InnerFrom o n c = (c.tx ≡ tx.index) × (c.op ≡ o) × (n ≤ c.event)

  abbrev pub OpFrom : ℕ → Cursor → Type 0
  OpFrom o c = (c.tx ≡ tx.index) × (o ≤ c.op) × (c.op < masks.operation_mask)

  inner_apart : (o n m : ℕ) (c d : Cursor) → c.event ≡ n → n < m → InnerFrom o m d → c ≡ d → ⊥
  inner_apart o n m c d at lt from e =
      let same_event : c.event ≡ d.event = ap (λ x. x.event) e in omega (arith, from.2)

  inner-All :
      (o n : ℕ) (events : List ℕ)
      → o < u32_mod
      → n + length events < u32_mod
      → All (InnerFrom o n) (inner_op_events ledger_seq tx o n events)
        × AllDistinct (inner_op_events ledger_seq tx o n events)
  unfolding inner_op_events
  inner-All o n [] small few = (tt, tt)
  inner-All o n (event ∷ events) small few =
      let (from, distinct) = inner-All o (n + 1) events small (omega arith) in
      (
        (
          (refl, omega arith, omega arith),
          weaken (InnerFrom o (n + 1)) (InnerFrom o n) _ (λ c h. (h.0, h.1, omega (arith, h.2)))
              from,
        ),
        (
          weaken (InnerFrom o (n + 1)) _ _
              (λ d. inner_apart o n (n + 1) _ d (omega arith) (omega arith)) from,
          distinct,
        ),
      )

  pub op_events-All :
      (o : ℕ) (ops : List (List ℕ))
      → AllShort ops
      → o + length ops ≤ masks.operation_mask
      → masks.operation_mask < u32_mod
      → All (OpFrom o) (op_events ledger_seq tx o ops) × AllDistinct (op_events ledger_seq tx o ops)
  unfolding op_events
  op_events-All o [] short few mask = (tt, tt)
  op_events-All o (inner ∷ ops) short few mask =
      let (from, distinct) = inner-All o 0 inner (omega arith) (omega (arith, short.0)) in
      let (later, distinct') = op_events-All (o + 1) ops short.1 (omega arith) mask in
      (
        append-All (OpFrom o) _ _
            (weaken (InnerFrom o 0) (OpFrom o) _
              (λ c h. (h.0, omega (arith, h.1), omega (arith, h.1))) from)
            (weaken (OpFrom (o + 1)) (OpFrom o) _ (λ c h. (h.0, omega (arith, h.1), h.2)) later),
        append-AllDistinct (InnerFrom o 0) (OpFrom (o + 1)) _ _
            (λ c d h k e. op_apart o c d h k (ap (λ x. x.op) e)) from later distinct distinct',
      )
    where
      op_apart : (o : ℕ) (c d : Cursor) → InnerFrom o 0 c → OpFrom (o + 1) d → c.op ≡ d.op → ⊥
      op_apart o c d h k e = omega (arith, h.1, k.1)
