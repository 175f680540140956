-- ===== src/TransactionStore/Insert.antt =====
-- What inserting a ledger's transactions adds to the table.
use stellar_rpc.Prelude.{
  ℕ, zero, suc, ◌≤◌, ◌<◌, ◌≡◌, ◌≢◌, ◌⊎◌, refl, sym, ap, ◌∙◌, inl, inr, Bool, true, false, some,
  List, [], ◌∷◌, ◌++◌, map, append_assoc, append-nil, arith, leb, leb→le, leb→lt, ◌==◌, ==→eq,
  ==→ne, ne→==, Bool-cases, some_eq, length, length-drop, take, drop, drop_of_le, Some, Each,
  weaken-Each,
}
use mathlib.Core.Path.{subst}
use stellar_rpc.TransactionStore.{
  PendingTx, TransactionHandler, max_tx_rows_per_batch, IngestTransaction, LedgerContents, put,
  put_transaction, read_transactions, flush, flush_pending, flush_full, pending_tx,
  insert_transactions,
}

-- The rows that were written, and those that are to be
abbrev pub rows_of : TransactionHandler → List PendingTx
rows_of w = w.table ++ w.pending

take-drop : (n : ℕ) (xs : List PendingTx) → take n xs ++ drop n xs ≡ xs
take-drop zero xs = refl
take-drop (suc n) [] = refl
take-drop (suc n) (x ∷ xs) = ap (◌∷◌ x) (take-drop n xs)

module _ (inserts : List PendingTx → Bool)
    (done : (rows : List PendingTx) → inserts rows ≡ true) where
  flush_lem :
      (n : ℕ) (w : TransactionHandler)
      → (w' : TransactionHandler) × (flush inserts n w ≡ some w')
        × (rows_of w' ≡ rows_of w)
        × (w'.pending ≡ drop n w.pending)
  unfolding flush
  flush_lem n w = (
    record { pending = drop n w.pending; table = w.table ++ take n w.pending },
    rw (done (take n w.pending)) refl,
    append_assoc w.table (take n w.pending) (drop n w.pending)
        ∙ ap (λ xs. w.table ++ xs) (take-drop n w.pending),
    refl,
  )

  flush_full_lem :
      (rounds : ℕ) (w : TransactionHandler)
      → length w.pending ≤ rounds
      → (w' : TransactionHandler) × (flush_full inserts rounds w ≡ some w')
        × (rows_of w' ≡ rows_of w)
        × (length w'.pending < max_tx_rows_per_batch)
  unfolding flush_full
  flush_full_lem zero w enough = (w, refl, refl, omega arith)
  flush_full_lem (suc rounds) w enough =
      elim (Bool-cases (leb max_tx_rows_per_batch (length w.pending))) [
        | inr few ↦ (w, rw (few) refl, refl, leb→lt _ _ few)
        | inl full ↦
            let le = leb→le _ _ full in
            let (w', flushed, same, left) = flush_lem max_tx_rows_per_batch w in
            let (w'', rest, same', few) =
              flush_full_lem rounds w'
                (omega (arith, ap length left, length-drop max_tx_rows_per_batch w.pending)) in
            (w'', rw (full, flushed, rest) refl, same' ∙ same, few)
      ]

  -- At a commit everything is written.
  pub flush_pending_lem :
      (w : TransactionHandler)
      → (w' : TransactionHandler) × (flush_pending inserts w ≡ some w')
        × (w'.table ≡ rows_of w)
        × (w'.pending ≡ [])
  unfolding flush_pending
  flush_pending_lem w = elim (Bool-cases (length w.pending == 0)) [
    | inl empty ↦ (
      w,
      rw (empty) refl,
      sym (append-nil w.table) ∙ ap (λ xs. w.table ++ xs) (sym (nothing empty)),
      nothing empty,
    )
    | inr some_left ↦
        let (w', flushed, same, left) = flush_lem (length w.pending) w in
        let gone : w'.pending ≡ [] = left ∙ drop_of_le (length w.pending) w.pending (omega arith) in
        (
          w',
          rw (some_left) flushed,
          sym (append-nil w'.table) ∙ ap (λ xs. w'.table ++ xs) (sym gone) ∙ same,
          gone,
        )
  ]
    where
      nothing : (length w.pending == 0) ≡ true → w.pending ≡ []
      nothing e = no_length w.pending (==→eq _ _ e)
        where
          no_length : (xs : List PendingTx) → length xs ≡ 0 → xs ≡ []
          no_length [] h = refl
          no_length (x ∷ xs) h = absurd (omega (arith, h))

  -- Where every insertion is done, the ledger can be read and less than a batch was pending, a row for each
  -- entry of the map of its transactions is appended to what is written or pending, and less than a
  -- batch is left pending.
  pub insert_transactions_lem :
      (iterate : List (ℕ × ℕ) → List (ℕ × ℕ)) (seq : ℕ) (contents : LedgerContents)
      (entries : List (ℕ × ℕ)) (w : TransactionHandler)
      → 0 < contents.count_transactions
      → contents.is_open ≡ true
      → read_transactions contents.count_transactions contents.items [] ≡ some entries
      → length w.pending < max_tx_rows_per_batch
      → (w' : TransactionHandler) × (insert_transactions inserts iterate true seq contents w
          ≡ some w')
        × (rows_of w' ≡ rows_of w ++ map (pending_tx seq) (iterate entries))
        × (length w'.pending < max_tx_rows_per_batch)
  unfolding insert_transactions
  insert_transactions_lem iterate seq contents entries w some_txs opens read few =
      let pending = w.pending ++ map (pending_tx seq) (iterate entries) in
      let (w', flushed, same, few') =
        flush_full_lem (length pending) (record w { pending = pending }) (omega arith) in
      let counted : (contents.count_transactions == 0) ≡ false = ne→== _ _ (λ e. omega arith) in
      (
        w',
        rw (read, counted, opens, flushed) refl,
        same ∙ sym (append_assoc w.table w.pending (map (pending_tx seq) (iterate entries))),
        few',
      )

-- The map's entries
put-Each :
    (P : ℕ × ℕ → Type 0) (hash index : ℕ) (entries : List (ℕ × ℕ))
    → P (hash, index)
    → Each P entries
    → Each P (put hash index entries)
unfolding put
put-Each P hash index [] here each = (here, tt)
put-Each P hash index ((h, i) ∷ entries) here each = elim (Bool-cases (h == hash)) [
  | inl same ↦ rw (same) (here, each.1)
  | inr other ↦ rw (other) (each.0, put-Each P hash index entries here each.1)
]

put-Some :
    (hash index : ℕ) (entries : List (ℕ × ℕ))
    → Some (λ e. e ≡ (hash, index)) (put hash index entries)
unfolding put
put-Some hash index [] = inl refl
put-Some hash index ((h, i) ∷ entries) = elim (Bool-cases (h == hash)) [
  | inl same ↦ rw (same) (inl refl)
  | inr other ↦ rw (other) (inr (put-Some hash index entries))
]

keep-Some :
    (hash index hash' index' : ℕ) (entries : List (ℕ × ℕ))
    → hash' ≢ hash
    → Some (λ e. e ≡ (hash, index)) entries
    → Some (λ e. e ≡ (hash, index)) (put hash' index' entries)
unfolding put
keep-Some hash index hash' index' [] apart h = absurd h
keep-Some hash index hash' index' ((k, i) ∷ entries) apart (inl here) =
    elim (Bool-cases (k == hash')) [
      | inl same ↦ absurd (apart (sym (==→eq k hash' same) ∙ ap (λ e. e.0) here))
      | inr other ↦ rw (other) (inl here)
    ]
keep-Some hash index hash' index' ((k, i) ∷ entries) apart (inr h) =
    elim (Bool-cases (k == hash')) [
      | inl same ↦ rw (same) (inr h)
      | inr other ↦ rw (other) (inr (keep-Some hash index hash' index' entries apart h))
    ]

-- A hash that a transaction is found by
abbrev pub HasKey : ℕ → IngestTransaction → Type 0
HasKey hash t = (t.tx.hash ≡ hash) ⊎ ((t.tx.is_fee_bump ≡ true) × (t.inner_hash ≡ hash))

abbrev pub LacksKey : ℕ → IngestTransaction → Type 0
LacksKey hash t = HasKey hash t → ⊥

-- Of the hash's entries there are only those of its order.
abbrev pub Only : ℕ → ℕ → ℕ × ℕ → Type 0
Only hash index e = (e.0 ≢ hash) ⊎ (e.1 ≡ index)

module _ (hash index : ℕ) where
  put_transaction-other :
      (t : IngestTransaction) (P : ℕ × ℕ → Type 0) (entries : List (ℕ × ℕ))
      → LacksKey hash t
      → ((e : ℕ × ℕ) → e.0 ≢ hash → P e)
      → Each P entries
      → Each P (put_transaction t entries)
        × (Some (λ e. e ≡ (hash, index)) entries
            → Some (λ e. e ≡ (hash, index)) (put_transaction t entries))
  unfolding put_transaction
  put_transaction-other t P entries lacks other each = elim (Bool-cases t.tx.is_fee_bump) [
    | inl bump ↦
        let inner : t.inner_hash ≢ hash = λ e. lacks (inr (bump, e)) in
        rw (bump) (
          put-Each P t.tx.hash t.tx.index (put t.inner_hash t.tx.index entries)
              (other (t.tx.hash, t.tx.index) (λ e. lacks (inl e)))
              (put-Each P t.inner_hash t.tx.index entries (other (t.inner_hash, t.tx.index) inner)
                each),
          λ h.
              keep-Some hash index t.tx.hash t.tx.index (put t.inner_hash t.tx.index entries)
                (λ e. lacks (inl e)) (keep-Some hash index t.inner_hash t.tx.index entries inner h),
        )
    | inr plain ↦ rw (plain) (
      put-Each P t.tx.hash t.tx.index entries (other (t.tx.hash, t.tx.index) (λ e. lacks (inl e)))
          each,
      λ h. keep-Some hash index t.tx.hash t.tx.index entries (λ e. lacks (inl e)) h,
    )
  ]

  put_transaction-this :
      (t : IngestTransaction) (entries : List (ℕ × ℕ))
      → HasKey hash t
      → t.tx.index ≡ index
      → Each (Only hash index) entries
      → Each (Only hash index) (put_transaction t entries)
        × Some (λ e. e ≡ (hash, index)) (put_transaction t entries)
  unfolding put_transaction
  put_transaction-this t entries has same each = elim (Bool-cases t.tx.is_fee_bump) [
    | inl bump ↦
        let inner = put t.inner_hash t.tx.index entries in
        rw (bump) (
          put-Each (Only hash index) t.tx.hash t.tx.index inner (inr same)
              (put-Each (Only hash index) t.inner_hash t.tx.index entries (inr same) each),
          elim (Bool-cases (t.tx.hash == hash)) [
            | inl outer ↦
                subst (λ e. Some (λ e'. e' ≡ e) (put t.tx.hash t.tx.index inner))
                  (pair_eq (==→eq _ _ outer) same) (put-Some t.tx.hash t.tx.index inner)
            | inr not_outer ↦
                keep-Some hash index t.tx.hash t.tx.index inner (==→ne _ _ not_outer) (
                  subst (λ e. Some (λ e'. e' ≡ e) inner)
                    (pair_eq (inner_of has (==→ne _ _ not_outer)) same)
                    (put-Some t.inner_hash t.tx.index entries))
          ],
        )
    | inr plain ↦ rw (plain) (
      put-Each (Only hash index) t.tx.hash t.tx.index entries (inr same) each,
      subst (λ e. Some (λ e'. e' ≡ e) (put t.tx.hash t.tx.index entries))
          (pair_eq (outer_of has plain) same) (put-Some t.tx.hash t.tx.index entries),
    )
  ]
    where
      pair_eq : {a b c d : ℕ} → a ≡ c → b ≡ d → ◌≡◌ {A = ℕ × ℕ} (a, b) (c, d)
      pair_eq p q = cc

      inner_of : HasKey hash t → t.tx.hash ≢ hash → t.inner_hash ≡ hash
      inner_of (inl e) n = absurd (n e)
      inner_of (inr (bump, e)) n = e

      outer_of : HasKey hash t → t.tx.is_fee_bump ≡ false → t.tx.hash ≡ hash
      outer_of (inl e) p = e
      outer_of (inr (bump, e)) p = let x : true ≡ false = cc in let y : ⊥ = cc in absurd y

  -- After the transaction with the hash
  after_lem :
      (after : List IngestTransaction) (entries out : List (ℕ × ℕ))
      → Each (LacksKey hash) after
      → read_transactions (length after) (map some after) entries ≡ some out
      → Each (Only hash index) entries
      → Some (λ e. e ≡ (hash, index)) entries
      → Each (Only hash index) out × Some (λ e. e ≡ (hash, index)) out
  unfolding read_transactions
  after_lem [] entries out lacks read each here = (
    subst (Each (Only hash index)) (some_eq read) each,
    subst (Some (λ e. e ≡ (hash, index))) (some_eq read) here,
  )
  after_lem (t ∷ after) entries out lacks read each here =
      let (each', keeps) =
        put_transaction-other t (Only hash index) entries lacks.0 (λ e other. inl other) each in
      after_lem after (put_transaction t entries) out lacks.1 read each' (keeps here)

  -- A transaction that alone has a hash has the only entry of it.
  pub read_transactions_lem :
      (before after : List IngestTransaction) (t : IngestTransaction) (entries out : List (ℕ × ℕ))
      → HasKey hash t
      → t.tx.index ≡ index
      → Each (LacksKey hash) before
      → Each (LacksKey hash) after
      → read_transactions
          (length (before ++ (t ∷ after)))
          (map some (before ++ (t ∷ after)))
          entries
        ≡ some out
      → Each (λ e. e.0 ≢ hash) entries
      → Each (Only hash index) out × Some (λ e. e ≡ (hash, index)) out
  unfolding read_transactions
  read_transactions_lem [] after t entries out has same lacks lacks' read none_yet =
      let (each, here) =
        put_transaction-this t entries has same (
          weaken-Each (λ e. e.0 ≢ hash) (Only hash index) entries (λ e other. inl other)
            none_yet) in
      after_lem after (put_transaction t entries) out lacks' read each here
  read_transactions_lem (u ∷ before) after t entries out has same lacks lacks' read none_yet =
      let (none_yet', keeps) =
        put_transaction-other u (λ e. e.0 ≢ hash) entries lacks.0 (λ e other. other) none_yet in
      read_transactions_lem before after t (put_transaction u entries) out has same lacks.1 lacks'
        read none_yet'
