-- ===== src/EventStore/Batches.antt =====
-- Batches neither lose nor reorder events.
use stellar_rpc.Prelude.{
  ℕ, zero, suc, ◌≤◌, ◌<◌, ◌≡◌, refl, sym, ap, ◌∙◌, Bool, true, Option, none, some, List, [], ◌∷◌,
  ◌++◌, append_assoc, append-nil, inl, inr, arith, leb, leb→le, leb→lt, Bool-cases, Option-cases,
  some_eq, length, take, drop, length-drop,
}
use stellar_rpc.EventStore.{
  Masks, TxEventIndices, TransactionEvents, DbEvent, EventHandler, max_events_per_batch, flush,
  flush_full, stage_events, op_events, insert_from,
}

-- The rows that were written, and those that are to be.
abbrev pub rows_of : EventHandler → List DbEvent
rows_of w = w.table ++ w.pending

take-drop : (n : ℕ) (xs : List DbEvent) → take n xs ++ drop n xs ≡ xs
take-drop zero xs = refl
take-drop (suc n) [] = refl
take-drop (suc n) (x ∷ xs) = ap (◌∷◌ x) (take-drop n xs)

-- What `InsertEvents` is to add: each transaction's events by stage, and then those of its operations.
abbrev pub gather : Masks → ℕ → List TransactionEvents → TxEventIndices → Option (List DbEvent)
gather masks ledger_seq [] indices = some []
gather masks ledger_seq (tx ∷ txs) indices =
    elim (stage_events masks ledger_seq tx tx.transaction_events
      (record indices { after_tx_count = 0 })) [
        | none ↦ none
        | some (events, indices') ↦ elim (gather masks ledger_seq txs indices') [
          | none ↦ none
          | some rest ↦ some ((events ++ op_events ledger_seq tx 0 tx.operation_events) ++ rest)
        ]
      ]

-- All insertions are done.
module _ (inserts : List DbEvent → Bool) (done : (rows : List DbEvent) → inserts rows ≡ true) where
  flush_lem :
      (n : ℕ) (w : EventHandler)
      → (w' : EventHandler) × (flush inserts n w ≡ some w')
        × (rows_of w' ≡ rows_of w)
        × (w'.pending ≡ drop n w.pending)
  unfolding flush
  flush_lem n w = (
    record { pending = drop n w.pending; table = w.table ++ take n w.pending },
    rw (done (take n w.pending)) refl,
    append_assoc w.table (take n w.pending) (drop n w.pending)
        ∙ ap (λ xs. w.table ++ xs) (take-drop n w.pending),
    refl,
  )

  flush_full_lem :
      (rounds : ℕ) (w : EventHandler)
      → length w.pending ≤ rounds
      → (w' : EventHandler) × (flush_full inserts rounds w ≡ some w')
        × (rows_of w' ≡ rows_of w)
        × (length w'.pending < max_events_per_batch)
  unfolding flush_full
  flush_full_lem zero w enough = (w, refl, refl, omega arith)
  flush_full_lem (suc rounds) w enough =
      elim (Bool-cases (leb max_events_per_batch (length w.pending))) [
        | inr few ↦ (w, rw (few) refl, refl, leb→lt _ _ few)
        | inl full ↦
            let le = leb→le _ _ full in
            let (w', flushed, same, left) = flush_lem max_events_per_batch w in
            let (w'', rest, same', few) =
              flush_full_lem rounds w'
                (omega (arith, ap length left, length-drop max_events_per_batch w.pending)) in
            (w'', rw (full, flushed, rest) refl, same' ∙ same, few)
      ]

  pub insert_from_lem :
      (masks : Masks) (ledger_seq : ℕ) (txs : List TransactionEvents) (indices : TxEventIndices)
      (w : EventHandler) (events : List DbEvent)
      → gather masks ledger_seq txs indices ≡ some events
      → length w.pending < max_events_per_batch
      → (w' : EventHandler) × (insert_from masks inserts ledger_seq txs indices w ≡ some w')
        × (rows_of w' ≡ rows_of w ++ events)
        × (length w'.pending < max_events_per_batch)
  unfolding insert_from
  insert_from_lem masks ledger_seq [] indices w events e few =
      (w, refl, sym (append-nil (rows_of w)) ∙ ap (λ xs. rows_of w ++ xs) (some_eq e), few)
  insert_from_lem masks ledger_seq (tx ∷ txs) indices w events e few =
      elim (Option-cases (
        stage_events masks ledger_seq tx tx.transaction_events
          (record indices { after_tx_count = 0 }))) [
            | inl unhandled ↦ absurd (clash (sym (rw (unhandled, gather) at e)))
            | inr ((own, indices'), staged) ↦
                elim (Option-cases (gather masks ledger_seq txs indices')) [
                  | inl unhandled ↦ absurd (clash (sym (rw (staged, unhandled, gather) at e)))
                  | inr (rest, gathered) ↦
                      let mine = own ++ op_events ledger_seq tx 0 tx.operation_events in
                      let pending = w.pending ++ mine in
                      let (w', flushed, same, few') =
                        flush_full_lem (length pending) (record w { pending = pending })
                          (omega arith) in
                      let (w'', rest_done, same', few'') =
                        insert_from_lem masks ledger_seq txs indices' w' rest gathered few' in
                      (
                        w'',
                        rw (staged, flushed, insert_from) rest_done,
                        same'
                            ∙ ap (λ xs. xs ++ rest)
                                (same ∙ sym (append_assoc w.table w.pending mine))
                            ∙ append_assoc (rows_of w) mine rest
                            ∙ ap (λ xs. rows_of w ++ xs)
                                (some_eq (rw (staged, gathered, gather) at e)),
                        few'',
                      )
                ]
          ]
    where
      clash : {xs : List DbEvent} → ◌≡◌ {A = Option (List DbEvent)} (some xs) none → ⊥
      clash e = cc
