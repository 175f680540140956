-- ===== src/EventStore/Tests.antt =====
-- The events of a small ledger.
use stellar_rpc.Prelude.{refl, true, [], ◌∷◌, arith}
use stellar_rpc.EventStore.{
  Masks, before_all_txs, after_all_txs, after_tx, TransactionEvents, EventHandler, insert_events,
}
use stellar_rpc.EventStore.Keys.{Inserted, insert_events-Inserted}

abbrev masks : Masks
masks = record { transaction_mask = 1048575; operation_mask = 4095 }

abbrev fees : TransactionEvents
fees = record {
  tx_hash = 1;
  index = 1;
  transaction_events = (before_all_txs, 10) ∷ (after_tx, 11) ∷ (after_all_txs, 12) ∷ [];
  operation_events = (13 ∷ 14 ∷ []) ∷ [] ∷ (15 ∷ []) ∷ [];
}

abbrev more_fees : TransactionEvents
more_fees = record {
  tx_hash = 2;
  index = 2;
  transaction_events = (before_all_txs, 20) ∷ (after_tx, 21) ∷ [];
  operation_events = (22 ∷ []) ∷ [];
}

abbrev empty_handler : EventHandler
empty_handler = record { pending = []; table = [] }

insert_events-Inserted_example :
    Inserted masks 7
      (fees ∷ more_fees ∷ [])
      empty_handler
      (insert_events masks (λ rows. true) 7 (fees ∷ more_fees ∷ []) empty_handler)
insert_events-Inserted_example =
    insert_events-Inserted masks (λ rows. true) 7 (fees ∷ more_fees ∷ []) empty_handler
      (λ rows. refl) (omega arith)
      (
        omega arith,
        omega arith,
        (tt, (tt, (tt, tt))),
        (omega arith, (omega arith, (omega arith, tt))),
        omega arith,
        (omega arith, omega arith, (tt, (tt, tt)), (omega arith, tt), omega arith, tt),
      )
      (omega arith) (omega arith)
