-- ===== src/Service/Sound.antt =====
-- One ledger ingested: what holds afterwards, on every branch.
use stellar_rpc.Prelude.{
  ◌+◌, ◌<◌, ◌≡◌, ◌⊎◌, refl, sym, ap, ◌∙◌, Option, none, some, List, [], ◌∷◌, ◌++◌, inl, inr, arith,
  Bool-cases, u32, u32_mod,
}
use mathlib.Core.Path.{subst}
use stellar_rpc.Window.{LedgerInfo}
use stellar_rpc.Window.Ring.{contents}
use stellar_rpc.LedgerStore.{LedgerStore, CommitError}
use stellar_rpc.LedgerStore.Rows.{IsAbove, keep_from, insert_ledger-last}
use stellar_rpc.LedgerStore.Coherent.{IsCoherent}
use stellar_rpc.LedgerStore.Commit.{CommitOutcome, commit-CommitOutcome, cutoff_at}
use stellar_rpc.FeeWindow.Ingest.{
  LedgerCloseMeta, Read, FeeWindows, IngestError, ingest_fees, bucket_of,
}
use stellar_rpc.FeeWindow.Ingest.Laws.{soroban_fees, classic_fees}
use stellar_rpc.FeeWindow.Ingest.Lockstep.{
  IsLockstep, HasRoom, IsAtomic, ingest_fees-IsAtomic, next_expected,
}
use stellar_rpc.Service.{
  Service, Calls, ServiceError, no_tx, transactions_not_inserted, events_not_inserted,
  commit_failed, fees_not_ingested, ledger_info, ingest_ledger_close_meta, after_commit, after_fees,
  ingest,
}

-- The store's cache agrees with its rows, and the fee windows are in lockstep.
pub record IsSound (s : Service) : Type 0 where
  pub store : IsCoherent s.store
  pub fees : IsLockstep s.fee_windows

-- What `ingest` leaves behind.
pub record IngestOutcome (s : Service) (meta : LedgerCloseMeta)
    (out : Option (Service × Option ServiceError)) : Type 0 where
  pub after : Service
  pub error : Option ServiceError
  pub returned : out ≡ some (after, error)
  pub sound : IsSound after
  pub same_window : after.store.history_retention_window ≡ s.store.history_retention_window
  pub outcome :
      ((error ≡ none)
        × (after.store.rows
            ≡ keep_from
                (cutoff_at meta.ledger_sequence s.store.history_retention_window)
                (s.store.rows ++ (ledger_info meta ∷ [])))
        × (next_expected (contents after.fee_windows.classic_fee_window.fees_per_ledger)
            ≡ some (u32 (meta.ledger_sequence + 1)))
        × (after.ingested ≡ s.ingested ++ (meta.ledger_sequence ∷ [])))
      ⊎ ((e : ServiceError) × (error ≡ some e) × (after.ingested ≡ s.ingested))

failed_early :
    (s : Service) (meta : LedgerCloseMeta) (e : ServiceError)
    → IsSound s
    → IngestOutcome s meta (some (s, some e))
failed_early s meta e v = record {
  after = s;
  error = some e;
  returned = refl;
  sound = v;
  same_window = refl;
  outcome = inr (e, refl, refl);
}

after_commit-IngestOutcome :
    (s : Service) (meta : LedgerCloseMeta) (fw : FeeWindows) (tx_rows : List LedgerInfo)
    (out : LedgerStore × Option CommitError)
    → tx_rows ≡ s.store.rows ++ (ledger_info meta ∷ [])
    → CommitOutcome s.store tx_rows (ledger_info meta) out
    → IsLockstep fw
    → next_expected (contents fw.classic_fee_window.fees_per_ledger)
      ≡ some (u32 (meta.ledger_sequence + 1))
    → IngestOutcome s meta
        (some (after_commit meta.ledger_sequence (record s { fee_windows = fw }) out))
unfolding after_commit
after_commit-IngestOutcome s meta fw tx_rows (store, some e) same c v turn = record {
  after = record s { fee_windows = fw; store = store };
  error = some (commit_failed e);
  returned = refl;
  sound = record { store = c.coherent; fees = v };
  same_window = c.same_window;
  outcome = inr (commit_failed e, refl, refl);
}
after_commit-IngestOutcome s meta fw tx_rows (store, none) same c v turn = record {
  after = (after_commit meta.ledger_sequence (record s { fee_windows = fw }) (store, none)).0;
  error = none;
  returned = refl;
  sound = record { store = c.coherent; fees = v };
  same_window = c.same_window;
  outcome = elim c.outcome [
    | inl (unchanged, e, failed) ↦ absurd (clash e failed)
    | inr (rows, how) ↦ inl (
      refl,
      rows ∙ ap (keep_from (cutoff_at meta.ledger_sequence s.store.history_retention_window)) same,
      turn,
      refl,
    )
  ];
}
  where
    clash : (e : CommitError) → ◌≡◌ {A = Option CommitError} none (some e) → ⊥
    clash e h = cc

module _ (c : Calls) (s : Service) (meta : LedgerCloseMeta) (v : IsSound s)
    (h0 : 0 < s.store.history_retention_window) (hw : s.store.history_retention_window < u32_mod)
    (up : IsAbove 0 (s.store.rows ++ (ledger_info meta ∷ [])))
    (hs : meta.ledger_sequence + 1 < u32_mod) where
  after_fees-IngestOutcome :
      (out : Option (FeeWindows × Option IngestError))
      → IsAtomic s.fee_windows meta.ledger_sequence out
      → IngestOutcome s meta
          (after_fees c meta.ledger_sequence s meta (s.store.rows ++ (ledger_info meta ∷ [])) out)
  unfolding after_fees
  after_fees-IngestOutcome out a = elim a.outcome [
    | inl (e, turn) ↦
        subst
          (λ x.
            IngestOutcome s meta (
              after_fees c meta.ledger_sequence s meta (s.store.rows ++ (ledger_info meta ∷ [])) x))
          (sym (a.returned ∙ ap (λ x. some (a.after, x)) e))
          (after_commit-IngestOutcome s meta a.after (s.store.rows ++ (ledger_info meta ∷ [])) _
            refl
            (commit-CommitOutcome s.store (ledger_info meta) [] v.store h0 hw up hs c.commit_calls)
            a.lockstep turn)
    | inr (err, e, classic, soroban) ↦
        subst
          (λ x.
            IngestOutcome s meta (
              after_fees c meta.ledger_sequence s meta (s.store.rows ++ (ledger_info meta ∷ [])) x))
          (sym (a.returned ∙ ap (λ x. some (a.after, x)) e))
          (record {
            after = record s { fee_windows = a.after };
            error = some (fees_not_ingested err);
            returned = refl;
            sound = record { store = v.store; fees = a.lockstep };
            same_window = refl;
            outcome = inr (fees_not_ingested err, refl, refl);
          })
  ]

  pub ingest-IngestOutcome :
      (reads : List Read)
      → c.get_ledger ≡ some meta
      → meta.reader ≡ some reads
      → HasRoom s.fee_windows.classic_fee_window (bucket_of meta (classic_fees reads))
      → HasRoom s.fee_windows.soroban_inclusion_fee_window (bucket_of meta (soroban_fees reads))
      → IngestOutcome s meta (ingest c meta.ledger_sequence s)
  unfolding ingest ingest_ledger_close_meta
  ingest-IngestOutcome reads got h rc rs =
      let inserted = insert_ledger-last 0 s.store.rows (ledger_info meta) up in
      elim (Bool-cases c.new_tx) [
        | inr f ↦ rw (got, f, ingest) (failed_early s meta no_tx v)
        | inl t1 ↦ elim (Bool-cases c.insert_transactions) [
          | inr f ↦
              rw (got, t1, inserted, f, ingest, ingest_ledger_close_meta)
                (failed_early s meta transactions_not_inserted v)
          | inl t2 ↦ elim (Bool-cases c.insert_events) [
            | inr f ↦
                rw (got, t1, inserted, t2, f, ingest, ingest_ledger_close_meta)
                  (failed_early s meta events_not_inserted v)
            | inl t3 ↦
                rw (got, t1, inserted, t2, t3, ingest, ingest_ledger_close_meta)
                  (after_fees-IngestOutcome (ingest_fees s.fee_windows meta)
                    (ingest_fees-IsAtomic s.fee_windows meta reads h v.fees (omega arith) rc rs))
          ]
        ]
      ]
