-- ===== src/FeeWindow/Ingest/Retry.antt =====
-- `IngestFees` for a ledger that the windows already hold.
use stellar_rpc.Prelude.{
  ℕ, ◌+◌, ◌<◌, ◌≡◌, refl, ◌∙◌, sym, ap, inl, inr, Option, none, some, List, arith, u32, false,
  ne→==, some_eq,
}
use mathlib.Core.Path.{subst}
use stellar_rpc.Window.Ring.{contents}
use stellar_rpc.FeeWindow.Ingest.{
  LedgerCloseMeta, Read, IngestError, classic_gap, FeeWindows, bucket_of, ingest_fees,
  ingest_classic, no_shares,
}
use stellar_rpc.FeeWindow.Ingest.Laws.{
  soroban_fees, classic_fees, first_error, outcome, collect_lem,
}
use stellar_rpc.FeeWindow.Ingest.Lockstep.{
  IsLockstep, HasRoom, ingest_fees-IsAtomic, append_refused, accepts, next_expected,
}

-- It fails for a ledger out of turn.
ingest_fees-gap :
    (fw : FeeWindows) (meta : LedgerCloseMeta) (reads : List Read)
    → meta.reader ≡ some reads
    → first_error reads ≡ none
    → IsLockstep fw
    → HasRoom fw.classic_fee_window (bucket_of meta (classic_fees reads))
    → accepts (next_expected (contents fw.classic_fee_window.fees_per_ledger)) meta.ledger_sequence
      ≡ false
    → (again : FeeWindows) × (e : ℕ) × (r : ℕ) × (ingest_fees fw meta
        ≡ some (again, some (classic_gap e r)))
unfolding ingest_fees outcome ingest_classic
ingest_fees-gap fw meta reads h fine v room out_of_turn =
    let (w, e, r, done, current, untouched) =
      append_refused fw.classic_fee_window (bucket_of meta (classic_fees reads)) v.classic room
        out_of_turn in
    (
      record fw { classic_fee_window = w; rollbacks = fw.rollbacks + 1 },
      e,
      r,
      rw (h, ingest_fees)
          (rw (collect_lem reads no_shares) (rw (fine) (rw (done, ingest_classic) refl))),
    )

-- Once `IngestFees` has succeeded for a ledger, calling it again for that ledger fails with a gap in the
-- classic window. The ledger's transactions are readable, the windows were in lockstep, and they have
-- room for its fees, and once more for its classic ones.
pub ingest_fees-twice :
    (fw fw' : FeeWindows) (meta : LedgerCloseMeta) (reads : List Read)
    → meta.reader ≡ some reads
    → first_error reads ≡ none
    → IsLockstep fw
    → meta.ledger_sequence < 4294967296
    → HasRoom fw.classic_fee_window (bucket_of meta (classic_fees reads))
    → HasRoom fw.soroban_inclusion_fee_window (bucket_of meta (soroban_fees reads))
    → ingest_fees fw meta ≡ some (fw', none)
    → HasRoom fw'.classic_fee_window (bucket_of meta (classic_fees reads))
    → (again : FeeWindows) × (e : ℕ) × (r : ℕ) × (ingest_fees fw' meta
        ≡ some (again, some (classic_gap e r)))
ingest_fees-twice fw fw' meta reads h fine v hs rc rs done room =
    let a = ingest_fees-IsAtomic fw meta reads h v hs rc rs in
    let both = some_eq (sym a.returned ∙ done) in
    let same : a.after ≡ fw' = ap (λ x. x.0) both in
    elim a.outcome [
      | inr (err, failed, classic, soroban) ↦ absurd (clash err (sym failed ∙ ap (λ x. x.1) both))
      | inl (e, turn) ↦
          let turn' =
            subst
              (λ w.
                next_expected (contents w.classic_fee_window.fees_per_ledger)
                ≡ some (u32 (meta.ledger_sequence + 1)))
              same turn in
          let out_of_turn : accepts
                (next_expected (contents fw'.classic_fee_window.fees_per_ledger))
                meta.ledger_sequence
              ≡ false =
            ap (λ n. accepts n meta.ledger_sequence) turn'
            ∙ ne→== (u32 (meta.ledger_sequence + 1)) meta.ledger_sequence (omega arith) in
          ingest_fees-gap fw' meta reads h fine (subst IsLockstep same a.lockstep) room out_of_turn
    ]
  where
    clash : (err : IngestError) → ◌≡◌ {A = Option IngestError} (some err) none → ⊥
    clash err e = cc
