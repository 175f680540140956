-- ===== src/FeeWindow/Ingest/Laws.antt =====
-- What the loop of `IngestFees` collects, and its errors.
use stellar_rpc.Prelude.{
  ℕ, ◌+◌, ◌-◌, ◌≤◌, ◌<◌, ◌≡◌, ◌⊎◌, refl, inl, inr, Option, none, some, List, [], ◌∷◌, ◌++◌, arith,
  append_assoc, append-nil, true,
}
use stellar_rpc.FeeWindow.Ingest.{
  OperationType, Transaction, Read, transaction, read_error, LedgerCloseMeta, FeeField, IngestError,
  unreadable, negative, Share, skipped, soroban, classic, invalid, share, share_of, soroban_share,
  v1, Fees, Collected, collected, failed, collect, FeeWindows, ingest_fees, ingest_classic,
  ingest_soroban, is_soroban, soroban_ext,
}

-- The first read that stops the loop.
unfoldable pub first_error : List Read → Option IngestError
first_error [] = none
first_error (read_error ∷ reads) = some unreadable
first_error (transaction tx ∷ reads) = elim (share tx) [
  | invalid field ↦ some (negative field)
  | _ ↦ first_error reads
]

abbrev keep_soroban : Share → List ℕ → List ℕ
keep_soroban (soroban fee) fees = fee ∷ fees
keep_soroban _ fees = fees

abbrev keep_classic : Share → List ℕ → List ℕ
keep_classic (classic fee) fees = fee ∷ fees
keep_classic _ fees = fees

-- The fees of each kind, in the order of the transactions.
unfoldable pub soroban_fees : List Read → List ℕ
soroban_fees [] = []
soroban_fees (read_error ∷ reads) = soroban_fees reads
soroban_fees (transaction tx ∷ reads) = keep_soroban (share tx) (soroban_fees reads)

unfoldable pub classic_fees : List Read → List ℕ
classic_fees [] = []
classic_fees (read_error ∷ reads) = classic_fees reads
classic_fees (transaction tx ∷ reads) = keep_classic (share tx) (classic_fees reads)

unfoldable pub outcome : List Read → Fees → Collected
outcome reads fees = elim (first_error reads) [
  | some err ↦ failed err
  | none ↦ collected (record {
    soroban_inclusion_fees = fees.soroban_inclusion_fees ++ soroban_fees reads;
    classic_fees = fees.classic_fees ++ classic_fees reads;
  })
]

Share-cases :
    (s : Share)
    → (s ≡ skipped)
      ⊎ (((fee : ℕ) × (s ≡ soroban fee))
          ⊎ (((fee : ℕ) × (s ≡ classic fee)) ⊎ ((field : FeeField) × (s ≡ invalid field))))
Share-cases skipped = inl refl
Share-cases (soroban fee) = inr (inl (fee, refl))
Share-cases (classic fee) = inr (inr (inl (fee, refl)))
Share-cases (invalid field) = inr (inr (inr (field, refl)))

-- The loop of `IngestFees` stops at the first transaction that cannot be read or whose fee is
-- negative, with that error; otherwise it collects, in the order of the ledger, the inclusion fee of
-- each Soroban transaction and the fee per operation of each classic one.
pub collect_lem : (reads : List Read) (fees : Fees) → collect reads fees ≡ outcome reads fees
unfolding collect outcome first_error soroban_fees classic_fees
collect_lem [] fees =
    ground (arith, append-nil fees.soroban_inclusion_fees, append-nil fees.classic_fees)
collect_lem (read_error ∷ reads) fees = refl
collect_lem (transaction tx ∷ reads) fees = elim (Share-cases (share tx)) [
  | inl e ↦ ground (arith, collect_lem reads fees)
  | inr (inl (fee, e)) ↦ ground (
    arith,
    collect_lem reads
        (record fees { soroban_inclusion_fees = fees.soroban_inclusion_fees ++ (fee ∷ []) }),
    append_assoc fees.soroban_inclusion_fees (fee ∷ []) (soroban_fees reads),
  )
  | inr (inr (inl (fee, e))) ↦ ground (
    arith,
    collect_lem reads (record fees { classic_fees = fees.classic_fees ++ (fee ∷ []) }),
    append_assoc fees.classic_fees (fee ∷ []) (classic_fees reads),
  )
  | inr (inr (inr (field, e))) ↦ ground arith
]

-- `IngestFees` calls `Rollback` exactly once when it returns an error, and never when it succeeds.
pub ingest_fees-rollbacks :
    (fw fw' : FeeWindows) (meta : LedgerCloseMeta) (e : Option IngestError)
    → ingest_fees fw meta ≡ some (fw', e)
    → ((e ≡ none) × (fw'.rollbacks ≡ fw.rollbacks))
      ⊎ ((err : IngestError) × (e ≡ some err) × (fw'.rollbacks ≡ fw.rollbacks + 1))
unfolding ingest_fees ingest_classic ingest_soroban
ingest_fees-rollbacks fw fw' meta e h = ground arith

-- A Soroban transaction, one whose single operation is of a Soroban type, with a charged fee that is
-- not negative and covers its resource fees: what `IngestFees` puts into the Soroban window is the
-- rest, so inclusion and resource fees add up to the fee charged.
pub share-soroban :
    (tx : Transaction) (op : OperationType) (non_refundable refundable : ℕ)
    → tx.operations ≡ op ∷ []
    → is_soroban op ≡ true
    → soroban_ext tx.unsafe_meta ≡ some (v1 non_refundable refundable)
    → tx.fee_charged < 9223372036854775808
    → non_refundable + refundable ≤ tx.fee_charged
    → (fee : ℕ) × (share tx ≡ soroban fee) × (fee + non_refundable + refundable ≡ tx.fee_charged)
unfolding share share_of soroban_share
share-soroban tx op n r ho hs he hf hr =
    (tx.fee_charged - (n + r), rw ho (ground arith), omega arith)
