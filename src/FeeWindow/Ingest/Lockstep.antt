-- ===== src/FeeWindow/Ingest/Lockstep.antt =====
-- The two windows move in lockstep: a ledger goes into both or into neither.
use stellar_rpc.Prelude.{
  ℕ, ◌+◌, ◌<◌, ◌≡◌, ◌⊎◌, refl, ◌∙◌, sym, ap, inl, inr, Option, none, some, Bool, List, [], ◌∷◌,
  ◌++◌, arith, length, length-append, u32, ◌==◌, Option-cases, Bool-cases, true, false, ltb,
}
use mathlib.Core.Path.{subst}
use stellar_rpc.Window.{LedgerBucket, evicted, not_contiguous}
use stellar_rpc.Window.Queue.{Queue, IsNumbered, IsContiguous, push, enqueue}
use stellar_rpc.Window.Ring.{contents}
use stellar_rpc.Window.Range.{push-IsContiguous}
use stellar_rpc.FeeWindow.{FeeWindow, append_ledger_fees}
use stellar_rpc.FeeWindow.Percentile.{max_fees}
use stellar_rpc.FeeWindow.Invariant.{IsCurrent, all_fees, append_ledger_fees_lem}
use stellar_rpc.FeeWindow.Ingest.{
  LedgerCloseMeta, Read, IngestError, classic_gap, Fees, FeeWindows, bucket_of, ingest_fees,
  ingest_classic, ingest_soroban, no_shares,
}
use stellar_rpc.FeeWindow.Ingest.Laws.{
  soroban_fees, classic_fees, first_error, outcome, collect_lem,
}

-- The sequence that a queue asks for next; an empty one takes any.
abbrev pub next_expected : Queue (List ℕ) → Option ℕ
next_expected [] = none
next_expected (o ∷ q) = some (u32 (o.ledger_seq + length (o ∷ q)))

abbrev pub accepts : Option ℕ → ℕ → Bool
accepts none seq = true
accepts (some n) seq = n == seq

push_accepted :
    (cap : ℕ) (q : Queue (List ℕ)) (b : LedgerBucket (List ℕ))
    → accepts (next_expected q) b.ledger_seq ≡ true
    → (o : Option (LedgerBucket (List ℕ))) × ((push cap q b).1 ≡ evicted o)
unfolding push enqueue
push_accepted cap [] b h = (none, refl)
push_accepted cap (o ∷ q) b h = elim (Bool-cases (ltb (length (o ∷ q)) cap)) [
  | inl room ↦ (none, rw (h, room))
  | inr full ↦ (some o, rw (h, full))
]

push_rejected :
    (cap : ℕ) (q : Queue (List ℕ)) (b : LedgerBucket (List ℕ)) (e : Option (LedgerBucket (List ℕ)))
    → accepts (next_expected q) b.ledger_seq ≡ false
    → (push cap q b).1 ≡ evicted e
    → ⊥
unfolding push enqueue
push_rejected cap [] b e h k = cc
push_rejected cap (o ∷ q) b e h k = ground arith

-- An accepted bucket is the last of the queue.
push_last :
    (cap : ℕ) (q : Queue (List ℕ)) (b : LedgerBucket (List ℕ))
    → accepts (next_expected q) b.ledger_seq ≡ true
    → (xs : Queue (List ℕ)) × ((push cap q b).0 ≡ xs ++ (b ∷ []))
unfolding push enqueue
push_last cap [] b h = ([], refl)
push_last cap (o ∷ q) b h = elim (Bool-cases (ltb (length (o ∷ q)) cap)) [
  | inl room ↦ (o ∷ q, rw (h, room))
  | inr full ↦ (q, rw (h, full))
]

seq-snoc :
    (n : ℕ) (xs : Queue (List ℕ)) (b : LedgerBucket (List ℕ))
    → IsNumbered n (xs ++ (b ∷ []))
    → b.ledger_seq ≡ u32 (n + length xs)
seq-snoc n [] b h = omega (arith, h.0)
seq-snoc n (o ∷ xs) b h = seq-snoc (n + 1) xs b h.1 ∙ omega arith

next_expected-snoc :
    (xs : Queue (List ℕ)) (b : LedgerBucket (List ℕ))
    → IsContiguous (xs ++ (b ∷ []))
    → next_expected (xs ++ (b ∷ [])) ≡ some (u32 (b.ledger_seq + 1))
next_expected-snoc [] b h = refl
next_expected-snoc (o ∷ xs) b h =
    ap some (omega (arith, seq-snoc o.ledger_seq (o ∷ xs) b h, length-append xs (b ∷ [])))

-- After a bucket is taken, the ledger after it is expected.
next_expected-push :
    (cap : ℕ) (q : Queue (List ℕ)) (b : LedgerBucket (List ℕ))
    → b.ledger_seq < 4294967296
    → IsContiguous q
    → accepts (next_expected q) b.ledger_seq ≡ true
    → next_expected (push cap q b).0 ≡ some (u32 (b.ledger_seq + 1))
next_expected-push cap q b hb hq h =
    let (xs, e) = push_last cap q b h in
    let kept = subst IsContiguous e (push-IsContiguous cap q b hb hq) in
    ap next_expected e ∙ next_expected-snoc xs b kept

pub record IsLockstep (fw : FeeWindows) : Type 0 where
  pub classic : IsCurrent fw.classic_fee_window
  pub soroban : IsCurrent fw.soroban_inclusion_fee_window
  pub classic_run : IsContiguous (contents fw.classic_fee_window.fees_per_ledger)
  pub soroban_run : IsContiguous (contents fw.soroban_inclusion_fee_window.fees_per_ledger)
  pub same_next :
      next_expected (contents fw.classic_fee_window.fees_per_ledger)
      ≡ next_expected (contents fw.soroban_inclusion_fee_window.fees_per_ledger)

-- The window with one more bucket holds fewer than 2^64 / 100 fees.
abbrev pub HasRoom : FeeWindow → LedgerBucket (List ℕ) → Type 0
HasRoom fw b =
    length (all_fees (push fw.fees_per_ledger.cap (contents fw.fees_per_ledger) b).0) < max_fees

-- What a fee window shows and holds is as it was.
abbrev pub IsUntouched : FeeWindow → FeeWindow → Type 0
IsUntouched w w' =
    (contents w'.fees_per_ledger ≡ contents w.fees_per_ledger) × (w'.distribution ≡ w.distribution)

-- All or nothing: on success both windows wait for the next ledger; on an error neither changed.
pub record IsAtomic (fw : FeeWindows) (seq : ℕ) (out : Option (FeeWindows × Option IngestError))
    : Type 0 where
  pub after : FeeWindows
  pub error : Option IngestError
  pub returned : out ≡ some (after, error)
  pub lockstep : IsLockstep after
  pub outcome :
      ((error ≡ none)
        × (next_expected (contents after.classic_fee_window.fees_per_ledger)
            ≡ some (u32 (seq + 1))))
      ⊎ ((err : IngestError) × (error ≡ some err)
          × IsUntouched fw.classic_fee_window after.classic_fee_window
          × IsUntouched fw.soroban_inclusion_fee_window after.soroban_inclusion_fee_window)

give_up_lem :
    (fw : FeeWindows) (seq : ℕ) (err : IngestError)
    → IsLockstep fw
    → IsAtomic fw seq (some (record fw { rollbacks = fw.rollbacks + 1 }, some err))
give_up_lem fw seq err v = record {
  after = record fw { rollbacks = fw.rollbacks + 1 };
  error = some err;
  returned = refl;
  lockstep = record {
    classic = v.classic;
    soroban = v.soroban;
    classic_run = v.classic_run;
    soroban_run = v.soroban_run;
    same_next = v.same_next;
  };
  outcome = inr (err, refl, (refl, refl), (refl, refl));
}

-- One fee window that takes the bucket, and one that does not.
module _ (fw : FeeWindow) (b : LedgerBucket (List ℕ)) (c : IsCurrent fw) (room : HasRoom fw b) where
  append_taken :
      accepts (next_expected (contents fw.fees_per_ledger)) b.ledger_seq ≡ true
      → (w : FeeWindow) × (append_ledger_fees fw b ≡ some (w, none))
        × IsCurrent w
        × (contents w.fees_per_ledger
            ≡ (push fw.fees_per_ledger.cap (contents fw.fees_per_ledger) b).0)
  append_taken h =
      let s = append_ledger_fees_lem fw b c room in
      elim s.outcome [
        | inl (e, held, (o, taken)) ↦
            (s.after, s.returned ∙ ap (λ x. some (s.after, x)) e, s.current, sym held)
        | inr (same, shown, (expected, received, e, refused)) ↦
            let (o, taken) =
              push_accepted fw.fees_per_ledger.cap (contents fw.fees_per_ledger) b h in
            absurd (clash o expected received (sym taken ∙ refused))
      ]
    where
      clash : (o : Option (LedgerBucket (List ℕ))) (e r : ℕ) → evicted o ≡ not_contiguous e r → ⊥
      clash o e r p = cc

  pub append_refused :
      accepts (next_expected (contents fw.fees_per_ledger)) b.ledger_seq ≡ false
      → (w : FeeWindow) × (expected : ℕ) × (received : ℕ) × (append_ledger_fees fw b
          ≡ some (w, some (expected, received)))
        × IsCurrent w
        × IsUntouched fw w
  append_refused h =
      let s = append_ledger_fees_lem fw b c room in
      elim s.outcome [
        | inl (e, held, (o, taken)) ↦
            absurd (push_rejected fw.fees_per_ledger.cap (contents fw.fees_per_ledger) b o h taken)
        | inr (same, shown, (expected, received, e, refused)) ↦ (
          s.after,
          expected,
          received,
          s.returned ∙ ap (λ x. some (s.after, x)) e,
          s.current,
          (same, shown),
        )
      ]

-- The two appends, the second reached only if the first succeeds.
appends_lem :
    (fw : FeeWindows) (meta : LedgerCloseMeta) (fees : Fees)
    → IsLockstep fw
    → meta.ledger_sequence < 4294967296
    → HasRoom fw.classic_fee_window (bucket_of meta fees.classic_fees)
    → HasRoom fw.soroban_inclusion_fee_window (bucket_of meta fees.soroban_inclusion_fees)
    → IsAtomic fw meta.ledger_sequence (ingest_classic fw meta fees)
unfolding ingest_classic ingest_soroban
appends_lem fw meta fees v hs rc rs =
    elim (Bool-cases (accepts (next_expected qc) meta.ledger_sequence)) [
      | inl yes_classic ↦
          let (wc, done_c, current_c, held_c) = append_taken classic bc v.classic rc yes_classic in
          let yes_soroban : accepts (next_expected qs) meta.ledger_sequence ≡ true =
            ap (λ n. accepts n meta.ledger_sequence) (sym v.same_next) ∙ yes_classic in
          let (ws, done_s, current_s, held_s) = append_taken sorob bs v.soroban rs yes_soroban in
          let next_c : next_expected (contents wc.fees_per_ledger)
              ≡ some (u32 (meta.ledger_sequence + 1)) =
            ap next_expected held_c
            ∙ next_expected-push classic.fees_per_ledger.cap qc bc hs v.classic_run yes_classic in
          let next_s : next_expected (contents ws.fees_per_ledger)
              ≡ some (u32 (meta.ledger_sequence + 1)) =
            ap next_expected held_s
            ∙ next_expected-push sorob.fees_per_ledger.cap qs bs hs v.soroban_run yes_soroban in
          record {
            after = record fw { classic_fee_window = wc; soroban_inclusion_fee_window = ws };
            error = none;
            returned = rw (done_c, ingest_classic) (rw (done_s, ingest_soroban));
            lockstep = record {
              classic = current_c;
              soroban = current_s;
              classic_run =
                  subst IsContiguous (sym held_c)
                    (push-IsContiguous classic.fees_per_ledger.cap qc bc hs v.classic_run);
              soroban_run =
                  subst IsContiguous (sym held_s)
                    (push-IsContiguous sorob.fees_per_ledger.cap qs bs hs v.soroban_run);
              same_next = next_c ∙ sym next_s;
            };
            outcome = inl (refl, next_c);
          }
      | inr no_classic ↦
          let (wc, e, r, done_c, current_c, (same, shown)) =
            append_refused classic bc v.classic rc no_classic in
          record {
            after = record fw { classic_fee_window = wc; rollbacks = fw.rollbacks + 1 };
            error = some (classic_gap e r);
            returned = rw (done_c, ingest_classic);
            lockstep = record {
              classic = current_c;
              soroban = v.soroban;
              classic_run = subst IsContiguous (sym same) v.classic_run;
              soroban_run = v.soroban_run;
              same_next = ap next_expected same ∙ v.same_next;
            };
            outcome = inr (classic_gap e r, refl, (same, shown), (refl, refl));
          }
    ]
  where
    open fw use {classic_fee_window as classic, soroban_inclusion_fee_window as sorob}

    bc : LedgerBucket (List ℕ)
    bc = bucket_of meta fees.classic_fees

    bs : LedgerBucket (List ℕ)
    bs = bucket_of meta fees.soroban_inclusion_fees

    qc : Queue (List ℕ)
    qc = contents classic.fees_per_ledger

    qs : Queue (List ℕ)
    qs = contents sorob.fees_per_ledger

pub ingest_fees-IsAtomic :
    (fw : FeeWindows) (meta : LedgerCloseMeta) (reads : List Read)
    → meta.reader ≡ some reads
    → IsLockstep fw
    → meta.ledger_sequence < 4294967296
    → HasRoom fw.classic_fee_window (bucket_of meta (classic_fees reads))
    → HasRoom fw.soroban_inclusion_fee_window (bucket_of meta (soroban_fees reads))
    → IsAtomic fw meta.ledger_sequence (ingest_fees fw meta)
unfolding ingest_fees outcome
ingest_fees-IsAtomic fw meta reads h v hs rc rs =
    rw (h, ingest_fees)
      (rw (collect_lem reads no_shares) (elim (Option-cases (first_error reads)) [
        | inl fine ↦ rw (fine) (
            appends_lem fw meta
              (record {
                soroban_inclusion_fees = soroban_fees reads;
                classic_fees = classic_fees reads;
              })
              v hs rc rs)
        | inr (err, bad) ↦ rw bad (give_up_lem fw meta.ledger_sequence err v)
      ]))
