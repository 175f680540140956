-- ===== src/FeeWindow/Invariant.antt =====
-- The distribution that a window shows is always that of the fees that it holds.
use stellar_rpc.Prelude.{
  ℕ, zero, suc, ◌+◌, ◌≤◌, ◌<◌, ◌≡◌, refl, ◌∙◌, sym, ap, Option, none, some, List, [], ◌∷◌, ◌++◌,
  arith, length, drop, drop-eq-cons, get_or, get_elem?-eq-get_or, append_assoc, append-nil,
  drop_of_le, inl, inr, ◌⊎◌,
}
use stellar_rpc.Window.{
  LedgerBucket, LedgerBucketWindow, Appended, evicted, not_contiguous, get, len, pos, reset,
  new_ledger_bucket_window,
}
use stellar_rpc.Window.Queue.{Queue, push, enqueue}
use stellar_rpc.Window.Ring.{IsValid, contents, length-contents, get_lem, len_lem, max_cap}
use stellar_rpc.Window.Refine.{append-Refines}
use stellar_rpc.FeeWindow.{
  FeeWindow, FeeDistribution, append_ledger_fees, settle, gather, compute_fee_distribution,
  reset_fees, new_fee_window, no_fees,
}
use stellar_rpc.FeeWindow.Percentile.{max_fees}
use stellar_rpc.FeeWindow.Distribution.{compute_fee_distribution_lem, compute_fee_distribution-nil}

-- All the fees of a queue of buckets, oldest ledger first.
abbrev pub all_fees : Queue (List ℕ) → List ℕ
all_fees [] = []
all_fees (b ∷ q) = b.bucket_content ++ all_fees q

-- The window's own invariant, and the distribution of what it holds.
pub record IsCurrent (fw : FeeWindow) : Type 0 where
  pub window : IsValid fw.fees_per_ledger
  pub shown :
      compute_fee_distribution
        (all_fees (contents fw.fees_per_ledger))
        (length (contents fw.fees_per_ledger))
      ≡ some fw.distribution

abbrev blank : LedgerBucket (List ℕ)
blank = record { ledger_seq = 0; ledger_close_timestamp = pos 0; bucket_content = [] }

gather_lem :
    (w : LedgerBucketWindow (List ℕ)) (rounds i : ℕ) (acc : List ℕ)
    → IsValid w
    → i + rounds ≡ length (contents w)
    → gather w rounds i acc ≡ some (acc ++ all_fees (drop i (contents w)))
unfolding gather
gather_lem w zero i acc v e =
    rw (drop_of_le i (contents w) (omega arith)) (ap some (sym (append-nil _)))
gather_lem w (suc rounds) i acc v e =
    let b = get_or (contents w) i blank in
    let here : get w i ≡ some b =
      get_lem w i v ∙ get_elem?-eq-get_or (contents w) i blank (omega arith) in
    let split : drop i (contents w) ≡ b ∷ drop (i + 1) (contents w) =
      drop-eq-cons i (contents w) blank (omega arith)
      ∙ ap (λ k. b ∷ drop k (contents w)) {x = suc i} (omega arith) in
    rw (here, gather)
      (gather_lem w rounds (i + 1) (acc ++ b.bucket_content) v (omega arith)
        ∙ ap some (
            append_assoc acc b.bucket_content (all_fees (drop (i + 1) (contents w)))
            ∙ ap (λ q. acc ++ all_fees q) (sym split)))

-- What one call of `AppendLedgerFees` leaves behind.
pub record Settled (fw : FeeWindow) (b : LedgerBucket (List ℕ))
    (out : Option (FeeWindow × Option (ℕ × ℕ))) : Type 0 where
  pub after : FeeWindow
  pub error : Option (ℕ × ℕ)
  pub returned : out ≡ some (after, error)
  pub current : IsCurrent after
  pub same_cap : after.fees_per_ledger.cap ≡ fw.fees_per_ledger.cap
  pub outcome :
      ((error ≡ none)
        × ((push fw.fees_per_ledger.cap (contents fw.fees_per_ledger) b).0
            ≡ contents after.fees_per_ledger)
        × ((o : Option (LedgerBucket (List ℕ))) × ((push fw.fees_per_ledger.cap
                (contents fw.fees_per_ledger)
                b).1
              ≡ evicted o)))
      ⊎ ((contents after.fees_per_ledger ≡ contents fw.fees_per_ledger)
          × (after.distribution ≡ fw.distribution)
          × ((expected : ℕ) × (received : ℕ) × (error ≡ some (expected, received))
              × ((push fw.fees_per_ledger.cap (contents fw.fees_per_ledger) b).1
                  ≡ not_contiguous expected received)))

-- A refused bucket leaves the queue alone.
push_refused :
    (cap : ℕ) (q : Queue (List ℕ)) (b : LedgerBucket (List ℕ)) (e r : ℕ)
    → (push cap q b).1 ≡ not_contiguous e r
    → (push cap q b).0 ≡ q
unfolding push enqueue
push_refused cap [] b e r h = cc
push_refused cap (o ∷ q) b e r h = ground arith

compute_total :
    (fees : List ℕ) (ledgers : ℕ)
    → length fees < max_fees
    → (d : FeeDistribution) × (compute_fee_distribution fees ledgers ≡ some d)
compute_total [] ledgers h = (no_fees, compute_fee_distribution-nil ledgers)
compute_total (f ∷ fees) ledgers h =
    let (d, done, meets) = compute_fee_distribution_lem (f ∷ fees) ledgers (omega arith) h in
    (d, done)

settle_lem :
    (fw : FeeWindow) (b : LedgerBucket (List ℕ)) (w : LedgerBucketWindow (List ℕ))
    (r : Appended (List ℕ))
    → IsCurrent fw
    → length (all_fees (push fw.fees_per_ledger.cap (contents fw.fees_per_ledger) b).0) < max_fees
    → IsValid w
    → w.cap ≡ fw.fees_per_ledger.cap
    → (contents w, r) ≡ push fw.fees_per_ledger.cap (contents fw.fees_per_ledger) b
    → Settled fw b (settle fw w r)
unfolding settle
settle_lem fw b w (not_contiguous e r) c m v k meets =
    let p = push fw.fees_per_ledger.cap (contents fw.fees_per_ledger) b in
    let refused : p.1 ≡ not_contiguous e r =
      sym (ap (λ (x : Queue (List ℕ) × Appended (List ℕ)). x.1) meets) in
    let same : contents w ≡ contents fw.fees_per_ledger =
      ap (λ (x : Queue (List ℕ) × Appended (List ℕ)). x.0) meets
      ∙ push_refused fw.fees_per_ledger.cap (contents fw.fees_per_ledger) b e r refused in
    record {
      after = record fw { fees_per_ledger = w };
      error = some (e, r);
      returned = refl;
      current = record { window = v; shown = rw same c.shown };
      same_cap = k;
      outcome = inr (same, refl, (e, r, refl, refused));
    }
settle_lem fw b w (evicted o) c m v k meets =
    let p = push fw.fees_per_ledger.cap (contents fw.fees_per_ledger) b in
    let held : contents w ≡ p.0 = ap (λ (x : Queue (List ℕ) × Appended (List ℕ)). x.0) meets in
    let taken : p.1 ≡ evicted o =
      sym (ap (λ (x : Queue (List ℕ) × Appended (List ℕ)). x.1) meets) in
    let n : len w ≡ length (contents w) = len_lem w v ∙ sym (length-contents w) in
    let (d, done) =
      compute_total (all_fees (contents w)) (length (contents w))
        (omega (arith, ap (λ q. length (all_fees q)) held)) in
    record {
      after = record { fees_per_ledger = w; distribution = d };
      error = none;
      returned = rw (n, gather_lem w (length (contents w)) 0 [] v (omega arith), done);
      current = record { window = v; shown = done };
      same_cap = k;
      outcome = inl (refl, sym held, (o, taken));
    }

-- `AppendLedgerFees` on a window that shows its own distribution, while the window's fees with the
-- new ones stay fewer than 2^64 / 100: it never panics; if the ledger is the next one the buckets
-- become those of the queue's push; if it is not, buckets and distribution stay and the error names
-- both sequences. Either way the distribution shown is that of the fees held.
pub append_ledger_fees_lem :
    (fw : FeeWindow) (b : LedgerBucket (List ℕ))
    → IsCurrent fw
    → length (all_fees (push fw.fees_per_ledger.cap (contents fw.fees_per_ledger) b).0) < max_fees
    → Settled fw b (append_ledger_fees fw b)
unfolding append_ledger_fees
append_ledger_fees_lem fw b c m =
    let s = append-Refines fw.fees_per_ledger b c.window in
    rw (s.returned, append_ledger_fees)
      (settle_lem fw b s.after s.result c m s.valid s.same_cap s.meets)

pub new_fee_window-IsCurrent :
    (retention : ℕ) → 0 < retention → retention ≤ max_cap → IsCurrent (new_fee_window retention)
unfolding new_fee_window new_ledger_bucket_window
new_fee_window-IsCurrent retention h k = record {
  window = ground arith;
  shown = compute_fee_distribution-nil 0;
}

pub reset_fees-IsCurrent : (fw : FeeWindow) → IsCurrent fw → IsCurrent (reset_fees fw)
unfolding reset_fees reset
reset_fees-IsCurrent fw c =
    let v = c.window in record { window = ground arith; shown = compute_fee_distribution-nil 0 }
