-- ===== src/Window/History.antt =====
-- A window over its whole life: what it retains of the ledgers ingested, and what any sequence of
-- calls sees of it.
use stellar_rpc.Prelude.{
  ℕ, suc, ◌+◌, ◌-◌, ◌≤◌, ◌<◌, ◌≡◌, refl, sym, ap, ◌∙◌, Option, none, some, List, [], ◌∷◌, ◌++◌,
  arith, length, get_elem?, length-append, ltb, inl, inr, u32, ==_refl, drop, append-nil,
  append_assoc, ltb→le, Bool-cases,
}
use mathlib.Core.Path.{subst}
use stellar_rpc.Window.{
  LedgerBucket, LedgerBucketWindow, Appended, append, reset, get, new_ledger_bucket_window,
}
use stellar_rpc.Window.Queue.{Queue, IsNumbered, enqueue, push}
use stellar_rpc.Window.Ring.{IsValid, contents, length-contents, get_lem, max_cap}
use stellar_rpc.Window.Refine.{append-Refines}

module _ {A : Type 0} where
  -- One `Append` for each bucket.
  pub append_all : LedgerBucketWindow A → List (LedgerBucket A) → Option (LedgerBucketWindow A)
  append_all w [] = some w
  append_all w (b ∷ bs) = elim (append w b) [ none ↦ none | some (w', r) ↦ append_all w' bs ]

  new-IsValid : (cap : ℕ) → 0 < cap → cap ≤ max_cap → IsValid (new_ledger_bucket_window A cap)
  unfolding new_ledger_bucket_window
  new-IsValid cap h k = ground arith

  reset-IsValid : (w : LedgerBucketWindow A) → IsValid w → IsValid (reset w)
  unfolding reset
  reset-IsValid w v = ground arith

  -- The newest `cap` buckets of a queue and those that come after it.
  abbrev latest : ℕ → Queue A → List (LedgerBucket A) → Queue A
  latest cap q bs = drop (length q + length bs - cap) (q ++ bs)

  push-next :
      (cap n : ℕ) (q : Queue A) (b : LedgerBucket A)
      → IsNumbered n q
      → b.ledger_seq ≡ u32 (n + length q)
      → push cap q b ≡ enqueue cap q b
  unfolding push
  push-next cap n [] b h e = refl
  push-next cap n (o ∷ q) b h e =
      let e' : u32 (o.ledger_seq + length (o ∷ q)) ≡ b.ledger_seq = omega (arith, h.0) in
      rw (e', ==_refl b.ledger_seq)

  IsNumbered-snoc :
      (n : ℕ) (q : Queue A) (b : LedgerBucket A)
      → IsNumbered n q
      → b.ledger_seq ≡ u32 (n + length q)
      → IsNumbered n (q ++ (b ∷ []))
  IsNumbered-snoc n [] b h e = (omega arith, tt)
  IsNumbered-snoc n (c ∷ q) b h e = (h.0, IsNumbered-snoc (n + 1) q b h.1 (omega arith))

  -- The queue after one more ledger, with what is left to come.
  record Next (cap : ℕ) (q q' : Queue A) (b : LedgerBucket A) (bs : List (LedgerBucket A))
      : Type 0 where
    base : ℕ
    numbered : IsNumbered base q'
    follows : IsNumbered (base + length q') bs
    same_latest : latest cap q' bs ≡ latest cap q (b ∷ bs)

  snoc_append :
      (q : Queue A) (b : LedgerBucket A) (bs : List (LedgerBucket A))
      → (q ++ (b ∷ [])) ++ bs ≡ q ++ (b ∷ bs)
  snoc_append q b bs = append_assoc q (b ∷ []) bs

  enqueue-Next :
      (cap n : ℕ) (q : Queue A) (b : LedgerBucket A) (bs : List (LedgerBucket A))
      → 0 < cap
      → length q ≤ cap
      → IsNumbered n q
      → IsNumbered (n + length q) (b ∷ bs)
      → Next cap q (enqueue cap q b).0 b bs
  unfolding enqueue
  enqueue-Next cap n [] b bs hc hl h f = record {
    base = n;
    numbered = (omega (arith, f.0), tt);
    follows = subst (λ k. IsNumbered k bs) (omega arith) f.1;
    same_latest = ap (λ k. drop k (b ∷ bs)) (omega arith);
  }
  enqueue-Next cap n (o ∷ q) b bs hc hl h f = elim (Bool-cases (ltb (length (o ∷ q)) cap)) [
    | inl room ↦ rw room (record {
      base = n;
      numbered = IsNumbered-snoc n (o ∷ q) b h f.0;
      follows = subst (λ k. IsNumbered k bs) (omega (arith, length-append (o ∷ q) (b ∷ []))) f.1;
      same_latest =
          rw (snoc_append q b bs) (
            ap (λ k. drop k (o ∷ (q ++ (b ∷ bs)))) (omega (arith, length-append (o ∷ q) (b ∷ []))));
    })
    | inr full ↦ rw full (record {
      base = n + 1;
      numbered = IsNumbered-snoc (n + 1) q b h.1 (omega (arith, f.0));
      follows = subst (λ k. IsNumbered k bs) (omega (arith, length-append q (b ∷ []))) f.1;
      same_latest = rw (snoc_append q b bs) (
          ap (λ k. drop k (o ∷ (q ++ (b ∷ bs))))
            {x = suc (length (q ++ (b ∷ [])) + length bs - cap)}
            (omega (arith, length-append q (b ∷ []), ltb→le _ _ full)));
    })
  ]

  append_all-latest :
      (bs : List (LedgerBucket A)) (w : LedgerBucketWindow A) (n : ℕ)
      → IsValid w
      → IsNumbered n (contents w)
      → IsNumbered (n + length (contents w)) bs
      → (w' : LedgerBucketWindow A) × (append_all w bs ≡ some w')
        × (contents w' ≡ latest w.cap (contents w) bs)
  unfolding append_all
  append_all-latest [] w n v h f = (
    w,
    refl,
    sym (rw append-nil (ap (λ k. drop k (contents w)) {y = 0} (omega (arith, length-contents w)))),
  )
  append_all-latest (b ∷ bs) w n v h f =
      let s = append-Refines w b v in
      let c : contents s.after ≡ (enqueue w.cap (contents w) b).0 =
        ap (λ (p : Queue A × Appended A). p.0) (s.meets ∙ push-next w.cap n (contents w) b h f.0) in
      let t =
        enqueue-Next w.cap n (contents w) b bs v.roomy (omega (arith, length-contents w)) h f in
      let (w', done, kept) =
        append_all-latest bs s.after t.base s.valid (subst (IsNumbered t.base) (sym c) t.numbered)
          (subst (λ q. IsNumbered (t.base + length q) bs) (sym c) t.follows) in
      (
        w',
        rw (s.returned, append_all) done,
        kept
            ∙ ap (λ k. latest k (contents s.after) bs) s.same_cap
            ∙ ap (λ q. latest w.cap q bs) c
            ∙ t.same_latest,
      )

  -- A new window, given the buckets of consecutive ledgers in order, takes them all without an
  -- error or a panic, and holds exactly the latest `cap` of them (all, if there are no more), oldest
  -- first. The capacity is positive and at most 2^31.
  pub append_all-retains :
      (cap n : ℕ) (bs : List (LedgerBucket A))
      → 0 < cap
      → cap ≤ max_cap
      → IsNumbered n bs
      → (w : LedgerBucketWindow A) × (append_all (new_ledger_bucket_window A cap) bs ≡ some w)
        × (contents w ≡ drop (length bs - cap) bs)
  unfolding new_ledger_bucket_window
  append_all-retains cap n bs hc hm h =
      let (w, done, kept) =
        append_all-latest bs (new_ledger_bucket_window A cap) n (new-IsValid cap hc hm) tt
          (subst (λ k. IsNumbered k bs) (omega arith) h) in
      (w, done, kept ∙ ap (λ k. drop k bs) (omega arith))

-- A client's calls, and what each returns.
pub data Op (A : Type 0) : Type 0 where
  add : LedgerBucket A → Op A
  read : ℕ → Op A
  clear : Op A

pub data Reply (A : Type 0) : Type 0 where
  added : Appended A → Reply A
  found : Option (LedgerBucket A) → Reply A  -- `none`: the call panics
  crashed : Reply A

module _ {A : Type 0} where
  unfoldable pub run : LedgerBucketWindow A → List (Op A) → List (Reply A)
  run w [] = []
  run w (add b ∷ ops) = elim (append w b) [
    | none ↦ crashed ∷ []
    | some (w', r) ↦ added r ∷ run w' ops
  ]
  run w (read i ∷ ops) = found (get w i) ∷ run w ops
  run w (clear ∷ ops) = run (reset w) ops

  unfoldable pub run_queue : ℕ → Queue A → List (Op A) → List (Reply A)
  run_queue cap q [] = []
  run_queue cap q (add b ∷ ops) = let (q', r) = push cap q b in added r ∷ run_queue cap q' ops
  run_queue cap q (read i ∷ ops) = found (get_elem? q i) ∷ run_queue cap q ops
  run_queue cap q (clear ∷ ops) = run_queue cap [] ops

  -- No sequence of appends, reads and resets tells a valid window from the bounded queue of its
  -- contents: the same buckets are evicted, the same errors returned, the same reads panic, and no
  -- append panics.
  pub run_refines :
      (ops : List (Op A)) (w : LedgerBucketWindow A)
      → IsValid w
      → run w ops ≡ run_queue w.cap (contents w) ops
  unfolding run run_queue reset
  run_refines [] w v = refl
  run_refines (add b ∷ ops) w v =
      let s = append-Refines w b v in
      rw (s.returned, run)
        (ap (◌∷◌ (added s.result)) (
            run_refines ops s.after s.valid
            ∙ ap (λ c. run_queue c (contents s.after) ops) s.same_cap)
          ∙ ap (λ (p : Queue A × Appended A). added p.1 ∷ run_queue w.cap p.0 ops) s.meets)
  run_refines (read i ∷ ops) w v = rw (get_lem w i v, run_refines ops w v)
  run_refines (clear ∷ ops) w v = run_refines ops (reset w) (reset-IsValid w v)
