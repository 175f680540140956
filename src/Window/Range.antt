-- ===== src/Window/Range.antt =====
-- Consecutive sequences: `Append` keeps them, and `GetLedgerRange` reads off their ends.
use stellar_rpc.Prelude.{
  ℕ, suc, ◌+◌, ◌-◌, ◌<◌, ◌≡◌, ◌⊎◌, refl, sym, ap, ◌∙◌, some, [], ◌∷◌, ◌++◌, arith, length,
  get_elem?, ltb, Bool-cases, inl, inr, u32, ◌==◌, suc-==-zero, ==→eq,
}
use mathlib.Core.Path.{subst}
use stellar_rpc.Window.{
  LedgerBucket, LedgerBucketWindow, Appended, zero_range, info_of, len, get, append,
  get_ledger_range,
}
use stellar_rpc.Window.Queue.{Queue, IsNumbered, IsContiguous, last_of, push}
use stellar_rpc.Window.Ring.{IsValid, contents, length-contents, get_lem, len_lem}
use stellar_rpc.Window.Refine.{append-Refines}

module _ {A : Type 0} where
  renumber : (n m : ℕ) (q : Queue A) → u32 n ≡ u32 m → IsNumbered n q → IsNumbered m q
  renumber n m [] e h = tt
  renumber n m (b ∷ q) e h = (h.0 ∙ e, renumber (n + 1) (m + 1) q (omega arith) h.1)

  IsNumbered-append :
      (n : ℕ) (q : Queue A) (b : LedgerBucket A)
      → IsNumbered n q
      → b.ledger_seq ≡ u32 (n + length q)
      → IsNumbered n (q ++ (b ∷ []))
  IsNumbered-append n [] b h e = (omega arith, tt)
  IsNumbered-append n (c ∷ q) b h e = (h.0, IsNumbered-append (n + 1) q b h.1 (omega arith))

  IsNumbered-IsContiguous : (n : ℕ) (q : Queue A) → IsNumbered n q → IsContiguous q
  IsNumbered-IsContiguous n [] h = tt
  IsNumbered-IsContiguous n (b ∷ q) h = renumber n b.ledger_seq (b ∷ q) (omega arith) h

  -- What a push adds is the next ledger, so the queue stays contiguous.
  pub push-IsContiguous :
      (cap : ℕ) (q : Queue A) (b : LedgerBucket A)
      → b.ledger_seq < 4294967296
      → IsContiguous q
      → IsContiguous (push cap q b).0
  unfolding push
  push-IsContiguous cap [] b hb h = (omega arith, tt)
  push-IsContiguous cap (o ∷ q) b hb h =
      elim (Bool-cases (u32 (o.ledger_seq + length (o ∷ q)) == b.ledger_seq)) [
        | inr gap ↦ rw gap h
        | inl next ↦
            let e : u32 (o.ledger_seq + length (o ∷ q)) ≡ b.ledger_seq = ==→eq _ _ next in
            let longer = IsNumbered-append o.ledger_seq (o ∷ q) b h (sym e) in
            rw next (elim (Bool-cases (ltb (length (o ∷ q)) cap)) [
              | inl room ↦ rw room longer
              | inr full ↦
                  rw full (IsNumbered-IsContiguous (o.ledger_seq + 1) (q ++ (b ∷ [])) longer.1)
            ])
      ]

  -- `Append` keeps the ledgers of a window consecutive, whether it takes the bucket or refuses it.
  pub append-IsContiguous :
      (w : LedgerBucketWindow A) (b : LedgerBucket A)
      → IsValid w
      → b.ledger_seq < 4294967296
      → IsContiguous (contents w)
      → (w' : LedgerBucketWindow A) × (r : Appended A) × (append w b ≡ some (w', r))
        × IsValid w'
        × IsContiguous (contents w')
  append-IsContiguous w b v hb h =
      let s = append-Refines w b v in
      (
        s.after,
        s.result,
        s.returned,
        s.valid,
        subst IsContiguous (sym (ap (λ (p : Queue A × Appended A). p.0) s.meets))
            (push-IsContiguous w.cap (contents w) b hb h),
      )

  get_elem?-last_of :
      (o : LedgerBucket A) (q : Queue A) → get_elem? (o ∷ q) (length q) ≡ some (last_of o q)
  get_elem?-last_of o [] = refl
  get_elem?-last_of o (b ∷ q) = get_elem?-last_of b q

  seq-last_of :
      (n : ℕ) (o : LedgerBucket A) (q : Queue A)
      → IsNumbered n (o ∷ q)
      → (last_of o q).ledger_seq ≡ u32 (n + length q)
  seq-last_of n o [] h = omega (arith, h.0)
  seq-last_of n o (b ∷ q) h = seq-last_of (n + 1) b q h.1 ∙ omega arith

  List-cases : (q : Queue A) → (q ≡ []) ⊎ ((o : LedgerBucket A) × (r : Queue A) × (q ≡ o ∷ r))
  List-cases [] = inl refl
  List-cases (o ∷ r) = inr (o, r, refl)

  get_ledger_range-empty :
      (w : LedgerBucketWindow A) → contents w ≡ [] → get_ledger_range w ≡ some zero_range
  unfolding get_ledger_range len
  get_ledger_range-empty w e =
      let n : length w.buckets ≡ 0 = sym (length-contents w) ∙ ap length e in rw n

  get_ledger_range-cons :
      (w : LedgerBucketWindow A) (o : LedgerBucket A) (q : Queue A)
      → IsValid w
      → contents w ≡ o ∷ q
      → get_ledger_range w
        ≡ some (record { first_ledger = info_of o; last_ledger = info_of (last_of o q) })
  unfolding get_ledger_range
  get_ledger_range-cons w o q v e =
      let n : len w ≡ suc (length q) = len_lem w v ∙ sym (length-contents w) ∙ ap length e in
      let b : suc (length q) - 1 ≡ length q = omega arith in
      let first : get w 0 ≡ some o = get_lem w 0 v ∙ ap (λ k. get_elem? k 0) e in
      let last : get w (length q) ≡ some (last_of o q) =
        get_lem w (length q) v ∙ ap (λ k. get_elem? k (length q)) e ∙ get_elem?-last_of o q in
      rw (n, suc-==-zero (length q), first, n, b, last)

  -- `GetLedgerRange` of a valid window is the zero range if the window is empty, and otherwise runs
  -- from the oldest bucket to the newest. Over consecutive ledgers its ends span exactly as many
  -- sequences, modulo 2^32, as the window holds buckets.
  pub get_ledger_range_lem :
      (w : LedgerBucketWindow A)
      → IsValid w
      → IsContiguous (contents w)
      → ((contents w ≡ []) × (get_ledger_range w ≡ some zero_range))
        ⊎ ((o : LedgerBucket A) × (q : Queue A) × (contents w ≡ o ∷ q)
            × (get_ledger_range w
                ≡ some (record { first_ledger = info_of o; last_ledger = info_of (last_of o q) }))
            × ((last_of o q).ledger_seq ≡ u32 (o.ledger_seq + (len w - 1))))
  get_ledger_range_lem w v h = elim (List-cases (contents w)) [
    | inl e ↦ inl (e, get_ledger_range-empty w e)
    | inr (o, q, e) ↦ inr (
      o,
      q,
      e,
      get_ledger_range-cons w o q v e,
      seq-last_of o.ledger_seq o q (subst IsContiguous e h)
          ∙ (omega (arith, len_lem w v, length-contents w, ap length e)),
    )
  ]
