-- ===== src/LedgerStore/Readers/Writes.antt =====
-- What commits and readers write to the cache.
use stellar_rpc.Prelude.{
  ℕ, ◌≤◌, ◌<◌, ◌≡◌, ◌⊎◌, refl, sym, ap, List, [], ◌∷◌, ◌++◌, ◌&&◌, inl, inr, arith, ltb, ltb→lt,
  le→ltb, ◌==◌, ==→eq, Bool-cases,
}
use mathlib.Core.Path.{subst}
use stellar_rpc.Window.{LedgerInfo}
use stellar_rpc.LedgerStore.{
  DbCache, LedgerStore, Ranged, ranged, empty_db, query_failed, out_of_bounds, memoize, fill_latest,
  CommitCalls, commit, advance_latest, forget_trimmed, is_trimmed,
}
use stellar_rpc.LedgerStore.Rows.{IsAbove}
use stellar_rpc.LedgerStore.Coherent.{IsCoherent, Agrees, memoize-Agrees}
use stellar_rpc.LedgerStore.Latest.{fill_latest-Agrees}
use stellar_rpc.LedgerStore.Commit.{latest_below, last_before, advance_latest_lem}
use stellar_rpc.LedgerStore.Readers.{remembered}
use stellar_rpc.LedgerStore.Readers.Holds.{IsFirst, IsLast, FoundFirst, Grows}

pub forget_trimmed-latest :
    (l : LedgerInfo) (s : LedgerStore)
    → s.cache.latest_ledger_seq < l.sequence
    → (forget_trimmed l.sequence s.history_retention_window
        (advance_latest l s.cache)).latest_ledger_seq
      ≡ l.sequence
unfolding forget_trimmed
forget_trimmed-latest l s newer = rw (advance_latest_lem l s.cache newer) (
    let c = record s.cache {
      latest_ledger_seq = l.sequence;
      latest_ledger_close_time = l.close_time;
    } in
    elim (Bool-cases (is_trimmed l.sequence s.history_retention_window c)) [
      | inl gone ↦ rw (gone, forget_trimmed) refl
      | inr kept ↦ rw (kept, forget_trimmed) refl
    ])

-- A commit leaves the store alone or caches its ledger as the latest.
pub commit-latest :
    (calls : CommitCalls) (s : LedgerStore) (rows : List LedgerInfo) (l : LedgerInfo)
    → s.cache.latest_ledger_seq < l.sequence
    → ((commit calls s rows l).0 ≡ s)
      ⊎ ((commit calls s rows l).0.cache.latest_ledger_seq ≡ l.sequence)
unfolding commit
commit-latest calls s rows l newer =
    let cached = forget_trimmed-latest l s newer in
    elim (Bool-cases calls.flush_writers) [
      | inr f ↦ rw (f) (inl refl)
      | inl t1 ↦ elim (Bool-cases calls.trim_tables) [
        | inr f ↦ rw (t1, f) (inl refl)
        | inl t2 ↦ elim (Bool-cases calls.tx_commit) [
          | inr f ↦ rw (t1, t2, f) (inl refl)
          | inl t3 ↦ elim (Bool-cases calls.post_commit) [
            | inr f ↦ rw (t1, t2, t3, f) (inr cached)
            | inl t4 ↦ rw (t1, t2, t3, t4) (inr cached)
          ]
        ]
      ]
    ]

pub last_le :
    (m : ℕ) (rows : List LedgerInfo) (l x : LedgerInfo)
    → IsAbove m (rows ++ (l ∷ []))
    → IsLast rows x
    → x.sequence ≤ l.sequence
last_le m [] l x up is = absurd is
last_le m (r ∷ rs) l x up is = omega (arith, last_before m r rs l [] up, ap (λ y. y.sequence) is)

pub commit-Grows :
    (calls : CommitCalls) (s : LedgerStore) (l : LedgerInfo)
    → Agrees s.rows s.cache
    → IsAbove 0 (s.rows ++ (l ∷ []))
    → Grows s (commit calls s (s.rows ++ (l ∷ [])) l).0
commit-Grows calls s l a up =
    let newer = latest_below 0 s.rows s.cache l [] a up in
    elim (commit-latest calls s (s.rows ++ (l ∷ [])) l newer) [
      | inl same ↦ inl (ap (λ t. t.rows) same, ap (λ t. t.cache.latest_ledger_seq) same)
      | inr cached ↦ inr (omega arith, λ x is. omega (arith, last_le 0 s.rows l x up is))
    ]

-- The two writes of readers to the cache.
pub remembered-Grows :
    (s : LedgerStore) (latest : ℕ) (out : Ranged) → Grows s (remembered s latest out)
unfolding memoize
remembered-Grows s latest (ranged r) =
    elim (Bool-cases ((s.cache.first_ledger_seq == 0) && (s.cache.latest_ledger_seq == latest))) [
      | inl new ↦ rw (new) (inl (refl, refl))
      | inr old ↦ rw (old) (inl (refl, refl))
    ]
remembered-Grows s latest empty_db = inl (refl, refl)
remembered-Grows s latest query_failed = inl (refl, refl)
remembered-Grows s latest out_of_bounds = inl (refl, refl)

pub memoize-keeps :
    (rows : List LedgerInfo) (c : DbCache) (latest : ℕ) (x : LedgerInfo)
    → Agrees rows c
    → (latest ≡ c.latest_ledger_seq → IsFirst rows x)
    → Agrees rows (memoize latest x c)
unfolding memoize
memoize-keeps [] c latest x a first = elim (Bool-cases (c.latest_ledger_seq == latest)) [
  | inl same ↦ absurd (first (sym (==→eq _ _ same)))
  | inr other ↦ elim (Bool-cases (c.first_ledger_seq == 0)) [
    | inl z ↦ rw (z, other, memoize) a
    | inr nz ↦ rw (nz, memoize) a
  ]
]
memoize-keeps (r ∷ rs) c latest x a first = elim (Bool-cases (c.latest_ledger_seq == latest)) [
  | inl same ↦
      subst (λ y. Agrees (r ∷ rs) (memoize latest y c)) (sym (first (sym (==→eq _ _ same))))
        (memoize-Agrees r rs latest c a)
  | inr other ↦ elim (Bool-cases (c.first_ledger_seq == 0)) [
    | inl z ↦ rw (z, other, memoize) a
    | inr nz ↦ rw (nz, memoize) a
  ]
]

pub remembered-IsCoherent :
    (s : LedgerStore) (latest : ℕ) (out : Ranged)
    → IsCoherent s
    → FoundFirst s latest out
    → IsCoherent (remembered s latest out)
remembered-IsCoherent s latest (ranged r) c (is, first) = record {
  ascending = c.ascending;
  agrees = memoize-keeps s.rows s.cache latest r.first_ledger c.agrees first;
}
remembered-IsCoherent s latest empty_db c h = c
remembered-IsCoherent s latest query_failed c h = c
remembered-IsCoherent s latest out_of_bounds c h = c

pub fill-keeps :
    (rows : List LedgerInfo) (c : DbCache) (x : LedgerInfo)
    → Agrees rows c
    → (x.sequence ≤ c.latest_ledger_seq) ⊎ ((c.latest_ledger_seq ≡ 0) × IsLast rows x)
    → Agrees rows (fill_latest x c)
unfolding fill_latest
fill-keeps rows c x a (inl le) = rw (le→ltb _ _ le, fill_latest) a
fill-keeps [] c x a (inr (cold, last)) = absurd last
fill-keeps (r ∷ rs) c x a (inr (cold, last)) =
    subst (λ y. Agrees (r ∷ rs) (fill_latest y c)) (sym last) (fill_latest-Agrees r rs c a)

pub one_last :
    (rows : List LedgerInfo) (x y : LedgerInfo)
    → IsLast rows x
    → IsLast rows y
    → y.sequence ≤ x.sequence
one_last [] x y hx hy = absurd hx
one_last (r ∷ rs) x y hx hy = omega (arith, ap (λ z. z.sequence) hx, ap (λ z. z.sequence) hy)

pub fill-Grows :
    (s : LedgerStore) (x : LedgerInfo)
    → (x.sequence ≤ s.cache.latest_ledger_seq) ⊎ ((s.cache.latest_ledger_seq ≡ 0) × IsLast s.rows x)
    → Grows s (record s { cache = fill_latest x s.cache })
unfolding fill_latest
fill-Grows s x (inl le) = rw (le→ltb _ _ le) (inl (refl, refl))
fill-Grows s x (inr (cold, last)) = elim (Bool-cases (ltb s.cache.latest_ledger_seq x.sequence)) [
  | inl less ↦ rw (less) (inr (ltb→lt _ _ less, λ y is. one_last s.rows x y last is))
  | inr more ↦ rw (more) (inl (refl, refl))
]
