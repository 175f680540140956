-- ===== src/LedgerStore/Rows.antt =====
-- The table of ledgers in ascending order: what selecting, inserting and trimming give there.
use stellar_rpc.Prelude.{
  ℕ, ◌+◌, ◌≤◌, ◌<◌, ◌≡◌, refl, ap, true, some, List, [], ◌∷◌, ◌++◌, ◌||◌, inl, inr, arith, leb,
  ◌==◌, leb→le, le→leb, ne→==, le→ltb, ==_refl, Bool-cases,
}
use stellar_rpc.Window.{LedgerInfo}
use stellar_rpc.LedgerStore.{
  select, last_row, oldest_rows, edge_rows, Ranged, ranged, empty_db,
  get_ledger_range_without_cache, insert_ledger,
}

-- Ascending, every sequence above n.
abbrev pub IsAbove : ℕ → List LedgerInfo → Type 0
IsAbove n [] = Unit
IsAbove n (r ∷ rs) = (n < r.sequence) × IsAbove r.sequence rs

-- The range of a table by its two ends.
abbrev pub ends_of : List LedgerInfo → Ranged
ends_of [] = empty_db
ends_of (r ∷ rs) = ranged (record { first_ledger = r; last_ledger = last_row r rs })

pub last_row_above :
    (n : ℕ) (r : LedgerInfo) (rs : List LedgerInfo)
    → IsAbove n (r ∷ rs)
    → n < (last_row r rs).sequence
last_row_above n r [] h = h.0
last_row_above n r (r' ∷ rs) h = omega (arith, last_row_above r.sequence r' rs h.1, h.0)

pub last_row_ge :
    (r : LedgerInfo) (rs : List LedgerInfo)
    → IsAbove r.sequence rs
    → r.sequence ≤ (last_row r rs).sequence
last_row_ge r [] h = omega arith
last_row_ge r (x ∷ rs) h = omega (arith, last_row_above r.sequence x rs h)

pub select_none :
    (m n : ℕ) (rs : List LedgerInfo) → m ≤ n → IsAbove n rs → select (λ x. x.sequence == m) rs ≡ []
unfolding select
select_none m n [] h a = refl
select_none m n (r ∷ rs) h a =
    rw (ne→== r.sequence m (omega (arith, a.0)))
      (select_none m r.sequence rs (omega (arith, a.0)) a.1)

pub oldest_rows_lem :
    (r : LedgerInfo) (rs : List LedgerInfo) → IsAbove r.sequence rs → oldest_rows (r ∷ rs) ≡ r ∷ []
unfolding oldest_rows select
oldest_rows_lem r rs a =
    rw (==_refl r.sequence)
      (ap (λ xs. r ∷ xs) (select_none r.sequence r.sequence rs (omega arith) a))

select_edges :
    (m n : ℕ) (r : LedgerInfo) (rs : List LedgerInfo)
    → m ≤ n
    → IsAbove n (r ∷ rs)
    → select (λ x. (x.sequence == m) || (x.sequence == (last_row r rs).sequence)) (r ∷ rs)
      ≡ last_row r rs ∷ []
unfolding select
select_edges m n r [] h a = rw (ne→== r.sequence m (omega (arith, a.0)), ==_refl r.sequence) refl
select_edges m n r (r' ∷ rs) h a =
    let later = last_row_above r.sequence r' rs a.1 in
    rw
      (
        ne→== r.sequence m (omega (arith, a.0)),
        ne→== r.sequence (last_row r' rs).sequence (omega arith),
      )
      (select_edges m r.sequence r' rs (omega (arith, a.0)) a.1)

edge_rows_lem :
    (r r' : LedgerInfo) (rs : List LedgerInfo)
    → IsAbove r.sequence (r' ∷ rs)
    → edge_rows (r ∷ r' ∷ rs) ≡ r ∷ last_row r' rs ∷ []
unfolding edge_rows select
edge_rows_lem r r' rs a =
    rw (==_refl r.sequence)
      (ap (λ xs. r ∷ xs) (select_edges r.sequence r.sequence r' rs (omega arith) a))

-- Without the cache, the range is that of the two ends of the table.
pub without_cache_lem :
    (rows : List LedgerInfo)
    → IsAbove 0 rows
    → get_ledger_range_without_cache true rows ≡ ends_of rows
unfolding get_ledger_range_without_cache edge_rows select
without_cache_lem [] a = refl
without_cache_lem (r ∷ []) a = rw (==_refl r.sequence) refl
without_cache_lem (r ∷ r' ∷ rs) a =
    rw (edge_rows_lem r r' rs a.1, get_ledger_range_without_cache) refl

-- A ledger after all the others goes to the end.
pub insert_ledger-last :
    (n : ℕ) (rows : List LedgerInfo) (l : LedgerInfo)
    → IsAbove n (rows ++ (l ∷ []))
    → insert_ledger l rows ≡ some (rows ++ (l ∷ []))
unfolding insert_ledger
insert_ledger-last n [] l a = refl
insert_ledger-last n (r ∷ rs) l a =
    let later = end_above r.sequence rs l a.1 in
    rw
      (
        ne→== l.sequence r.sequence (omega arith),
        le→ltb l.sequence r.sequence (omega arith),
        insert_ledger-last r.sequence rs l a.1,
      )
      refl
  where
    end_above :
        (m : ℕ) (rs : List LedgerInfo) (l : LedgerInfo)
        → IsAbove m (rs ++ (l ∷ []))
        → m < l.sequence
    end_above m [] l a = a.0
    end_above m (x ∷ rs) l a = omega (arith, a.0, end_above x.sequence rs l a.1)

abbrev pub keep_from : ℕ → List LedgerInfo → List LedgerInfo
keep_from cutoff = select (λ r. leb cutoff r.sequence)

pub keep_from-all :
    (cutoff n : ℕ) (rows : List LedgerInfo)
    → cutoff ≤ n + 1
    → IsAbove n rows
    → keep_from cutoff rows ≡ rows
unfolding select
keep_from-all cutoff n [] h a = refl
keep_from-all cutoff n (r ∷ rs) h a =
    rw (le→leb cutoff r.sequence (omega (arith, a.0)))
      (ap (λ xs. r ∷ xs) (keep_from-all cutoff r.sequence rs (omega (arith, a.0)) a.1))

-- Trimming takes rows off the front only: what is left is ascending, and ends as before.
pub keep_from_lem :
    (cutoff n : ℕ) (r : LedgerInfo) (rs : List LedgerInfo)
    → IsAbove n (r ∷ rs)
    → cutoff ≤ (last_row r rs).sequence
    → (r' : LedgerInfo) × (rs' : List LedgerInfo) × (keep_from cutoff (r ∷ rs) ≡ r' ∷ rs')
      × (last_row r' rs' ≡ last_row r rs)
      × IsAbove n (r' ∷ rs')
      × (cutoff ≤ r'.sequence)
unfolding select
keep_from_lem cutoff n r [] a h = (r, [], rw (le→leb cutoff r.sequence h) refl, refl, a, h)
keep_from_lem cutoff n r (x ∷ rs) a h = elim (Bool-cases (leb cutoff r.sequence)) [
  | inl kept ↦
      let le : cutoff ≤ r.sequence = leb→le _ _ kept in
      (
        r,
        x ∷ rs,
        rw (kept) (ap (λ xs. r ∷ xs) (keep_from-all cutoff r.sequence (x ∷ rs) (omega arith) a.1)),
        refl,
        a,
        le,
      )
  | inr gone ↦
      let (r', rs', e, l, above, le) = keep_from_lem cutoff r.sequence x rs a.1 h in
      (r', rs', rw (gone) e, l, (omega (arith, above.0, a.0), above.1), le)
]
