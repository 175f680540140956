-- ===== src/Service/Run/Retained.antt =====
-- Rows of the table under later and later trimming.
use stellar_rpc.Prelude.{
  ℕ, ◌+◌, ◌≤◌, ◌<◌, ◌≡◌, refl, ap, ◌∙◌, List, [], ◌∷◌, ◌++◌, false, inl, inr, arith, Bool-cases,
  append_assoc, leb, leb→lt, lt→leb,
}
use stellar_rpc.Window.{LedgerInfo}
use stellar_rpc.LedgerStore.{last_row, select}
use stellar_rpc.LedgerStore.Rows.{IsAbove, keep_from}
use stellar_rpc.LedgerStore.Commit.{cutoff_at}

-- Every row is older than n.
abbrev pub IsBelow : ℕ → List LedgerInfo → Type 0
IsBelow n [] = Unit
IsBelow n (r ∷ rs) = (r.sequence < n) × IsBelow n rs

pub IsBelow-mono : (n m : ℕ) (rs : List LedgerInfo) → n ≤ m → IsBelow n rs → IsBelow m rs
IsBelow-mono n m [] h b = tt
IsBelow-mono n m (r ∷ rs) h b = (omega (arith, b.0), IsBelow-mono n m rs h b.1)

pub IsBelow-snoc :
    (n : ℕ) (rs : List LedgerInfo) (l : LedgerInfo)
    → l.sequence < n
    → IsBelow n rs
    → IsBelow n (rs ++ (l ∷ []))
IsBelow-snoc n [] l h b = (h, tt)
IsBelow-snoc n (r ∷ rs) l h b = (b.0, IsBelow-snoc n rs l h b.1)

pub keep_from-IsBelow :
    (n cutoff : ℕ) (rs : List LedgerInfo) → IsBelow n rs → IsBelow n (keep_from cutoff rs)
unfolding select
keep_from-IsBelow n cutoff [] b = tt
keep_from-IsBelow n cutoff (r ∷ rs) b = elim (Bool-cases (leb cutoff r.sequence)) [
  | inl kept ↦ rw (kept) (b.0, keep_from-IsBelow n cutoff rs b.1)
  | inr gone ↦ rw (gone) (keep_from-IsBelow n cutoff rs b.1)
]

pub above-IsBelow :
    (m : ℕ) (rs : List LedgerInfo) (l : LedgerInfo)
    → IsAbove m (rs ++ (l ∷ []))
    → IsBelow l.sequence rs × (m < l.sequence)
above-IsBelow m [] l up = (tt, up.0)
above-IsBelow m (r ∷ rs) l up =
    let (below, less) = above-IsBelow r.sequence rs l up.1 in ((less, below), omega (arith, up.0))

pub below-IsAbove :
    (m : ℕ) (rs : List LedgerInfo) (l : LedgerInfo)
    → m < l.sequence
    → IsAbove m rs
    → IsBelow l.sequence rs
    → IsAbove m (rs ++ (l ∷ []))
below-IsAbove m [] l h up below = (h, tt)
below-IsAbove m (r ∷ rs) l h up below = (up.0, below-IsAbove r.sequence rs l below.0 up.1 below.1)

-- A later cutoff makes an earlier one needless.
keep_from-keep_from :
    (c d : ℕ) (xs ys : List LedgerInfo)
    → c ≤ d
    → keep_from d (keep_from c xs ++ ys) ≡ keep_from d (xs ++ ys)
unfolding select
keep_from-keep_from c d [] ys h = refl
keep_from-keep_from c d (x ∷ xs) ys h = elim (Bool-cases (leb c x.sequence)) [
  | inl kept ↦ elim (Bool-cases (leb d x.sequence)) [
    | inl k ↦ rw (kept, k) (ap (λ zs. x ∷ zs) (keep_from-keep_from c d xs ys h))
    | inr k ↦ rw (kept, k) (keep_from-keep_from c d xs ys h)
  ]
  | inr gone ↦
      let late : leb d x.sequence ≡ false = lt→leb d x.sequence (omega (arith, leb→lt _ _ gone)) in
      rw (gone, late) (keep_from-keep_from c d xs ys h)
]

-- The ledgers from `seq` on, one after the other.
abbrev pub Follows : ℕ → List LedgerInfo → Type 0
Follows seq [] = Unit
Follows seq (l ∷ ls) = (l.sequence ≡ seq) × Follows (seq + 1) ls

-- The retention window up to the last of the new ledgers.
abbrev pub retained : ℕ → List LedgerInfo → List LedgerInfo → List LedgerInfo
retained window rows [] = rows
retained window rows (l ∷ ls) =
    keep_from (cutoff_at (last_row l ls).sequence window) (rows ++ (l ∷ ls))

Follows-le :
    (seq : ℕ) (l : LedgerInfo) (ls : List LedgerInfo)
    → Follows seq (l ∷ ls)
    → seq ≤ (last_row l ls).sequence
Follows-le seq l [] h = omega (arith, h.0)
Follows-le seq l (x ∷ ls) h = omega (arith, Follows-le (seq + 1) x ls h.1)

pub retained-cons :
    (window seq : ℕ) (rows : List LedgerInfo) (l : LedgerInfo) (ls : List LedgerInfo)
    → l.sequence ≡ seq
    → Follows (seq + 1) ls
    → retained window (retained window rows (l ∷ [])) ls ≡ retained window rows (l ∷ ls)
retained-cons window seq rows l [] e h = refl
retained-cons window seq rows l (x ∷ ls) e h =
    let late = Follows-le (seq + 1) x ls h in
    let joined = append_assoc rows (l ∷ []) (x ∷ ls) in
    keep_from-keep_from (cutoff_at l.sequence window) (cutoff_at (last_row x ls).sequence window)
      (rows ++ (l ∷ [])) (x ∷ ls) (omega (arith, e))
    ∙ ap (keep_from (cutoff_at (last_row x ls).sequence window)) joined
