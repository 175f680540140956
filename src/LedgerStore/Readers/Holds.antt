-- ===== src/LedgerStore/Readers/Holds.antt =====
-- What a reader holds between its steps, and that it stays so while the others go on.
use stellar_rpc.Prelude.{
  ℕ, zero, suc, ◌≤◌, ◌<◌, ◌≡◌, ◌⊎◌, sym, ◌∙◌, some, List, [], ◌∷◌, inl, inr, arith, get_elem?, set,
  some_eq, Each,
}
use mathlib.Core.Path.{subst}
use stellar_rpc.Window.{LedgerInfo}
use stellar_rpc.LedgerStore.{
  LedgerStore, Ranged, ranged, empty_db, query_failed, out_of_bounds, last_row,
}
use stellar_rpc.LedgerStore.Readers.{
  Reader, calling, knows_latest, knows_nothing, queried, answered, filled,
}

abbrev pub IsFirst : List LedgerInfo → LedgerInfo → Type 0
IsFirst [] x = ⊥
IsFirst (r ∷ rs) x = x ≡ r

abbrev pub IsLast : List LedgerInfo → LedgerInfo → Type 0
IsLast [] x = ⊥
IsLast (r ∷ rs) x = x ≡ last_row r rs

-- What a query found, while the latest ledger cached was `latest`: the first of the table, as long as
-- nothing newer is cached.
abbrev pub FoundFirst : LedgerStore → ℕ → Ranged → Type 0
FoundFirst s latest (ranged r) =
    (r.last_ledger.sequence ≡ latest)
    × (latest ≡ s.cache.latest_ledger_seq → IsFirst s.rows r.first_ledger)
FoundFirst s latest empty_db = Unit
FoundFirst s latest query_failed = Unit
FoundFirst s latest out_of_bounds = Unit

-- The last ledger of an answer is not newer than the one cached, or none is cached and it is the
-- table's.
abbrev pub Reports : LedgerStore → Ranged → Type 0
Reports s (ranged r) =
    (r.last_ledger.sequence ≤ s.cache.latest_ledger_seq)
    ⊎ ((s.cache.latest_ledger_seq ≡ 0) × IsLast s.rows r.last_ledger)
Reports s empty_db = Unit
Reports s query_failed = Unit
Reports s out_of_bounds = Unit

-- What a reader holds is about the store, or outdated and known to be.
abbrev pub Tells : LedgerStore → Reader → Type 0
Tells s calling = Unit
Tells s (knows_latest latest time) = (0 < latest) × (latest ≤ s.cache.latest_ledger_seq)
Tells s knows_nothing = Unit
Tells s (queried latest out) =
    (0 < latest) × (latest ≤ s.cache.latest_ledger_seq) × FoundFirst s latest out
Tells s (answered out) = Reports s out
Tells s filled = Unit

-- The store after a step: the same rows under the same latest ledger, or a newer ledger is cached.
abbrev pub Grows : LedgerStore → LedgerStore → Type 0
Grows s t =
    ((t.rows ≡ s.rows) × (t.cache.latest_ledger_seq ≡ s.cache.latest_ledger_seq))
    ⊎ ((s.cache.latest_ledger_seq < t.cache.latest_ledger_seq)
        × ((x : LedgerInfo) → IsLast s.rows x → x.sequence ≤ t.cache.latest_ledger_seq))

pub grows_le :
    (s t : LedgerStore) → Grows s t → s.cache.latest_ledger_seq ≤ t.cache.latest_ledger_seq
grows_le s t (inl (rows, same)) = omega arith
grows_le s t (inr (newer, last)) = omega arith

pub FoundFirst-grows :
    (s t : LedgerStore) (latest : ℕ) (out : Ranged)
    → latest ≤ s.cache.latest_ledger_seq
    → Grows s t
    → FoundFirst s latest out
    → FoundFirst t latest out
FoundFirst-grows s t latest (ranged r) le (inl (rows, same)) (is, first) =
    (is, λ e. subst (λ xs. IsFirst xs r.first_ledger) (sym rows) (first (e ∙ same)))
FoundFirst-grows s t latest (ranged r) le (inr (newer, last)) (is, first) =
    (is, λ e. absurd (omega arith))
FoundFirst-grows s t latest empty_db le g h = tt
FoundFirst-grows s t latest query_failed le g h = tt
FoundFirst-grows s t latest out_of_bounds le g h = tt

pub Reports-grows : (s t : LedgerStore) (out : Ranged) → Grows s t → Reports s out → Reports t out
Reports-grows s t (ranged r) g (inl le) = inl (omega (arith, grows_le s t g))
Reports-grows s t (ranged r) (inl (rows, same)) (inr (cold, last)) =
    inr (same ∙ cold, subst (λ xs. IsLast xs r.last_ledger) (sym rows) last)
Reports-grows s t (ranged r) (inr (newer, later)) (inr (cold, last)) =
    inl (later r.last_ledger last)
Reports-grows s t empty_db g h = tt
Reports-grows s t query_failed g h = tt
Reports-grows s t out_of_bounds g h = tt

pub Tells-grows : (s t : LedgerStore) (p : Reader) → Grows s t → Tells s p → Tells t p
Tells-grows s t calling g h = tt
Tells-grows s t (knows_latest latest time) g h = (h.0, omega (arith, h.1, grows_le s t g))
Tells-grows s t knows_nothing g h = tt
Tells-grows s t (queried latest out) g (pos, le, found) =
    (pos, omega (arith, grows_le s t g), FoundFirst-grows s t latest out le g found)
Tells-grows s t (answered out) g h = Reports-grows s t out g h
Tells-grows s t filled g h = tt

pub Each-grows :
    (s t : LedgerStore) (ps : List Reader) → Grows s t → Each (Tells s) ps → Each (Tells t) ps
Each-grows s t [] g h = tt
Each-grows s t (p ∷ ps) g h = (Tells-grows s t p g h.0, Each-grows s t ps g h.1)

pub Each-elem :
    (s : LedgerStore) (ps : List Reader) (i : ℕ) {p : Reader}
    → get_elem? ps i ≡ some p
    → Each (Tells s) ps
    → Tells s p
Each-elem s [] i e h = (let no : ⊥ = cc in absurd no)
Each-elem s (q ∷ ps) zero e h = subst (Tells s) (some_eq e) h.0
Each-elem s (q ∷ ps) (suc i) e h = Each-elem s ps i e h.1

pub Each-set :
    (s : LedgerStore) (ps : List Reader) (i : ℕ) (p : Reader)
    → Each (Tells s) ps
    → Tells s p
    → Each (Tells s) (set ps i p)
Each-set s [] i p h t = tt
Each-set s (q ∷ ps) zero p h t = (t, h.1)
Each-set s (q ∷ ps) (suc i) p h t = (h.0, Each-set s ps i p h.1 t)
