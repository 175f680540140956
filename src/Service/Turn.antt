-- ===== src/Service/Turn.antt =====
-- The ledger that `run` starts with is in turn.
use stellar_rpc.Prelude.{
  ℕ, ◌+◌, ◌<◌, ◌≡◌, sym, ap, ◌∙◌, Bool, true, Option, none, some, List, [], ◌∷◌, ◌++◌, inl, inr,
  arith, Bool-cases, u32, u32_mod, ◌==◌, ==→ne,
}
use mathlib.Core.Path.{subst}
use stellar_rpc.Window.{LedgerInfo}
use stellar_rpc.LedgerStore.{LedgerStore, last_row}
use stellar_rpc.LedgerStore.Rows.{IsAbove}
use stellar_rpc.LedgerStore.Coherent.{IsCoherent}
use stellar_rpc.LedgerStore.Latest.{newest_of, get_latest_ledger_sequence-Answers}
use stellar_rpc.Service.{
  NextLedger, next_ledger, empty_archives, not_prepared, no_root, prepared, from_archive,
  next_after, get_next_ledger_sequence,
}

-- The sequence that is taken, if any.
abbrev chosen : NextLedger → ℕ
chosen (next_ledger n) = n
chosen _ = 0

prepared_lem : (prepares : ℕ → Bool) (seq n : ℕ) → prepared prepares seq ≡ next_ledger n → seq ≡ n
prepared_lem prepares seq n e = elim (Bool-cases (prepares seq)) [
  | inl done ↦ ap chosen (rw (done) at e)
  | inr failed ↦ absurd (clash (rw (failed) at e))
]
  where
    clash : not_prepared ≡ next_ledger n → ⊥
    clash e = cc

archive_lem :
    (prepares : ℕ → Bool) (root : Option ℕ) (n : ℕ)
    → from_archive prepares root ≡ next_ledger n
    → 0 < n
archive_lem prepares none n e = absurd (clash e)
  where
    clash : no_root ≡ next_ledger n → ⊥
    clash e = cc
archive_lem prepares (some current) n e = elim (Bool-cases (current == 0)) [
  | inl z ↦ absurd (clash (rw (z) at e))
  | inr more ↦
      let same = prepared_lem prepares current n (rw (more) at e) in omega (arith, ==→ne _ _ more)
]
  where
    clash : empty_archives ≡ next_ledger n → ⊥
    clash e = cc

above-snoc :
    (m : ℕ) (r : LedgerInfo) (rs : List LedgerInfo) (l : LedgerInfo)
    → IsAbove m (r ∷ rs)
    → (last_row r rs).sequence < l.sequence
    → IsAbove m (r ∷ (rs ++ (l ∷ [])))
above-snoc m r [] l up h = (up.0, (h, tt))
above-snoc m r (x ∷ rs) l up h = (up.0, above-snoc r.sequence x rs l up.1 h)

-- The newest sequence leaves room for one more below 2^32.
abbrev pub HasRoom : List LedgerInfo → Type 0
HasRoom [] = Unit
HasRoom (r ∷ rs) = (last_row r rs).sequence + 1 < u32_mod

in_turn :
    (rows : List LedgerInfo) (prepares : ℕ → Bool) (root : Option ℕ) (l : LedgerInfo)
    → IsAbove 0 rows
    → HasRoom rows
    → next_after true prepares root (newest_of rows) ≡ next_ledger l.sequence
    → IsAbove 0 (rows ++ (l ∷ []))
in_turn [] prepares root l up h e = (archive_lem prepares root l.sequence e, tt)
in_turn (r ∷ rs) prepares root l up h e =
    let same = prepared_lem prepares (u32 ((last_row r rs).sequence + 1)) l.sequence e in
    above-snoc 0 r rs l up (omega arith)

-- The ledger that `getNextLedgerSequence` names on a coherent store is newer than all in the table, so
-- that ingesting it is in order; the store stays coherent and its rows as they are. SQLite answers
-- the query and the newest sequence leaves room for one more below 2^32.
pub get_next_ledger_sequence-IsAbove :
    (s : LedgerStore) (prepares : ℕ → Bool) (root : Option ℕ) (l : LedgerInfo)
    → IsCoherent s
    → HasRoom s.rows
    → (get_next_ledger_sequence true prepares root s).1 ≡ next_ledger l.sequence
    → let after = (get_next_ledger_sequence true prepares root s).0 in
      IsCoherent after × (after.rows ≡ s.rows) × IsAbove 0 (after.rows ++ (l ∷ []))
unfolding get_next_ledger_sequence
get_next_ledger_sequence-IsAbove s prepares root l c h e =
    let a = get_latest_ledger_sequence-Answers s c in
    (
      a.coherent,
      a.same_rows,
      subst (λ rows. IsAbove 0 (rows ++ (l ∷ []))) (sym a.same_rows)
          (in_turn s.rows prepares root l c.ascending h
            (sym (ap (next_after true prepares root) a.answer) ∙ e)),
    )
