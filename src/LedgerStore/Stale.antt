-- ===== src/LedgerStore/Stale.antt =====
-- Committing a ledger older than the table, as filling backwards does: the cache keeps the old first
-- ledger.
use stellar_rpc.Prelude.{
  ℕ, ◌+◌, ◌-◌, ◌≤◌, ◌<◌, ◌≡◌, ◌≢◌, refl, sym, ap, ◌∙◌, true, List, ◌∷◌, inl, inr, arith, le→ltb,
  ne→==, Bool-cases, u32_mod,
}
use mathlib.Core.Path.{subst}
use stellar_rpc.Window.{LedgerInfo, Timestamp}
use stellar_rpc.LedgerStore.{
  DbCache, LedgerStore, last_row, advance_latest, forget_trimmed, is_trimmed, get_ledger_range,
  commit, CommitCalls,
}
use stellar_rpc.LedgerStore.Rows.{IsAbove, ends_of, last_row_above, last_row_ge, keep_from-all}
use stellar_rpc.LedgerStore.Coherent.{IsCoherent, Agrees, Knows, cached_lem}
use stellar_rpc.LedgerStore.Commit.{committed, cutoff_at, trim_ledgers_lem}

abbrev pub all_done : CommitCalls
all_done = record { flush_writers = true; trim_tables = true; tx_commit = true; post_commit = true }

-- The cache is as it was after a commit of an older ledger.
unmoved :
    (window : ℕ) (l : LedgerInfo) (c : DbCache)
    → 0 < window
    → window < u32_mod
    → l.sequence + 1 < u32_mod
    → l.sequence < c.first_ledger_seq
    → l.sequence < c.latest_ledger_seq
    → forget_trimmed l.sequence window (advance_latest l c) ≡ c
unfolding forget_trimmed advance_latest
unmoved window l c h0 hw hl hf less =
    let stays : advance_latest l c ≡ c =
      rw (le→ltb c.latest_ledger_seq l.sequence (omega arith), advance_latest) refl in
    ap (forget_trimmed l.sequence window) stays ∙ kept
  where
    kept : forget_trimmed l.sequence window c ≡ c
    kept = elim (Bool-cases (is_trimmed l.sequence window c)) [
      | inr old ↦ rw (old, forget_trimmed) refl
      | inl gone ↦ absurd (ground arith)
    ]

-- With both ends cached, the answer is what the cache agrees with.
answers_cached :
    (t : LedgerStore) (rows : List LedgerInfo)
    → Agrees rows t.cache
    → t.cache.latest_ledger_seq ≢ 0
    → t.cache.first_ledger_seq ≢ 0
    → get_ledger_range true t ≡ (t, ends_of rows)
unfolding get_ledger_range
answers_cached t rows a hl hf =
    rw (ne→== t.cache.latest_ledger_seq 0 hl, ne→== t.cache.first_ledger_seq 0 hf)
      (ap (λ x. (t, x)) (cached_lem rows t.cache a hl hf))

Knows-seq :
    (seq : ℕ) (time : Timestamp) (r : LedgerInfo) → seq ≢ 0 → Knows seq time r → seq ≡ r.sequence
Knows-seq seq time r h (inl e) = absurd (h e)
Knows-seq seq time r h (inr (e, e')) = e

-- After a successful `Commit` of a ledger older than all in the table, with both ends of the table
-- cached, the ledger is in the table, yet `GetLedgerRange` still answers the range without it. The
-- window is not 0 and sequences leave room for one more below 2^32.
pub commit_older-stale :
    (s : LedgerStore) (r : LedgerInfo) (rs : List LedgerInfo) (l : LedgerInfo)
    → s.rows ≡ r ∷ rs
    → IsCoherent s
    → s.cache.first_ledger_seq ≢ 0
    → s.cache.latest_ledger_seq ≢ 0
    → 0 < l.sequence
    → l.sequence < r.sequence
    → r.sequence + 1 < u32_mod
    → 0 < s.history_retention_window
    → s.history_retention_window < u32_mod
    → let after = (commit all_done s (l ∷ r ∷ rs) l).0 in
      (after.rows ≡ l ∷ r ∷ rs) × (get_ledger_range true after ≡ (after, ends_of (r ∷ rs)))
unfolding commit
commit_older-stale s r rs l e c hf hl l0 less hr h0 hw =
    let up = subst (IsAbove 0) e c.ascending in
    let agrees = subst (λ x. Agrees x s.cache) e c.agrees in
    let first = Knows-seq _ _ r hf agrees.1 in
    let latest = Knows-seq _ _ (last_row r rs) hl agrees.0 in
    let last_above = last_row_above 0 r rs up in
    let later : r.sequence ≤ (last_row r rs).sequence = last_row_ge r rs up.1 in
    let window = s.history_retention_window in
    let same = unmoved window l s.cache h0 hw (omega arith) (omega arith) (omega arith) in
    (
      trim_ledgers_lem l.sequence window (l ∷ r ∷ rs) (omega arith) hw (l0, (less, up.1))
          ∙ keep_from-all (cutoff_at l.sequence window) (l.sequence - 1) (l ∷ r ∷ rs) (omega arith)
              (omega arith, (less, up.1)),
      answers_cached (committed s (l ∷ r ∷ rs) l) (r ∷ rs)
          (subst (Agrees (r ∷ rs)) (sym same) agrees)
          (subst (λ x. x.latest_ledger_seq ≢ 0) (sym same) hl)
          (subst (λ x. x.first_ledger_seq ≢ 0) (sym same) hf),
    )
