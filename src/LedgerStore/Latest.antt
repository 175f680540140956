-- ===== src/LedgerStore/Latest.antt =====
-- The newest ledger, from the cache or the table.
use stellar_rpc.Prelude.{
  ℕ, ◌≡◌, ◌≢◌, refl, sym, ap, true, Option, none, some, List, [], ◌∷◌, inl, inr, ltb, ◌==◌, ==→ne,
  Bool-cases,
}
use mathlib.Core.Path.{subst}
use stellar_rpc.Window.{LedgerInfo}
use stellar_rpc.LedgerStore.{
  DbCache, LedgerStore, last_row, take_latest, get_ledger_range, fill_latest,
  get_latest_ledger_sequence,
}
use stellar_rpc.LedgerStore.Rows.{ends_of}
use stellar_rpc.LedgerStore.Coherent.{IsCoherent, Answers, Agrees, get_ledger_range-Answers}

abbrev pub newest_of : List LedgerInfo → Option ℕ
newest_of [] = none
newest_of (r ∷ rs) = some (last_row r rs).sequence

known :
    (rows : List LedgerInfo) (c : DbCache)
    → Agrees rows c
    → c.latest_ledger_seq ≢ 0
    → some c.latest_ledger_seq ≡ newest_of rows
known [] c a h = absurd (h a.0)
known (r ∷ rs) c (inl e, a) h = absurd (h e)
known (r ∷ rs) c (inr (e, e'), a) h = ap some e

pub fill_latest-Agrees :
    (r : LedgerInfo) (rs : List LedgerInfo) (c : DbCache)
    → Agrees (r ∷ rs) c
    → Agrees (r ∷ rs) (fill_latest (last_row r rs) c)
unfolding fill_latest
fill_latest-Agrees r rs c a = elim (Bool-cases (ltb c.latest_ledger_seq (last_row r rs).sequence)) [
  | inl less ↦ rw (less, Agrees) (inr (refl, refl), a.1)
  | inr more ↦ rw (more, Agrees) a
]

take_latest-Answers :
    (s : LedgerStore) (rows : List LedgerInfo) (s' : LedgerStore)
    → s'.rows ≡ rows
    → s'.rows ≡ s.rows
    → s'.history_retention_window ≡ s.history_retention_window
    → IsCoherent s'
    → Answers s (newest_of rows) (take_latest (s', ends_of rows))
take_latest-Answers s [] s' e same w c = record {
  answer = refl;
  same_rows = same;
  same_window = w;
  coherent = c;
}
take_latest-Answers s (r ∷ rs) s' e same w c = record {
  answer = refl;
  same_rows = same;
  same_window = w;
  coherent = record {
    ascending = c.ascending;
    agrees =
        subst (λ x. Agrees x (fill_latest (last_row r rs) s'.cache)) (sym e)
          (fill_latest-Agrees r rs s'.cache (subst (λ x. Agrees x s'.cache) e c.agrees));
  };
}

-- `GetLatestLedgerSequence` on a coherent store returns the greatest sequence in the table, or an error
-- for an empty one; the rows stay as they are and the cache in agreement. SQLite answers the query.
pub get_latest_ledger_sequence-Answers :
    (s : LedgerStore)
    → IsCoherent s
    → Answers s (newest_of s.rows) (get_latest_ledger_sequence true s)
unfolding get_latest_ledger_sequence
get_latest_ledger_sequence-Answers s c = elim (Bool-cases (s.cache.latest_ledger_seq == 0)) [
  | inr warm ↦ rw (warm) (record {
    answer = known s.rows s.cache c.agrees (==→ne _ _ warm);
    same_rows = refl;
    same_window = refl;
    coherent = c;
  })
  | inl cold ↦
      let a = get_ledger_range-Answers s c in
      let s' = (get_ledger_range true s).0 in
      let split : take_latest (s', ends_of s.rows) ≡ take_latest (get_ledger_range true s) =
        ap (λ x. take_latest (s', x)) (sym a.answer) in
      rw (cold) (
        subst (Answers s (newest_of s.rows)) split
          (take_latest-Answers s s.rows s' a.same_rows a.same_rows a.same_window a.coherent))
]
