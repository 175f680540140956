-- ===== src/LedgerStore/Tests.antt =====
-- The theorems on the table of ledgers and its cache, at small stores.
use stellar_rpc.Prelude.{ℕ, ◌*◌, ◌≡◌, refl, inl, inr, [], ◌∷◌, ◌++◌, arith, true}
use stellar_rpc.Window.{LedgerInfo, pos}
use stellar_rpc.LedgerStore.{LedgerStore, get_ledger_range, commit}
use stellar_rpc.LedgerStore.Rows.{IsAbove, ends_of}
use stellar_rpc.LedgerStore.Coherent.{IsCoherent, Answers, get_ledger_range-Answers}
use stellar_rpc.LedgerStore.Commit.{CommitOutcome, commit-CommitOutcome}
use stellar_rpc.LedgerStore.Stale.{all_done, commit_older-stale}
use stellar_rpc.LedgerStore.{get_ledger_range_with_cache}
use stellar_rpc.LedgerStore.Readers.{
  calling, answered, remembered, System, reads, commits, read_latest, query_first, remember_first,
  Reach, here, next,
}
use stellar_rpc.LedgerStore.Readers.Invariant.{Reach-IsCoherent}

abbrev ledger : ℕ → LedgerInfo
ledger seq = record { sequence = seq; close_time = pos (5 * seq) }

-- Three ledgers, and a cache of both ends.
abbrev warm : LedgerStore
warm = record {
  rows = ledger 10 ∷ ledger 11 ∷ ledger 12 ∷ [];
  cache = record {
    latest_ledger_seq = 12;
    latest_ledger_close_time = pos 60;
    first_ledger_seq = 10;
    first_ledger_close_time = pos 50;
  };
  history_retention_window = 3;
}

-- The newest is known only.
abbrev half : LedgerStore
half = record warm {
  cache = record {
    latest_ledger_seq = 12;
    latest_ledger_close_time = pos 60;
    first_ledger_seq = 0;
    first_ledger_close_time = pos 0;
  };
}

abbrev ascending : IsAbove 0 (ledger 10 ∷ ledger 11 ∷ ledger 12 ∷ [])
ascending = (omega arith, (omega arith, (omega arith, tt)))

warm-IsCoherent : IsCoherent warm
warm-IsCoherent = record { ascending = ascending; agrees = (inr (refl, refl), inr (refl, refl)) }

half-IsCoherent : IsCoherent half
half-IsCoherent = record { ascending = ascending; agrees = (inr (refl, refl), inl refl) }

get_ledger_range-Answers_example : Answers half (ends_of half.rows) (get_ledger_range true half)
get_ledger_range-Answers_example = get_ledger_range-Answers half half-IsCoherent

-- One ledger more: the oldest is trimmed and forgotten.
commit-CommitOutcome_example :
    CommitOutcome warm
      (ledger 10 ∷ ledger 11 ∷ ledger 12 ∷ ledger 13 ∷ [])
      (ledger 13)
      (commit all_done warm (ledger 10 ∷ ledger 11 ∷ ledger 12 ∷ ledger 13 ∷ []) (ledger 13))
commit-CommitOutcome_example =
    commit-CommitOutcome warm (ledger 13) [] warm-IsCoherent (omega arith) (omega arith)
      (omega arith, (omega arith, (omega arith, (omega arith, tt)))) (omega arith) all_done

-- Ledger 9 is committed, and the range still starts ledger 10.
commit_older-stale_example :
    let after = (commit all_done warm (ledger 9 ∷ warm.rows) (ledger 9)).0 in
    (after.rows ≡ ledger 9 ∷ warm.rows) × (get_ledger_range true after ≡ (after, ends_of warm.rows))
commit_older-stale_example =
    commit_older-stale warm (ledger 10) (ledger 11 ∷ ledger 12 ∷ []) (ledger 9) refl warm-IsCoherent
      (omega arith) (omega arith) (omega arith) (omega arith) (omega arith) (omega arith)
      (omega arith)

-- A reader finds ledger 12 cached, then ledger 13 is committed, and only then it asks for the first
-- one: it finds 11 and does not remember it.
abbrev newer : LedgerStore
newer = (commit all_done half (half.rows ++ (ledger 13 ∷ [])) (ledger 13)).0

abbrev raced : System
raced =
    let found = get_ledger_range_with_cache true newer.rows 12 (pos 60) in
    record { store = remembered newer 12 found; readers = answered found ∷ calling ∷ [] }

race : Reach half 2 raced
race =
    next
      (next
        (next (next here (reads 0 refl (read_latest (omega arith) refl))) (
          commits all_done (ledger 13)
            (omega arith, (omega arith, (omega arith, (omega arith, tt)))) (omega arith)))
        (reads 0 refl (query_first true)))
      (reads 0 refl remember_first)

Reach-IsCoherent_example : IsCoherent raced.store
Reach-IsCoherent_example =
    Reach-IsCoherent half 2 raced half-IsCoherent (omega arith) (omega arith) race
