-- ===== src/LedgerStore/Readers/Alone.antt =====
-- A reader that nothing interleaves with does what `GetLedgerRange` is modelled to do in one piece.
use stellar_rpc.Prelude.{Bool, ◌==◌, ==→eq, ==→ne, Bool-cases, inl, inr}
use stellar_rpc.LedgerStore.{
  LedgerStore, Ranged, ranged, empty_db, query_failed, out_of_bounds, get_ledger_range,
  get_ledger_range_with_cache, remember,
}
use stellar_rpc.LedgerStore.Readers.{
  Reader, calling, answered, remembered, Read, read_both, read_latest, read_nothing, query_first,
  query_both, remember_first,
}

-- Steps of one reader.
pub data Alone (s : LedgerStore) (p : Reader) : LedgerStore → Reader → Type 0 where
  here : Alone s p s p
  next : {t u : LedgerStore} {q q' : Reader} → Alone s p t q → Read t q u q' → Alone s p u q'

remembers :
    (s : LedgerStore) (out : Ranged)
    → Alone s calling (remembered s s.cache.latest_ledger_seq out) (answered out)
    → Alone s calling (remember s out).0 (answered (remember s out).1)
remembers s (ranged r) h = h
remembers s empty_db h = h
remembers s query_failed h = h
remembers s out_of_bounds h = h

pub get_ledger_range-Alone :
    (answers : Bool) (s : LedgerStore)
    → Alone s calling (get_ledger_range answers s).0 (answered (get_ledger_range answers s).1)
unfolding get_ledger_range
get_ledger_range-Alone answers s = elim (Bool-cases (s.cache.latest_ledger_seq == 0)) [
  | inl cold ↦ rw (cold) (next (next here (read_nothing (==→eq _ _ cold))) (query_both answers))
  | inr warm ↦ elim (Bool-cases (s.cache.first_ledger_seq == 0)) [
    | inr full ↦ rw (warm, full) (next here (read_both (==→ne _ _ warm) (==→ne _ _ full)))
    | inl half ↦
        rw (warm, half)
          (remembers s
            (get_ledger_range_with_cache answers s.rows s.cache.latest_ledger_seq
              s.cache.latest_ledger_close_time)
            (next
              (next (next here (read_latest (==→ne _ _ warm) (==→eq _ _ half)))
                (query_first answers))
              remember_first))
  ]
]
