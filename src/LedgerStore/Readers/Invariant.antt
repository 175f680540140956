-- ===== src/LedgerStore/Readers/Invariant.antt =====
-- The cache agrees with the table through every interleaving of readers with commits.
use stellar_rpc.Prelude.{
  ℕ, zero, suc, ◌≤◌, ◌<◌, ◌≡◌, refl, sym, Bool, true, false, List, [], ◌∷◌, ◌++◌, inl, inr, arith,
  replicate, u32_mod, Each,
}
use mathlib.Core.Path.{subst}
use stellar_rpc.Window.{LedgerInfo, Timestamp}
use stellar_rpc.LedgerStore.{
  LedgerStore, Ranged, ranged, empty_db, query_failed, out_of_bounds, last_row,
  get_ledger_range_with_cache, get_ledger_range_without_cache, commit, oldest_rows,
}
use stellar_rpc.LedgerStore.Rows.{IsAbove, ends_of, oldest_rows_lem, without_cache_lem}
use stellar_rpc.LedgerStore.Coherent.{IsCoherent, Agrees}
use stellar_rpc.LedgerStore.Commit.{commit-CommitOutcome}
use stellar_rpc.LedgerStore.Readers.{
  Reader, calling, knows_latest, knows_nothing, queried, answered, cached_range, remembered, Read,
  read_both, read_latest, read_nothing, query_first, query_both, remember_first, fill, System, Step,
  reads, commits, Reach, here, next,
}
use stellar_rpc.LedgerStore.Readers.Holds.{
  IsFirst, IsLast, FoundFirst, Reports, Tells, Grows, Reports-grows, Each-grows, Each-elem,
  Each-set,
}
use stellar_rpc.LedgerStore.Readers.Writes.{
  commit-Grows, remembered-Grows, remembered-IsCoherent, fill-keeps, fill-Grows,
}

pub record IsSound (s : System) : Type 0 where
  pub coherent : IsCoherent s.store
  pub window_pos : 0 < s.store.history_retention_window
  pub window_fits : s.store.history_retention_window < u32_mod
  pub each : Each (Tells s.store) s.readers

query-FoundFirst :
    (s : LedgerStore) (answers : Bool) (latest : ℕ) (time : Timestamp) (rows : List LedgerInfo)
    → s.rows ≡ rows
    → IsAbove 0 rows
    → FoundFirst s latest (get_ledger_range_with_cache answers rows latest time)
unfolding get_ledger_range_with_cache oldest_rows
query-FoundFirst s false latest time rows e up = tt
query-FoundFirst s true latest time [] e up = tt
query-FoundFirst s true latest time (r ∷ rs) e up =
    rw (oldest_rows_lem r rs up.1, get_ledger_range_with_cache)
      (refl, λ same. subst (λ xs. IsFirst xs r) (sym e) refl)

ends-Reports :
    (s : LedgerStore) (rows : List LedgerInfo)
    → s.rows ≡ rows
    → Agrees rows s.cache
    → Reports s (ends_of rows)
ends-Reports s [] e a = tt
ends-Reports s (r ∷ rs) e (inl cold, a) =
    inr (cold, subst (λ xs. IsLast xs (last_row r rs)) (sym e) refl)
ends-Reports s (r ∷ rs) e (inr (same, time), a) = inl (omega arith)

query-Reports :
    (s : LedgerStore) (answers : Bool)
    → IsCoherent s
    → Reports s (get_ledger_range_without_cache answers s.rows)
unfolding get_ledger_range_without_cache
query-Reports s false c = tt
query-Reports s true c =
    subst (Reports s) (sym (without_cache_lem s.rows c.ascending))
      (ends-Reports s s.rows refl c.agrees)

found-Reports :
    (s : LedgerStore) (latest : ℕ) (out : Ranged)
    → latest ≤ s.cache.latest_ledger_seq
    → FoundFirst s latest out
    → Reports s out
found-Reports s latest (ranged r) le h = inl (omega (arith, h.0))
found-Reports s latest empty_db le h = tt
found-Reports s latest query_failed le h = tt
found-Reports s latest out_of_bounds le h = tt

-- What a step of one reader keeps, and what it leaves to that reader.
record Kept (s t : LedgerStore) (p : Reader) : Type 0 where
  coherent : IsCoherent t
  same_window : t.history_retention_window ≡ s.history_retention_window
  grows : Grows s t
  tells : Tells t p

stays : (s : LedgerStore) (p : Reader) → IsCoherent s → Tells s p → Kept s s p
stays s p c h = record { coherent = c; same_window = refl; grows = inl (refl, refl); tells = h }

remembered-window :
    (s : LedgerStore) (latest : ℕ) (out : Ranged)
    → (remembered s latest out).history_retention_window ≡ s.history_retention_window
remembered-window s latest (ranged r) = refl
remembered-window s latest empty_db = refl
remembered-window s latest query_failed = refl
remembered-window s latest out_of_bounds = refl

Read-Kept :
    (s t : LedgerStore) (p p' : Reader) → Read s p t p' → IsCoherent s → Tells s p → Kept s t p'
Read-Kept s t p p' (read_both h hf) c tells =
    stays s (answered (ranged (cached_range s.cache))) c (inl (omega arith))
Read-Kept s t p p' (read_latest h hf) c tells =
    stays s (knows_latest s.cache.latest_ledger_seq s.cache.latest_ledger_close_time) c
      (omega arith, omega arith)
Read-Kept s t p p' (read_nothing h) c tells = stays s knows_nothing c tt
Read-Kept s t p p' (query_first answers {latest} {time}) c tells =
    stays s (queried latest (get_ledger_range_with_cache answers s.rows latest time)) c
      (tells.0, tells.1, query-FoundFirst s answers latest time s.rows refl c.ascending)
Read-Kept s t p p' (query_both answers) c tells =
    stays s (answered (get_ledger_range_without_cache answers s.rows)) c (query-Reports s answers c)
Read-Kept s t p p' (remember_first {latest} {out}) c (pos, le, found) = record {
  coherent = remembered-IsCoherent s latest out c found;
  same_window = remembered-window s latest out;
  grows = remembered-Grows s latest out;
  tells =
      Reports-grows s (remembered s latest out) out (remembered-Grows s latest out)
        (found-Reports s latest out le found);
}
Read-Kept s t p p' (fill {r}) c tells = record {
  coherent = record {
    ascending = c.ascending;
    agrees = fill-keeps s.rows s.cache r.last_ledger c.agrees tells;
  };
  same_window = refl;
  grows = fill-Grows s r.last_ledger tells;
  tells = tt;
}

Step-IsSound : (s t : System) → Step s t → IsSound s → IsSound t
Step-IsSound s t (reads i {p} {p'} {store} at move) v =
    let kept =
      Read-Kept s.store store p p' move v.coherent (Each-elem s.store s.readers i at v.each) in
    record {
      coherent = kept.coherent;
      window_pos = subst (λ w. 0 < w) (sym kept.same_window) v.window_pos;
      window_fits = subst (λ w. w < u32_mod) (sym kept.same_window) v.window_fits;
      each =
          Each-set store s.readers i p' (Each-grows s.store store s.readers kept.grows v.each)
            kept.tells;
    }
Step-IsSound s t (commits calls l up fits) v =
    let out =
      commit-CommitOutcome s.store l [] v.coherent v.window_pos v.window_fits up fits calls in
    let after = (commit calls s.store (s.store.rows ++ (l ∷ [])) l).0 in
    record {
      coherent = out.coherent;
      window_pos = subst (λ w. 0 < w) (sym out.same_window) v.window_pos;
      window_fits = subst (λ w. w < u32_mod) (sym out.same_window) v.window_fits;
      each =
          Each-grows s.store after s.readers (commit-Grows calls s.store l v.coherent.agrees up)
            v.each;
    }

start-Each : (store : LedgerStore) (n : ℕ) → Each (Tells store) (replicate n calling)
start-Each store zero = tt
start-Each store (suc n) = (tt, start-Each store n)

Reach-IsSound :
    (store : LedgerStore) (n : ℕ) {s : System}
    → IsCoherent store
    → 0 < store.history_retention_window
    → store.history_retention_window < u32_mod
    → Reach store n s
    → IsSound s
Reach-IsSound store n c h0 hw here = record {
  coherent = c;
  window_pos = h0;
  window_fits = hw;
  each = start-Each store n;
}
Reach-IsSound store n c h0 hw (next {s} {t} r step) =
    Step-IsSound s t step (Reach-IsSound store n c h0 hw r)

-- However readers and commits of newer ledgers interleave, whichever of their calls fails, the cache
-- agrees with the table after every step: each end that it knows is the table's. The store was
-- coherent at the start, its retention window is not 0, and sequences leave room for one more
-- below 2^32.
pub Reach-IsCoherent :
    (store : LedgerStore) (n : ℕ) (s : System)
    → IsCoherent store
    → 0 < store.history_retention_window
    → store.history_retention_window < u32_mod
    → Reach store n s
    → IsCoherent s.store
Reach-IsCoherent store n s c h0 hw r = (Reach-IsSound store n c h0 hw r).coherent
