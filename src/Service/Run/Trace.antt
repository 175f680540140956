-- ===== src/Service/Run/Trace.antt =====
-- What a run has done, whenever it is looked at.
use stellar_rpc.Prelude.{
  ℕ, ◌+◌, ◌<◌, ◌≡◌, ◌⊎◌, refl, sym, ap, ◌∙◌, Bool, Option, none, some, List, [], ◌∷◌, ◌++◌, map,
  true, inl, inr, arith, u32, u32_mod, append-nil, append_assoc,
}
use mathlib.Core.Path.{subst}
use stellar_rpc.Window.{LedgerInfo, pos}
use stellar_rpc.LedgerStore.Rows.{keep_from}
use stellar_rpc.LedgerStore.Commit.{cutoff_at}
use stellar_rpc.FeeWindow.Ingest.{LedgerCloseMeta, Read, bucket_of}
use stellar_rpc.FeeWindow.Ingest.Laws.{soroban_fees, classic_fees}
use stellar_rpc.FeeWindow.Ingest.Lockstep.{HasRoom}
use stellar_rpc.Service.{Service, Calls, ledger_info, ingest}
use stellar_rpc.Service.Sound.{IsSound, IngestOutcome, ingest-IngestOutcome}
use stellar_rpc.Service.Run.{
  RunState, running, stopped_by, not_started, run_panicked, after_ingest, ingest_from,
}
use stellar_rpc.Service.Run.Retained.{
  IsBelow, IsBelow-mono, IsBelow-snoc, keep_from-IsBelow, above-IsBelow, below-IsAbove, Follows,
  retained, retained-cons,
}
use stellar_rpc.Service.{
  NextLedger, next_ledger, db_failed, no_root, empty_archives, not_prepared,
  get_next_ledger_sequence,
}
use stellar_rpc.LedgerStore.Latest.{get_latest_ledger_sequence-Answers}
use stellar_rpc.Service.Turn
use stellar_rpc.Service.Turn.{get_next_ledger_sequence-IsAbove}
use stellar_rpc.Service.Run.{start_at, run}

-- Each call gets no ledger, or the next one with transactions that can be read, and the fee windows
-- have room for its fees, whatever was ingested before it.
abbrev pub Supplied : List Calls → ℕ → Service → Type 0
Supplied [] seq s = Unit
Supplied (c ∷ cs) seq s =
    (c.get_ledger ≡ none)
    ⊎ ((meta : LedgerCloseMeta) × (reads : List Read) × (c.get_ledger ≡ some meta)
        × (meta.ledger_sequence ≡ seq)
        × (seq + 1 < u32_mod)
        × (meta.reader ≡ some reads)
        × HasRoom s.fee_windows.classic_fee_window (bucket_of meta (classic_fees reads))
        × HasRoom s.fee_windows.soroban_inclusion_fee_window (bucket_of meta (soroban_fees reads))
        × ((next : Service) → ingest c seq s ≡ some (next, none) → Supplied cs (seq + 1) next))

-- The service `b` after some ledgers from `seq` on: they are on top of those of `s` in the table, up to
-- the retention window, and were announced one after the other.
pub record Reached (s : Service) (seq : ℕ) (b : Service) : Type 0 where
  pub news : List LedgerInfo
  pub follows : Follows seq news
  pub rows : b.store.rows ≡ retained s.store.history_retention_window s.store.rows news
  pub ingested : b.ingested ≡ s.ingested ++ map (λ l. l.sequence) news
  pub sound : IsSound b

abbrev pub RunOutcome : Service → ℕ → RunState → Type 0
RunOutcome s seq (running b) = Reached s seq b
RunOutcome s seq (stopped_by e b) =
    (before : Service) × Reached s seq before × IsSound b × (b.ingested ≡ before.ingested)
RunOutcome s seq (not_started next b) = ⊥
RunOutcome s seq run_panicked = ⊥

nothing-Reached : (s : Service) (seq : ℕ) → IsSound s → Reached s seq s
nothing-Reached s seq v = record {
  news = [];
  follows = tt;
  rows = refl;
  ingested = sym (append-nil s.ingested);
  sound = v;
}

-- One ledger more in front.
module _ (s next : Service) (seq : ℕ) (l : LedgerInfo) (is_seq : l.sequence ≡ seq)
    (same_window : next.store.history_retention_window ≡ s.store.history_retention_window)
    (rows : next.store.rows
      ≡ keep_from
          (cutoff_at l.sequence s.store.history_retention_window)
          (s.store.rows ++ (l ∷ [])))
    (said : next.ingested ≡ s.ingested ++ (l.sequence ∷ [])) where
  cons-Reached : (b : Service) → Reached next (seq + 1) b → Reached s seq b
  cons-Reached b r = record {
    news = l ∷ r.news;
    follows = (is_seq, r.follows);
    rows =
        r.rows
        ∙ ap (λ w. retained w next.store.rows r.news) same_window
        ∙ ap (λ rs. retained s.store.history_retention_window rs r.news) rows
        ∙ retained-cons s.store.history_retention_window seq s.store.rows l r.news is_seq r.follows;
    ingested =
        r.ingested
        ∙ ap (λ xs. xs ++ map (λ l. l.sequence) r.news) said
        ∙ append_assoc s.ingested (l.sequence ∷ []) (map (λ l. l.sequence) r.news);
    sound = r.sound;
  }

  cons-RunOutcome : (end : RunState) → RunOutcome next (seq + 1) end → RunOutcome s seq end
  cons-RunOutcome (running b) r = cons-Reached b r
  cons-RunOutcome (stopped_by e b) (before, r, v, same) = (before, cons-Reached before r, v, same)
  cons-RunOutcome (not_started n b) r = elim r [ ]
  cons-RunOutcome run_panicked r = elim r [ ]

ingest_from-RunOutcome :
    (cs : List Calls) (seq : ℕ) (s : Service)
    → IsSound s
    → 0 < s.store.history_retention_window
    → s.store.history_retention_window < u32_mod
    → 0 < seq
    → IsBelow seq s.store.rows
    → Supplied cs seq s
    → RunOutcome s seq (ingest_from cs seq s)
unfolding ingest_from ingest
ingest_from-RunOutcome [] seq s v h0 hw hs below supplied = nothing-Reached s seq v
ingest_from-RunOutcome (c ∷ cs) seq s v h0 hw hs below (inl lost) =
    rw (lost, ingest_from, ingest) (s, nothing-Reached s seq v, v, refl)
ingest_from-RunOutcome (c ∷ cs) seq s v h0 hw hs below
      (inr (meta, reads, got, is_seq, fits, read, rc, rs, later)) =
    let l = ledger_info meta in
    let up =
      below-IsAbove 0 s.store.rows l (omega arith) v.store.ascending
        (subst (λ x. IsBelow x s.store.rows) (sym is_seq) below) in
    let out : IngestOutcome s meta (ingest c seq s) =
      subst (λ x. IngestOutcome s meta (ingest c x s)) is_seq
        (ingest-IngestOutcome c s meta v h0 hw up (omega arith) reads got read rc rs) in
    elim out.outcome [
      | inr (e, failed, said) ↦
          let ret = out.returned ∙ ap (λ x. some (out.after, x)) failed in
          subst (λ x. RunOutcome s seq (after_ingest x (ingest_from cs (u32 (seq + 1))))) (sym ret)
            (s, nothing-Reached s seq v, out.sound, said)
      | inl (fine, rows, turn, said) ↦
          let ret = out.returned ∙ ap (λ x. some (out.after, x)) fine in
          let no_wrap : seq + 1 ≡ u32 (seq + 1) = omega arith in
          let next_below : IsBelow (seq + 1) out.after.store.rows =
            subst (IsBelow (seq + 1)) (sym rows) (
              keep_from-IsBelow (seq + 1) (cutoff_at l.sequence s.store.history_retention_window)
                (s.store.rows ++ (l ∷ []))
                (IsBelow-snoc (seq + 1) s.store.rows l (omega arith)
                  (IsBelow-mono seq (seq + 1) s.store.rows (omega arith) below))) in
          subst (λ x. RunOutcome s seq (after_ingest x (ingest_from cs (u32 (seq + 1))))) (sym ret)
            (subst (λ x. RunOutcome s seq (ingest_from cs x out.after)) no_wrap
              (cons-RunOutcome s out.after seq l is_seq out.same_window rows said
                (ingest_from cs (seq + 1) out.after)
                (ingest_from-RunOutcome cs (seq + 1) out.after out.sound
                  (subst (λ w. 0 < w) (sym out.same_window) h0)
                  (subst (λ w. w < u32_mod) (sym out.same_window) hw) (omega arith) next_below
                  (later out.after ret))))
    ]

-- What a run makes of the ledger to start with.
abbrev pub RunsFrom : Service → NextLedger → RunState → Type 0
RunsFrom s (next_ledger seq) end = IsBelow seq s.store.rows × RunOutcome s seq end
RunsFrom s other end = (end ≡ not_started other s) × IsSound s

module _ (cs : List Calls) (s : Service) (v : IsSound s) (h0 : 0 < s.store.history_retention_window)
    (hw : s.store.history_retention_window < u32_mod) where
  start_at-RunsFrom :
      (next : NextLedger)
      → ((seq : ℕ)
          → next ≡ next_ledger seq
          → (0 < seq) × IsBelow seq s.store.rows × Supplied cs seq s)
      → RunsFrom s next (start_at cs s next)
  start_at-RunsFrom (next_ledger seq) h =
      let (positive, below, supplied) = h seq refl in
      (below, ingest_from-RunOutcome cs seq s v h0 hw positive below supplied)
  start_at-RunsFrom db_failed h = (refl, v)
  start_at-RunsFrom no_root h = (refl, v)
  start_at-RunsFrom empty_archives h = (refl, v)
  start_at-RunsFrom not_prepared h = (refl, v)

-- `run` never panics, and whenever it is looked at it either has not started, or has ingested ledgers
-- one after the other, the first newer than all in the table before. The table then holds exactly
-- the retention window up to the last of them, each of them was announced, once and in order, and
-- the cache and the fee windows are sound; so they are after the `ingest` that stops the run, which
-- announces nothing. SQLite answers the first query, the retention window is not 0, sequences leave
-- room for one more below 2^32, the backend answers the ledger it is asked for or fails, with
-- transactions that can be read, and the fee windows have room for each ledger's fees.
pub run-RunsFrom :
    (prepares : ℕ → Bool) (root : Option ℕ) (cs : List Calls) (s : Service)
    → let next = get_next_ledger_sequence true prepares root s.store in
      let start : Service = record s { store = next.0 } in
      IsSound s
      → 0 < s.store.history_retention_window
      → s.store.history_retention_window < u32_mod
      → Turn.HasRoom s.store.rows
      → ((seq : ℕ) → next.1 ≡ next_ledger seq → Supplied cs seq start)
      → RunsFrom start next.1 (run true prepares root cs s)
unfolding run
run-RunsFrom prepares root cs s v h0 hw room supplied =
    let next = get_next_ledger_sequence true prepares root s.store in
    let start : Service = record s { store = next.0 } in
    let read = get_latest_ledger_sequence-Answers s.store v.store in
    let sound : IsSound start = record {
      store = unfold get_next_ledger_sequence in read.coherent;
      fees = v.fees;
    } in
    let same_window : next.0.history_retention_window ≡ s.store.history_retention_window =
      unfold get_next_ledger_sequence in read.same_window in
    start_at-RunsFrom cs start sound (omega arith) (omega arith) next.1 (λ seq e.
      let l : LedgerInfo = record { sequence = seq; close_time = pos 0 } in
      let turn = get_next_ledger_sequence-IsAbove s.store prepares root l v.store room e in
      let (below, positive) = above-IsBelow 0 next.0.rows l turn.2 in
      (positive, below, supplied seq e))
