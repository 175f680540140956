-- ===== src/Service/Range/Whole.antt =====
-- A range of ledgers is ingested as far as the context lives, or not at all.
use stellar_rpc.Prelude.{
  ℕ, zero, suc, ◌+◌, ◌-◌, ◌≤◌, ◌<◌, ◌≡◌, ◌⊎◌, refl, sym, ap, ◌∙◌, Option, none, some, List, [], ◌∷◌,
  ◌++◌, some_eq, true, inl, inr, arith, Bool-cases, u32_mod, append_assoc,
}
use mathlib.Core.Path.{subst}
use stellar_rpc.SeqRange.{SeqRange}
use stellar_rpc.Window.{LedgerInfo}
use stellar_rpc.LedgerStore.{LedgerStore, CommitError, last_row, no_checkpoint}
use stellar_rpc.LedgerStore.Rows.{IsAbove, keep_from}
use stellar_rpc.LedgerStore.Coherent.{IsCoherent}
use stellar_rpc.LedgerStore.Commit.{CommitOutcome, commit-CommitOutcome, cutoff_at}
use stellar_rpc.FeeWindow.Ingest.{LedgerCloseMeta}
use stellar_rpc.Service.{Service, ServiceError, no_tx, commit_failed, ledger_info}
use stellar_rpc.Service.Range.{
  RangeCalls, fetches, drained, drain, after_range_commit, after_drain, ingest_range,
}
use stellar_rpc.Service.Range.Appends.{
  infos, Delivers, infos-IsAbove, join_above, round_lem, Stops, done-Stops, drain-Appends,
}

-- What `ingestRange` leaves behind: the store as it was and an error, or the new ledgers, to the one at
-- `to`, on top of the ledgers held; the fee windows and the announcements as they were.
pub record RangeOutcome (s : Service) (to : ℕ) (news : List LedgerInfo)
    (out : Option (Service × Option ServiceError)) : Type 0 where
  pub after : Service
  pub error : Option ServiceError
  pub returned : out ≡ some (after, error)
  pub coherent : IsCoherent after.store
  pub fee_windows : after.fee_windows ≡ s.fee_windows
  pub ingested : after.ingested ≡ s.ingested
  pub outcome :
      ((after.store ≡ s.store) × (e : ServiceError) × (error ≡ some e))
      ⊎ ((after.store.rows
            ≡ keep_from (cutoff_at to s.store.history_retention_window) (s.store.rows ++ news))
          × ((error ≡ none) ⊎ (error ≡ some (commit_failed no_checkpoint))))

stays :
    (s : Service) (to : ℕ) (news : List LedgerInfo) (e : ServiceError)
    → IsCoherent s.store
    → RangeOutcome s to news (some (s, some e))
stays s to news e c = record {
  after = s;
  error = some e;
  returned = refl;
  coherent = c;
  fee_windows = refl;
  ingested = refl;
  outcome = inl (refl, e, refl);
}

after_commit-RangeOutcome :
    (s : Service) (end to : ℕ) (news : List LedgerInfo) (l : LedgerInfo)
    (out : LedgerStore × Option CommitError)
    → l.sequence ≡ to
    → CommitOutcome s.store (s.store.rows ++ news) l out
    → RangeOutcome s to news (some (after_range_commit end s out))
unfolding after_range_commit
after_commit-RangeOutcome s end to news l (store, none) is_to c = record {
  after = (after_range_commit end s (store, none)).0;
  error = none;
  returned = refl;
  coherent = c.coherent;
  fee_windows = refl;
  ingested = refl;
  outcome = elim c.outcome [
    | inl (same, e, failed) ↦ absurd (clash e failed)
    | inr (rows, how) ↦ inr (
      rows
          ∙ ap
              (λ x. keep_from (cutoff_at x s.store.history_retention_window) (s.store.rows ++ news))
              is_to,
      inl refl,
    )
  ];
}
  where
    clash : (e : CommitError) → ◌≡◌ {A = Option CommitError} none (some e) → ⊥
    clash e h = cc
after_commit-RangeOutcome s end to news l (store, some e) is_to c = record {
  after = record s { store = store };
  error = some (commit_failed e);
  returned = refl;
  coherent = c.coherent;
  fee_windows = refl;
  ingested = refl;
  outcome = elim c.outcome [
    | inl (same, e', failed) ↦ inl (same, commit_failed e, refl)
    | inr (rows, how) ↦ inr (
      rows
          ∙ ap
              (λ x. keep_from (cutoff_at x s.store.history_retention_window) (s.store.rows ++ news))
              is_to,
      inr (elim how [
        | inl failed ↦ absurd (clash e failed)
        | inr is_last ↦ ap (λ x. some (commit_failed x)) (some_eq is_last)
      ]),
    )
  ];
}
  where
    clash : (e : CommitError) → ◌≡◌ {A = Option CommitError} (some e) none → ⊥
    clash e h = cc

infos-last :
    (c : RangeCalls) (metas : ℕ → LedgerCloseMeta) (n seq : ℕ)
    → Delivers c metas (suc n) seq
    → (last_row (ledger_info (metas seq)) (infos metas n (seq + 1))).sequence ≡ seq + n
infos-last c metas zero seq d = omega (arith, (d seq (omega arith) (omega arith)).2)
infos-last c metas (suc n) seq d =
    omega (arith, infos-last c metas n (seq + 1) (λ at lo hi. d at (omega arith) (omega arith)))

module _ (c : RangeCalls) (s : Service) (metas : ℕ → LedgerCloseMeta)
    (coherent : IsCoherent s.store) (h0 : 0 < s.store.history_retention_window)
    (hw : s.store.history_retention_window < u32_mod) where
  after_drain-RangeOutcome :
      (n m from end : ℕ)
      → from + n + 1 < u32_mod
      → IsAbove 0 (s.store.rows ++ (ledger_info (metas from) ∷ []))
      → Delivers c metas (suc n) from
      → Stops c n m (from + 1)
      → RangeOutcome s
          (from + n)
          (infos metas (suc n) from)
          (after_drain c end s (drain (fetches c (suc m) from) s.store.rows none))
  unfolding after_drain
  after_drain-RangeOutcome n m from end fits up d stops =
      let first = ledger_info (metas from) in
      let rest = infos metas n (from + 1) in
      let same = append_assoc s.store.rows (first ∷ []) rest in
      let here = d from (omega arith) (omega arith) in
      let later : Delivers c metas n (from + 1) = λ at lo hi. d at (omega arith) (omega arith) in
      let whole_up : IsAbove 0 (s.store.rows ++ (first ∷ rest)) =
        join_above 0 s.store.rows first rest up
          (infos-IsAbove c metas n first.sequence (from + 1) (omega (arith, here.2)) later) in
      let is_last = infos-last c metas n from d in
      elim (round_lem c metas n m from s.store.rows none d up) [
        | inl (e, failed) ↦ rw (failed, after_drain) (stays s (from + n) (first ∷ rest) e coherent)
        | inr goes_on ↦
            rw (goes_on)
              (elim (drain-Appends c metas n m (from + 1) (s.store.rows ++ (first ∷ []))
                (metas from) later stops (subst (IsAbove 0) (sym same) whole_up)) [
                  | inl (e, failed) ↦
                      rw (failed, after_drain) (stays s (from + n) (first ∷ rest) e coherent)
                  | inr (last, e, is_info) ↦
                      rw (e ∙ ap (λ xs. drained xs (some last)) same, after_drain, is_info)
                        (after_commit-RangeOutcome s end (from + n) (first ∷ rest)
                          (last_row first rest) _ is_last
                          (commit-CommitOutcome s.store first rest coherent h0 hw whole_up
                            (omega arith) c.commit_calls))
                ])
      ]

  -- `ingestRange` of a range of ledgers newer than all in the table, where n of them are asked for, one at
  -- least, and then no other, since they are all or the context has ended, never panics, announces
  -- nothing and leaves the fee windows alone, and whichever of its calls fails, the backend's for any of
  -- these ledgers included, the cache agrees with the table. Either it returns an error and the store is
  -- as it was, or the table holds the retention window up to the last of the n ledgers of the ledgers
  -- before with all of these n; it does the latter too where only the checkpoint afterwards fails. So
  -- while the context is alive the range is ingested whole or not at all. Where the backend answers for
  -- a ledger it answers that ledger, the retention window is not 0, and sequences leave room for one
  -- more below 2^32.
  pub ingest_range-RangeOutcome :
      (range : SeqRange) (n : ℕ)
      → 0 < n
      → range.first + n ≤ range.last + 1
      → (range.first + n ≡ range.last + 1) ⊎ (c.done_at (range.first + n) ≡ true)
      → range.last + 1 < u32_mod
      → IsAbove 0 (s.store.rows ++ (ledger_info (metas range.first) ∷ []))
      → Delivers c metas n range.first
      → RangeOutcome s (range.first + n - 1) (infos metas n range.first) (ingest_range c range s)
  unfolding ingest_range
  ingest_range-RangeOutcome range zero some_ledger le end fits up d = absurd (omega arith)
  ingest_range-RangeOutcome range (suc n) some_ledger le end fits up d =
      let m = range.last - range.first in
      let rounds : range.last + 1 - range.first ≡ suc m = omega arith in
      let to : range.first + n ≡ range.first + suc n - 1 = omega arith in
      let stops : Stops c n m (range.first + 1) =
        done-Stops c n m (range.first + 1) (omega arith) (elim end [
          | inl all ↦ inl (omega arith)
          | inr done ↦
              let here : range.first + 1 + n ≡ range.first + suc n = omega arith in
              inr (ap c.done_at here ∙ done)
        ]) in
      elim (Bool-cases c.new_tx) [
        | inr f ↦ rw (f, ingest_range) (stays s (range.first + suc n - 1) _ no_tx coherent)
        | inl t ↦
            simp (t, ingest_range)
              (subst
                (λ k.
                  RangeOutcome s (range.first + suc n - 1) (infos metas (suc n) range.first) (
                    after_drain c range.last s (drain (fetches c k range.first) s.store.rows none)))
                (sym rounds)
                (subst
                  (λ last. RangeOutcome s last (infos metas (suc n) range.first) (
                    after_drain c range.last s
                      (drain (fetches c (suc m) range.first) s.store.rows none)))
                  to
                  (after_drain-RangeOutcome n m range.first range.last (omega arith) up d stops)))
      ]
