-- ===== src/LedgerStore/Commit.antt =====
-- Committing newer ledgers: trimming to the retention window and keeping the cache in agreement.
use stellar_rpc.Prelude.{
  ℕ, ◌+◌, ◌-◌, ◌≤◌, ◌<◌, ◌≡◌, ◌≢◌, ◌⊎◌, refl, sym, ap, ◌∙◌, true, false, Option, none, some, List,
  [], ◌∷◌, ◌++◌, inl, inr, arith, leb, ◌==◌, leb→le, leb→lt, lt→ltb, ne→==, ==→eq, ==→ne,
  Bool-cases, u32, u32_mod, sub32,
}
use mathlib.Core.Path.{subst}
use stellar_rpc.Window.{LedgerInfo}
use stellar_rpc.LedgerStore.{
  DbCache, LedgerStore, last_row, trim_ledgers, advance_latest, forget_trimmed, is_trimmed, commit,
  CommitCalls, CommitError, not_flushed, not_trimmed, not_committed, no_checkpoint,
}
use stellar_rpc.LedgerStore.Rows.{IsAbove, last_row_above, keep_from, keep_from-all, keep_from_lem}
use stellar_rpc.LedgerStore.Coherent.{IsCoherent, Agrees, Knows}

-- The first sequence that a retention window keeps at its newest ledger.
abbrev pub cutoff_at : ℕ → ℕ → ℕ
cutoff_at seq window = seq + 1 - window

pub trim_ledgers_lem :
    (seq window : ℕ) (rows : List LedgerInfo)
    → seq + 1 < u32_mod
    → window < u32_mod
    → IsAbove 0 rows
    → trim_ledgers seq window rows ≡ keep_from (cutoff_at seq window) rows
unfolding trim_ledgers
trim_ledgers_lem seq window rows h hw up = elim (Bool-cases (leb (u32 (seq + 1)) window)) [
  | inl inside ↦
      let le = leb→le _ _ inside in
      rw (inside) (sym (keep_from-all (cutoff_at seq window) 0 rows (omega arith) up))
  | inr beyond ↦
      let lt = leb→lt _ _ beyond in
      let same : sub32 (u32 (seq + 1)) window ≡ cutoff_at seq window = omega arith in
      rw (beyond, same) refl
]

trimmed_if :
    (seq window : ℕ) (c : DbCache)
    → seq + 1 < u32_mod
    → 0 < window
    → c.first_ledger_seq ≢ 0
    → c.first_ledger_seq < cutoff_at seq window
    → is_trimmed seq window c ≡ true
trimmed_if seq window c h h0 hf lt =
    rw
      (
        ne→== window 0 (omega arith),
        lt→ltb window (u32 (seq + 1)) (omega arith),
        ne→== c.first_ledger_seq 0 hf,
        lt→ltb c.first_ledger_seq (sub32 (u32 (seq + 1)) window) (omega arith),
      )
      refl

not_both : true ≡ false → ⊥
not_both e = cc

-- The first row after trimming, where it is another one, is one that the cache has forgotten.
forgets :
    (seq window : ℕ) (c : DbCache) (old r : LedgerInfo)
    → seq + 1 < u32_mod
    → 0 < window
    → Knows c.first_ledger_seq c.first_ledger_close_time old
    → (old ≡ r) ⊎ (old.sequence < cutoff_at seq window)
    → Knows
        (forget_trimmed seq window c).first_ledger_seq
        (forget_trimmed seq window c).first_ledger_close_time
        r
unfolding forget_trimmed
forgets seq window c old r h h0 k d = elim (Bool-cases (is_trimmed seq window c)) [
  | inl gone ↦ rw (gone, forget_trimmed, Knows) (inl refl)
  | inr kept ↦ rw (kept, forget_trimmed, Knows) (stays k d kept)
]
  where
    stays :
        Knows c.first_ledger_seq c.first_ledger_close_time old
        → (old ≡ r) ⊎ (old.sequence < cutoff_at seq window)
        → is_trimmed seq window c ≡ false
        → Knows c.first_ledger_seq c.first_ledger_close_time r
    stays (inl e) d kept = inl e
    stays (inr k) (inl same) kept =
        inr (k.0 ∙ ap (λ x. x.sequence) same, k.1 ∙ ap (λ x. x.close_time) same)
    stays (inr k) (inr lt) kept = elim (Bool-cases (c.first_ledger_seq == 0)) [
      | inl z ↦ inl (==→eq _ _ z)
      | inr n ↦
          let trimmed = trimmed_if seq window c h h0 (==→ne _ _ n) (omega (arith, k.0, lt)) in
          absurd (not_both (sym trimmed ∙ kept))
    ]

forget_trimmed_latest :
    (seq window : ℕ) (c : DbCache) (r : LedgerInfo)
    → Knows c.latest_ledger_seq c.latest_ledger_close_time r
    → Knows
        (forget_trimmed seq window c).latest_ledger_seq
        (forget_trimmed seq window c).latest_ledger_close_time
        r
unfolding forget_trimmed
forget_trimmed_latest seq window c r k = elim (Bool-cases (is_trimmed seq window c)) [
  | inl gone ↦ rw (gone, Knows, forget_trimmed) k
  | inr kept ↦ rw (kept, Knows, forget_trimmed) k
]

pub advance_latest_lem :
    (l : LedgerInfo) (c : DbCache)
    → c.latest_ledger_seq < l.sequence
    → advance_latest l c
      ≡ record c { latest_ledger_seq = l.sequence; latest_ledger_close_time = l.close_time }
unfolding advance_latest
advance_latest_lem l c h = rw (lt→ltb _ _ h) refl

-- What the cache knows of the first row of a table, none included.
abbrev KnowsFirst : DbCache → List LedgerInfo → Type 0
KnowsFirst c [] = c.first_ledger_seq ≡ 0
KnowsFirst c (r ∷ rs) = Knows c.first_ledger_seq c.first_ledger_close_time r

first_of_longer :
    (rows : List LedgerInfo) (c : DbCache) (n : LedgerInfo) (news : List LedgerInfo)
    → Agrees rows c
    → KnowsFirst c (rows ++ (n ∷ news))
first_of_longer [] c n news a = inl a.1
first_of_longer (r ∷ rs) c n news a = a.1

pub last_before :
    (m : ℕ) (r : LedgerInfo) (rs : List LedgerInfo) (n : LedgerInfo) (news : List LedgerInfo)
    → IsAbove m (r ∷ (rs ++ (n ∷ news)))
    → (last_row r rs).sequence < (last_row n news).sequence
last_before m r [] n news up = last_row_above r.sequence n news up.1
last_before m r (x ∷ rs) n news up = last_before r.sequence x rs n news up.1

pub latest_below :
    (m : ℕ) (rows : List LedgerInfo) (c : DbCache) (n : LedgerInfo) (news : List LedgerInfo)
    → Agrees rows c
    → IsAbove m (rows ++ (n ∷ news))
    → c.latest_ledger_seq < (last_row n news).sequence
latest_below m [] c n news a up = omega (arith, a.0, last_row_above m n news up)
latest_below m (r ∷ rs) c n news (inl e, a) up = omega (arith, last_before m r rs n news up)
latest_below m (r ∷ rs) c n news (inr (e, e'), a) up = omega (arith, last_before m r rs n news up)

head_or : LedgerInfo → List LedgerInfo → LedgerInfo
head_or d [] = d
head_or d (r ∷ rs) = r

keep_from_first :
    (cutoff : ℕ) (old r : LedgerInfo) (rs rs' : List LedgerInfo)
    → IsAbove 0 (old ∷ rs)
    → keep_from cutoff (old ∷ rs) ≡ r ∷ rs'
    → (old ≡ r) ⊎ (old.sequence < cutoff)
unfolding head_or
keep_from_first cutoff old r rs rs' up e = elim (Bool-cases (leb cutoff old.sequence)) [
  | inr gone ↦ inr (leb→lt _ _ gone)
  | inl kept ↦
      let le : cutoff ≤ old.sequence = leb→le _ _ kept in
      inl (
        ap (head_or old) (
          sym (
            keep_from-all cutoff (old.sequence - 1) (old ∷ rs) (omega arith)
              (omega (arith, up.0), up.1))
          ∙ e))
]

starts_with :
    (rows : List LedgerInfo) (n : LedgerInfo) (news : List LedgerInfo)
    → (o : LedgerInfo) × (rest : List LedgerInfo) × (rows ++ (n ∷ news) ≡ o ∷ rest)
      × (last_row o rest ≡ last_row n news)
starts_with [] n news = (n, news, refl, refl)
starts_with (r ∷ rows) n news =
    let (o, rest, e, l) = starts_with rows n news in
    (r, rows ++ (n ∷ news), refl, ap (last_row r) e ∙ l)

-- The store after a commit that reached the database.
abbrev pub committed : LedgerStore → List LedgerInfo → LedgerInfo → LedgerStore
committed s tx_rows l = record s {
  rows = trim_ledgers l.sequence s.history_retention_window tx_rows;
  cache = forget_trimmed l.sequence s.history_retention_window (advance_latest l s.cache);
}

-- Trimming at the newest ledger `l`, and the cache that knows it.
after-Agrees :
    (window : ℕ) (c : DbCache) (l o : LedgerInfo) (rest : List LedgerInfo)
    → 0 < window
    → l.sequence + 1 < u32_mod
    → c.latest_ledger_seq < l.sequence
    → IsAbove 0 (o ∷ rest)
    → Knows c.first_ledger_seq c.first_ledger_close_time o
    → last_row o rest ≡ l
    → IsAbove 0 (keep_from (cutoff_at l.sequence window) (o ∷ rest))
      × Agrees
          (keep_from (cutoff_at l.sequence window) (o ∷ rest))
          (forget_trimmed l.sequence window (advance_latest l c))
after-Agrees window c l o rest h0 hl less up k e =
    let cutoff = cutoff_at l.sequence window in
    let reaches : cutoff ≤ (last_row o rest).sequence = omega (arith, ap (λ x. x.sequence) e) in
    let (r, rs, kept, same_last, above, ge) = keep_from_lem cutoff 0 o rest up reaches in
    let c' = record c { latest_ledger_seq = l.sequence; latest_ledger_close_time = l.close_time } in
    let first =
      forgets l.sequence window c' o r hl h0 k (keep_from_first cutoff o r rest rs up kept) in
    let latest =
      forget_trimmed_latest l.sequence window c' (last_row r rs)
        (subst (λ x. Knows l.sequence l.close_time x) (sym (same_last ∙ e)) (inr (refl, refl))) in
    (
      subst (IsAbove 0) (sym kept) above,
      subst (λ x. Agrees (keep_from cutoff (o ∷ rest)) (forget_trimmed l.sequence window x))
          (sym (advance_latest_lem l c less))
          (subst (λ x. Agrees x (forget_trimmed l.sequence window c')) (sym kept) (latest, first)),
    )

-- What `Commit` leaves behind, whichever of its calls fails.
pub record CommitOutcome (s : LedgerStore) (tx_rows : List LedgerInfo) (l : LedgerInfo)
    (out : LedgerStore × Option CommitError) : Type 0 where
  pub coherent : IsCoherent out.0
  pub same_window : out.0.history_retention_window ≡ s.history_retention_window
  pub outcome :
      ((out.0 ≡ s) × (e : CommitError) × (out.1 ≡ some e))
      ⊎ ((out.0.rows ≡ keep_from (cutoff_at l.sequence s.history_retention_window) tx_rows)
          × ((out.1 ≡ none) ⊎ (out.1 ≡ some no_checkpoint)))

module _ (s : LedgerStore) (n : LedgerInfo) (news : List LedgerInfo) (c : IsCoherent s)
    (h0 : 0 < s.history_retention_window) (hw : s.history_retention_window < u32_mod)
    (up : IsAbove 0 (s.rows ++ (n ∷ news))) (hl : (last_row n news).sequence + 1 < u32_mod) where
  committed-IsCoherent : IsCoherent (committed s (s.rows ++ (n ∷ news)) (last_row n news))
  committed-IsCoherent =
      let (o, rest, e, l) = starts_with s.rows n news in
      let both =
        after-Agrees s.history_retention_window s.cache (last_row n news) o rest h0 hl
          (latest_below 0 s.rows s.cache n news c.agrees up) (subst (IsAbove 0) e up)
          (subst (KnowsFirst s.cache) e (first_of_longer s.rows s.cache n news c.agrees)) l in
      let trims =
        trim_ledgers_lem (last_row n news).sequence s.history_retention_window
          (s.rows ++ (n ∷ news)) hl hw up in
      let split =
        trims
        ∙ ap (keep_from (cutoff_at (last_row n news).sequence s.history_retention_window)) e in
      record {
        ascending = subst (IsAbove 0) (sym split) both.0;
        agrees =
            subst (λ x. Agrees x (committed s (s.rows ++ (n ∷ news)) (last_row n news)).cache)
              (sym split) both.1;
      }

  -- `Commit` of ledgers newer than all in the table, on a coherent store, either fails and changes
  -- nothing or leaves exactly the ledgers of the retention window up to the newest, and the cache in
  -- agreement with them; it does the latter too where only the checkpoint afterwards fails. The
  -- window is not 0 and sequences leave room for one more below 2^32.
  pub commit-CommitOutcome :
      (calls : CommitCalls)
      → CommitOutcome s
          (s.rows ++ (n ∷ news))
          (last_row n news)
          (commit calls s (s.rows ++ (n ∷ news)) (last_row n news))
  unfolding commit
  commit-CommitOutcome calls = elim (Bool-cases calls.flush_writers) [
    | inr f ↦
        rw (f)
          (record { coherent = c; same_window = refl; outcome = inl (refl, not_flushed, refl) })
    | inl t1 ↦ elim (Bool-cases calls.trim_tables) [
      | inr f ↦
          rw (t1, f)
            (record { coherent = c; same_window = refl; outcome = inl (refl, not_trimmed, refl) })
      | inl t2 ↦ elim (Bool-cases calls.tx_commit) [
        | inr f ↦
            rw (t1, t2, f)
              (record {
                coherent = c;
                same_window = refl;
                outcome = inl (refl, not_committed, refl);
              })
        | inl t3 ↦
            let trims =
              trim_ledgers_lem (last_row n news).sequence s.history_retention_window
                (s.rows ++ (n ∷ news)) hl hw up in
            elim (Bool-cases calls.post_commit) [
              | inr f ↦
                  rw (t1, t2, t3, f)
                    (record {
                      coherent = committed-IsCoherent;
                      same_window = refl;
                      outcome = inr (trims, inr refl);
                    })
              | inl t4 ↦
                  rw (t1, t2, t3, t4)
                    (record {
                      coherent = committed-IsCoherent;
                      same_window = refl;
                      outcome = inr (trims, inl refl);
                    })
            ]
      ]
    ]
  ]
