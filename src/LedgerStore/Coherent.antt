-- ===== src/LedgerStore/Coherent.antt =====
-- The cache of the table's two ends agrees with the table, through reads, commits and resets.
use stellar_rpc.Prelude.{
  ℕ, ◌≡◌, ◌≢◌, ◌⊎◌, refl, sym, ap, ap₂, true, List, [], ◌∷◌, ◌&&◌, inl, inr, ◌==◌, ==→ne,
  Bool-cases,
}
use mathlib.Core.Path.{subst}
use stellar_rpc.Window.{LedgerInfo, Timestamp}
use stellar_rpc.LedgerStore.{
  DbCache, LedgerStore, ranged, last_row, memoize, remember, get_ledger_range,
  get_ledger_range_with_cache,
}
use stellar_rpc.LedgerStore.Rows.{IsAbove, ends_of, oldest_rows_lem, without_cache_lem}

-- The cached pair is unknown, or it is the row's.
abbrev pub Knows : ℕ → Timestamp → LedgerInfo → Type 0
Knows seq time r = (seq ≡ 0) ⊎ ((seq ≡ r.sequence) × (time ≡ r.close_time))

abbrev pub Agrees : List LedgerInfo → DbCache → Type 0
Agrees [] c = (c.latest_ledger_seq ≡ 0) × (c.first_ledger_seq ≡ 0)
Agrees (r ∷ rs) c =
    Knows c.latest_ledger_seq c.latest_ledger_close_time (last_row r rs)
    × Knows c.first_ledger_seq c.first_ledger_close_time r

-- Ascending rows above sequence 0, and a cache of their two ends.
pub record IsCoherent (s : LedgerStore) : Type 0 where
  pub ascending : IsAbove 0 s.rows
  pub agrees : Agrees s.rows s.cache

-- An answer about the store that leaves its rows alone and its cache in agreement.
pub record Answers {A : Type 0} (s : LedgerStore) (expected : A) (out : LedgerStore × A)
    : Type 0 where
  pub answer : out.1 ≡ expected
  pub same_rows : out.0.rows ≡ s.rows
  pub same_window : out.0.history_retention_window ≡ s.history_retention_window
  pub coherent : IsCoherent out.0

info_eq :
    (seq : ℕ) (time : Timestamp) (r : LedgerInfo)
    → seq ≢ 0
    → Knows seq time r
    → record { sequence = seq; close_time = time } ≡ r
info_eq seq time r h (inl e) = absurd (h e)
info_eq seq time r h (inr (e, e')) = ap₂ (λ x y. record { sequence = x; close_time = y }) e e'

-- Where both ends are cached.
pub cached_lem :
    (rows : List LedgerInfo) (c : DbCache)
    → Agrees rows c
    → c.latest_ledger_seq ≢ 0
    → c.first_ledger_seq ≢ 0
    → ranged (record {
      first_ledger = record {
        sequence = c.first_ledger_seq;
        close_time = c.first_ledger_close_time;
      };
      last_ledger = record {
        sequence = c.latest_ledger_seq;
        close_time = c.latest_ledger_close_time;
      };
    })
      ≡ ends_of rows
cached_lem [] c a hl hf = absurd (hl a.0)
cached_lem (r ∷ rs) c a hl hf =
    ap₂ (λ x y. ranged (record { first_ledger = x; last_ledger = y }))
      (info_eq c.first_ledger_seq c.first_ledger_close_time r hf a.1)
      (info_eq c.latest_ledger_seq c.latest_ledger_close_time (last_row r rs) hl a.0)

-- Where the newest is.
pub with_cache_lem :
    (rows : List LedgerInfo) (c : DbCache)
    → IsAbove 0 rows
    → Agrees rows c
    → c.latest_ledger_seq ≢ 0
    → get_ledger_range_with_cache true rows c.latest_ledger_seq c.latest_ledger_close_time
      ≡ ends_of rows
unfolding get_ledger_range_with_cache
with_cache_lem [] c up a hl = absurd (hl a.0)
with_cache_lem (r ∷ rs) c up a hl =
    rw (oldest_rows_lem r rs up.1, get_ledger_range_with_cache)
      (ap (λ y. ranged (record { first_ledger = r; last_ledger = y }))
        (info_eq c.latest_ledger_seq c.latest_ledger_close_time (last_row r rs) hl a.0))

pub memoize-Agrees :
    (r : LedgerInfo) (rs : List LedgerInfo) (latest : ℕ) (c : DbCache)
    → Agrees (r ∷ rs) c
    → Agrees (r ∷ rs) (memoize latest r c)
unfolding memoize
memoize-Agrees r rs latest c a =
    elim (Bool-cases ((c.first_ledger_seq == 0) && (c.latest_ledger_seq == latest))) [
      | inl new ↦ rw (new, Agrees) (a.0, inr (refl, refl))
      | inr old ↦ rw (old, Agrees) a
    ]

remember-Answers :
    (s : LedgerStore) (rows : List LedgerInfo)
    → s.rows ≡ rows
    → IsCoherent s
    → Answers s (ends_of rows) (remember s (ends_of rows))
remember-Answers s [] e c = record {
  answer = refl;
  same_rows = refl;
  same_window = refl;
  coherent = c;
}
remember-Answers s (r ∷ rs) e c = record {
  answer = refl;
  same_rows = refl;
  same_window = refl;
  coherent = record {
    ascending = c.ascending;
    agrees =
        subst (λ x. Agrees x (memoize s.cache.latest_ledger_seq r s.cache)) (sym e)
          (memoize-Agrees r rs s.cache.latest_ledger_seq s.cache
            (subst (λ x. Agrees x s.cache) e c.agrees));
  };
}

-- `GetLedgerRange` on a coherent store returns the ends of the table, or that it is empty, whatever of
-- them is cached; the rows stay as they are and the cache in agreement. SQLite answers the query.
pub get_ledger_range-Answers :
    (s : LedgerStore) → IsCoherent s → Answers s (ends_of s.rows) (get_ledger_range true s)
unfolding get_ledger_range
get_ledger_range-Answers s c = elim (Bool-cases (s.cache.latest_ledger_seq == 0)) [
  | inl cold ↦ rw (cold) (record {
    answer = without_cache_lem s.rows c.ascending;
    same_rows = refl;
    same_window = refl;
    coherent = c;
  })
  | inr warm ↦ elim (Bool-cases (s.cache.first_ledger_seq == 0)) [
    | inr full ↦
        rw (warm, full)
          (record {
            answer = cached_lem s.rows s.cache c.agrees (==→ne _ _ warm) (==→ne _ _ full);
            same_rows = refl;
            same_window = refl;
            coherent = c;
          })
    | inl half ↦
        rw (warm, half, with_cache_lem s.rows s.cache c.ascending c.agrees (==→ne _ _ warm))
          (remember-Answers s s.rows refl c)
  ]
]
