-- ===== src/Service/Range/Appends.antt =====
-- What the loop of `ingestRange` makes of the ledgers that it is handed.
use stellar_rpc.Prelude.{
  ℕ, zero, suc, ◌+◌, ◌≤◌, ◌<◌, ◌≡◌, ◌⊎◌, refl, sym, ap, ◌∙◌, Option, none, some, List, [], ◌∷◌,
  ◌++◌, false, true, inl, inr, arith, Bool-cases, append-nil, append_assoc,
}
use mathlib.Core.Path.{subst}
use stellar_rpc.Window.{LedgerInfo}
use stellar_rpc.LedgerStore.{last_row}
use stellar_rpc.LedgerStore.Rows.{IsAbove, insert_ledger-last}
use stellar_rpc.FeeWindow.Ingest.{LedgerCloseMeta}
use stellar_rpc.Service.{
  Calls, ServiceError, no_ledger, transactions_not_inserted, events_not_inserted, ledger_info,
  ingest_ledger_close_meta,
}
use stellar_rpc.Service.Range.{RangeCalls, fetches, Drained, drained, stopped, drain}

-- The rows of n ledgers from `seq` on.
abbrev pub infos : (ℕ → LedgerCloseMeta) → ℕ → ℕ → List LedgerInfo
infos metas zero seq = []
infos metas (suc n) seq = ledger_info (metas seq) ∷ infos metas n (seq + 1)

-- The context is alive when each of n ledgers from `seq` on is asked for, and the backend answers with an
-- error or with that ledger.
abbrev pub Delivers : RangeCalls → (ℕ → LedgerCloseMeta) → ℕ → ℕ → Type 0
Delivers c metas n seq =
    (at : ℕ)
    → seq ≤ at
    → at < seq + n
    → (c.done_at at ≡ false)
      × (((c.of at).get_ledger ≡ none) ⊎ ((c.of at).get_ledger ≡ some (metas at)))
      × ((metas at).ledger_sequence ≡ at)

pub infos-IsAbove :
    (c : RangeCalls) (metas : ℕ → LedgerCloseMeta) (n m seq : ℕ)
    → m < seq
    → Delivers c metas n seq
    → IsAbove m (infos metas n seq)
infos-IsAbove c metas zero m seq h d = tt
infos-IsAbove c metas (suc n) m seq h d =
    let is_seq = (d seq (omega arith) (omega arith)).2 in
    (
      omega arith,
      infos-IsAbove c metas n (ledger_info (metas seq)).sequence (seq + 1) (omega arith)
          (λ at lo hi. d at (omega arith) (omega arith)),
    )

-- What the loop makes of rows that the transaction sees, `l` being the ledger before: an error, or
-- all the others behind the rows, and the last of them.
abbrev pub Appends : List LedgerInfo → LedgerInfo → List LedgerInfo → Drained → Type 0
Appends rows l news d =
    ((e : ServiceError) × (d ≡ stopped e))
    ⊎ ((meta : LedgerCloseMeta) × (d ≡ drained (rows ++ news) (some meta))
        × (ledger_info meta ≡ last_row l news))

-- The backend's error ends the loop with an error.
pub drain_no_ledger :
    (k : Calls) (ks : List Calls) (rows : List LedgerInfo) (last : Option LedgerCloseMeta)
    → k.get_ledger ≡ none
    → (e : ServiceError) × (drain (k ∷ ks) rows last ≡ stopped e)
unfolding drain
drain_no_ledger k ks rows last failed = (no_ledger, rw (failed, drain) refl)

-- One round of the loop, which ends with an error or goes on.
pub drain_step :
    (k : Calls) (ks : List Calls) (rows : List LedgerInfo) (last : Option LedgerCloseMeta)
    (meta : LedgerCloseMeta)
    → k.get_ledger ≡ some meta
    → IsAbove 0 (rows ++ (ledger_info meta ∷ []))
    → ((e : ServiceError) × (drain (k ∷ ks) rows last ≡ stopped e))
      ⊎ (drain (k ∷ ks) rows last ≡ drain ks (rows ++ (ledger_info meta ∷ [])) (some meta))
unfolding drain ingest_ledger_close_meta
drain_step k ks rows last meta got up =
    let inserted = insert_ledger-last 0 rows (ledger_info meta) up in
    elim (Bool-cases k.insert_transactions) [
      | inr f ↦
          inl
            (transactions_not_inserted, rw (got, inserted, f, drain, ingest_ledger_close_meta) refl)
      | inl t1 ↦ elim (Bool-cases k.insert_events) [
        | inr f ↦
            inl
              (events_not_inserted, rw (got, inserted, t1, f, drain, ingest_ledger_close_meta) refl)
        | inl t2 ↦ inr (rw (got, inserted, t1, t2, drain, ingest_ledger_close_meta) refl)
      ]
    ]

pub front_above :
    (m : ℕ) (rows : List LedgerInfo) (l : LedgerInfo) (more : List LedgerInfo)
    → IsAbove m (rows ++ (l ∷ more))
    → IsAbove m (rows ++ (l ∷ []))
front_above m [] l more up = (up.0, tt)
front_above m (r ∷ rows) l more up = (up.0, front_above r.sequence rows l more up.1)

pub join_above :
    (m : ℕ) (rows : List LedgerInfo) (l : LedgerInfo) (more : List LedgerInfo)
    → IsAbove m (rows ++ (l ∷ []))
    → IsAbove l.sequence more
    → IsAbove m (rows ++ (l ∷ more))
join_above m [] l more up more_up = (up.0, more_up)
join_above m (r ∷ rows) l more up more_up = (up.0, join_above r.sequence rows l more up.1 more_up)

-- What is fetched from `seq` on, one ledger at least: the next, and those behind it where it is there.
pub fetches_next :
    (c : RangeCalls) (n seq : ℕ)
    → c.done_at seq ≡ false
    → (ks : List Calls) × (fetches c (suc n) seq ≡ c.of seq ∷ ks)
      × ((meta : LedgerCloseMeta) → (c.of seq).get_ledger ≡ some meta → ks ≡ fetches c n (seq + 1))
unfolding fetches
fetches_next c n seq alive = (
  elim (c.of seq).get_ledger [ none ↦ [] | some meta ↦ fetches c n (seq + 1) ],
  rw (alive, fetches) refl,
  λ meta got. rw (got) refl,
)

-- One round of the loop of `ingestRange`: an error, or the next ledger is behind the rows.
pub round_lem :
    (c : RangeCalls) (metas : ℕ → LedgerCloseMeta) (n m seq : ℕ) (rows : List LedgerInfo)
    (last : Option LedgerCloseMeta)
    → Delivers c metas (suc n) seq
    → IsAbove 0 (rows ++ (ledger_info (metas seq) ∷ []))
    → ((e : ServiceError) × (drain (fetches c (suc m) seq) rows last ≡ stopped e))
      ⊎ (drain (fetches c (suc m) seq) rows last
          ≡ drain
              (fetches c m (seq + 1))
              (rows ++ (ledger_info (metas seq) ∷ []))
              (some (metas seq)))
round_lem c metas n m seq rows last d up =
    let (alive, answer, is_seq) = d seq (omega arith) (omega arith) in
    let (ks, fetched, goes_on) = fetches_next c m seq alive in
    let to_drain = ap (λ xs. drain xs rows last) fetched in
    elim answer [
      | inl failed ↦
          let (e, ends) = drain_no_ledger (c.of seq) ks rows last failed in inl (e, to_drain ∙ ends)
      | inr got ↦ elim (drain_step (c.of seq) ks rows last (metas seq) got up) [
        | inl (e, ends) ↦ inl (e, to_drain ∙ ends)
        | inr next ↦ inr (
            to_drain
            ∙ next
            ∙ ap (λ xs. drain xs (rows ++ (ledger_info (metas seq) ∷ [])) (some (metas seq)))
                (goes_on (metas seq) got))
      ]
    ]

-- The m rounds from `seq` on end after n ledgers: there is no other round, or the context is done.
abbrev pub Stops : RangeCalls → (n m seq : ℕ) → Type 0
Stops c zero m seq = fetches c m seq ≡ []
Stops c (suc n) zero seq = ⊥
Stops c (suc n) (suc m) seq = Stops c n m (seq + 1)

pub done-Stops :
    (c : RangeCalls) (n m seq : ℕ)
    → n ≤ m
    → (n ≡ m) ⊎ (c.done_at (seq + n) ≡ true)
    → Stops c n m seq
unfolding fetches
done-Stops c zero zero seq le end = refl
done-Stops c zero (suc m) seq le (inl all) = absurd (omega arith)
done-Stops c zero (suc m) seq le (inr done) =
    let here : seq + 0 ≡ seq = omega arith in
    let done_here : c.done_at seq ≡ true = sym (ap c.done_at here) ∙ done in
    rw (done_here, fetches) refl
done-Stops c (suc n) zero seq le end = absurd (omega arith)
done-Stops c (suc n) (suc m) seq le (inl all) =
    done-Stops c n m (seq + 1) (omega arith) (inl (omega arith))
done-Stops c (suc n) (suc m) seq le (inr done) =
    let here : seq + 1 + n ≡ seq + suc n = omega arith in
    done-Stops c n m (seq + 1) (omega arith) (inr (ap c.done_at here ∙ done))

pub drain-Appends :
    (c : RangeCalls) (metas : ℕ → LedgerCloseMeta) (n m seq : ℕ) (rows : List LedgerInfo)
    (meta : LedgerCloseMeta)
    → Delivers c metas n seq
    → Stops c n m seq
    → IsAbove 0 (rows ++ infos metas n seq)
    → Appends rows (ledger_info meta) (infos metas n seq) (drain (fetches c m seq) rows (some meta))
unfolding drain
drain-Appends c metas zero m seq rows meta d stops up = inr (
  meta,
  ap (λ ks. drain ks rows (some meta)) stops
      ∙ ap (λ xs. drained xs (some meta)) (sym (append-nil rows)),
  refl,
)
drain-Appends c metas (suc n) zero seq rows meta d stops up = elim stops [ ]
drain-Appends c metas (suc n) (suc m) seq rows meta d stops up =
    let next = ledger_info (metas seq) in
    let rest = infos metas n (seq + 1) in
    let same = append_assoc rows (next ∷ []) rest in
    let later =
      drain-Appends c metas n m (seq + 1) (rows ++ (next ∷ [])) (metas seq)
        (λ at lo hi. d at (omega arith) (omega arith)) stops (subst (IsAbove 0) (sym same) up) in
    elim (round_lem c metas n m seq rows (some meta) d (front_above 0 rows next rest up)) [
      | inl failed ↦ inl failed
      | inr goes_on ↦ elim later [
        | inl (e, ends) ↦ inl (e, goes_on ∙ ends)
        | inr (last, e, is_last) ↦
            inr (last, goes_on ∙ e ∙ ap (λ xs. drained xs (some last)) same, is_last)
      ]
    ]
