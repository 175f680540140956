-- ===== src/LedgerStore/Insert.antt =====
-- Inserting a ledger and looking one up.
use stellar_rpc.Prelude.{
  ℕ, ◌<◌, ◌≡◌, refl, ap, false, Option, none, some, List, [], ◌∷◌, inl, inr, arith, ltb, ◌==◌,
  ==→eq, ==→ne, ne→==, ltb→lt, ltb→le, Bool-cases, Option-cases, some_eq, if◌then◌else◌,
}
use mathlib.Core.Path.{subst}
use stellar_rpc.Window.{LedgerInfo}
use stellar_rpc.LedgerStore.{insert_ledger, select, get_ledger, found, lookup}
use stellar_rpc.LedgerStore.Rows.{IsAbove, select_none}

-- The rows of one sequence.
abbrev pub of_seq : ℕ → List LedgerInfo → List LedgerInfo
of_seq seq = select (λ x. x.sequence == seq)

-- What an insertion that succeeds makes of a table.
abbrev pub Inserted : ℕ → LedgerInfo → List LedgerInfo → List LedgerInfo → Type 0
Inserted n l rows rows' =
    IsAbove n rows'
    × ((seq : ℕ) → of_seq seq rows' ≡ (if l.sequence == seq then l ∷ [] else of_seq seq rows))

first-Inserted :
    (n : ℕ) (l : LedgerInfo) (rows : List LedgerInfo)
    → n < l.sequence
    → IsAbove l.sequence rows
    → Inserted n l rows (l ∷ rows)
unfolding select
first-Inserted n l rows h up = (
  (h, up),
  λ seq. elim (Bool-cases (l.sequence == seq)) [
    | inr other ↦ rw (other) refl
    | inl same ↦
        rw (same)
          (ap (λ xs. l ∷ xs) (select_none seq l.sequence rows (omega (arith, ==→eq _ _ same)) up))
  ],
)

behind-Inserted :
    (n : ℕ) (l r : LedgerInfo) (rs rs' : List LedgerInfo)
    → n < r.sequence
    → r.sequence < l.sequence
    → Inserted r.sequence l rs rs'
    → Inserted n l (r ∷ rs) (r ∷ rs')
unfolding select
behind-Inserted n l r rs rs' h later (up, look) = (
  (h, up),
  λ seq. elim (Bool-cases (r.sequence == seq)) [
    | inl same ↦
        let other : (l.sequence == seq) ≡ false = ne→== _ _ (omega (arith, ==→eq _ _ same)) in
        rw (same, other) (ap (λ xs. r ∷ xs) (rw (look seq, other) refl))
    | inr other ↦ rw (other) (look seq)
  ],
)

clash : {rows : List LedgerInfo} → ◌≡◌ {A = Option (List LedgerInfo)} none (some rows) → ⊥
clash e = cc

insert_ledger-Inserted :
    (n : ℕ) (l : LedgerInfo) (rows rows' : List LedgerInfo)
    → n < l.sequence
    → IsAbove n rows
    → insert_ledger l rows ≡ some rows'
    → Inserted n l rows rows'
unfolding insert_ledger
insert_ledger-Inserted n l [] rows' h up e =
    subst (Inserted n l []) (some_eq e) (first-Inserted n l [] h tt)
insert_ledger-Inserted n l (r ∷ rs) rows' h up e = elim (Bool-cases (l.sequence == r.sequence)) [
  | inl same ↦ absurd (clash {rows = rows'} (rw (same, insert_ledger) at e))
  | inr other ↦ elim (Bool-cases (ltb l.sequence r.sequence)) [
    | inl before ↦
        subst (Inserted n l (r ∷ rs)) (some_eq (rw (other, before, insert_ledger) at e))
          (first-Inserted n l (r ∷ rs) h (ltb→lt _ _ before, up.1))
    | inr after ↦ elim (Option-cases (insert_ledger l rs)) [
      | inl taken ↦ absurd (clash {rows = rows'} (rw (other, after, taken, insert_ledger) at e))
      | inr (rs', done) ↦
          let later : r.sequence < l.sequence = omega (arith, ltb→le _ _ after, ==→ne _ _ other) in
          subst (Inserted n l (r ∷ rs)) (some_eq (rw (other, after, done, insert_ledger) at e)) (
            behind-Inserted n l r rs rs' up.0 later
              (insert_ledger-Inserted r.sequence l rs rs' later up.1 done))
    ]
  ]
]

-- `InsertLedger` into a table in ascending order, where it succeeds, keeps the order and has this effect on
-- every lookup by `getLedgerFromDB`: the ledger inserted is found under its sequence, and every other
-- sequence is answered as before.
pub insert_ledger-get_ledger :
    (l : LedgerInfo) (rows rows' : List LedgerInfo)
    → 0 < l.sequence
    → IsAbove 0 rows
    → insert_ledger l rows ≡ some rows'
    → IsAbove 0 rows'
      × ((seq : ℕ)
          → get_ledger rows' seq ≡ (if l.sequence == seq then found l else get_ledger rows seq))
unfolding get_ledger
insert_ledger-get_ledger l rows rows' h up e =
    let (above, look) = insert_ledger-Inserted 0 l rows rows' h up e in
    (
      above,
      λ seq. elim (Bool-cases (l.sequence == seq)) [
        | inl same ↦
            let one : of_seq seq rows' ≡ l ∷ [] = rw (look seq, same) refl in
            rw (same) (ap lookup one)
        | inr other ↦
            let old : of_seq seq rows' ≡ of_seq seq rows = rw (look seq, other) refl in
            rw (other) (ap lookup old)
      ],
    )
