-- ===== src/Backfill/Bounds.antt =====
-- What `setBounds` plans to fill, against the retention window and the ledgers already held.
use stellar_rpc.Prelude.{
  ℕ, ◌+◌, ◌≤◌, ◌<◌, ◌≡◌, refl, ◌⊎◌, true, false, some, inl, inr, arith, leb, ltb, leb→le, leb→lt,
  ltb→lt, ltb→le, Bool-cases, u32, u32_mod, ap, sym, not, min,
}
use mathlib.Core.Path.{subst}
use stellar_rpc.SeqRange.{is_empty}
use stellar_rpc.Backfill.{
  Outside, DatabaseInfo, tip_behind_database, Planned, planned, refused, range, fill_start_min,
  plan, set_bounds, need_backfill_phase,
}

-- `start` is where the latest n ledgers up to `tip` begin, cut at the datastore's oldest ledger.
abbrev pub IsWindowStart : ℕ → ℕ → ℕ → ℕ → Type 0
IsWindowStart tip n oldest start =
    (oldest ≤ start) × (tip < start + n) × ((start ≡ oldest) ⊎ (start + n ≡ tip + 1))

-- The ledgers of a database that is not empty: no ledger 0, and room for one more.
abbrev pub IsHeld : DatabaseInfo → Type 0
IsHeld db =
    (0 < db.sequences.first)
    × (db.sequences.first ≤ db.sequences.last)
    × (db.sequences.last + 1 < u32_mod)

-- A plan that fills the window from `start` on and leaves no gap beside the ledgers of the database.
abbrev pub Fits : DatabaseInfo → ℕ → ℕ → ℕ → Planned → Type 0
Fits db tip n start (planned b) =
    (b.n_backfill ≡ n)
    × (((db.is_new_db ≡ true) × (need_backfill_phase b ≡ false) × (b.frontfill.first ≡ start))
        ⊎ ((db.is_new_db ≡ false)
            × (b.frontfill.first ≡ db.sequences.last + 1)
            × (need_backfill_phase b ≡ false)
            × (db.sequences.first ≤ start))
        ⊎ ((db.is_new_db ≡ false)
            × (b.frontfill.first ≡ db.sequences.last + 1)
            × (need_backfill_phase b ≡ true)
            × (b.backfill.first ≡ start)
            × (start ≤ b.backfill.last)
            × (b.backfill.last + 1 ≡ db.sequences.first)
            × (db.sequences.first ≤ tip)))
Fits db tip n start (refused e) =
    (e ≡ tip_behind_database)
    × (db.is_new_db ≡ false)
    × (start < db.sequences.first)
    × (tip < db.sequences.first)

fill_start_min-IsWindowStart :
    (tip n oldest : ℕ)
    → n ≤ tip
    → 0 < oldest
    → tip + 1 < u32_mod
    → IsWindowStart tip n oldest (fill_start_min tip n oldest)
unfolding fill_start_min
fill_start_min-IsWindowStart tip n oldest h h0 ht = elim (Bool-cases (leb (u32 (n + 1)) tip)) [
  | inl far ↦ let le = leb→le _ _ far in rw (far) (omega arith, omega arith, omega arith)
  | inr near ↦ let gt = leb→lt _ _ near in rw (near) (omega arith, omega arith, inl refl)
]

not_empty : (l r : ℕ) → 0 < l → is_empty (range l r) ≡ false
unfolding is_empty
not_empty l r h = ground arith

plan-Fits :
    (db : DatabaseInfo) (tip n start : ℕ)
    → 0 < start
    → (db.is_new_db ≡ false → IsHeld db)
    → Fits db tip n start (plan db tip n start)
unfolding plan need_backfill_phase is_empty
plan-Fits db tip n start h0 held = elim (Bool-cases db.is_new_db) [
  | inl new ↦ rw (new, Fits) (refl, inl (new, refl, refl))
  | inr old ↦
      let is_held = held old in
      rw (old, Fits)
        (elim (Bool-cases (leb db.sequences.first start)) [
          | inl covered ↦
              rw (covered, Fits) (refl, inr (inl (old, omega arith, refl, leb→le _ _ covered)))
          | inr short ↦
              rw (short, Fits)
                (let lt = leb→lt _ _ short in
                  elim (Bool-cases (ltb tip db.sequences.first)) [
                    | inl behind ↦ rw (behind, Fits) (refl, old, lt, ltb→lt _ _ behind)
                    | inr ahead ↦
                        rw (ahead, Fits)
                          (
                            refl,
                            inr (
                                inr (
                                  old,
                                  omega arith,
                                  ap not (not_empty start _ h0),
                                  refl,
                                  omega arith,
                                  omega arith,
                                  ltb→le _ _ ahead,
                                )),
                          )
                  ])
        ])
]

-- `setBounds` plans for the latest n ledgers, n being the smaller of the retention window and the tip:
-- for a new database it fills forwards from the start of that window, which is never before the
-- datastore's oldest ledger; otherwise it fills forwards from directly above the ledgers held and,
-- where these do not reach back to the start of the window, backwards from directly below them to
-- that start. It refuses only a datastore whose tip is below the ledgers held. Sequences start
-- at 1 and leave room for one more below 2^32.
pub set_bounds-Fits :
    (o : Outside) (db : DatabaseInfo) (oldest retention_window tip : ℕ)
    → 0 < oldest
    → tip + 1 < u32_mod
    → (db.is_new_db ≡ false → IsHeld db)
    → o.tip 0 ≡ some tip
    → (start : ℕ) × IsWindowStart tip (min retention_window tip) oldest start
      × Fits db tip (min retention_window tip) start (set_bounds o db oldest retention_window)
unfolding set_bounds
set_bounds-Fits o db oldest retention_window tip h0 ht held e =
    let n = min retention_window tip in
    let plans : set_bounds o db oldest retention_window
        ≡ plan db tip n (fill_start_min tip n oldest) =
      rw (e, set_bounds) refl in
    let is_start = fill_start_min-IsWindowStart tip n oldest (omega arith) h0 ht in
    (
      fill_start_min tip n oldest,
      is_start,
      subst (Fits db tip n (fill_start_min tip n oldest)) (sym plans)
          (plan-Fits db tip n (fill_start_min tip n oldest) (omega (arith, is_start.0)) held),
    )
