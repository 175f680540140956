-- ===== src/Backfill/Verify.antt =====
-- `verifyDbGapless`, on the store of ledgers.
use stellar_rpc.Prelude.{
  ℕ, ◌+◌, ◌-◌, ◌≤◌, ◌<◌, ◌≡◌, ◌⊎◌, refl, sym, ap, Bool, true, List, [], ◌∷◌, ◌&&◌, inl, inr, arith,
  leb, ◌==◌, le→leb, ==→eq, ==→ne, Bool-cases, if◌then◌else◌, length, u32, u32_mod, sub32,
}
use mathlib.Core.Path.{subst}
use stellar_rpc.Window.{LedgerInfo}
use stellar_rpc.LedgerStore.{
  LedgerStore, Ranged, ranged, empty_db, select, last_row, get_ledger_range,
  get_ledger_count_in_range,
}
use stellar_rpc.LedgerStore.Rows.{IsAbove, ends_of, last_row_above, last_row_ge}
use stellar_rpc.LedgerStore.Coherent.{IsCoherent, get_ledger_range-Answers}

pub data Verified : Type 0 where
  gapless : (sequences_min sequences_max : ℕ) → Verified
  gap_detected : (expected got : ℕ) → Verified
  not_verified : Verified

-- The comparison of the count with the one expected
abbrev pub compare_count : ℕ → ℕ × ℕ × ℕ → Verified
compare_count expected (count, low, high) =
    if count == expected then gapless low high else gap_detected expected count

abbrev pub verify_range : List LedgerInfo → Ranged → Verified
verify_range rows (ranged r) =
    compare_count (u32 (sub32 r.last_ledger.sequence r.first_ledger.sequence + 1))
      (get_ledger_count_in_range rows r.first_ledger.sequence r.last_ledger.sequence)
verify_range rows empty_db = gapless 0 0
verify_range rows _ = not_verified

-- `verifyDbGapless`, where the count is answered
unfoldable pub verify_db_gapless : Bool → LedgerStore → LedgerStore × Verified
verify_db_gapless answers s =
    let out = get_ledger_range answers s in (out.0, verify_range s.rows out.1)

-- Each ledger is the one after that before it.
abbrev pub IsConsecutive : LedgerInfo → List LedgerInfo → Type 0
IsConsecutive r [] = Unit
IsConsecutive r (x ∷ rs) = (x.sequence ≡ r.sequence + 1) × IsConsecutive x rs

length_bound :
    (r : LedgerInfo) (rs : List LedgerInfo)
    → IsAbove r.sequence rs
    → length (r ∷ rs) + r.sequence ≤ (last_row r rs).sequence + 1
length_bound r [] up = omega arith
length_bound r (x ∷ rs) up = omega (arith, length_bound x rs up.1, up.0)

consecutive→length :
    (r : LedgerInfo) (rs : List LedgerInfo)
    → IsConsecutive r rs
    → length (r ∷ rs) + r.sequence ≡ (last_row r rs).sequence + 1
consecutive→length r [] h = omega arith
consecutive→length r (x ∷ rs) h = omega (arith, consecutive→length x rs h.1, h.0)

length→consecutive :
    (r : LedgerInfo) (rs : List LedgerInfo)
    → IsAbove r.sequence rs
    → length (r ∷ rs) + r.sequence ≡ (last_row r rs).sequence + 1
    → IsConsecutive r rs
length→consecutive r [] up h = tt
length→consecutive r (x ∷ rs) up h =
    let bound = length_bound x rs up.1 in
    (omega (arith, up.0), length→consecutive x rs up.1 (omega (arith, up.0)))

in_range_all :
    (lo hi n : ℕ) (r : LedgerInfo) (rs : List LedgerInfo)
    → lo ≤ n + 1
    → (last_row r rs).sequence ≤ hi
    → IsAbove n (r ∷ rs)
    → select (λ x. leb lo x.sequence && leb x.sequence hi) (r ∷ rs) ≡ r ∷ rs
unfolding select
in_range_all lo hi n r [] hlo hhi up =
    rw (le→leb lo r.sequence (omega (arith, up.0)), le→leb r.sequence hi hhi) refl
in_range_all lo hi n r (x ∷ rs) hlo hhi up =
    let later = last_row_above r.sequence x rs up.1 in
    rw (le→leb lo r.sequence (omega (arith, up.0)), le→leb r.sequence hi (omega arith))
      (ap (λ xs. r ∷ xs) (in_range_all lo hi r.sequence x rs (omega (arith, up.0)) hhi up.1))

-- What the check says of the rows of a store.
abbrev pub Verdict : List LedgerInfo → Verified → Type 0
Verdict [] v = v ≡ gapless 0 0
Verdict (r ∷ rs) v =
    (IsConsecutive r rs × (v ≡ gapless r.sequence (last_row r rs).sequence))
    ⊎ ((IsConsecutive r rs → ⊥)
        × (v ≡ gap_detected ((last_row r rs).sequence - r.sequence + 1) (length (r ∷ rs))))

-- The newest sequence leaves room for one more below 2^32.
abbrev pub HasRoom : List LedgerInfo → Type 0
HasRoom [] = Unit
HasRoom (r ∷ rs) = (last_row r rs).sequence + 1 < u32_mod

verify_range-Verdict :
    (rows : List LedgerInfo)
    → IsAbove 0 rows
    → HasRoom rows
    → Verdict rows (verify_range rows (ends_of rows))
unfolding get_ledger_count_in_range
verify_range-Verdict [] up h = refl
verify_range-Verdict (r ∷ rs) up h =
    let first_le = last_row_ge r rs up.1 in
    let bound = length_bound r rs up.1 in
    let all =
      in_range_all r.sequence (last_row r rs).sequence (r.sequence - 1) r rs (omega arith)
        (omega arith) (omega (arith, up.0), up.1) in
    let expected : u32 (sub32 (last_row r rs).sequence r.sequence + 1)
        ≡ (last_row r rs).sequence - r.sequence + 1 =
      omega arith in
    let count : u32 (length (r ∷ rs)) ≡ length (r ∷ rs) = omega arith in
    rw (all, expected, count, get_ledger_count_in_range)
      (elim (Bool-cases (length (r ∷ rs) == (last_row r rs).sequence - r.sequence + 1)) [
        | inl same ↦
            rw (same) (inl (length→consecutive r rs up.1 (omega (arith, ==→eq _ _ same)), refl))
        | inr other ↦ rw (other) (
            inr (λ run. absurd (omega (arith, ==→ne _ _ other, consecutive→length r rs run)), refl))
      ])

-- `verifyDbGapless` on a coherent store passes exactly where the table is empty, and then with zeros, or
-- holds every ledger between its first and its last, and then with these two; otherwise it fails, and
-- names the number of ledgers expected and the number held. SQLite answers the queries and the newest
-- sequence leaves room for one more below 2^32.
pub verify_db_gapless-Verdict :
    (s : LedgerStore) → IsCoherent s → HasRoom s.rows → Verdict s.rows (verify_db_gapless true s).1
unfolding verify_db_gapless
verify_db_gapless-Verdict s c h =
    subst (λ x. Verdict s.rows (verify_range s.rows x)) (sym (get_ledger_range-Answers s c).answer)
      (verify_range-Verdict s.rows c.ascending h)
