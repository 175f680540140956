-- ===== src/Backfill/Down.antt =====
-- `backfillChunks` commits a run of chunks without gap or overlap, down to its left bound.
use stellar_rpc.Prelude.{
  ℕ, zero, suc, ◌+◌, ◌≤◌, ◌<◌, ◌≡◌, refl, some, List, [], ◌∷◌, ◌++◌, inl, inr, arith, leb, leb→le,
  leb→lt, Bool-cases, Option-cases, u32_mod, sub32,
}
use mathlib.Core.Path.{subst}
use stellar_rpc.SeqRange.{SeqRange}
use stellar_rpc.Backfill.{
  Outside, Filled, filled, stopped, out_of_fuel, range, attempt, left_chunk_bound, refreshed_bound,
  refresh, backfill_loop, backfill_chunks, FillBounds,
}
use stellar_rpc.Backfill.Tiles.{IsChunk, TilesDown, TilesDown-snoc}

-- The last chunk that fits below 2^32.
abbrev pub max_bound : ℕ
max_bound = 4294966336

left_chunk_bound_lem :
    (l r : ℕ)
    → l ≤ r
    → r < u32_mod
    → l ≤ max_bound
    → (l ≤ left_chunk_bound l r) × IsChunk (range (left_chunk_bound l r) r)
unfolding left_chunk_bound
left_chunk_bound_lem l r h hr hl = ground arith

-- The tips keep the left bound of the window inside uint32, and never fall below the number of
-- ledgers to fill.
abbrev pub IsTame : Outside → ℕ → Type 0
IsTame o n = (k tip : ℕ) → o.tip k ≡ some tip → (n ≤ tip + 1) × (tip < max_bound)

refresh_lem :
    (o : Outside) (n oldest i k l : ℕ) {l' k' : ℕ}
    → IsTame o n
    → oldest ≤ max_bound
    → l ≤ max_bound
    → refresh o n oldest i k l ≡ some (l', k')
    → l' ≤ max_bound
unfolding refresh refreshed_bound
refresh_lem o n oldest i k l tame ho hl h = elim (Option-cases (o.tip k)) [
  | inl e ↦ ground arith
  | inr (tip, e) ↦ let t = tame k tip e in ground arith
]

refresh_floor :
    (o : Outside) (n oldest i k l floor : ℕ) {l' k' : ℕ}
    → floor ≤ oldest
    → floor ≤ l
    → refresh o n oldest i k l ≡ some (l', k')
    → floor ≤ l'
unfolding refresh refreshed_bound
refresh_floor o n oldest i k l floor ho hl h = elim (Option-cases (o.tip k)) [
  | inl e ↦ ground arith
  | inr (tip, e) ↦ ground arith
]

-- What a filling downwards from `top` leaves behind: a run of chunks from the top, none below
-- `floor`; and on success it reaches down to the left bound or below it.
abbrev pub FillsDown : ℕ → ℕ → Filled → Type 0
FillsDown floor top (filled bound calls chunks) =
    (lo : ℕ) × TilesDown top chunks lo × (floor ≤ lo) × (lo ≤ bound)
FillsDown floor top (stopped e chunks) = (lo : ℕ) × TilesDown top chunks lo × (floor ≤ lo)
FillsDown floor top out_of_fuel = ⊥

pub backfill_loop_lem :
    (o : Outside) (n oldest : ℕ) (fuel i k r l floor top : ℕ) (chunks : List SeqRange)
    → IsTame o n
    → oldest ≤ max_bound
    → floor ≤ oldest
    → floor ≤ l
    → floor ≤ r + 1
    → l ≤ max_bound
    → r < u32_mod
    → r < fuel
    → TilesDown top chunks (r + 1)
    → FillsDown floor top (backfill_loop o n oldest fuel i k r l chunks)
unfolding backfill_loop
backfill_loop_lem o n oldest zero i k r l floor top chunks tame ho fo fl fr hl hr hf t =
    absurd (omega arith)
backfill_loop_lem o n oldest (suc fuel) i k r l floor top chunks tame ho fo fl fr hl hr hf t =
    elim (Bool-cases (leb l r)) [
      | inr past ↦ rw (past, FillsDown) (r + 1, t, fr, omega (arith, leb→lt _ _ past))
      | inl more ↦
          let left = left_chunk_bound l r in
          let (low, is_chunk) = left_chunk_bound_lem l r (leb→le _ _ more) hr hl in
          let longer = TilesDown-snoc top chunks (r + 1) (range left r) t refl is_chunk in
          rw (more, FillsDown)
            (elim (Option-cases (attempt o (range left r))) [
              | inr (e, failed) ↦ rw (failed, FillsDown) (r + 1, t, fr)
              | inl fine ↦
                  rw (fine, FillsDown)
                    (elim (Bool-cases (leb left l)) [
                      | inl last ↦ rw (last, FillsDown) (left, longer, omega arith, leb→le _ _ last)
                      | inr inner ↦
                          rw (inner, FillsDown)
                            (elim (Option-cases (refresh o n oldest i k l)) [
                              | inl lost ↦ rw (lost, FillsDown) (left, longer, omega arith)
                              | inr ((l', k'), e) ↦
                                  rw (e, FillsDown)
                                    (backfill_loop_lem o n oldest fuel (i + 1) k' (sub32 left 1) l'
                                      floor top (chunks ++ (range left r ∷ [])) tame ho fo
                                      (refresh_floor o n oldest i k l floor fo fl e)
                                      (omega (arith, leb→lt _ _ inner))
                                      (refresh_lem o n oldest i k l tame ho hl e) (omega arith)
                                      (omega (arith, leb→lt _ _ inner))
                                      (subst (TilesDown top (chunks ++ (range left r ∷ [])))
                                        (omega (arith, leb→lt _ _ inner)) longer))
                            ])
                    ])
            ])
    ]

-- `backfillChunks` ends, whatever the outside answers: its loop takes at most one round more than the
-- right bound. What it commits are chunks of 1 to 960 ledgers, from the right bound down with no gap
-- and no overlap, none below the datastore's oldest ledger; if it succeeds they reach the left bound
-- that it reports. The bounds leave room for a chunk below 2^32, the left one is not below the oldest
-- ledger and at most one above the right one, and no tip is below the number of ledgers to fill less
-- one.
pub backfill_chunks-FillsDown :
    (o : Outside) (oldest k : ℕ) (b : FillBounds)
    → IsTame o b.n_backfill
    → oldest ≤ b.backfill.first
    → b.backfill.first ≤ max_bound
    → b.backfill.first ≤ b.backfill.last + 1
    → b.backfill.last < u32_mod
    → FillsDown oldest (b.backfill.last + 1) (backfill_chunks o oldest k b)
unfolding backfill_chunks
backfill_chunks-FillsDown o oldest k b tame ho hm hl hr =
    backfill_loop_lem o b.n_backfill oldest (suc b.backfill.last) 0 k b.backfill.last
      b.backfill.first oldest (b.backfill.last + 1) [] tame (omega arith) (omega arith) ho
      (omega arith) hm hr (omega arith) refl
