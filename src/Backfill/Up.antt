-- ===== src/Backfill/Up.antt =====
-- `frontfillChunks` commits a run of chunks without gap or overlap, up to its right bound.
use stellar_rpc.Prelude.{
  ℕ, zero, suc, ◌+◌, ◌-◌, ◌≤◌, ◌<◌, ◌≡◌, refl, List, [], ◌∷◌, ◌++◌, inl, inr, arith, leb, ltb,
  leb→le, leb→lt, ltb→lt, ltb→le, Bool-cases, u32, sub32, min,
}
use mathlib.Core.Path.{subst}
use stellar_rpc.SeqRange.{SeqRange}
use stellar_rpc.Backfill.{
  Outside, Filled, filled, stopped, out_of_fuel, range, frontfill_loop, frontfill_chunks,
  chunk_size,
}
use stellar_rpc.Backfill.Tiles.{TilesUp, TilesUp-snoc}
use stellar_rpc.Backfill.Down.{max_bound}

-- What a filling upwards from `lo` leaves behind: on success its chunks reach just below `top`; on an
-- error they are still a run from `lo`.
abbrev pub FillsUp : ℕ → ℕ → Filled → Type 0
FillsUp lo top (filled bound calls chunks) = TilesUp lo chunks top
FillsUp lo top (stopped e chunks) = (end : ℕ) × TilesUp lo chunks end × (end ≤ top)
FillsUp lo top out_of_fuel = ⊥

frontfill_loop_lem :
    (o : Outside) (r fuel l at lo : ℕ) (chunks : List SeqRange)
    → r < max_bound
    → at ≡ min l (r + 1)
    → l ≤ r + chunk_size
    → r + 1 < fuel + l
    → 0 < fuel
    → TilesUp lo chunks at
    → FillsUp lo (r + 1) (frontfill_loop o r fuel l chunks)
unfolding frontfill_loop
frontfill_loop_lem o r zero l at lo chunks hr ha hl hf h0 t = absurd (omega arith)
frontfill_loop_lem o r (suc fuel) l at lo chunks hr ha hl hf h0 t = elim (Bool-cases (leb l r)) [
  | inr past ↦ rw (past, FillsUp) (subst (TilesUp lo chunks) (omega (arith, leb→lt _ _ past)) t)
  | inl more ↦
      let in_range : l ≤ r = leb→le _ _ more in
      let last = min r (sub32 (u32 (l + chunk_size)) 1) in
      let longer = TilesUp-snoc lo chunks at (range l last) t (omega arith) (omega arith) in
      rw (more, FillsUp)
        (elim (Bool-cases (o.cancelled_at (range l last))) [
          | inl stop ↦ rw (stop, FillsUp) (at, t, omega arith)
          | inr on ↦
              rw (on, FillsUp)
                (elim (Bool-cases (o.ingests (range l last))) [
                  | inr failed ↦ rw (failed, FillsUp) (at, t, omega arith)
                  | inl fine ↦
                      rw (fine, FillsUp)
                        (frontfill_loop_lem o r fuel (u32 (l + chunk_size)) (last + 1) lo
                          (chunks ++ (range l last ∷ [])) hr (omega arith) (omega arith)
                          (omega arith) (omega arith) longer)
                ])
        ])
]

-- `frontfillChunks` ends, whatever the outside answers: its loop takes at most two rounds more than the
-- bounds lie apart. What it commits are chunks of 1 to 960 ledgers, from the left bound up with no
-- gap and no overlap and none above the right bound; if it succeeds they reach the right bound. The
-- right bound leaves room for a chunk below 2^32; a left bound more than one above it is not filled
-- from.
pub frontfill_chunks-FillsUp :
    (o : Outside) (b : SeqRange)
    → b.first ≤ b.last + 1
    → b.last < max_bound
    → FillsUp b.first (b.last + 1) (frontfill_chunks o b)
unfolding frontfill_chunks
frontfill_chunks-FillsUp o b hl hr = elim (Bool-cases (ltb b.last b.first)) [
  | inl past ↦ rw (past, FillsUp) (omega (arith, ltb→lt _ _ past))
  | inr more ↦
      rw (more, FillsUp)
        (elim (Bool-cases (o.has_backend b)) [
          | inr failed ↦ rw (failed, FillsUp) (b.first, refl, omega arith)
          | inl reached ↦
              rw (reached, FillsUp)
                (elim (Bool-cases (o.prepares b)) [
                  | inr failed ↦ rw (failed, FillsUp) (b.first, refl, omega arith)
                  | inl ready ↦
                      rw (ready, FillsUp)
                        (frontfill_loop_lem o b.last (suc (suc (b.last - b.first))) b.first b.first
                          b.first [] hr (omega arith) (omega (arith, ltb→le _ _ more)) (omega arith)
                          (omega arith) refl)
                ])
        ])
]
