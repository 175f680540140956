-- ===== src/Backfill/Edges.antt =====
-- How far a filling reaches: its left bound is the start of the retention window of a tip that was
-- answered, and its right one a checkpoint.
use stellar_rpc.Prelude.{
  ℕ, zero, suc, ◌+◌, ◌≤◌, ◌<◌, ◌≡◌, refl, ◌∙◌, ap, none, some, some_eq, ◌&&◌, ◌%◌, ◌==◌, u32_mod,
  List, [], ◌∷◌, ◌++◌, inl, inr, arith, leb, ltb, ltb→lt, ltb→le, Bool-cases, Option-cases, sub32,
}
use mathlib.Core.Path.{subst}
use stellar_rpc.SeqRange.{SeqRange}
use stellar_rpc.Backfill.{
  Outside, FillBounds, Filled, filled, stopped, out_of_fuel, range, attempt, left_chunk_bound,
  refresh, refreshed_bound, backfill_loop, backfill_chunks, frontfill_round, frontfill_rounds,
  run_frontfill, moved, after, and_then, need_backfill_phase,
}
use stellar_rpc.Backfill.Down.{IsTame}
use stellar_rpc.Backfill.Bounds.{IsWindowStart}
use stellar_rpc.Backfill.Skip.{SparseCheckpoints, round_fills, round_rests}

-- `lo` is not above the start of the window of a tip that was answered.
abbrev pub ReachesDown : Outside → ℕ → ℕ → ℕ → Type 0
ReachesDown o n oldest lo =
    (k : ℕ) × (tip : ℕ) × (edge : ℕ) × (o.tip k ≡ some tip)
    × IsWindowStart tip n oldest edge
    × (lo ≤ edge)

-- `top` is above the checkpoint of a tip that was answered.
abbrev pub ReachesUp : Outside → ℕ → Type 0
ReachesUp o top = (k : ℕ) × (tip : ℕ) × (o.tip k ≡ some tip) × (o.prev_checkpoint tip < top)

-- What a filling reports, if it succeeds.
abbrev pub Reports : (ℕ → Type 0) → Filled → Type 0
Reports P (filled bound calls chunks) = P bound
Reports P (stopped e chunks) = Unit
Reports P out_of_fuel = Unit

refreshed_bound-IsWindowStart :
    (tip n oldest : ℕ)
    → n ≤ tip + 1
    → tip + 1 < u32_mod
    → IsWindowStart tip n oldest (refreshed_bound tip n oldest)
unfolding refreshed_bound
refreshed_bound-IsWindowStart tip n oldest h ht = (omega arith, omega arith, omega arith)

refresh-ReachesDown :
    (o : Outside) (n oldest i k l : ℕ) {l' k' : ℕ}
    → IsTame o n
    → ReachesDown o n oldest l
    → refresh o n oldest i k l ≡ some (l', k')
    → ReachesDown o n oldest l'
unfolding refresh refreshed_bound
refresh-ReachesDown o n oldest i k l {l'} {k'} tame reach e =
    elim (Bool-cases (ltb 0 i && (i % 10 == 0))) [
      | inr early ↦
          let stays : some (l, k) ≡ refresh o n oldest i k l = rw (early, refresh) refl in
          subst (ReachesDown o n oldest) (ap (λ x. x.0) (some_eq (stays ∙ e))) reach
      | inl due ↦ elim (Option-cases (o.tip k)) [
        | inl lost ↦
            let fails : none ≡ refresh o n oldest i k l = rw (due, lost, refresh) refl in
            grind arith
        | inr (tip, is_tip) ↦
            let moves : some (refreshed_bound tip n oldest, k + 1) ≡ refresh o n oldest i k l =
              rw (due, is_tip, refresh) refl in
            let bound = ap (λ x. x.0) (some_eq (moves ∙ e)) in
            subst (ReachesDown o n oldest) bound (
              k,
              tip,
              refreshed_bound tip n oldest,
              is_tip,
              refreshed_bound-IsWindowStart tip n oldest (tame k tip is_tip).0
                  (omega (arith, (tame k tip is_tip).1)),
              omega arith,
            )
      ]
    ]

backfill_loop-ReachesDown :
    (o : Outside) (n oldest fuel i k r l : ℕ) (chunks : List SeqRange)
    → IsTame o n
    → ReachesDown o n oldest l
    → Reports (ReachesDown o n oldest) (backfill_loop o n oldest fuel i k r l chunks)
unfolding backfill_loop
backfill_loop-ReachesDown o n oldest zero i k r l chunks tame reach = tt
backfill_loop-ReachesDown o n oldest (suc fuel) i k r l chunks tame reach =
    let left = left_chunk_bound l r in
    elim (Bool-cases (leb l r)) [
      | inr past ↦ rw (past, Reports) reach
      | inl more ↦
          rw (more, Reports)
            (elim (Option-cases (attempt o (range left r))) [
              | inr (e, failed) ↦ rw (failed, Reports) tt
              | inl fine ↦
                  rw (fine, Reports)
                    (elim (Bool-cases (leb left l)) [
                      | inl last ↦ rw (last, Reports) reach
                      | inr inner ↦
                          rw (inner, Reports)
                            (elim (Option-cases (refresh o n oldest i k l)) [
                              | inl lost ↦ rw (lost, Reports) tt
                              | inr ((l', k'), e) ↦
                                  rw (e, Reports)
                                    (backfill_loop-ReachesDown o n oldest fuel (i + 1) k'
                                      (sub32 left 1) l' (chunks ++ (range left r ∷ [])) tame
                                      (refresh-ReachesDown o n oldest i k l tame reach e))
                            ])
                    ])
            ])
    ]

-- Where `backfillChunks` starts at such a bound, the one that it reports is one too.
pub backfill_chunks-ReachesDown :
    (o : Outside) (oldest k : ℕ) (b : FillBounds)
    → IsTame o b.n_backfill
    → ReachesDown o b.n_backfill oldest b.backfill.first
    → Reports (ReachesDown o b.n_backfill oldest) (backfill_chunks o oldest k b)
unfolding backfill_chunks
backfill_chunks-ReachesDown o oldest k b tame reach =
    backfill_loop-ReachesDown o b.n_backfill oldest (suc b.backfill.last) 0 k b.backfill.last
      b.backfill.first [] tame reach

moved-Reports : (P : ℕ → Type 0) (next k : ℕ) (f : Filled) → P next → Reports P (moved next k f)
unfolding moved
moved-Reports P next k (filled a b chunks) h = h
moved-Reports P next k (stopped e chunks) h = tt
moved-Reports P next k out_of_fuel h = tt

after-Reports :
    (P : ℕ → Type 0) (cs : List SeqRange) (f : Filled) → Reports P f → Reports P (after cs f)
after-Reports P cs (filled next k more) h = h
after-Reports P cs (stopped e more) h = tt
after-Reports P cs out_of_fuel h = tt

and_then-Reports :
    (P : ℕ → Type 0) (f : Filled) (rest : ℕ → ℕ → Filled)
    → Reports P f
    → ((k next : ℕ) → P next → Reports P (rest k next))
    → Reports P (and_then f rest)
unfolding and_then
and_then-Reports P (filled next k chunks) rest t h =
    after-Reports P chunks (rest k next) (h k next t)
and_then-Reports P (stopped e chunks) rest t h = tt
and_then-Reports P out_of_fuel rest t h = tt

round-ReachesUp :
    (o : Outside) (k first : ℕ)
    → SparseCheckpoints o
    → Reports (ReachesUp o) (frontfill_round o k first)
unfolding frontfill_round
round-ReachesUp o k first sparse = elim (Option-cases (o.tip k)) [
  | inl none_yet ↦ rw (none_yet, Reports, frontfill_round) tt
  | inr (tip, is_tip) ↦ elim (Bool-cases (ltb first (o.prev_checkpoint tip))) [
    | inl more ↦ rw (round_fills o k first tip is_tip (ltb→lt _ _ more) (sparse k tip is_tip).0) (
        moved-Reports (ReachesUp o) (o.prev_checkpoint tip + 1) (k + 1) _
          (k, tip, is_tip, omega arith))
    | inr past ↦
        rw (round_rests o k first tip is_tip (ltb→le _ _ past) (sparse k tip is_tip).0)
          (k, tip, is_tip, omega arith)
  ]
]

rounds-ReachesUp :
    (o : Outside) (rounds k first : ℕ)
    → SparseCheckpoints o
    → ReachesUp o first
    → Reports (ReachesUp o) (frontfill_rounds o rounds k first)
unfolding frontfill_rounds
rounds-ReachesUp o zero k first sparse reach = reach
rounds-ReachesUp o (suc rounds) k first sparse reach =
    and_then-Reports (ReachesUp o) (frontfill_round o k first) (frontfill_rounds o rounds)
      (round-ReachesUp o k first sparse) (λ k' next at. rounds-ReachesUp o rounds k' next sparse at)

-- `runFrontfill`, if it succeeds, goes on above the checkpoint of a tip.
pub run_frontfill-ReachesUp :
    (o : Outside) (k : ℕ) (b : FillBounds)
    → SparseCheckpoints o
    → Reports (ReachesUp o) (run_frontfill o k b)
unfolding run_frontfill frontfill_rounds
run_frontfill-ReachesUp o k b sparse = elim (Bool-cases (need_backfill_phase b)) [
  | inl phase ↦ rw (phase) (
      and_then-Reports (ReachesUp o) (frontfill_round o k b.frontfill.first) (frontfill_rounds o 0)
        (round-ReachesUp o k b.frontfill.first sparse)
        (λ k' next at. rounds-ReachesUp o 0 k' next sparse at))
  | inr none_needed ↦ rw (none_needed) (
      and_then-Reports (ReachesUp o) (frontfill_round o k b.frontfill.first) (frontfill_rounds o 1)
        (round-ReachesUp o k b.frontfill.first sparse)
        (λ k' next at. rounds-ReachesUp o 1 k' next sparse at))
]
