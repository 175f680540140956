-- ===== src/Backfill/Skip.antt =====
-- The rounds of `runFrontfill`: where the ledgers they commit leave no gap, and where they do.
use stellar_rpc.Prelude.{
  ℕ, zero, suc, ◌+◌, ◌≤◌, ◌<◌, ◌≡◌, ◌≢◌, refl, sym, ◌∙◌, ap, false, some, List, [], ◌∷◌, ◌++◌, inl,
  inr, arith, ltb, if◌then◌else◌, ltb→lt, ltb→le, lt→ltb, le→ltb, Bool-cases, Option-cases, u32,
  max,
}
use mathlib.Core.Path.{subst}
use stellar_rpc.SeqRange.{SeqRange}
use stellar_rpc.Backfill.{
  Outside, FillBounds, Filled, filled, stopped, out_of_fuel, range, frontfill_chunks,
  frontfill_round, frontfill_rounds, run_frontfill, moved, after, and_then, no_tip,
  need_backfill_phase,
}
use stellar_rpc.Backfill.Tiles.{TilesUp}
use stellar_rpc.Backfill.Down.{max_bound}
use stellar_rpc.Backfill.Up.{FillsUp, frontfill_chunks-FillsUp}

-- The chunks are a run from `lo`, which on success ends directly below the next ledger to fill.
abbrev pub Gapless : ℕ → Filled → Type 0
Gapless lo (filled next calls chunks) = TilesUp lo chunks next
Gapless lo (stopped e chunks) = (end : ℕ) × TilesUp lo chunks end
Gapless lo out_of_fuel = ⊥

TilesUp-append :
    (lo : ℕ) (cs : List SeqRange) (mid : ℕ) (ds : List SeqRange) (top : ℕ)
    → TilesUp lo cs mid
    → TilesUp mid ds top
    → TilesUp lo (cs ++ ds) top
TilesUp-append lo [] mid ds top h t = subst (λ x. TilesUp x ds top) (sym h) t
TilesUp-append lo (c ∷ cs) mid ds top h t =
    (h.0, h.1, TilesUp-append (c.last + 1) cs mid ds top h.2 t)

moved-Gapless : (lo next k : ℕ) (f : Filled) → FillsUp lo next f → Gapless lo (moved next k f)
unfolding moved
moved-Gapless lo next k (filled a b chunks) h = h
moved-Gapless lo next k (stopped e chunks) (end, t, le) = (end, t)
moved-Gapless lo next k out_of_fuel h = elim h [ ]

-- The three things a round can do with a tip.
module _ (o : Outside) (k first tip : ℕ) (is_tip : o.tip k ≡ some tip) where
  pub round_fills :
      first < o.prev_checkpoint tip
      → o.prev_checkpoint tip < max_bound
      → frontfill_round o k first
        ≡ moved
            (o.prev_checkpoint tip + 1)
            (k + 1)
            (frontfill_chunks o (range first (o.prev_checkpoint tip)))
  unfolding frontfill_round
  round_fills h hm =
      let fits : max first (u32 (o.prev_checkpoint tip + 1)) ≡ o.prev_checkpoint tip + 1 =
        omega arith in
      rw (is_tip, lt→ltb _ _ h, fits, frontfill_round) refl

  pub round_rests :
      o.prev_checkpoint tip ≤ first
      → o.prev_checkpoint tip < max_bound
      → frontfill_round o k first ≡ filled (max first (o.prev_checkpoint tip + 1)) (k + 1) []
  unfolding frontfill_round
  round_rests h hm =
      let fits : u32 (o.prev_checkpoint tip + 1) ≡ o.prev_checkpoint tip + 1 = omega arith in
      rw (is_tip, le→ltb _ _ h, fits, frontfill_round) refl

after-Gapless :
    (lo mid : ℕ) (cs : List SeqRange) (f : Filled)
    → TilesUp lo cs mid
    → Gapless mid f
    → Gapless lo (after cs f)
after-Gapless lo mid cs (filled next k more) t h = TilesUp-append lo cs mid more next t h
after-Gapless lo mid cs (stopped e more) t (end, h) = (end, TilesUp-append lo cs mid more end t h)
after-Gapless lo mid cs out_of_fuel t h = elim h [ ]

-- No checkpoint is `first` itself.
abbrev pub Avoids : Outside → ℕ → Type 0
Avoids o first = (k tip : ℕ) → o.tip k ≡ some tip → o.prev_checkpoint tip ≢ first

-- Every checkpoint leaves room for a chunk below 2^32, and none is the ledger after another.
abbrev pub SparseCheckpoints : Outside → Type 0
SparseCheckpoints o =
    (k tip : ℕ)
    → o.tip k ≡ some tip
    → (o.prev_checkpoint tip < max_bound) × Avoids o (o.prev_checkpoint tip + 1)

round-Gapless :
    (o : Outside) (k first : ℕ)
    → SparseCheckpoints o
    → Avoids o first
    → Gapless first (frontfill_round o k first)
unfolding frontfill_round
round-Gapless o k first sparse h = elim (Option-cases (o.tip k)) [
  | inl none_yet ↦ rw (none_yet, Gapless, frontfill_round) (first, refl)
  | inr (tip, is_tip) ↦ elim (Bool-cases (ltb first (o.prev_checkpoint tip))) [
    | inl more ↦
        rw (round_fills o k first tip is_tip (ltb→lt _ _ more) (sparse k tip is_tip).0, Gapless)
          (moved-Gapless first (o.prev_checkpoint tip + 1) (k + 1) _ (
            frontfill_chunks-FillsUp o (range first (o.prev_checkpoint tip))
              (omega (arith, ltb→lt _ _ more)) (sparse k tip is_tip).0))
    | inr past ↦
        rw (round_rests o k first tip is_tip (ltb→le _ _ past) (sparse k tip is_tip).0, Gapless)
          (let other = h k tip is_tip in let le = ltb→le _ _ past in ground arith)
  ]
]

abbrev next_of : Filled → ℕ
next_of (filled next k chunks) = next
next_of (stopped e chunks) = 0
next_of out_of_fuel = 0

moved_next :
    (a k : ℕ) (f : Filled) {next k' : ℕ} {chunks : List SeqRange}
    → moved a k f ≡ filled next k' chunks
    → next ≡ a
unfolding moved
moved_next a k (filled x y cs) h = sym (ap next_of h)
moved_next a k (stopped e cs) h = grind arith
moved_next a k out_of_fuel h = grind arith

round-Avoids :
    (o : Outside) (k first : ℕ) {next k' : ℕ} {chunks : List SeqRange}
    → SparseCheckpoints o
    → Avoids o first
    → frontfill_round o k first ≡ filled next k' chunks
    → Avoids o next
unfolding frontfill_round
round-Avoids o k first sparse h e = elim (Option-cases (o.tip k)) [
  | inl none_yet ↦
      let stop : stopped no_tip [] ≡ frontfill_round o k first =
        rw (none_yet, frontfill_round) refl in
      grind arith
  | inr (tip, is_tip) ↦ elim (Bool-cases (ltb first (o.prev_checkpoint tip))) [
    | inl more ↦
        subst (Avoids o)
          (sym (
            moved_next (o.prev_checkpoint tip + 1) (k + 1) _ (
              sym (round_fills o k first tip is_tip (ltb→lt _ _ more) (sparse k tip is_tip).0)
              ∙ e)))
          (sparse k tip is_tip).1
    | inr past ↦
        let rests = round_rests o k first tip is_tip (ltb→le _ _ past) (sparse k tip is_tip).0 in
        let next_is = ap next_of (sym rests ∙ e) in
        let other = h k tip is_tip in
        let le = ltb→le _ _ past in
        let stays : max first (o.prev_checkpoint tip + 1) ≡ first = ground arith in
        subst (Avoids o) (sym stays ∙ next_is) h
  ]
]

and_then-Gapless :
    (lo : ℕ) (f : Filled) (rest : ℕ → ℕ → Filled)
    → Gapless lo f
    → ((k next : ℕ) (chunks : List SeqRange)
        → f ≡ filled next k chunks
        → Gapless next (rest k next))
    → Gapless lo (and_then f rest)
unfolding and_then
and_then-Gapless lo (filled next k chunks) rest t h =
    after-Gapless lo next chunks (rest k next) t (h k next chunks refl)
and_then-Gapless lo (stopped e chunks) rest t h = t
and_then-Gapless lo out_of_fuel rest t h = t

rounds-Gapless :
    (o : Outside) (rounds k first : ℕ)
    → SparseCheckpoints o
    → Avoids o first
    → Gapless first (frontfill_rounds o rounds k first)
unfolding frontfill_rounds
rounds-Gapless o zero k first sparse h = refl
rounds-Gapless o (suc rounds) k first sparse h =
    and_then-Gapless first (frontfill_round o k first) (frontfill_rounds o rounds)
      (round-Gapless o k first sparse h)
      (λ k' next chunks e.
        rounds-Gapless o rounds k' next sparse (round-Avoids o k first sparse h e))

-- `runFrontfill` ends, whatever the outside answers, and what it commits in its one or two rounds are
-- chunks that leave no gap from its first ledger on, and on success reach directly below the ledger
-- from which it says to go on. Every checkpoint leaves room for a chunk below 2^32, none is the
-- ledger after another checkpoint, and none is the ledger that the filling is to start from.
pub run_frontfill-Gapless :
    (o : Outside) (k : ℕ) (b : FillBounds)
    → SparseCheckpoints o
    → Avoids o b.frontfill.first
    → Gapless b.frontfill.first (run_frontfill o k b)
unfolding run_frontfill
run_frontfill-Gapless o k b sparse h =
    rounds-Gapless o (if need_backfill_phase b then 1 else 2) k b.frontfill.first sparse h

-- The ledger `first` itself is never committed where the first checkpoint is that ledger: without a
-- backfill phase, the second of the two rounds starts one ledger further.
pub run_frontfill_skips :
    (o : Outside) (b : FillBounds) (tip tip' : ℕ)
    → need_backfill_phase b ≡ false
    → o.tip 0 ≡ some tip
    → o.tip 1 ≡ some tip'
    → o.prev_checkpoint tip ≡ b.frontfill.first
    → b.frontfill.first + 1 < o.prev_checkpoint tip'
    → o.prev_checkpoint tip' < max_bound
    → Gapless (b.frontfill.first + 1) (run_frontfill o 0 b)
unfolding run_frontfill frontfill_rounds and_then
run_frontfill_skips o b tip tip' no_phase t t' e more hm =
    let first = b.frontfill.first in
    let starts : max first (o.prev_checkpoint tip + 1) ≡ first + 1 = omega arith in
    let rests = round_rests o 0 first tip t (omega arith) (omega arith) in
    let second = round_fills o 1 (first + 1) tip' t' (omega arith) hm in
    rw (no_phase, rests, starts)
      (after-Gapless (first + 1) (first + 1) [] (frontfill_rounds o 1 1 (first + 1)) refl (
        and_then-Gapless (first + 1) (frontfill_round o 1 (first + 1)) (frontfill_rounds o 0)
          (rw (second) (
            moved-Gapless (first + 1) (o.prev_checkpoint tip' + 1) 2 _ (
              frontfill_chunks-FillsUp o (range (first + 1) (o.prev_checkpoint tip')) (omega arith)
                hm)))
          (λ k next chunks e'. refl)))
