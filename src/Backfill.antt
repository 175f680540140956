-- ===== src/Backfill.antt =====
-- cmd/stellar-rpc/internal/ingest/backfill.go: filling the local database from the datastore. What
-- the code asks of the outside (the datastore's tip, the ledger backend, the checkpoint manager) and of
-- `ingestRange` is answered by an `Outside`; sequences are uint32. The chunks committed are those that
-- `ingestRange` reports without an error: where it fails only in the checkpoint after its commit, as
-- Service/Range has it, that last chunk is in the database too and is not listed.
pub mod Tiles
pub mod Down
pub mod Up
pub mod Bounds
pub mod Skip
pub mod Verify
pub mod Run
pub mod Edges
pub mod Endings
pub mod Whole
mod Tests
use stellar_rpc.Prelude.{
  ℕ, zero, suc, ◌+◌, ◌-◌, ◌%◌, ◌≡◌, Bool, true, false, ◌&&◌, not, Option, none, some, List, [], ◌∷◌,
  ◌++◌, ltb, leb, ◌==◌, if◌then◌else◌, u32, sub32, min, max,
}
use stellar_rpc.SeqRange.{SeqRange, is_empty, no_range}

-- `ChunkSize`: config.OneDayOfLedgers / 18
abbrev pub chunk_size : ℕ
chunk_size = 960

pub data FillError : Type 0 where
  cancelled no_backend not_prepared not_ingested no_tip tip_behind_database : FillError

pub record Outside : Type 0 where
  pub tip : ℕ → Option ℕ  -- the k-th call of FindLatestLedgerSequence
  pub cancelled_at : SeqRange → Bool  -- ctx.Err() before a chunk
  pub has_backend : SeqRange → Bool  -- makeBackend for a range
  pub prepares : SeqRange → Bool
  pub ingests : SeqRange → Bool  -- ingestRange returns no error
  pub prev_checkpoint : ℕ → ℕ  -- CheckpointManager.PrevCheckpoint

-- What a loop over chunks ends with: the chunks committed, in that order, and on success the left
-- bound and the number of tips asked for so far.
pub data Filled : Type 0 where
  filled : (bound calls : ℕ) → List SeqRange → Filled
  stopped : FillError → List SeqRange → Filled
  out_of_fuel : Filled

abbrev pub range : ℕ → ℕ → SeqRange
range l r = record { first = l; last = r }

-- The calls of one chunk of `backfillChunks`, in order, to the first that fails.
unfoldable pub attempt : Outside → SeqRange → Option FillError
attempt o chunk =
    if o.cancelled_at chunk
    then some cancelled
    else if not (o.has_backend chunk)
    then some no_backend
    else if not (o.prepares chunk)
    then some not_prepared
    else if not (o.ingests chunk)
    then some not_ingested
    else none

-- `lChunkBound`
unfoldable pub left_chunk_bound : ℕ → ℕ → ℕ
left_chunk_bound l r =
    if leb (sub32 (u32 (l + chunk_size)) 1) r then max l (u32 (sub32 r chunk_size + 1)) else l

-- The left edge of the retention window at a tip, not before the datastore's first ledger.
unfoldable pub refreshed_bound : ℕ → ℕ → ℕ → ℕ
refreshed_bound tip n_backfill oldest = max (u32 (sub32 tip n_backfill + 1)) oldest

-- The end of a round of `backfillChunks`: every tenth one moves the left bound along with the tip.
unfoldable pub refresh : Outside → ℕ → ℕ → ℕ → ℕ → ℕ → Option (ℕ × ℕ)
refresh o n_backfill oldest i k l =
    if ltb 0 i && (i % 10 == 0)
    then elim (o.tip k) [
      | none ↦ none
      | some tip ↦ some (refreshed_bound tip n_backfill oldest, k + 1)
    ]
    else some (l, k)

-- The loop of `backfillChunks`: i-th round, k tips asked for, chunk's right bound r, left bound l.
module _ (o : Outside) (n_backfill oldest : ℕ) where
  unfoldable pub backfill_loop : ℕ → ℕ → ℕ → ℕ → ℕ → List SeqRange → Filled
  backfill_loop zero i k r l chunks = out_of_fuel
  backfill_loop (suc fuel) i k r l chunks =
      let left = left_chunk_bound l r in
      let chunks' = chunks ++ (range left r ∷ []) in
      elim (leb l r) [
        | false ↦ filled l k chunks
        | true ↦ elim (attempt o (range left r)) [
          | some e ↦ stopped e chunks
          | none ↦ elim (leb left l) [
            | true ↦ filled l k chunks'
            | false ↦ elim (refresh o n_backfill oldest i k l) [
              | none ↦ stopped no_tip chunks'
              | some (l', k') ↦ backfill_loop fuel (i + 1) k' (sub32 left 1) l' chunks'
            ]
          ]
        ]
      ]

-- `fillBounds`; the checkpoint aligner is the outside's.
pub record FillBounds : Type 0 where
  pub backfill : SeqRange
  pub frontfill : SeqRange
  pub n_backfill : ℕ

-- `backfillChunks`, from the k-th tip on
unfoldable pub backfill_chunks : Outside → ℕ → ℕ → FillBounds → Filled
backfill_chunks o oldest k b =
    backfill_loop o b.n_backfill oldest (suc b.backfill.last) 0 k b.backfill.last b.backfill.first
      []

-- The loop of `frontfillChunks`, at `lChunkBound` l
module _ (o : Outside) (r : ℕ) where
  unfoldable pub frontfill_loop : ℕ → ℕ → List SeqRange → Filled
  frontfill_loop zero l chunks = out_of_fuel
  frontfill_loop (suc fuel) l chunks =
      let chunk = range l (min r (sub32 (u32 (l + chunk_size)) 1)) in
      let go_on = frontfill_loop fuel (u32 (l + chunk_size)) (chunks ++ (chunk ∷ [])) in
      elim (leb l r) [
        | false ↦ filled l 0 chunks
        | true ↦
            if o.cancelled_at chunk
            then stopped cancelled chunks
            else if not (o.ingests chunk)
            then stopped not_ingested chunks
            else go_on
      ]

-- `frontfillChunks`
unfoldable pub frontfill_chunks : Outside → SeqRange → Filled
frontfill_chunks o b =
    if ltb b.last b.first
    then filled b.first 0 []
    else if not (o.has_backend b)
    then stopped no_backend []
    else if not (o.prepares b)
    then stopped not_prepared []
    else frontfill_loop o b.last (suc (suc (b.last - b.first))) b.first []

-- `databaseInfo`, without the reader
pub record DatabaseInfo : Type 0 where
  pub sequences : SeqRange
  pub is_new_db : Bool

pub data Planned : Type 0 where
  planned : FillBounds → Planned
  refused : FillError → Planned

-- `fillStartMin` of `setBounds`
unfoldable pub fill_start_min : ℕ → ℕ → ℕ → ℕ
fill_start_min tip n_backfill oldest =
    if leb (u32 (n_backfill + 1)) tip then max (u32 (sub32 tip n_backfill + 1)) oldest else oldest

-- The `switch` of `setBounds`
unfoldable pub plan : DatabaseInfo → ℕ → ℕ → ℕ → Planned
plan db tip n start =
    if db.is_new_db
    then planned (record { backfill = no_range; frontfill = range start 0; n_backfill = n })
    else if leb db.sequences.first start
    then planned (record {
      backfill = no_range;
      frontfill = range (u32 (db.sequences.last + 1)) 0;
      n_backfill = n;
    })
    else if ltb tip db.sequences.first
    then refused tip_behind_database
    else planned (record {
      backfill = range start (sub32 db.sequences.first 1);
      frontfill = range (u32 (db.sequences.last + 1)) 0;
      n_backfill = n;
    })

-- `setBounds`, with the first tip
unfoldable pub set_bounds : Outside → DatabaseInfo → ℕ → ℕ → Planned
set_bounds o db oldest retention_window = elim (o.tip 0) [
  | none ↦ refused no_tip
  | some tip ↦
      plan db tip (min retention_window tip) (fill_start_min tip (min retention_window tip) oldest)
]

-- `needBackfillPhase`
unfoldable pub need_backfill_phase : FillBounds → Bool
need_backfill_phase b = not (is_empty b.backfill)

-- The end of a round that fills: the next `First`, where the chunks were committed.
unfoldable pub moved : ℕ → ℕ → Filled → Filled
moved next k (filled _ _ chunks) = filled next k chunks
moved next k (stopped e chunks) = stopped e chunks
moved next k out_of_fuel = out_of_fuel

-- One round of `runFrontfill` from `frontfill.First`: what it commits, and the next `First`.
unfoldable pub frontfill_round : Outside → ℕ → ℕ → Filled
frontfill_round o k first = elim (o.tip k) [
  | none ↦ stopped no_tip []
  | some tip ↦
      let last = o.prev_checkpoint tip in
      let next = max first (u32 (last + 1)) in
      if ltb first last
      then moved next (k + 1) (frontfill_chunks o (range first last))
      else filled next (k + 1) []
]

abbrev pub after : List SeqRange → Filled → Filled
after chunks (filled next k more) = filled next k (chunks ++ more)
after chunks (stopped e more) = stopped e (chunks ++ more)
after chunks out_of_fuel = out_of_fuel

-- A step, and on its success what follows, with the chunks of both.
unfoldable pub and_then : Filled → (ℕ → ℕ → Filled) → Filled
and_then (filled next k chunks) rest = after chunks (rest k next)
and_then (stopped e chunks) rest = stopped e chunks
and_then out_of_fuel rest = out_of_fuel

-- The loop of `runFrontfill`
unfoldable pub frontfill_rounds : Outside → ℕ → ℕ → ℕ → Filled
frontfill_rounds o zero k first = filled first k []
frontfill_rounds o (suc rounds) k first =
    and_then (frontfill_round o k first) (frontfill_rounds o rounds)

-- `runFrontfill`: one round after a backfill, two without one
unfoldable pub run_frontfill : Outside → ℕ → FillBounds → Filled
run_frontfill o k b =
    frontfill_rounds o (if need_backfill_phase b then 1 else 2) k b.frontfill.first
