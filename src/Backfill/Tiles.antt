-- ===== src/Backfill/Tiles.antt =====
-- Runs of chunks with no gap and no overlap.
use stellar_rpc.Prelude.{ℕ, ◌+◌, ◌≤◌, ◌<◌, ◌≡◌, List, [], ◌∷◌, ◌++◌, arith}
use stellar_rpc.SeqRange.{SeqRange}
use stellar_rpc.Backfill.{chunk_size}

-- One chunk: not empty, and at most `chunk_size` ledgers.
abbrev pub IsChunk : SeqRange → Type 0
IsChunk c = (c.first ≤ c.last) × (c.last < c.first + chunk_size)

-- The chunks, each directly below the one before it, make up the ledgers from `lo` up to `top`,
-- `top` not included.
abbrev pub TilesDown : ℕ → List SeqRange → ℕ → Type 0
TilesDown top [] lo = lo ≡ top
TilesDown top (c ∷ cs) lo = (c.last + 1 ≡ top) × IsChunk c × TilesDown c.first cs lo

-- The same, each directly above the one before it.
abbrev pub TilesUp : ℕ → List SeqRange → ℕ → Type 0
TilesUp lo [] top = lo ≡ top
TilesUp lo (c ∷ cs) top = (c.first ≡ lo) × IsChunk c × TilesUp (c.last + 1) cs top

pub TilesDown-snoc :
    (top : ℕ) (cs : List SeqRange) (lo : ℕ) (c : SeqRange)
    → TilesDown top cs lo
    → c.last + 1 ≡ lo
    → IsChunk c
    → TilesDown top (cs ++ (c ∷ [])) c.first
TilesDown-snoc top [] lo c t e h = omega arith
TilesDown-snoc top (d ∷ cs) lo c t e h = (t.0, t.1, TilesDown-snoc d.first cs lo c t.2 e h)

pub TilesUp-snoc :
    (lo : ℕ) (cs : List SeqRange) (top : ℕ) (c : SeqRange)
    → TilesUp lo cs top
    → c.first ≡ top
    → IsChunk c
    → TilesUp lo (cs ++ (c ∷ [])) (c.last + 1)
TilesUp-snoc lo [] top c t e h = omega arith
TilesUp-snoc lo (d ∷ cs) top c t e h = (t.0, t.1, TilesUp-snoc (d.last + 1) cs top c t.2 e h)
