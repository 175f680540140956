-- ===== src/SeqRange.antt =====
-- cmd/stellar-rpc/internal/db/migration.go: `LedgerSeqRange`, closed intervals of sequences, of which
-- [0, 0] stands for the empty one.
pub mod Laws
use stellar_rpc.Prelude.{ℕ, Bool, ◌&&◌, leb, ◌==◌, if◌then◌else◌, min, max}

pub record SeqRange : Type 0 where
  pub first : ℕ  -- uint32
  pub last : ℕ  -- uint32

-- `IsLedgerIncluded`
unfoldable pub is_ledger_included : SeqRange → ℕ → Bool
is_ledger_included r seq = leb r.first seq && leb seq r.last

-- `Empty`
unfoldable pub is_empty : SeqRange → Bool
is_empty r = (r.first == 0) && (r.last == 0)

-- `Merge`
unfoldable pub merge : SeqRange → SeqRange → SeqRange
merge r other =
    if is_empty r
    then other
    else if is_empty other
    then r
    else record { first = min r.first other.first; last = max r.last other.last }

-- `LedgerSeqRange{}`
abbrev pub no_range : SeqRange
no_range = record { first = 0; last = 0 }
