-- ===== src/Window.antt =====
-- cmd/stellar-rpc/internal/ledgerbucketwindow/ledgerbucketwindow.go: the circular buffer of the
-- buckets of the latest ledgers. A method that mutates the window returns the new one. `none` is a
-- panic (an index out of range).
pub mod Queue
pub mod Ring
pub mod Refine
pub mod Range
pub mod History
mod Tests
use stellar_rpc.Prelude.{
  ℕ, zero, suc, ◌+◌, ◌-◌, ◌%◌, ◌≡◌, Bool, true, false, Option, none, some, List, [], ◌∷◌, ◌++◌, ltb,
  leb, ◌==◌, if◌then◌else◌, length, get_elem?, set, u32,
}

-- An int64 close time: it is only moved here, so `negsuc n`, -(n + 1), needs no arithmetic.
pub data Timestamp : Type 0 where
  pos : ℕ → Timestamp
  negsuc : ℕ → Timestamp

-- `LedgerBucket`
pub record LedgerBucket (A : Type 0) : Type 0 where
  pub ledger_seq : ℕ  -- uint32
  pub ledger_close_timestamp : Timestamp
  pub bucket_content : A

-- `LedgerBucketWindow`, with the capacity that Go keeps in the slice header of `buckets`.
pub record LedgerBucketWindow (A : Type 0) : Type 0 where
  pub buckets : List (LedgerBucket A)
  pub cap : ℕ
  pub start : ℕ  -- uint32

-- What `Append` returns: the bucket evicted, if any, or the error with its two sequences.
pub data Appended (A : Type 0) : Type 0 where
  evicted : Option (LedgerBucket A) → Appended A
  not_contiguous : (expected received : ℕ) → Appended A

-- `LedgerInfo` and `LedgerRange`
pub record LedgerInfo : Type 0 where
  pub sequence : ℕ
  pub close_time : Timestamp

pub record LedgerRange : Type 0 where
  pub first_ledger : LedgerInfo
  pub last_ledger : LedgerInfo

-- `LedgerRange{}`
abbrev pub zero_range : LedgerRange
zero_range = record {
  first_ledger = record { sequence = 0; close_time = pos 0 };
  last_ledger = record { sequence = 0; close_time = pos 0 };
}

-- `LedgerSeqRange` of the protocol package, and `ToLedgerSeqRange`
pub record LedgerSeqRange : Type 0 where
  pub first_ledger : ℕ
  pub last_ledger : ℕ

unfoldable pub to_ledger_seq_range : LedgerRange → LedgerSeqRange
to_ledger_seq_range lr = record {
  first_ledger = lr.first_ledger.sequence;
  last_ledger = lr.last_ledger.sequence;
}

abbrev pub info_of : {A : Type 0} → LedgerBucket A → LedgerInfo
info_of b = record { sequence = b.ledger_seq; close_time = b.ledger_close_timestamp }

module _ {A : Type 0} where
  -- `Len`: a conversion of Go's int to uint32.
  unfoldable pub len : LedgerBucketWindow A → ℕ
  len w = u32 (length w.buckets)

  -- `Get`: the index wraps at 2^32 before it is reduced.
  unfoldable pub get : LedgerBucketWindow A → ℕ → Option (LedgerBucket A)
  unfolding len
  get w i = if leb (len w) i then none else get_elem? w.buckets (u32 (w.start + i) % len w)

  -- The second half of `Append`, once the sequence has been accepted.
  unfoldable pub place :
      LedgerBucketWindow A → LedgerBucket A → Option (LedgerBucketWindow A × Appended A)
  unfolding len
  place w bucket =
      if ltb (len w) (u32 w.cap)
      then some (record w { buckets = w.buckets ++ (bucket ∷ []) }, evicted none)
      else elim (get_elem? w.buckets w.start) [
        | none ↦ none
        | some saved ↦ some (
          record w { buckets = set w.buckets w.start bucket; start = u32 (w.start + 1) % len w },
          evicted (some saved),
        )
      ]

  -- `Append`
  unfoldable pub append :
      LedgerBucketWindow A → LedgerBucket A → Option (LedgerBucketWindow A × Appended A)
  unfolding len
  append w bucket =
      if ltb 0 (len w)
      then elim (get_elem? w.buckets w.start) [
        | none ↦ none
        | some head ↦
            if u32 (head.ledger_seq + len w) == bucket.ledger_seq
            then place w bucket
            else some (w, not_contiguous (u32 (head.ledger_seq + len w)) bucket.ledger_seq)
      ]
      else place w bucket

  -- `GetLedgerRange`
  unfoldable pub get_ledger_range : LedgerBucketWindow A → Option LedgerRange
  get_ledger_range w = if len w == 0 then some zero_range else elim (get w 0) [
    | none ↦ none
    | some first ↦ elim (get w (len w - 1)) [
      | none ↦ none
      | some last ↦ some (record { first_ledger = info_of first; last_ledger = info_of last })
    ]
  ]

  -- `Reset` keeps the slice's capacity.
  unfoldable pub reset : LedgerBucketWindow A → LedgerBucketWindow A
  reset w = record w { buckets = []; start = 0 }

-- `NewLedgerBucketWindow`
unfoldable pub new_ledger_bucket_window : (A : Type 0) → ℕ → LedgerBucketWindow A
new_ledger_bucket_window A retention_window = record {
  buckets = [];
  cap = retention_window;
  start = 0;
}
