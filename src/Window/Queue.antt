-- ===== src/Window/Queue.antt =====
-- What a window promises: a queue of the buckets of consecutive ledgers, oldest first, of at most
-- `cap` buckets, of which the oldest gives way to a new one.
use stellar_rpc.Prelude.{
  ℕ, ◌+◌, ◌≡◌, none, some, List, [], ◌∷◌, ◌++◌, ltb, ◌==◌, if◌then◌else◌, length, u32,
}
use stellar_rpc.Window.{LedgerBucket, Appended, evicted, not_contiguous}

abbrev pub Queue : Type 0 → Type 0
Queue A = List (LedgerBucket A)

module _ {A : Type 0} where
  -- The buckets carry the sequences n, n + 1, ... modulo 2^32.
  abbrev pub IsNumbered : ℕ → Queue A → Type 0
  IsNumbered n [] = Unit
  IsNumbered n (b ∷ q) = (b.ledger_seq ≡ u32 n) × IsNumbered (n + 1) q

  -- Each ledger follows the one before it.
  abbrev pub IsContiguous : Queue A → Type 0
  IsContiguous [] = Unit
  IsContiguous (o ∷ q) = IsNumbered o.ledger_seq (o ∷ q)

  abbrev pub last_of : LedgerBucket A → Queue A → LedgerBucket A
  last_of o [] = o
  last_of o (b ∷ q) = last_of b q

  -- The newest bucket goes behind the others, and the oldest leaves a full queue.
  unfoldable pub enqueue : ℕ → Queue A → LedgerBucket A → Queue A × Appended A
  enqueue cap [] b = (b ∷ [], evicted none)
  enqueue cap (o ∷ q) b =
      if ltb (length (o ∷ q)) cap
      then (o ∷ q ++ (b ∷ []), evicted none)
      else (q ++ (b ∷ []), evicted (some o))

  -- A bucket is refused if it is not that of the next ledger.
  unfoldable pub push : ℕ → Queue A → LedgerBucket A → Queue A × Appended A
  unfolding enqueue
  push cap [] b = enqueue cap [] b
  push cap (o ∷ q) b =
      let next = u32 (o.ledger_seq + length (o ∷ q)) in
      if next == b.ledger_seq
      then enqueue cap (o ∷ q) b
      else (o ∷ q, not_contiguous next b.ledger_seq)
