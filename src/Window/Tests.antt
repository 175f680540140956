-- ===== src/Window/Tests.antt =====
-- The window's theorems at concrete inputs.
use stellar_rpc.Prelude.{ℕ, ◌≡◌, refl, some, List, [], ◌∷◌, arith, ◌*◌}
use stellar_rpc.Window.{
  LedgerBucket, LedgerBucketWindow, pos, evicted, not_contiguous, append, get, place,
}
use stellar_rpc.Window.Queue.{push}
use stellar_rpc.Window.Ring.{IsValid, contents}
use stellar_rpc.Window.Refine.{Refines, append-Refines}
use stellar_rpc.Window.History.{Op, add, read, clear, run, run_queue, run_refines}

abbrev bucket : ℕ → LedgerBucket ℕ
bucket n = record { ledger_seq = n; ledger_close_timestamp = pos (5 * n); bucket_content = n }

-- Ledgers 7 to 9 in a window of three, the oldest at index 1.
abbrev turned : LedgerBucketWindow ℕ
turned = record { buckets = bucket 9 ∷ bucket 7 ∷ bucket 8 ∷ []; cap = 3; start = 1 }

turned-IsValid : IsValid turned
turned-IsValid = grind arith

append_evicts :
    append turned (bucket 10)
    ≡ some (
      record { buckets = bucket 9 ∷ bucket 10 ∷ bucket 8 ∷ []; cap = 3; start = 2 },
      evicted (some (bucket 7)),
    )
unfolding append place
append_evicts = refl

append_refuses : append turned (bucket 12) ≡ some (turned, not_contiguous 10 12)
unfolding append
append_refuses = refl

get_wraps : get turned 2 ≡ some (bucket 9)
unfolding get
get_wraps = refl

append-Refines_example :
    Refines turned (append turned (bucket 10)) (push 3 (contents turned) (bucket 10))
append-Refines_example = append-Refines turned (bucket 10) turned-IsValid

abbrev five : List (LedgerBucket ℕ)
five = bucket 3 ∷ bucket 4 ∷ bucket 5 ∷ bucket 6 ∷ bucket 7 ∷ []

abbrev calls : List (Op ℕ)
calls = add (bucket 10) ∷ read 2 ∷ read 3 ∷ add (bucket 10) ∷ clear ∷ add (bucket 4) ∷ read 0 ∷ []

run_refines_example : run turned calls ≡ run_queue 3 (contents turned) calls
run_refines_example = run_refines calls turned turned-IsValid
