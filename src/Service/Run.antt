-- ===== src/Service/Run.antt =====
-- cmd/stellar-rpc/internal/ingest/service.go: `run`, which ingests one ledger after another until a
-- call fails. The list of calls is what is answered so far; a run that has used it up goes on.
pub mod Retained
pub mod Trace
use stellar_rpc.Prelude.{ℕ, ◌+◌, Bool, Option, none, some, List, [], ◌∷◌, u32}
use stellar_rpc.Service.{
  Service, Calls, ServiceError, ingest, NextLedger, next_ledger, get_next_ledger_sequence,
}

pub data RunState : Type 0 where
  running : Service → RunState
  stopped_by : ServiceError → Service → RunState
  not_started : NextLedger → Service → RunState
  run_panicked : RunState

-- One `ingest`, and what follows where it succeeds
abbrev pub after_ingest : Option (Service × Option ServiceError) → (Service → RunState) → RunState
after_ingest none next = run_panicked
after_ingest (some (s, some e)) next = stopped_by e s
after_ingest (some (s, none)) next = next s

-- The loop of `run`
unfoldable pub ingest_from : List Calls → ℕ → Service → RunState
ingest_from [] seq s = running s
ingest_from (c ∷ cs) seq s = after_ingest (ingest c seq s) (ingest_from cs (u32 (seq + 1)))

abbrev pub start_at : List Calls → Service → NextLedger → RunState
start_at cs s (next_ledger seq) = ingest_from cs seq s
start_at cs s other = not_started other s

-- `run`, with what SQLite, `PrepareRange` and `GetRootHAS` answer
unfoldable pub run : Bool → (ℕ → Bool) → Option ℕ → List Calls → Service → RunState
run answers prepares root cs s =
    let next = get_next_ledger_sequence answers prepares root s.store in
    start_at cs (record s { store = next.0 }) next.1
