-- ===== src/Backlog.antt =====
-- cmd/stellar-rpc/internal/network/backlogQ.go: the limiter of concurrent requests, in its HTTP form
-- (`ServeHTTP`) and its JSON-RPC form (`Handle`), which touch the shared counters in the same order.
-- Each atomic access and each call of the gauge is one step of one request. The gauge and the logger are
-- taken to be there; the code skips their calls where they are nil.
pub mod Invariant
pub mod Safety
mod Tests
use stellar_rpc.Prelude.{
  ℕ, ◌+◌, ◌%◌, ◌≤◌, ◌<◌, ◌≡◌, ◌≢◌, Bool, true, false, Option, some, List, length, get_elem?, set,
  u64, u64_mod, replicate,
}

-- `RequestBacklogQueueNoLimit`, math.MaxUint64
abbrev pub no_limit : ℕ
no_limit = 18446744073709551615

-- `backlogQLimiter`: uint64 counters. Of the gauge, the calls of Inc and of Dec are counted; of the
-- logger, the messages.
pub record Limiter : Type 0 where
  pub limit : ℕ
  pub pending : ℕ
  pub limit_reached : ℕ
  pub gauge_incs : ℕ
  pub gauge_decs : ℕ
  pub messages : ℕ

-- `MakeHTTPBacklogQueueLimiter` and `MakeJrpcBacklogQueueLimiter`
abbrev pub make_limiter : ℕ → Limiter
make_limiter limit = record {
  limit = limit;
  pending = 0;
  limit_reached = 0;
  gauge_incs = 0;
  gauge_decs = 0;
  messages = 0;
}

-- Where a request stands.
pub data Pc : Type 0 where
  arriving : Pc
  passing : Pc  -- downstream, past a limiter with no limit
  passed : Pc
  over : Pc  -- counted, and above the limit
  backed_out : Pc  -- no longer counted, before the compare-and-swap
  rejected : Pc  -- 503, or the error of the JSON-RPC form
  admitted : Pc  -- counted, before gauge.Inc
  running : Pc  -- in the downstream handler
  leaving : Pc  -- the deferred function begins
  uncounted : Pc  -- before gauge.Dec
  clearing : Pc  -- before limitReached is reset
  served : Pc

-- `atomic.AddUint64(&q.pending, 1)` and `atomic.AddUint64(&q.pending, ^uint64(0))`
abbrev pub add_one : ℕ → ℕ
add_one pending = u64 (pending + 1)

abbrev pub sub_one : ℕ → ℕ
sub_one pending = u64 (pending + 18446744073709551615)

-- The downstream handler may return or panic: the deferred function runs on either.
pub data Move (q : Limiter) : Pc → Limiter → Pc → Type 0 where
  pass : q.limit ≡ no_limit → Move q arriving q passing
  pass_done : Move q passing q passed
  exceed :
      q.limit ≢ no_limit
      → q.limit < add_one q.pending
      → Move q arriving (record q { pending = add_one q.pending }) over
  back_out : Move q over (record q { pending = sub_one q.pending }) backed_out
  reject_first :
      q.limit_reached ≡ 0
      → Move q backed_out (record q { limit_reached = 1; messages = q.messages + 1 }) rejected
  reject_again : q.limit_reached ≢ 0 → Move q backed_out q rejected
  admit :
      q.limit ≢ no_limit
      → add_one q.pending ≤ q.limit
      → Move q arriving (record q { pending = add_one q.pending }) admitted
  enter : Move q admitted (record q { gauge_incs = q.gauge_incs + 1 }) running
  leave : Move q running q leaving
  uncount : Move q leaving (record q { pending = sub_one q.pending }) uncounted
  lower_gauge : Move q uncounted (record q { gauge_decs = q.gauge_decs + 1 }) clearing
  clear : Move q clearing (record q { limit_reached = 0 }) served

-- A limiter and the requests that it ever sees, in any state.
pub record System : Type 0 where
  pub limiter : Limiter
  pub requests : List Pc

pub data Step (s : System) : System → Type 0 where
  step :
      (i : ℕ) {p : Pc} {q : Limiter} {p' : Pc}
      → get_elem? s.requests i ≡ some p
      → Move s.limiter p q p'
      → Step s (record { limiter = q; requests = set s.requests i p' })

abbrev pub start : ℕ → ℕ → System
start limit n = record { limiter = make_limiter limit; requests = replicate n arriving }

pub data Reach (limit n : ℕ) : System → Type 0 where
  here : Reach limit n (start limit n)
  next : {s t : System} → Reach limit n s → Step s t → Reach limit n t
