-- ===== src/RequestDuration.antt =====
-- cmd/stellar-rpc/internal/network/requestdurationlimiter.go: the limiter of a request's duration, in its
-- HTTP and its JSON-RPC form, which wait for the downstream handler in the same loop. Times are
-- nanoseconds from the request's start. A channel of a timer holds its one tick until it is received.
-- The counters and the logger are taken to be there; the code skips their calls where they are nil.
pub mod Loop
pub mod Writer
mod Tests
use stellar_rpc.Prelude.{
  ℕ, ◌+◌, ◌≤◌, ◌≡◌, ◌≢◌, Bool, true, false, not, ◌&&◌, Option, none, some, List, [], ◌∷◌, ltb, ◌==◌,
  if◌then◌else◌,
}

-- `maxDuration`, math.MaxInt64
abbrev pub max_duration : ℕ
max_duration = 9223372036854775807

-- `requestDurationLimiter`; the thresholds are not negative.
pub record DurationLimiter : Type 0 where
  pub warning_threshold : ℕ
  pub limit_threshold : ℕ

-- `MakeHTTPRequestDurationLimiter` and `MakeJrpcRequestDurationLimiter`
unfoldable pub make_request_duration_limiter : ℕ → ℕ → DurationLimiter
make_request_duration_limiter warning limit = record {
  warning_threshold = if ltb limit warning then limit else warning;
  limit_threshold = limit;
}

abbrev pub passes_through : DurationLimiter → Bool
passes_through q = q.limit_threshold == max_duration

-- `warningCh` and `limitCh`: when they tick; `none` is a nil channel.
unfoldable pub warning_timer : DurationLimiter → Option ℕ
warning_timer q =
    if not (q.warning_threshold == 0) && ltb q.warning_threshold q.limit_threshold
    then some q.warning_threshold
    else none

unfoldable pub limit_timer : DurationLimiter → Option ℕ
limit_timer q = if not (q.limit_threshold == 0) then some q.limit_threshold else none

-- How the downstream handler ends: with what it returns or has written, or in a panic.
pub data Outcome (A : Type 0) : Type 0 where
  finished : A → Outcome A
  panicked : Outcome A

-- What the caller gets: ErrRequestExceededProcessingLimitThreshold or 504, the error of its own context
-- (nothing, in the HTTP form), what the handler made, or ErrFailToProcessDueToInternalIssue or 500.
pub data Reply (A : Type 0) : Type 0 where
  exceeded : Reply A
  context_failed : Reply A
  replied : A → Reply A
  failed : Reply A

-- The loop's variables, the counters, and the goroutine of the handler
pub record Wait (A : Type 0) : Type 0 where
  pub warn : Bool
  pub warning_ch : Option ℕ
  pub limit_ch : Option ℕ
  pub downstream : Option (Outcome A)  -- `none` while it runs
  pub is_cancelled : Bool  -- the context handed downstream
  pub warning_counter : ℕ
  pub limit_counter : ℕ
  pub reply : Option (Reply A)

module _ {A : Type 0} where
  abbrev pub begin_wait : DurationLimiter → Wait A
  begin_wait q = record {
    warn = false;
    warning_ch = warning_timer q;
    limit_ch = limit_timer q;
    downstream = none;
    is_cancelled = false;
    warning_counter = 0;
    limit_counter = 0;
    reply = none;
  }

  -- The case of `warningCh`
  unfoldable pub on_warning : Wait A → Wait A
  on_warning w = record w { warn = true; warning_ch = none }

  -- The case of `limitCh`, where the caller's context has failed or not
  unfoldable pub on_limit : Bool → Wait A → Wait A
  on_limit is_alive w = record w {
    limit_ch = none;
    is_cancelled = true;
    limit_counter = w.limit_counter + 1;
    reply = some (if is_alive then exceeded else context_failed);
  }

  abbrev pub reply_of : Outcome A → Reply A
  reply_of (finished a) = replied a
  reply_of panicked = failed

  -- The case of `requestCompleted`, with the deferred cancellation
  unfoldable pub on_completed : Outcome A → Wait A → Wait A
  on_completed outcome w = record w {
    is_cancelled = true;
    warning_counter = if w.warn then w.warning_counter + 1 else w.warning_counter;
    reply = some (reply_of outcome);
  }

-- A turn at a time: time passes, the handler ends, or the select takes one of the cases that are ready.
pub data Turn {A : Type 0} : ℕ → Wait A → ℕ → Wait A → Type 0 where
  pass : {t t' : ℕ} {w : Wait A} → t ≤ t' → Turn t w t' w
  end :
      {t : ℕ} {w : Wait A} (outcome : Outcome A)
      → w.downstream ≡ none
      → Turn t w t (record w { downstream = some outcome })
  warning :
      {t : ℕ} {w : Wait A} (due : ℕ)
      → w.reply ≡ none
      → w.warning_ch ≡ some due
      → due ≤ t
      → Turn t w t (on_warning w)
  limit :
      {t : ℕ} {w : Wait A} (is_alive : Bool) (due : ℕ)
      → w.reply ≡ none
      → w.limit_ch ≡ some due
      → due ≤ t
      → Turn t w t (on_limit is_alive w)
  completed :
      {t : ℕ} {w : Wait A} (outcome : Outcome A)
      → w.reply ≡ none
      → w.downstream ≡ some outcome
      → Turn t w t (on_completed outcome w)

pub data Waits {A : Type 0} (q : DurationLimiter) : ℕ → Wait A → Type 0 where
  begun : Waits q 0 (begin_wait q)
  turned : {t t' : ℕ} {w w' : Wait A} → Waits q t w → Turn t w t' w' → Waits q t' w'
