-- ===== src/RequestDuration/Tests.antt =====
-- The duration limiter on concrete requests.
use stellar_rpc.Prelude.{ℕ, ◌≡◌, ◌≢◌, refl, ap, ◌∙◌, Option, none, some, [], ◌∷◌, arith}
use stellar_rpc.RequestDuration.{
  DurationLimiter, finished, Wait, begin_wait, on_warning, on_completed, pass, end, warning,
  completed, Waits, begun, turned, warning_timer,
}
use stellar_rpc.RequestDuration.Loop.{IsSound, waits-IsSound}
use stellar_rpc.RequestDuration.Writer.{ResponseWriter, WriterCalls}

abbrev limiter : DurationLimiter
limiter = record { warning_threshold = 10; limit_threshold = 20 }

abbrev warned : Wait ℕ
warned = on_warning (begin_wait limiter)

abbrev done : Wait ℕ
done = record warned { downstream = some (finished 7) }

-- The handler ends after the warning and before the limit.
warned-Waits : Waits {A = ℕ} limiter 15 warned
unfolding warning_timer
warned-Waits = turned (turned begun (pass (omega arith))) (warning 10 refl refl (omega arith))

completed-Waits : Waits {A = ℕ} limiter 15 (on_completed (finished 7) done)
unfolding on_warning
completed-Waits =
    turned (turned warned-Waits (end (finished 7) refl)) (completed (finished 7) refl refl)

waits-IsSound_example : IsSound limiter 15 (on_completed (finished 7) done)
waits-IsSound_example = waits-IsSound limiter completed-Waits

abbrev calls : WriterCalls
calls = record { headers = (1, 5) ∷ []; status = some 404; chunks = (3 ∷ 4 ∷ []) ∷ (5 ∷ []) ∷ [] }

abbrev fresh : ResponseWriter
fresh = record { header = (2, 6) ∷ []; sent = none; body = [] }

some_status : (status : ℕ) → calls.status ≡ some status → status ≢ 0
some_status status e zero' = absurd (clash (ap (λ o. get o) e ∙ zero'))
  where
    get : Option ℕ → ℕ
    get none = 1
    get (some n) = n

    clash : ◌≡◌ {A = ℕ} 404 0 → ⊥
    clash e = omega arith
