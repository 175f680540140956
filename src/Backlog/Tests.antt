-- ===== src/Backlog/Tests.antt =====
-- Two requests at a limiter of one.
use stellar_rpc.Prelude.{ℕ, ◌+◌, ◌≤◌, ◌<◌, ◌≡◌, refl, [], ◌∷◌, arith, ◌⊎◌}
use stellar_rpc.Prelude.Counting.{count_if}
use stellar_rpc.Backlog.{
  Limiter, arriving, over, rejected, running, served, Move, exceed, back_out, reject_first, admit,
  enter, leave, uncount, lower_gauge, clear, System, step, Reach, here, next,
}
use stellar_rpc.Backlog.Invariant.{IsSound, Reach-IsSound, is_inside, is_over}
use stellar_rpc.Backlog.Safety.{is_running, running-le-limit, finished-pending, exceed_needs_full}

abbrev limiter_at : ℕ → ℕ → ℕ → ℕ → ℕ → Limiter
limiter_at pending reached incs decs messages = record {
  limit = 1;
  pending = pending;
  limit_reached = reached;
  gauge_incs = incs;
  gauge_decs = decs;
  messages = messages;
}

abbrev busy : System
busy = record { limiter = limiter_at 1 0 1 0 0; requests = running ∷ arriving ∷ [] }

busy_reached : Reach 1 2 busy
busy_reached =
    next (next here (step 0 refl (admit (omega arith) (omega arith)))) (step 0 refl enter)

second_over : Move busy.limiter arriving (limiter_at 2 0 1 0 0) over
second_over = exceed (omega arith) (omega arith)

abbrev quiet : System
quiet = record { limiter = limiter_at 0 0 1 1 1; requests = served ∷ rejected ∷ [] }

quiet_reached : Reach 1 2 quiet
quiet_reached =
    next
      (next
        (next
          (next
            (next (next (next busy_reached (step 1 refl second_over)) (step 1 refl back_out))
              (step 1 refl (reject_first refl)))
            (step 0 refl leave))
          (step 0 refl uncount))
        (step 0 refl lower_gauge))
      (step 0 refl clear)

Reach-IsSound_example : IsSound busy
Reach-IsSound_example = Reach-IsSound 1 2 (omega arith) busy_reached

running-le-limit_example : count_if is_running busy.requests ≤ 1
running-le-limit_example = running-le-limit 1 2 (omega arith) busy_reached

finished-pending_example :
    (quiet.limiter.pending ≡ 0) × (quiet.limiter.gauge_incs ≡ quiet.limiter.gauge_decs)
finished-pending_example = finished-pending 1 2 (omega arith) quiet_reached (refl, (refl, tt))

exceed_needs_full_example :
    (1 ≤ count_if is_inside busy.requests + count_if is_over busy.requests)
    × ((0 < count_if is_over busy.requests) ⊎ (count_if is_inside busy.requests ≡ 1))
exceed_needs_full_example = exceed_needs_full 1 2 1 (omega arith) busy_reached refl second_over
