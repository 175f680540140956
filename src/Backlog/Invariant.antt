-- ===== src/Backlog/Invariant.antt =====
-- What every interleaving keeps: `pending` counts the requests between their two additions, those
-- let in are at most the limit, and the gauge shows those between its two calls.
use stellar_rpc.Prelude.{
  ℕ, ◌+◌, ◌≤◌, ◌<◌, ◌≡◌, Bool, true, false, some, List, length, get_elem?, set, arith, u64_mod,
  length-set, length-replicate, refl,
}
use stellar_rpc.Prelude.Counting.{
  count_if, one_if, count_if-set, count_if-le-length, count_if-replicate,
}
use stellar_rpc.Backlog.{
  Limiter, Pc, arriving, passing, passed, over, backed_out, rejected, admitted, running, leaving,
  uncounted, clearing, served, Move, pass, pass_done, exceed, back_out, reject_first, reject_again,
  admit, enter, leave, uncount, lower_gauge, clear, System, Step, step, start, Reach, here, next,
}

-- Let in, and not yet subtracted.
abbrev pub is_inside : Pc → Bool
is_inside admitted = true
is_inside running = true
is_inside leaving = true
is_inside _ = false

-- Counted in `pending`.
abbrev pub is_counted : Pc → Bool
is_counted over = true
is_counted admitted = true
is_counted running = true
is_counted leaving = true
is_counted _ = false

abbrev pub is_over : Pc → Bool
is_over over = true
is_over _ = false

-- Between gauge.Inc and gauge.Dec.
abbrev pub is_gauged : Pc → Bool
is_gauged running = true
is_gauged leaving = true
is_gauged uncounted = true
is_gauged _ = false

pub record IsSound (s : System) : Type 0 where
  pub few : length s.requests < u64_mod
  pub counted : s.limiter.pending ≡ count_if is_counted s.requests
  pub split :
      count_if is_counted s.requests ≡ count_if is_inside s.requests + count_if is_over s.requests
  pub limited : count_if is_inside s.requests ≤ s.limiter.limit
  pub gauged : s.limiter.gauge_incs ≡ s.limiter.gauge_decs + count_if is_gauged s.requests

-- What moving one request from `p` to `p'` does to the counts.
abbrev Moved : List Pc → ℕ → Pc → Pc → Type 0
Moved xs i p p' =
    (length (set xs i p') ≡ length xs)
    × (count_if is_counted (set xs i p') + one_if (is_counted p)
        ≡ count_if is_counted xs + one_if (is_counted p'))
    × (count_if is_inside (set xs i p') + one_if (is_inside p)
        ≡ count_if is_inside xs + one_if (is_inside p'))
    × (count_if is_over (set xs i p') + one_if (is_over p)
        ≡ count_if is_over xs + one_if (is_over p'))
    × (count_if is_gauged (set xs i p') + one_if (is_gauged p)
        ≡ count_if is_gauged xs + one_if (is_gauged p'))
    × (count_if is_counted (set xs i p') ≤ length (set xs i p'))

set-Moved : (xs : List Pc) (i : ℕ) (p p' : Pc) → get_elem? xs i ≡ some p → Moved xs i p p'
set-Moved xs i p p' h = (
  length-set xs i p',
  count_if-set is_counted xs i p p' h,
  count_if-set is_inside xs i p p' h,
  count_if-set is_over xs i p p' h,
  count_if-set is_gauged xs i p p' h,
  count_if-le-length is_counted (set xs i p'),
)

-- Every step of a request keeps the invariant, whatever the others are doing.
Move-IsSound :
    (q : Limiter) (xs : List Pc) (i : ℕ) {p : Pc} {q' : Limiter} {p' : Pc}
    → get_elem? xs i ≡ some p
    → Move q p q' p'
    → IsSound (record { limiter = q; requests = xs })
    → IsSound (record { limiter = q'; requests = set xs i p' })
Move-IsSound q xs i h (pass e) v = omega (arith, set-Moved xs i arriving passing h)
Move-IsSound q xs i h pass_done v = omega (arith, set-Moved xs i passing passed h)
Move-IsSound q xs i h (exceed e l) v = omega (arith, set-Moved xs i arriving over h)
Move-IsSound q xs i h back_out v = omega (arith, set-Moved xs i over backed_out h)
Move-IsSound q xs i h (reject_first e) v = omega (arith, set-Moved xs i backed_out rejected h)
Move-IsSound q xs i h (reject_again e) v = omega (arith, set-Moved xs i backed_out rejected h)
Move-IsSound q xs i h (admit e l) v = omega (arith, set-Moved xs i arriving admitted h)
Move-IsSound q xs i h enter v = omega (arith, set-Moved xs i admitted running h)
Move-IsSound q xs i h leave v = omega (arith, set-Moved xs i running leaving h)
Move-IsSound q xs i h uncount v = omega (arith, set-Moved xs i leaving uncounted h)
Move-IsSound q xs i h lower_gauge v = omega (arith, set-Moved xs i uncounted clearing h)
Move-IsSound q xs i h clear v = omega (arith, set-Moved xs i clearing served h)

start-IsSound : (limit n : ℕ) → n < u64_mod → IsSound (start limit n)
start-IsSound limit n h = omega (
  arith,
  length-replicate n arriving,
  count_if-replicate is_counted n arriving refl,
  count_if-replicate is_inside n arriving refl,
  count_if-replicate is_over n arriving refl,
  count_if-replicate is_gauged n arriving refl,
)

pub Step-IsSound : {s t : System} → Step s t → IsSound s → IsSound t
Step-IsSound {s} (step i h m) v = Move-IsSound s.limiter s.requests i h m v

-- Every interleaving of fewer than 2^64 requests keeps the invariant: `pending` is exactly the number
-- of requests between their two additions, which are those let in and those about to back out; those
-- let in are never more than the limit; and the gauge shows exactly those between its two calls.
pub Reach-IsSound : (limit n : ℕ) {s : System} → n < u64_mod → Reach limit n s → IsSound s
Reach-IsSound limit n h here = start-IsSound limit n h
Reach-IsSound limit n h (next r st) = Step-IsSound st (Reach-IsSound limit n h r)
