-- ===== src/Backlog/Safety.antt =====
-- What the limiter promises its callers.
use stellar_rpc.Prelude.{
  ℕ, ◌+◌, ◌≤◌, ◌<◌, ◌≡◌, Bool, true, false, some, List, [], ◌∷◌, get_elem?, set, length-set, arith,
  u64_mod, refl, ◌∙◌, ◌⊎◌, inl, inr,
}
use stellar_rpc.Prelude.Counting.{All, count_if, count_if-set, count_if-le-length}
use native.Mathlib.Decide.{dec_lt}
use stellar_rpc.Backlog.{
  Limiter, Pc, arriving, passed, over, rejected, running, served, Move, pass, pass_done, exceed,
  back_out, reject_first, reject_again, admit, enter, leave, uncount, lower_gauge, clear, System,
  step, Reach, here, next,
}
use stellar_rpc.Backlog.Invariant.{Reach-IsSound, is_inside, is_counted, is_over, is_gauged}

abbrev pub is_running : Pc → Bool
is_running running = true
is_running _ = false

running-le-inside : (xs : List Pc) → count_if is_running xs ≤ count_if is_inside xs
running-le-inside [] = omega arith
running-le-inside (p ∷ xs) = ground (arith, running-le-inside xs)

Move-limit : {q q' : Limiter} {p p' : Pc} → Move q p q' p' → q'.limit ≡ q.limit
Move-limit (pass e) = refl
Move-limit pass_done = refl
Move-limit (exceed e l) = refl
Move-limit back_out = refl
Move-limit (reject_first e) = refl
Move-limit (reject_again e) = refl
Move-limit (admit e l) = refl
Move-limit enter = refl
Move-limit leave = refl
Move-limit uncount = refl
Move-limit lower_gauge = refl
Move-limit clear = refl

Reach-limit : {limit n : ℕ} {s : System} → Reach limit n s → s.limiter.limit ≡ limit
Reach-limit here = refl
Reach-limit (next r (step i h m)) = Move-limit m ∙ Reach-limit r

-- In no interleaving of fewer than 2^64 requests are more than `limit` of them in the downstream
-- handler at once, past the limiter's count.
pub running-le-limit :
    (limit n : ℕ) {s : System}
    → n < u64_mod
    → Reach limit n s
    → count_if is_running s.requests ≤ limit
running-le-limit limit n {s} h r =
    omega (arith, running-le-inside s.requests, (Reach-IsSound limit n h r).limited, Reach-limit r)

-- A request that has gone its whole way.
abbrev pub is_finished : Pc → Bool
is_finished passed = true
is_finished rejected = true
is_finished served = true
is_finished _ = false

finished_counts :
    (xs : List Pc)
    → All (λ p. is_finished p ≡ true) xs
    → (count_if is_counted xs ≡ 0) × (count_if is_gauged xs ≡ 0)
finished_counts [] h = (refl, refl)
finished_counts (p ∷ xs) h = ground (arith, finished_counts xs h.1)

-- No slot leaks: when every request is finished, by whatever interleaving, `pending` is 0 again and
-- the gauge is back where it began.
pub finished-pending :
    (limit n : ℕ) {s : System}
    → n < u64_mod
    → Reach limit n s
    → All (λ p. is_finished p ≡ true) s.requests
    → (s.limiter.pending ≡ 0) × (s.limiter.gauge_incs ≡ s.limiter.gauge_decs)
finished-pending limit n {s} h r f =
    let v = Reach-IsSound limit n h r in
    let (none_counted, none_gauged) = finished_counts s.requests f in
    (omega (arith, v.counted), omega (arith, v.gauged))

-- A new request is turned away only while `limit` others are let in or about to back out; and if none
-- is about to back out, only while exactly `limit` are let in.
pub exceed_needs_full :
    (limit n : ℕ) {s : System} (i : ℕ) {q : Limiter}
    → n < u64_mod
    → Reach limit n s
    → get_elem? s.requests i ≡ some arriving
    → Move s.limiter arriving q over
    → (limit ≤ count_if is_inside s.requests + count_if is_over s.requests)
      × ((0 < count_if is_over s.requests) ⊎ (count_if is_inside s.requests ≡ limit))
exceed_needs_full limit n {s} i h r at (exceed e l) =
    let v = Reach-IsSound limit n h r in
    let crowded : limit ≤ count_if is_inside s.requests + count_if is_over s.requests = omega (
      arith,
      v.counted,
      v.split,
      v.few,
      Reach-limit r,
      count_if-set is_counted s.requests i arriving over at,
      count_if-le-length is_counted (set s.requests i over),
      length-set s.requests i over,
    ) in
    (
      crowded,
      elim (dec_lt 0 (count_if is_over s.requests)) [
        | yes backing ↦ inl backing
        | no clean ↦ inr (omega (arith, v.limited, Reach-limit r))
      ],
    )
