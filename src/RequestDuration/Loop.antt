-- ===== src/RequestDuration/Loop.antt =====
-- What the loop keeps, whichever of its ready cases it takes.
use stellar_rpc.Prelude.{
  ℕ, ◌+◌, ◌≤◌, ◌<◌, ◌≡◌, ◌≢◌, refl, sym, ◌∙◌, inl, inr, Bool, true, false, Option, none, some,
  arith, if◌then◌else◌, max, ltb, ◌==◌, ltb→lt, ==→ne, Bool-cases, some_eq,
}
use mathlib.Core.Path.{subst}
use stellar_rpc.RequestDuration.{
  DurationLimiter, Outcome, finished, panicked, Reply, exceeded, context_failed, replied, failed,
  Wait, on_warning, on_limit, on_completed, reply_of, Turn, pass, end, warning, limit, completed,
  Waits, begun, turned, warning_timer, limit_timer,
}

abbrev pub count : Bool → ℕ
count b = if b then 1 else 0

counted_once : (b : Bool) (n : ℕ) → n ≡ 0 → (if b then n + 1 else n) ≡ count b
counted_once true n e = omega arith
counted_once false n e = e

module _ (q : DurationLimiter) where
  -- There is a warning below the limit, and its threshold has passed.
  abbrev pub IsSlow : ℕ → Type 0
  IsSlow t =
      (q.warning_threshold ≢ 0)
      × (q.warning_threshold < q.limit_threshold)
      × (q.warning_threshold ≤ t)

  -- The timers tick at the thresholds of the limiter, where it has them.
  limit_timer_due :
      (due : ℕ) → limit_timer q ≡ some due → (q.limit_threshold ≢ 0) × (due ≡ q.limit_threshold)
  unfolding limit_timer
  limit_timer_due due h = elim (Bool-cases (q.limit_threshold == 0)) [
    | inl unlimited ↦
        let e : limit_timer q ≡ none = rw (unlimited, limit_timer) refl in
        let no : ⊥ = cc in absurd no
    | inr limited ↦
        let e : limit_timer q ≡ some q.limit_threshold = rw (limited, limit_timer) refl in
        (==→ne _ _ limited, some_eq (sym h ∙ e))
  ]

  warning_timer_due :
      (due : ℕ)
      → warning_timer q ≡ some due
      → (q.warning_threshold ≢ 0)
        × (q.warning_threshold < q.limit_threshold)
        × (due ≡ q.warning_threshold)
  unfolding warning_timer
  warning_timer_due due h = elim (Bool-cases (q.warning_threshold == 0)) [
    | inl unarmed ↦
        let e : warning_timer q ≡ none = rw (unarmed, warning_timer) refl in
        let no : ⊥ = cc in absurd no
    | inr armed ↦ elim (Bool-cases (ltb q.warning_threshold q.limit_threshold)) [
      | inr above ↦
          let e : warning_timer q ≡ none = rw (armed, above, warning_timer) refl in
          let no : ⊥ = cc in absurd no
      | inl below ↦
          let e : warning_timer q ≡ some q.warning_threshold =
            rw (armed, below, warning_timer) refl in
          (==→ne _ _ armed, ltb→lt _ _ below, some_eq (sym h ∙ e))
    ]
  ]

module _ {A : Type 0} (q : DurationLimiter) where
  -- There is a limit, it has passed, and only it is counted.
  abbrev pub IsLate : ℕ → Wait A → Type 0
  IsLate t w =
      (q.limit_threshold ≢ 0)
      × (q.limit_threshold ≤ t)
      × (w.limit_counter ≡ 1)
      × (w.warning_counter ≡ 0)

  -- The handler ended so, and a warning is counted once if it was given.
  abbrev pub IsCompleted : Outcome A → Wait A → Type 0
  IsCompleted outcome w =
      (w.downstream ≡ some outcome) × (w.limit_counter ≡ 0) × (w.warning_counter ≡ count w.warn)

  -- Why the reply is what it is.
  abbrev pub Explains : ℕ → Wait A → Option (Reply A) → Type 0
  Explains t w none = (w.limit_ch ≡ limit_timer q) × (w.limit_counter ≡ 0) × (w.warning_counter ≡ 0)
  Explains t w (some exceeded) = IsLate t w
  Explains t w (some context_failed) = IsLate t w
  Explains t w (some (replied a)) = IsCompleted (finished a) w
  Explains t w (some failed) = IsCompleted panicked w

  -- A warning is given only when its threshold has passed.
  abbrev pub Warns : ℕ → Wait A → Bool → Type 0
  Warns t w true = IsSlow q t
  Warns t w false = w.warning_ch ≡ warning_timer q

  pub record IsSound (t : ℕ) (w : Wait A) : Type 0 where
    pub explains : Explains t w w.reply
    pub warns : Warns t w w.warn

  later-Explains :
      (t t' : ℕ) (w : Wait A) (r : Option (Reply A)) → t ≤ t' → Explains t w r → Explains t' w r
  later-Explains t t' w none le h = h
  later-Explains t t' w (some exceeded) le (limited, past, one, zero) =
      (limited, omega arith, one, zero)
  later-Explains t t' w (some context_failed) le (limited, past, one, zero) =
      (limited, omega arith, one, zero)
  later-Explains t t' w (some (replied a)) le h = h
  later-Explains t t' w (some failed) le h = h

  later-Warns : (t t' : ℕ) (w : Wait A) (b : Bool) → t ≤ t' → Warns t w b → Warns t' w b
  later-Warns t t' w true le (warned, below, past) = (warned, below, omega arith)
  later-Warns t t' w false le h = h

  still_running :
      (w : Wait A) (outcome : Outcome A) → w.downstream ≡ none → w.downstream ≡ some outcome → ⊥
  still_running w outcome running ended = cc

  end-Explains :
      (t : ℕ) (w : Wait A) (outcome : Outcome A) (r : Option (Reply A))
      → w.downstream ≡ none
      → Explains t w r
      → Explains t (record w { downstream = some outcome }) r
  end-Explains t w outcome none running h = h
  end-Explains t w outcome (some exceeded) running h = h
  end-Explains t w outcome (some context_failed) running h = h
  end-Explains t w outcome (some (replied a)) running h =
      absurd (still_running w (finished a) running h.0)
  end-Explains t w outcome (some failed) running h = absurd (still_running w panicked running h.0)

  end-Warns :
      (t : ℕ) (w : Wait A) (outcome : Outcome A) (b : Bool)
      → Warns t w b
      → Warns t (record w { downstream = some outcome }) b
  end-Warns t w outcome true h = h
  end-Warns t w outcome false h = h

  first_due :
      (t due : ℕ) (w : Wait A) (b : Bool)
      → Warns t w b
      → w.warning_ch ≡ some due
      → due ≤ t
      → IsSlow q t
  first_due t due w true h ready le = h
  first_due t due w false h ready le =
      let (warned, below, same) = warning_timer_due q due (sym h ∙ ready) in
      (warned, below, omega arith)

  late-Explains :
      (t : ℕ) (w : Wait A) (is_alive : Bool)
      → IsLate t w
      → Explains t w (some (if is_alive then exceeded else context_failed))
  late-Explains t w true h = h
  late-Explains t w false h = h

  limit-Warns :
      (t : ℕ) (w : Wait A) (is_alive b : Bool) → Warns t w b → Warns t (on_limit is_alive w) b
  unfolding on_limit
  limit-Warns t w is_alive true h = h
  limit-Warns t w is_alive false h = h

  completed-Warns :
      (t : ℕ) (w : Wait A) (outcome : Outcome A) (b : Bool)
      → Warns t w b
      → Warns t (on_completed outcome w) b
  unfolding on_completed
  completed-Warns t w outcome true h = h
  completed-Warns t w outcome false h = h

  completed-Explains :
      (t : ℕ) (w : Wait A) (outcome : Outcome A)
      → IsCompleted outcome w
      → Explains t w (some (reply_of outcome))
  completed-Explains t w (finished a) h = h
  completed-Explains t w panicked h = h

  step-IsSound : {t t' : ℕ} {w w' : Wait A} → IsSound t w → Turn t w t' w' → IsSound t' w'
  unfolding on_warning on_limit on_completed
  step-IsSound i (pass {t} {t'} {w} le) = record {
    explains = later-Explains t t' w w.reply le i.explains;
    warns = later-Warns t t' w w.warn le i.warns;
  }
  step-IsSound i (end {t} {w} outcome running) = record {
    explains = end-Explains t w outcome w.reply running i.explains;
    warns = end-Warns t w outcome w.warn i.warns;
  }
  step-IsSound i (warning {t} {w} due waiting ready le) = record {
    explains =
        subst (Explains t (on_warning w)) (sym waiting) (subst (Explains t w) waiting i.explains);
    warns = first_due t due w w.warn i.warns ready le;
  }
  step-IsSound i (limit {t} {w} is_alive due waiting ready le) =
      let (same, none_yet, no_warning) = subst (Explains t w) waiting i.explains in
      let (limited, at_limit) = limit_timer_due q due (sym same ∙ ready) in
      record {
        explains =
            late-Explains t (on_limit is_alive w) is_alive
              (limited, omega arith, omega arith, no_warning);
        warns = limit-Warns t w is_alive w.warn i.warns;
      }
  step-IsSound i (completed {t} {w} outcome waiting ended) =
      let (same, none_yet, no_warning) = subst (Explains t w) waiting i.explains in
      record {
        explains =
            completed-Explains t (on_completed outcome w) outcome
              (ended, none_yet, counted_once w.warn w.warning_counter no_warning);
        warns = completed-Warns t w outcome w.warn i.warns;
      }

  -- However the handler, the timers and the select interleave: the limit is counted once where the caller
  -- is told that it was exceeded, which is not before it was; otherwise the reply is what the handler
  -- returned, or tells of its panic, the limit is not counted, and a warning is counted once if it was
  -- given, which is not before its threshold.
  pub waits-IsSound : {t : ℕ} {w : Wait A} → Waits q t w → IsSound t w
  waits-IsSound begun = record { explains = (refl, refl, refl); warns = refl }
  waits-IsSound (turned before turn) = step-IsSound (waits-IsSound before) turn

  -- A request with a limit is answered: where no reply has been given, one can be given, at the latest
  -- when the limit's timer ticks.
  pub waits-Answers :
      {t : ℕ} {w : Wait A} (due : ℕ)
      → Waits q t w
      → w.reply ≡ none
      → limit_timer q ≡ some due
      → (w' : Wait A) × (r : Reply A) × Waits q (max t due) w' × (w'.reply ≡ some r)
  unfolding on_limit
  waits-Answers {t} {w} due before waiting timer =
      let (same, none_yet, no_warning) =
        subst (Explains t w) waiting (waits-IsSound before).explains in
      (
        on_limit true w,
        exceeded,
        turned (turned before (pass (omega arith)))
            (limit true due waiting (same ∙ timer) (omega arith)),
        refl,
      )
