-- ===== src/Methods/GetEvents/Split.antt =====
-- The events from a cursor on, split at the end of a range and after the last event of a page.
use stellar_rpc.Prelude.{
  ℕ, zero, suc, ◌+◌, ◌<◌, ◌≤◌, ◌≡◌, ◌⊎◌, refl, ap, ◌∙◌, inl, inr, Bool, true, false, not, ◌&&◌,
  List, [], ◌∷◌, ◌++◌, Bool-cases, length, take, arith, u32, u32_mod, filter, Each, filter-Each,
  filter_congr, weaken-Each,
}
use mathlib.Core.Path.{subst}
use stellar_rpc.EventStore.{Cursor, Masks}
use stellar_rpc.EventStore.Query.{StoredEvent}
use stellar_rpc.EventStore.Query.Scan.{Fits, before, before_trans, Ascending}
use stellar_rpc.Methods.GetEvents.{resume}
use stellar_rpc.Methods.GetEvents.Found.{in_range}

-- What the writer's cursors are: they fit, none is after all operations of the last place that the masks
-- leave for a transaction, and the event's number can still grow by one.
pub record IsStored (masks : Masks) (c : Cursor) : Type 0 where
  pub fits : Fits masks c
  pub below : (c.tx < masks.transaction_mask) ⊎ (c.op < masks.operation_mask)
  pub grows : c.event + 1 < u32_mod

-- A cursor to go on from: one of an event, whose number can still grow by one, or one after all of the
-- operations and transactions of a ledger, as the end of a range has it
pub record Resumable (masks : Masks) (c : Cursor) : Type 0 where
  pub fits : Fits masks c
  pub grows :
      (c.event + 1 < u32_mod) ⊎ ((c.tx ≡ masks.transaction_mask) × (c.op ≡ masks.operation_mask))

abbrev pub last_or : StoredEvent → List StoredEvent → StoredEvent
last_or d [] = d
last_or d (e ∷ es) = last_or e es

pub last_or-Each :
    (P : StoredEvent → Type 0) (d : StoredEvent) (es : List StoredEvent)
    → P d
    → Each P es
    → P (last_or d es)
last_or-Each P d [] h each = h
last_or-Each P d (e ∷ es) h each = last_or-Each P e es each.0 each.1

pub take-Each :
    (P : StoredEvent → Type 0) (n : ℕ) (es : List StoredEvent) → Each P es → Each P (take n es)
take-Each P zero es each = tt
take-Each P (suc n) [] each = tt
take-Each P (suc n) (e ∷ es) each = (each.0, take-Each P n es each.1)

last_take-Each :
    (P : StoredEvent → Type 0) (d : StoredEvent) (n : ℕ) (es : List StoredEvent)
    → Each P es
    → suc n ≤ length es
    → P (last_or d (take (suc n) es))
last_take-Each P d n [] each enough = absurd (omega arith)
last_take-Each P d n (e ∷ es) each enough =
    last_or-Each P e (take n es) each.0 (take-Each P n es each.1)

resume_eq : (c : Cursor) → c.event + 1 < u32_mod → resume c ≡ record c { event = c.event + 1 }
unfolding resume
resume_eq c grows = ap (λ k. record c { event = k }) {x = u32 (c.event + 1)} (omega arith)

after_next : (c d : Cursor) → not (before d (record c { event = c.event + 1 })) ≡ before c d
after_next c d = ground arith

after_end :
    (masks : Masks) (c d : Cursor) (event : ℕ)
    → IsStored masks d
    → c.tx ≡ masks.transaction_mask
    → c.op ≡ masks.operation_mask
    → not (before d (record c { event = event })) ≡ before c d
after_end masks c d event stored tx op =
    let tx_fits = stored.fits.tx_fits in
    let op_fits = stored.fits.op_fits in let below = stored.below in ground arith

-- The events from where a cursor is resumed on are those after it.
pub resume_lem :
    (masks : Masks) (c d : Cursor)
    → IsStored masks d
    → Resumable masks c
    → not (before d (resume c)) ≡ before c d
unfolding resume
resume_lem masks c d stored goes_on = elim goes_on.grows [
  | inl grows ↦ ap (λ x. not (before d x)) (resume_eq c grows) ∙ after_next c d
  | inr (tx, op) ↦ after_end masks c d (u32 (c.event + 1)) stored tx op
]

before_resume : (c : Cursor) → c.event + 1 < u32_mod → before c (resume c) ≡ true
before_resume c grows = rw (resume_eq c grows) (ground arith)

not_before_resume :
    (c d : Cursor) → c.event + 1 < u32_mod → before c d ≡ true → before d (resume c) ≡ false
not_before_resume c d grows later = rw (resume_eq c grows) (go c d later)
  where
    go : (c d : Cursor) → before c d ≡ true → before d (record c { event = c.event + 1 }) ≡ false
    go c d later = ground arith

later_from :
    (start c d : Cursor) → before c start ≡ false → before c d ≡ true → before d start ≡ false
later_from start c d from later = ground arith

module _ (matched : StoredEvent → Bool) where
  -- From a cursor on
  abbrev pub late : Cursor → StoredEvent → Bool
  late start e = not (before e.cursor start) && matched e

  early_lem : (c : Cursor) (e : StoredEvent) → before e.cursor c ≡ true → late c e ≡ false
  early_lem c e early = rw (early) refl

  both :
      (masks : Masks) (e : StoredEvent) (es : List StoredEvent)
      → Each (λ x. before e.cursor x.cursor ≡ true) es
      → Each (λ x. IsStored masks x.cursor) es
      → Each (λ x. (before e.cursor x.cursor ≡ true) × (x.cursor.event + 1 < u32_mod)) es
  both masks e [] h k = tt
  both masks e (x ∷ xs) h k = ((h.0, k.0.grows), both masks e xs h.1 k.1)

  -- An event is not after a later one that was found.
  gone_lem :
      (masks : Masks) (start : Cursor) (d e : StoredEvent) (n : ℕ) (es : List StoredEvent)
      → Each (λ x. before e.cursor x.cursor ≡ true) es
      → Each (λ x. IsStored masks x.cursor) es
      → suc n ≤ length (filter (late start) es)
      → late (resume (last_or d (take (suc n) (filter (late start) es))).cursor) e ≡ false
  gone_lem masks start d e n es ascending stored enough =
      let (later, grows) =
        last_take-Each (λ x. (before e.cursor x.cursor ≡ true) × (x.cursor.event + 1 < u32_mod)) d n
          (filter (late start) es)
          (filter-Each (λ x. (before e.cursor x.cursor ≡ true) × (x.cursor.event + 1 < u32_mod))
            (late start) es (both masks e es ascending stored))
          enough in
      let x = last_or d (take (suc n) (filter (late start) es)) in
      early_lem (resume x.cursor) e
        (before_trans e.cursor x.cursor (resume x.cursor) later (before_resume x.cursor grows))

  after_lem :
      (start : Cursor) (e d : StoredEvent)
      → before e.cursor start ≡ false
      → e.cursor.event + 1 < u32_mod
      → before e.cursor d.cursor ≡ true
      → late (resume e.cursor) d ≡ late start d
  after_lem start e d from grows later =
      rw
        (
          not_before_resume e.cursor d.cursor grows later,
          later_from start e.cursor d.cursor from later,
        )
        refl

  late_from :
      (start : Cursor) (e : StoredEvent) → late start e ≡ true → before e.cursor start ≡ false
  late_from start e kept = elim (Bool-cases (before e.cursor start)) [
    | inl early ↦ let h : false ≡ true = rw (early) at kept in let f : ⊥ = cc in absurd f
    | inr from ↦ from
  ]

  -- After the last of the first events that are found come the other ones that are.
  pub next_lem :
      (masks : Masks) (start : Cursor) (d : StoredEvent) (n : ℕ) (events vs : List StoredEvent)
      → filter (late start) events ≡ vs
      → Ascending events
      → Each (λ e. IsStored masks e.cursor) events
      → suc n ≤ length vs
      → take (suc n) vs ++ filter (late (resume (last_or d (take (suc n) vs)).cursor)) events ≡ vs
  next_lem masks start d n [] vs found ascending stored enough =
      absurd (omega (arith, ap length found))
  next_lem masks start d n (e ∷ es) vs found ascending stored enough =
      elim (Bool-cases (late start e)) [
        | inr out ↦
            let found' : filter (late start) es ≡ vs = rw (out) at found in
            let gone : late (resume (last_or d (take (suc n) vs)).cursor) e ≡ false =
              subst (λ vs. late (resume (last_or d (take (suc n) vs)).cursor) e ≡ false) found'
                (gone_lem masks start d e n es ascending.0 stored.1
                  (omega (arith, ap length found'))) in
            rw (gone) (next_lem masks start d n es vs found' ascending.1 stored.1 enough)
        | inl kept ↦
            let found' : e ∷ filter (late start) es ≡ vs = rw (kept) at found in
            subst
              (λ vs.
                take (suc n) vs
                  ++ filter (late (resume (last_or d (take (suc n) vs)).cursor)) (e ∷ es)
                ≡ vs)
              found'
              (ap (◌∷◌ e) (
                here n (omega (arith, ap length found')) kept (λ m k enough'.
                  next_lem masks start k m es (filter (late start) es) refl ascending.1 stored.1
                    enough')))
      ]
    where
      here :
          (n : ℕ)
          → n ≤ length (filter (late start) es)
          → late start e ≡ true
          → ((m : ℕ) (k : StoredEvent)
              → suc m ≤ length (filter (late start) es)
              → take (suc m) (filter (late start) es)
                  ++ filter
                      (late (resume (last_or k (take (suc m) (filter (late start) es))).cursor))
                      es
                ≡ filter (late start) es)
          → take n (filter (late start) es)
              ++ filter
                  (late (resume (last_or e (take n (filter (late start) es))).cursor))
                  (e ∷ es)
            ≡ filter (late start) es
      here zero enough' kept rest =
          let gone : late (resume e.cursor) e ≡ false =
            early_lem (resume e.cursor) e (before_resume e.cursor stored.0.grows) in
          rw (gone) (
            filter_congr (λ x. before e.cursor x.cursor ≡ true) (late (resume e.cursor))
              (late start) es
              (λ x later. after_lem start e x (late_from start e kept) stored.0.grows later)
              ascending.0)
      here (suc m) enough' kept rest =
          let gone = gone_lem masks start e e m es ascending.0 stored.1 enough' in
          rw (gone) (rest m e enough')

  -- The events from `start` on are those of a range that begins there and those from its end on.
  pub split_lem :
      (start end : Cursor) (events : List StoredEvent)
      → Ascending events
      → before end start ≡ false
      → filter (λ e. in_range (start, end) e.cursor && matched e) events ++ filter (late end) events
        ≡ filter (late start) events
  split_lem start end [] ascending forward = refl
  split_lem start end (e ∷ es) ascending forward = elim (Bool-cases (before e.cursor end)) [
    | inl inside ↦
        let test : (in_range (start, end) e.cursor && matched e) ≡ late start e =
          rw (inside) (and_true (before e.cursor start)) in
        let gone = early_lem end e inside in
        elim (Bool-cases (late start e)) [
          | inl kept ↦
              rw (test, kept, gone) (ap (◌∷◌ e) (split_lem start end es ascending.1 forward))
          | inr out ↦ rw (test, out, gone) (split_lem start end es ascending.1 forward)
        ]
    | inr past ↦
        let test : (in_range (start, end) e.cursor && matched e) ≡ false =
          rw (past) (and_false (before e.cursor start)) in
        let rest : filter (λ e. in_range (start, end) e.cursor && matched e) es ≡ [] =
          none_inside es (
            weaken-Each (λ d. before e.cursor d.cursor ≡ true) (λ d. before d.cursor end ≡ false) es
              (λ d later. later_from end e.cursor d.cursor past later) ascending.0) in
        rw (test, rest)
          (filter_congr (λ d. before d.cursor end ≡ false) (late end) (late start) (e ∷ es)
            (λ d late_d. same_late d late_d)
            (
              past,
              weaken-Each (λ d. before e.cursor d.cursor ≡ true) (λ d. before d.cursor end ≡ false)
                  es (λ d later. later_from end e.cursor d.cursor past later) ascending.0,
            ))
  ]
    where
      and_true : (b : Bool) → ((not b && true) && matched e) ≡ (not b && matched e)
      and_true true = refl
      and_true false = refl

      and_false : (b : Bool) → ((not b && false) && matched e) ≡ false
      and_false true = refl
      and_false false = refl

      none_inside :
          (es : List StoredEvent)
          → Each (λ d. before d.cursor end ≡ false) es
          → filter (λ e. in_range (start, end) e.cursor && matched e) es ≡ []
      none_inside [] h = refl
      none_inside (d ∷ ds) h =
          let test : (in_range (start, end) d.cursor && matched d) ≡ false =
            rw (h.0) (gone (before d.cursor start) d) in
          rw (test) (none_inside ds h.1)
        where
          gone : (b : Bool) (d : StoredEvent) → ((not b && false) && matched d) ≡ false
          gone true d = refl
          gone false d = refl

      same_late : (d : StoredEvent) → before d.cursor end ≡ false → late end d ≡ late start d
      same_late d past' =
          let from : before d.cursor start ≡ false = past_start d.cursor past' in
          rw (past', from) refl
        where
          past_start : (c : Cursor) → before c end ≡ false → before c start ≡ false
          past_start c h = ground arith
