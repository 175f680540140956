-- ===== src/Window/Refine.antt =====
-- The window refines its queue: every operation returns what the queue's does, and keeps the
-- invariant.
use stellar_rpc.Prelude.{
  ℕ, suc, ◌+◌, ◌%◌, ◌≤◌, ◌<◌, ◌≡◌, refl, sym, ap, ◌∙◌, Option, none, some, List, [], ◌∷◌, ◌++◌,
  arith, length, get_or, set, take, drop, length-append, length-set, take-set, drop-set, take_of_le,
  drop_of_le, drop-eq-cons, get_elem?-eq-get_or, append-nil, append_assoc, Bool-cases, inl, inr,
  lt→ltb, le→ltb, u32, ◌==◌, if◌then◌else◌,
}
use native.Mathlib.Nat.{mod-eq_of_lt, mod_self}
use mathlib.Core.Path.{subst}
use native.Mathlib.Decide.{dec_lt}
use stellar_rpc.Window.{
  LedgerBucket, LedgerBucketWindow, Appended, evicted, not_contiguous, len, place, append,
}
use stellar_rpc.Window.Queue.{Queue, enqueue, push}
use stellar_rpc.Window.Ring.{IsValid, contents, length-contents, start_lt}

module _ {A : Type 0} where
  enqueue_room :
      (cap : ℕ) (q : Queue A) (b : LedgerBucket A)
      → length q < cap
      → enqueue cap q b ≡ (q ++ (b ∷ []), evicted none)
  unfolding enqueue
  enqueue_room cap [] b h = refl
  enqueue_room cap (o ∷ q) b h = rw (lt→ltb (length (o ∷ q)) cap h)

  enqueue_full :
      (cap : ℕ) (o : LedgerBucket A) (q : Queue A) (b : LedgerBucket A)
      → cap ≤ length (o ∷ q)
      → enqueue cap (o ∷ q) b ≡ (q ++ (b ∷ []), evicted (some o))
  unfolding enqueue
  enqueue_full cap o q b h = rw (le→ltb (length (o ∷ q)) cap h)

  -- Overwriting the oldest cell and moving the head past it puts the new bucket last.
  overwrite :
      (xs : List (LedgerBucket A)) (s : ℕ) (b : LedgerBucket A)
      → s < length xs
      → drop ((s + 1) % length xs) (set xs s b) ++ take ((s + 1) % length xs) (set xs s b)
        ≡ (drop (suc s) xs ++ take s xs) ++ (b ∷ [])
  overwrite xs s b h = elim (dec_lt (s + 1) (length xs)) [
    | yes more ↦
        let e : (s + 1) % length xs ≡ suc s = mod-eq_of_lt more ∙ omega arith in
        rw (e, drop-set s xs b, take-set s xs b h)
          (sym (append_assoc (drop (suc s) xs) (take s xs) (b ∷ [])))
    | no last ↦
        let n : s + 1 ≡ length xs = omega arith in
        let e : (s + 1) % length xs ≡ 0 = rw n (mod_self (length xs)) in
        rw (e, append-nil, drop_of_le (suc s) xs (omega arith))
          (sym (take_of_le (suc s) (set xs s b) (omega (arith, length-set xs s b)))
            ∙ take-set s xs b h)
  ]

  nil_of_length : (xs : List (LedgerBucket A)) → length xs ≡ 0 → xs ≡ []
  nil_of_length [] h = refl
  nil_of_length (x ∷ xs) h = absurd (omega arith)

  -- What one append does: its result, and the window after it.
  pub record Refines (w : LedgerBucketWindow A) (out : Option (LedgerBucketWindow A × Appended A))
      (spec : Queue A × Appended A) : Type 0 where
    pub after : LedgerBucketWindow A
    pub result : Appended A
    pub returned : out ≡ some (after, result)
    pub valid : IsValid after
    pub same_cap : after.cap ≡ w.cap
    pub meets : (contents after, result) ≡ spec

  contents_nil : (w : LedgerBucketWindow A) → length w.buckets ≡ 0 → contents w ≡ []
  contents_nil w h = nil_of_length (contents w) (length-contents w ∙ h)

  contents_cons :
      (w : LedgerBucketWindow A) (b : LedgerBucket A)
      → IsValid w
      → 0 < length w.buckets
      → contents w
        ≡ get_or w.buckets w.start b ∷ (drop (suc w.start) w.buckets ++ take w.start w.buckets)
  contents_cons w b v h = rw (drop-eq-cons w.start w.buckets b (start_lt w v h))

  place-room :
      (w : LedgerBucketWindow A) (b : LedgerBucket A)
      → IsValid w
      → length w.buckets < w.cap
      → place w b ≡ some (record w { buckets = w.buckets ++ (b ∷ []) }, evicted none)
  unfolding place len
  place-room w b v h = rw (lt→ltb (u32 (length w.buckets)) (u32 w.cap) (omega arith))

  place-full :
      (w : LedgerBucketWindow A) (b : LedgerBucket A)
      → IsValid w
      → length w.buckets ≡ w.cap
      → place w b
        ≡ some (
          record w { buckets = set w.buckets w.start b; start = (w.start + 1) % length w.buckets },
          evicted (some (get_or w.buckets w.start b)),
        )
  unfolding place len
  place-full w b v h =
      let n : u32 (length w.buckets) ≡ length w.buckets = omega arith in
      let s : u32 (w.start + 1) ≡ w.start + 1 = omega arith in
      rw (
        le→ltb (u32 (length w.buckets)) (u32 w.cap) (omega arith),
        get_elem?-eq-get_or w.buckets w.start b (omega arith),
        s,
        n,
      )

  place-Refines :
      (w : LedgerBucketWindow A) (b : LedgerBucket A)
      → IsValid w
      → Refines w (place w b) (enqueue w.cap (contents w) b)
  place-Refines w b v = elim (dec_lt (length w.buckets) w.cap) [
    | yes room ↦
        let zero_start : w.start ≡ 0 = grind arith in
        record {
          after = record w { buckets = w.buckets ++ (b ∷ []) };
          result = evicted none;
          returned = place-room w b v room;
          valid = record {
            roomy = v.roomy;
            small = v.small;
            fits = omega (arith, length-append w.buckets (b ∷ []));
            start_in = v.start_in;
            start_full = λ h. absurd (omega arith);
          };
          same_cap = refl;
          meets =
              rw (enqueue_room w.cap (contents w) b (omega (arith, length-contents w)), zero_start)
                (rw (append-nil, append-nil));
        }
    | no packed ↦
        let full : length w.buckets ≡ w.cap = omega arith in
        let filled : length (set w.buckets w.start b) ≡ w.cap =
          length-set w.buckets w.start b ∙ full in
        record {
          after = record w {
            buckets = set w.buckets w.start b;
            start = (w.start + 1) % length w.buckets;
          };
          result = evicted (some (get_or w.buckets w.start b));
          returned = place-full w b v full;
          valid = record {
            roomy = v.roomy;
            small = v.small;
            fits = omega arith;
            start_in = omega arith;
            start_full = λ h. filled;
          };
          same_cap = refl;
          meets = rw (
            contents_cons w b v (omega arith),
            enqueue_full w.cap (get_or w.buckets w.start b)
                (drop (suc w.start) w.buckets ++ take w.start w.buckets) b
                (omega (arith, length-contents w, ap length (contents_cons w b v (omega arith)))),
            overwrite w.buckets w.start b (omega arith),
          );
        }
  ]

  -- The sequence that `Append` asks for.
  abbrev next_of : LedgerBucketWindow A → LedgerBucket A → ℕ
  next_of w b = u32 ((get_or w.buckets w.start b).ledger_seq + length w.buckets)

  append-empty :
      (w : LedgerBucketWindow A) (b : LedgerBucket A)
      → length w.buckets ≡ 0
      → append w b ≡ place w b
  unfolding append len
  append-empty w b h = rw h

  append-some :
      (w : LedgerBucketWindow A) (b : LedgerBucket A)
      → IsValid w
      → 0 < length w.buckets
      → append w b ≡ (
          if next_of w b == b.ledger_seq
          then place w b
          else some (w, not_contiguous (next_of w b) b.ledger_seq))
  unfolding append len
  append-some w b v h =
      let n : u32 (length w.buckets) ≡ length w.buckets = omega arith in
      rw (
        lt→ltb 0 (u32 (length w.buckets)) (omega arith),
        get_elem?-eq-get_or w.buckets w.start b (start_lt w v h),
        n,
      )

  push-cons :
      (w : LedgerBucketWindow A) (b : LedgerBucket A)
      → IsValid w
      → 0 < length w.buckets
      → push w.cap (contents w) b ≡ (
          if next_of w b == b.ledger_seq
          then enqueue w.cap (contents w) b
          else (contents w, not_contiguous (next_of w b) b.ledger_seq))
  unfolding push
  push-cons w b v h =
      let e = contents_cons w b v h in let n = sym (ap length e) ∙ length-contents w in rw (e, n)

  push-nil :
      (w : LedgerBucketWindow A) (b : LedgerBucket A)
      → contents w ≡ []
      → enqueue w.cap (contents w) b ≡ push w.cap (contents w) b
  unfolding push
  push-nil w b e = rw e

  -- `Append` returns what the queue's `push` returns, never panics, leaves the window with the
  -- queue's new contents, and keeps the invariant and the capacity.
  pub append-Refines :
      (w : LedgerBucketWindow A) (b : LedgerBucket A)
      → IsValid w
      → Refines w (append w b) (push w.cap (contents w) b)
  append-Refines w b v = elim (dec_lt 0 (length w.buckets)) [
    | no empty ↦
        let nil = contents_nil w (omega arith) in
        rw (append-empty w b (omega arith))
          (subst (Refines w (place w b)) (push-nil w b nil) (place-Refines w b v))
    | yes more ↦
        rw (append-some w b v more, push-cons w b v more)
          (elim (Bool-cases (next_of w b == b.ledger_seq)) [
            | inl next ↦ rw next (place-Refines w b v)
            | inr gap ↦ rw gap (record {
              after = w;
              result = not_contiguous (next_of w b) b.ledger_seq;
              returned = refl;
              valid = v;
              same_cap = refl;
              meets = refl;
            })
          ])
  ]
