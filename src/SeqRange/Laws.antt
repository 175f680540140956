-- ===== src/SeqRange/Laws.antt =====
-- What `Merge`, `Empty` and `IsLedgerIncluded` promise together.
use stellar_rpc.Prelude.{
  ℕ, ◌≤◌, ◌<◌, ◌≡◌, refl, sym, true, false, inl, inr, Bool-cases, leb, leb→le, leb→lt, min, max,
  arith, ◌⊎◌, ◌↔◌,
}
use mathlib.Core.Path.{subst}
use stellar_rpc.SeqRange.{SeqRange, is_ledger_included, is_empty, merge}

-- A ledger of the range. There is no ledger 0.
abbrev pub Has : SeqRange → ℕ → Type 0
Has r seq = (0 < seq) × (is_ledger_included r seq ≡ true)

has→bounds : (r : SeqRange) (seq : ℕ) → Has r seq → (r.first ≤ seq) × (seq ≤ r.last)
unfolding is_ledger_included
has→bounds r seq h = ground arith

bounds→has : (r : SeqRange) (seq : ℕ) → 0 < seq → r.first ≤ seq → seq ≤ r.last → Has r seq
unfolding is_ledger_included
bounds→has r seq h0 h1 h2 = ground arith

empty-Has : (r : SeqRange) (seq : ℕ) → is_empty r ≡ true → Has r seq → ⊥
unfolding is_ledger_included is_empty
empty-Has r seq h h0 = ground arith

-- What a merged range consists of: the ledgers from one of either range up to one of either range.
abbrev pub Between : SeqRange → SeqRange → ℕ → Type 0
Between a b seq =
    (lo : ℕ) × (hi : ℕ) × (Has a lo ⊎ Has b lo) × (Has a hi ⊎ Has b hi) × (lo ≤ seq) × (seq ≤ hi)

-- The ranges that the migrations make.
abbrev pub IsValid : SeqRange → Type 0
IsValid r = (is_empty r ≡ true) ⊎ ((is_empty r ≡ false) × (0 < r.first) × (r.first ≤ r.last))

pub merge_left : (a b : SeqRange) → is_empty a ≡ true → merge a b ≡ b
unfolding merge
merge_left a b h = rw (h) refl

pub merge_right : (a b : SeqRange) → is_empty b ≡ true → is_empty a ≡ false → merge a b ≡ a
unfolding merge
merge_right a b h n = rw (n, h) refl

pub merge_both :
    (a b : SeqRange)
    → is_empty a ≡ false
    → is_empty b ≡ false
    → merge a b ≡ record { first = min a.first b.first; last = max a.last b.last }
unfolding merge
merge_both a b h n = rw (h, n) refl

pub one_side : (a b : SeqRange) (seq : ℕ) → Has a seq ⊎ Has b seq → Between a b seq
one_side a b seq h = (seq, seq, h, h, omega arith, omega arith)

merge→between :
    (a b : SeqRange) (seq : ℕ) → IsValid a → IsValid b → Has (merge a b) seq → Between a b seq
merge→between a b seq (inl e) hb h =
    one_side a b seq (inr (subst (λ r. Has r seq) (merge_left a b e) h))
merge→between a b seq (inr ha) (inl e) h =
    one_side a b seq (inl (subst (λ r. Has r seq) (merge_right a b e ha.0) h))
merge→between a b seq (inr (na, a0, al)) (inr (nb, b0, bl)) h =
    let (low, high) = has→bounds _ seq (subst (λ r. Has r seq) (merge_both a b na nb) h) in
    let lowest : Has a (min a.first b.first) ⊎ Has b (min a.first b.first) =
      elim (Bool-cases (leb a.first b.first)) [
        | inl le ↦
            let le' = leb→le _ _ le in
            inl (bounds→has a _ (omega arith) (omega arith) (omega arith))
        | inr gt ↦
            let gt' = leb→lt _ _ gt in
            inr (bounds→has b _ (omega arith) (omega arith) (omega arith))
      ] in
    let highest : Has a (max a.last b.last) ⊎ Has b (max a.last b.last) =
      elim (Bool-cases (leb b.last a.last)) [
        | inl le ↦
            let le' = leb→le _ _ le in
            inl (bounds→has a _ (omega arith) (omega arith) (omega arith))
        | inr gt ↦
            let gt' = leb→lt _ _ gt in
            inr (bounds→has b _ (omega arith) (omega arith) (omega arith))
      ] in
    (min a.first b.first, max a.last b.last, lowest, highest, low, high)

-- Every ledger of either range, and so every ledger between two of them, is in the merged one.
hull : (a b : SeqRange) (seq : ℕ) → IsValid a → IsValid b → Between a b seq → Has (merge a b) seq
hull a b seq (inl e) hb (lo, hi, inl l, h, low, high) = absurd (empty-Has a lo e l)
hull a b seq (inl e) hb (lo, hi, inr l, inl h, low, high) = absurd (empty-Has a hi e h)
hull a b seq (inl e) hb (lo, hi, inr (l0, l), inr h, low, high) =
    let from = has→bounds b lo (l0, l) in
    let upto = has→bounds b hi h in
    subst (λ r. Has r seq) (sym (merge_left a b e))
      (bounds→has b seq (omega arith) (omega arith) (omega arith))
hull a b seq (inr ha) (inl e) (lo, hi, inr l, h, low, high) = absurd (empty-Has b lo e l)
hull a b seq (inr ha) (inl e) (lo, hi, inl l, inr h, low, high) = absurd (empty-Has b hi e h)
hull a b seq (inr ha) (inl e) (lo, hi, inl (l0, l), inl h, low, high) =
    let from = has→bounds a lo (l0, l) in
    let upto = has→bounds a hi h in
    subst (λ r. Has r seq) (sym (merge_right a b e ha.0))
      (bounds→has a seq (omega arith) (omega arith) (omega arith))
hull a b seq (inr (na, a0, al)) (inr (nb, b0, bl)) (lo, hi, l, h, low, high) =
    let from : (0 < lo) × (min a.first b.first ≤ lo) = elim l [
      | inl x ↦ let y = has→bounds a lo x in (x.0, omega arith)
      | inr x ↦ let y = has→bounds b lo x in (x.0, omega arith)
    ] in
    let upto : hi ≤ max a.last b.last = elim h [
      | inl x ↦ let y = has→bounds a hi x in omega arith
      | inr x ↦ let y = has→bounds b hi x in omega arith
    ] in
    subst (λ r. Has r seq) (sym (merge_both a b na nb))
      (bounds→has _ seq (omega arith) (omega arith) (omega arith))

-- `Merge` gives the ledgers of both ranges and those between them, and no others. Each range is empty,
-- that is [0, 0], or starts above 0 and ends no earlier.
pub merge-IsHull :
    (a b : SeqRange) (seq : ℕ) → IsValid a → IsValid b → Has (merge a b) seq ↔ Between a b seq
merge-IsHull a b seq ha hb = (merge→between a b seq ha hb, hull a b seq ha hb)
