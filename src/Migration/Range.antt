-- ===== src/Migration/Range.antt =====
-- The range of ledgers that the migrations run over together.
use stellar_rpc.Prelude.{ℕ, ◌⊎◌, inl, inr, refl, sym, List, [], ◌∷◌, arith, min, ne→==}
use mathlib.Core.Path.{subst}
use stellar_rpc.SeqRange.{SeqRange, is_empty, merge, no_range}
use stellar_rpc.SeqRange.Laws.{
  Has, IsValid, merge_left, merge_right, merge_both, merge-IsHull, one_side,
}
use stellar_rpc.Migration.{Migration, range_from, applicable_range_of}

merge-IsValid : (a b : SeqRange) → IsValid a → IsValid b → IsValid (merge a b)
unfolding is_empty
merge-IsValid a b (inl e) hb = subst IsValid (sym (merge_left a b e)) hb
merge-IsValid a b (inr ha) (inl e) = subst IsValid (sym (merge_right a b e ha.0)) (inr ha)
merge-IsValid a b (inr (na, a0, al)) (inr (nb, b0, bl)) =
    subst IsValid (sym (merge_both a b na nb))
      (inr (rw (ne→== (min a.first b.first) 0 (omega arith)) refl, omega arith, omega arith))

module _ {S : Type 0} where
  abbrev pub AllValid : List (Migration S) → Type 0
  AllValid [] = Unit
  AllValid (m ∷ ms) = IsValid m.range × AllValid ms

  -- Some migration applies to the ledger.
  abbrev pub Applies : List (Migration S) → ℕ → Type 0
  Applies [] seq = ⊥
  Applies (m ∷ ms) seq = Has m.range seq ⊎ Applies ms seq

  range_from-Has :
      (ms : List (Migration S)) (result : SeqRange) (seq : ℕ)
      → AllValid ms
      → IsValid result
      → Applies ms seq ⊎ Has result seq
      → Has (range_from ms result) seq
  unfolding range_from
  range_from-Has [] result seq valid start (inl none_applies) = absurd none_applies
  range_from-Has [] result seq valid start (inr h) = h
  range_from-Has (m ∷ ms) result seq valid start (inl (inr applies)) =
      range_from-Has ms (merge m.range result) seq valid.1
        (merge-IsValid m.range result valid.0 start) (inl applies)
  range_from-Has (m ∷ ms) result seq valid start (inl (inl h)) =
      range_from-Has ms (merge m.range result) seq valid.1
        (merge-IsValid m.range result valid.0 start)
        (inr
          ((merge-IsHull m.range result seq valid.0 start).1 (one_side m.range result seq (inl h))))
  range_from-Has (m ∷ ms) result seq valid start (inr h) =
      range_from-Has ms (merge m.range result) seq valid.1
        (merge-IsValid m.range result valid.0 start)
        (inr
          ((merge-IsHull m.range result seq valid.0 start).1 (one_side m.range result seq (inr h))))

  -- Every ledger that one of the migrations applies to is in the range of all of them; each range is
  -- empty, or starts above 0 and ends no earlier.
  pub applicable_range_of-Has :
      (ms : List (Migration S)) (seq : ℕ)
      → AllValid ms
      → Applies ms seq
      → Has (applicable_range_of ms) seq
  unfolding is_empty
  applicable_range_of-Has ms seq valid applies =
      range_from-Has ms no_range seq valid (inl refl) (inl applies)
