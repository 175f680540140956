-- ===== src/Window/Ring.antt =====
-- The window's representation: what it holds, and the invariant.
use stellar_rpc.Prelude.{
  ℕ, ◌+◌, ◌-◌, ◌%◌, ◌≤◌, ◌<◌, ◌≡◌, sym, ap, ◌∙◌, List, ◌++◌, arith, length, get_elem?, take, drop,
  length-append, length-take, length-drop, get_elem?-append_left, get_elem?-append_right,
  get_elem?-drop, get_elem?-take, get_elem?_of_le, leb, Bool-cases, inl, inr, leb→le, leb→lt, u32,
}
use native.Mathlib.Nat.{mod-eq_of_lt, mod-eq-sub-mod}
use stellar_rpc.Window.{LedgerBucket, LedgerBucketWindow, len, get}

-- 2^31: up to here `start + i` cannot wrap at 2^32.
abbrev pub max_cap : ℕ
max_cap = 2147483648

mod-wrap : (n m : ℕ) → m ≤ n → n < m + m → n % m ≡ n - m
mod-wrap n m h k = mod-eq-sub-mod {n = n} {m = m} h ∙ mod-eq_of_lt {n = n - m} {m = m} (omega arith)

module _ {A : Type 0} where
  -- The buckets, oldest first.
  abbrev pub contents : LedgerBucketWindow A → List (LedgerBucket A)
  contents w = drop w.start w.buckets ++ take w.start w.buckets

  pub record IsValid (w : LedgerBucketWindow A) : Type 0 where
    pub roomy : 0 < w.cap
    pub small : w.cap ≤ max_cap
    pub fits : length w.buckets ≤ w.cap
    pub start_in : w.start < w.cap
    pub start_full : 0 < w.start → length w.buckets ≡ w.cap

  pub length-contents : (w : LedgerBucketWindow A) → length (contents w) ≡ length w.buckets
  length-contents w = omega (
    arith,
    length-append (drop w.start w.buckets) (take w.start w.buckets),
    length-drop w.start w.buckets,
    length-take w.start w.buckets,
  )

  -- Reading round the buffer is reading the contents in order.
  pub get_elem?-contents :
      (w : LedgerBucketWindow A) (i : ℕ)
      → w.start < length w.buckets
      → i < length w.buckets
      → get_elem? (contents w) i ≡ get_elem? w.buckets ((w.start + i) % length w.buckets)
  get_elem?-contents w i hs hi = elim (Bool-cases (leb (length w.buckets) (w.start + i))) [
    | inr near ↦
        let fits : w.start + i < length w.buckets = leb→lt _ _ near in
        get_elem?-append_left (drop w.start w.buckets) _ i
          (omega (arith, length-drop w.start w.buckets))
        ∙ get_elem?-drop w.start w.buckets i
        ∙ ap (get_elem? w.buckets) (sym (mod-eq_of_lt fits))
    | inl far ↦
        let past : length w.buckets ≤ w.start + i = leb→le _ _ far in
        get_elem?-append_right (drop w.start w.buckets) _ i
          (omega (arith, length-drop w.start w.buckets))
        ∙ get_elem?-take w.start w.buckets (i - length (drop w.start w.buckets))
            (omega (arith, length-drop w.start w.buckets))
        ∙ ap (get_elem? w.buckets) (
            omega (
              arith,
              length-drop w.start w.buckets,
              mod-wrap (w.start + i) (length w.buckets) past (omega arith),
            ))
  ]

  pub start_lt :
      (w : LedgerBucketWindow A) → IsValid w → 0 < length w.buckets → w.start < length w.buckets
  start_lt w v h = grind arith

  pub len_lem : (w : LedgerBucketWindow A) → IsValid w → len w ≡ length w.buckets
  unfolding len
  len_lem w v = omega arith

  -- `Get` reads the queue's bucket at that place, and panics exactly where there is none.
  pub get_lem : (w : LedgerBucketWindow A) (i : ℕ) → IsValid w → get w i ≡ get_elem? (contents w) i
  unfolding get len
  get_lem w i v =
      let small : u32 (length w.buckets) ≡ length w.buckets = omega arith in
      rw small (elim (Bool-cases (leb (length w.buckets) i)) [
        | inl out ↦ rw out (
            sym (get_elem?_of_le (contents w) i (omega (arith, length-contents w, leb→le _ _ out))))
        | inr inside ↦ rw (inside) (
            let here : i < length w.buckets = leb→lt _ _ inside in
            let wraps : u32 (w.start + i) ≡ w.start + i = omega arith in
            rw wraps (sym (get_elem?-contents w i (start_lt w v (omega arith)) here)))
      ])
