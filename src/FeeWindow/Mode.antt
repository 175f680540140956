-- ===== src/FeeWindow/Mode.antt =====
-- The loop that looks for the mode finds the most frequent fee, and the smallest of those.
use stellar_rpc.Prelude.{
  ℕ, ◌+◌, ◌≤◌, ◌<◌, ◌≡◌, refl, ◌∙◌, sym, ap, inl, inr, List, [], ◌∷◌, arith, length, get_elem?,
  some, ltb, leb, ◌==◌, if◌then◌else◌, Bool-cases, ==→eq, ==→ne, ltb→lt, ltb→le, leb→le, leb→lt,
}
use mathlib.Core.Path.{subst}
use stellar_rpc.Prelude.Counting.{count, count_of_lt, IsSorted, All}
use stellar_rpc.FeeWindow.Spec.{IsMode}
use stellar_rpc.FeeWindow.{Clusters, cluster_step, cluster_loop}

-- What the code makes of the loop's last state.
abbrev pub chosen : Clusters → ℕ
chosen s = if ltb s.max_repetitions s.local_repetitions then s.last_val else s.mode

-- How often `v` occurs in the current cluster and what follows it.
abbrev weight : Clusters → List ℕ → ℕ → ℕ
weight s rest v = (if v == s.last_val then s.local_repetitions + 1 else 0) + count v rest

-- What is left to do: either the mode so far stays, and no value from here on beats it, or the value
-- chosen is from here on, beats it, and is the first of the best.
data Best (s : Clusters) (rest : List ℕ) (m : ℕ) : Type 0 where
  stays :
      m ≡ s.mode
      → ((v : ℕ) → s.last_val ≤ v → weight s rest v ≤ s.max_repetitions + 1)
      → Best s rest m
  beaten :
      s.last_val ≤ m
      → s.max_repetitions + 1 < weight s rest m
      → ((v : ℕ) → s.last_val ≤ v → weight s rest v ≤ weight s rest m)
      → ((v : ℕ) → s.last_val ≤ v → weight s rest v ≡ weight s rest m → m ≤ v)
      → Best s rest m

Best-at_end : (s : Clusters) → Best s [] (chosen s)
Best-at_end s = elim (Bool-cases (ltb s.max_repetitions s.local_repetitions)) [
  | inl more ↦ rw more (
      beaten (omega arith) (ground (arith, ltb→lt _ _ more)) (λ v h. ground arith)
        (λ v h e. ground arith))
  | inr same ↦ rw same (stays refl (λ v h. ground (arith, ltb→le _ _ same)))
]

-- The current cluster goes on.
Best-same :
    (s : Clusters) (fee : ℕ) (rest : List ℕ) (m : ℕ)
    → fee ≡ s.last_val
    → Best (record s { local_repetitions = s.local_repetitions + 1 }) rest m
    → Best s (fee ∷ rest) m
Best-same s fee rest m e (stays same most) = stays same (λ v h. ground (arith, most v h))
Best-same s fee rest m e (beaten le more most first) =
    beaten le (ground arith) (λ v h. ground (arith, most v h)) (λ v h k. ground (arith, first v h))

All-lt_of_le : (v fee : ℕ) (ys : List ℕ) → v < fee → All (λ y. fee ≤ y) ys → All (λ y. v < y) ys
All-lt_of_le v fee [] h k = tt
All-lt_of_le v fee (y ∷ ys) h k = (omega arith, All-lt_of_le v fee ys h k.1)

-- A new cluster begins at `fee`: the weights before it and from it on.
module _ (s : Clusters) (fee : ℕ) (rest : List ℕ) (up : s.last_val < fee)
    (sorted : All (λ y. fee ≤ y) rest) where
  weight_below : (v : ℕ) → v < fee → weight s (fee ∷ rest) v ≤ s.local_repetitions + 1
  weight_below v h =
      let gone = count_of_lt v rest (All-lt_of_le v fee rest h sorted) in ground (arith, gone)

  weight_last : weight s (fee ∷ rest) s.last_val ≡ s.local_repetitions + 1
  weight_last =
      let gone = count_of_lt s.last_val rest (All-lt_of_le s.last_val fee rest up sorted) in
      ground (arith, gone)

  weight_from :
      (t : Clusters) (v : ℕ)
      → t.last_val ≡ fee
      → t.local_repetitions ≡ 0
      → fee ≤ v
      → weight s (fee ∷ rest) v ≡ weight t rest v
  weight_from t v e z h = ground arith

  -- A value chosen later has its whole weight there.
  Best-later :
      (t : Clusters) (m : ℕ)
      → t.last_val ≡ fee
      → t.local_repetitions ≡ 0
      → s.max_repetitions ≤ t.max_repetitions
      → s.local_repetitions ≤ t.max_repetitions
      → t.last_val ≤ m
      → t.max_repetitions + 1 < weight t rest m
      → ((v : ℕ) → t.last_val ≤ v → weight t rest v ≤ weight t rest m)
      → ((v : ℕ) → t.last_val ≤ v → weight t rest v ≡ weight t rest m → m ≤ v)
      → Best s (fee ∷ rest) m
  Best-later t m el ez hm hl le more most first =
      let here : weight s (fee ∷ rest) m ≡ weight t rest m = weight_from t m el ez (omega arith) in
      beaten (omega arith) (omega arith)
        (λ v h. elim (Bool-cases (leb fee v)) [
          | inl from ↦
              let f : fee ≤ v = leb→le _ _ from in
              omega (arith, weight_from t v el ez f, most v (omega arith))
          | inr before ↦ omega (arith, weight_below v (leb→lt _ _ before))
        ])
        (λ v h k. elim (Bool-cases (leb fee v)) [
          | inl from ↦
              let f : fee ≤ v = leb→le _ _ from in
              first v (omega arith) (omega (arith, weight_from t v el ez f))
          | inr before ↦ absurd (omega (arith, weight_below v (leb→lt _ _ before)))
        ])

  Best-longer :
      (t : Clusters) (m : ℕ)
      → t.mode ≡ s.last_val
      → t.last_val ≡ fee
      → t.max_repetitions ≡ s.local_repetitions
      → t.local_repetitions ≡ 0
      → s.max_repetitions < s.local_repetitions
      → Best t rest m
      → Best s (fee ∷ rest) m
  Best-longer t m em el ex ez gt (stays same most) =
      let here : m ≡ s.last_val = same ∙ em in
      let heavy : weight s (fee ∷ rest) m ≡ s.local_repetitions + 1 =
        ap (weight s (fee ∷ rest)) here ∙ weight_last in
      beaten (omega arith) (omega arith) (λ v h. omega (arith, bound v)) (λ v h k. omega arith)
    where
      bound : (v : ℕ) → weight s (fee ∷ rest) v ≤ s.local_repetitions + 1
      bound v = elim (Bool-cases (leb fee v)) [
        | inl from ↦
            let f : fee ≤ v = leb→le _ _ from in
            omega (arith, weight_from t v el ez f, most v (omega arith))
        | inr before ↦ weight_below v (leb→lt _ _ before)
      ]
  Best-longer t m em el ex ez gt (beaten le more most first) =
      Best-later t m el ez (omega arith) (omega arith) le more most first

  Best-shorter :
      (t : Clusters) (m : ℕ)
      → t.mode ≡ s.mode
      → t.last_val ≡ fee
      → t.max_repetitions ≡ s.max_repetitions
      → t.local_repetitions ≡ 0
      → s.local_repetitions ≤ s.max_repetitions
      → Best t rest m
      → Best s (fee ∷ rest) m
  Best-shorter t m em el ex ez le (stays same most) = stays (same ∙ em) λ v h.
      elim (Bool-cases (leb fee v)) [
        | inl from ↦
            let f : fee ≤ v = leb→le _ _ from in
            omega (arith, weight_from t v el ez f, most v (omega arith))
        | inr before ↦ omega (arith, weight_below v (leb→lt _ _ before))
      ]
  Best-shorter t m em el ex ez gt (beaten le more most first) =
      Best-later t m el ez (omega arith) (omega arith) le more most first

-- The step of the loop, whichever branch it takes.
Best-step :
    (s : Clusters) (fee : ℕ) (rest : List ℕ) (m : ℕ)
    → s.last_val ≤ fee
    → All (λ y. fee ≤ y) rest
    → Best (cluster_step s fee) rest m
    → Best s (fee ∷ rest) m
unfolding cluster_step
Best-step s fee rest m le sorted b = elim (Bool-cases (fee == s.last_val)) [
  | inl same ↦ Best-same s fee rest m (==→eq _ _ same) (rw same at b)
  | inr new ↦
      let up : s.last_val < fee = omega (arith, ==→ne _ _ new) in
      elim (Bool-cases (ltb s.max_repetitions s.local_repetitions)) [
        | inl more ↦
            Best-longer s fee rest up sorted _ m refl refl refl refl (ltb→lt _ _ more)
              (rw (new, more) at b)
        | inr less ↦
            Best-shorter s fee rest up sorted _ m refl refl refl refl (ltb→le _ _ less)
              (rw (new, less) at b)
      ]
]

last_val-step : (s : Clusters) (fee : ℕ) → (cluster_step s fee).last_val ≡ fee
unfolding cluster_step
last_val-step s fee = ground arith

Best-loop :
    (s : Clusters) (rest : List ℕ)
    → All (λ y. s.last_val ≤ y) rest
    → IsSorted rest
    → Best s rest (chosen (cluster_loop s rest))
unfolding cluster_loop
Best-loop s [] h k = Best-at_end s
Best-loop s (fee ∷ rest) h k = Best-step s fee rest _ h.0 k.0 (
    Best-loop (cluster_step s fee) rest
      (subst (λ l. All (λ y. l ≤ y) rest) (sym (last_val-step s fee)) k.0) k.1)

abbrev pub clusters_at : ℕ → Clusters
clusters_at fee = record { mode = fee; last_val = fee; max_repetitions = 0; local_repetitions = 0 }

weight_start :
    (fee : ℕ) (rest : List ℕ) (v : ℕ) → weight (clusters_at fee) rest v ≡ count v (fee ∷ rest)
weight_start fee rest v = ground arith

Best-IsMode :
    (fee : ℕ) (rest : List ℕ) (m : ℕ)
    → All (λ y. fee ≤ y) rest
    → Best (clusters_at fee) rest m
    → IsMode (fee ∷ rest) m
Best-IsMode fee rest m h (stays same most) = record {
  most = λ v. elim (Bool-cases (leb fee v)) [
    | inl from ↦ omega (arith, most v (leb→le _ _ from), weight_start fee rest v, there)
    | inr before ↦ omega (arith, gone v (leb→lt _ _ before))
  ];
  smallest = λ v e. elim (Bool-cases (leb fee v)) [
    | inl from ↦ omega (arith, leb→le _ _ from)
    | inr before ↦ absurd (omega (arith, gone v (leb→lt _ _ before), there))
  ];
}
  where
    there : 0 < count m (fee ∷ rest)
    there = ground arith

    gone : (v : ℕ) → v < fee → count v (fee ∷ rest) ≡ 0
    gone v k = count_of_lt v (fee ∷ rest) (k, All-lt_of_le v fee rest k h)
Best-IsMode fee rest m h (beaten le more most first) = record {
  most = λ v. elim (Bool-cases (leb fee v)) [
    | inl from ↦
        omega (arith, most v (leb→le _ _ from), weight_start fee rest v, weight_start fee rest m)
    | inr before ↦ omega (arith, gone v (leb→lt _ _ before))
  ];
  smallest = λ v e. elim (Bool-cases (leb fee v)) [
    | inl from ↦
        first v (leb→le _ _ from) (omega (arith, weight_start fee rest v, weight_start fee rest m))
    | inr before ↦ absurd (omega (arith, gone v (leb→lt _ _ before), weight_start fee rest m))
  ];
}
  where
    gone : (v : ℕ) → v < fee → count v (fee ∷ rest) ≡ 0
    gone v k = count_of_lt v (fee ∷ rest) (k, All-lt_of_le v fee rest k h)

-- Of sorted fees the loop and the test after it choose the mode.
pub cluster_loop-IsMode :
    (fee : ℕ) (rest : List ℕ)
    → IsSorted (fee ∷ rest)
    → IsMode (fee ∷ rest) (chosen (cluster_loop (clusters_at fee) rest))
cluster_loop-IsMode fee rest h =
    Best-IsMode fee rest _ h.0 (Best-loop (clusters_at fee) rest h.0 h.1)

-- After the loop `last_val` is the last of the fees.
pub last_val-cluster_loop :
    (s : Clusters) (rest : List ℕ)
    → get_elem? (s.last_val ∷ rest) (length rest) ≡ some (cluster_loop s rest).last_val
unfolding cluster_loop
last_val-cluster_loop s [] = refl
last_val-cluster_loop s (fee ∷ rest) =
    ap (λ l. get_elem? (l ∷ rest) (length rest)) (sym (last_val-step s fee))
    ∙ last_val-cluster_loop (cluster_step s fee) rest
