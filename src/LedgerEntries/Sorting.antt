-- ===== src/LedgerEntries/Sorting.antt =====
-- The entries in the order of the request's keys.
use stellar_rpc.Prelude.{
  ℕ, suc, ◌+◌, ◌≤◌, ◌≡◌, refl, ap, ◌∙◌, inl, inr, Option, none, some, List, [], ◌∷◌, map, arith,
  leb, leb→le, leb→lt, ◌==◌, ==→eq, Bool-cases, Option-cases, some_eq, length, get_elem?, Each,
  weaken-Each, Member, swap-Member, cons-Member,
}
use mathlib.Core.Path.{subst}
use stellar_rpc.LedgerEntries.{
  LedgerKey, LedgerKeyAndEntry, order_of, with_orders, insert_by_order, sort_by_order,
}

abbrev pub Ranked : Type 0
Ranked = ℕ × LedgerKeyAndEntry

-- No entry is after one of a later key.
abbrev pub Rising : List Ranked → Type 0
Rising [] = Unit
Rising (x ∷ xs) = Each (λ y. x.0 ≤ y.0) xs × Rising xs

-- The place of an entry's key among the request's
abbrev pub HasRank : (LedgerKey → Option ℕ) → List ℕ → Ranked → Type 0
HasRank marshal request_keys x =
    (b64_key : ℕ) × (marshal x.1.key ≡ some b64_key) × (get_elem? request_keys x.0 ≡ some b64_key)

order_of_lem :
    (i : ℕ) (keys : List ℕ) (key order : ℕ)
    → order_of i keys key ≡ some order
    → (n : ℕ) × (order ≡ i + n) × (get_elem? keys n ≡ some key)
unfolding order_of
order_of_lem i [] key order h = let e : ⊥ = cc in absurd e
order_of_lem i (k ∷ keys) key order h = elim (Option-cases (order_of (i + 1) keys key)) [
  | inr (later, found) ↦
      let (n, at, at_n) = order_of_lem (i + 1) keys key later found in
      let same : some later ≡ some order = rw (found, order_of) at h in
      (suc n, omega (arith, at, some_eq same), at_n)
  | inl none_later ↦ elim (Bool-cases (k == key)) [
    | inl same ↦
        let e : some i ≡ some order = rw (none_later, same, order_of) at h in
        (0, omega (arith, some_eq e), ap some (==→eq k key same))
    | inr other ↦
        let e : none ≡ some order = rw (none_later, other, order_of) at h in
        let f : ⊥ = cc in absurd f
  ]
]

insert-Each :
    (P : Ranked → Type 0) (x : Ranked) (xs : List Ranked)
    → P x
    → Each P xs
    → Each P (insert_by_order x xs)
unfolding insert_by_order
insert-Each P x [] p each = (p, tt)
insert-Each P x (y ∷ ys) p each = elim (Bool-cases (leb x.0 y.0)) [
  | inl first ↦ rw (first) (p, each)
  | inr later ↦ rw (later) (each.0, insert-Each P x ys p each.1)
]

insert-Rising : (x : Ranked) (xs : List Ranked) → Rising xs → Rising (insert_by_order x xs)
unfolding insert_by_order
insert-Rising x [] rising = (tt, tt)
insert-Rising x (y ∷ ys) rising = elim (Bool-cases (leb x.0 y.0)) [
  | inl first ↦
      let le = leb→le _ _ first in
      rw (first) (
        (le, weaken-Each (λ z. y.0 ≤ z.0) (λ z. x.0 ≤ z.0) ys (λ z h. omega arith) rising.0),
        rising,
      )
  | inr later ↦
      let lt = leb→lt _ _ later in
      rw (later)
        (insert-Each (λ z. y.0 ≤ z.0) x ys (omega arith) rising.0, insert-Rising x ys rising.1)
]

insert-Member :
    (x z : Ranked) (xs : List Ranked)
    → (Member z (x ∷ xs) → Member z (insert_by_order x xs))
      × (Member z (insert_by_order x xs) → Member z (x ∷ xs))
unfolding insert_by_order
insert-Member x z [] = (λ m. m, λ m. m)
insert-Member x z (y ∷ ys) = elim (Bool-cases (leb x.0 y.0)) [
  | inl first ↦ rw (first) (λ m. m, λ m. m)
  | inr later ↦
      let (forth, back) = insert-Member x z ys in
      rw (later) (
        λ m. cons-Member z y (x ∷ ys) (insert_by_order x ys) forth (swap-Member z x y ys m),
        λ m. swap-Member z y x ys (cons-Member z y (insert_by_order x ys) (x ∷ ys) back m),
      )
]

-- A list sorted from another one: rising, and of the same elements
pub record IsSortOf (xs ys : List Ranked) : Type 0 where
  pub rising : Rising ys
  pub keeps : (z : Ranked) → Member z xs → Member z ys
  pub adds_none : (z : Ranked) → Member z ys → Member z xs
  pub as_many : length ys ≡ length xs

length-insert_by_order :
    (x : Ranked) (xs : List Ranked) → length (insert_by_order x xs) ≡ suc (length xs)
unfolding insert_by_order
length-insert_by_order x [] = refl
length-insert_by_order x (y ∷ ys) = elim (Bool-cases (leb x.0 y.0)) [
  | inl first ↦ rw (first) refl
  | inr later ↦ rw (later) (ap suc (length-insert_by_order x ys))
]

pub sort_by_order-IsSortOf : (xs : List Ranked) → IsSortOf xs (sort_by_order xs)
unfolding sort_by_order
sort_by_order-IsSortOf [] = record {
  rising = tt;
  keeps = λ z m. m;
  adds_none = λ z m. m;
  as_many = refl;
}
sort_by_order-IsSortOf (x ∷ xs) =
    let rest = sort_by_order-IsSortOf xs in
    record {
      rising = insert-Rising x (sort_by_order xs) rest.rising;
      keeps = λ z m.
          (insert-Member x z (sort_by_order xs)).0
            (cons-Member z x xs (sort_by_order xs) (rest.keeps z) m);
      adds_none = λ z m.
          cons-Member z x (sort_by_order xs) xs (rest.adds_none z)
            ((insert-Member x z (sort_by_order xs)).1 m);
      as_many = length-insert_by_order x (sort_by_order xs) ∙ ap suc rest.as_many;
    }

pub with_orders-HasRank :
    (marshal : LedgerKey → Option ℕ) (request_keys : List ℕ) (entries : List LedgerKeyAndEntry)
    (out : List Ranked)
    → with_orders marshal request_keys entries ≡ some out
    → Each (HasRank marshal request_keys) out × (map (λ x. x.1) out ≡ entries)
unfolding with_orders
with_orders-HasRank marshal request_keys [] out h =
    subst (λ xs. Each (HasRank marshal request_keys) xs × (map (λ x. x.1) xs ≡ [])) (some_eq h)
      (tt, refl)
with_orders-HasRank marshal request_keys (e ∷ entries) out h = elim (Option-cases (marshal e.key)) [
  | inl bad ↦ absurd (none_some (rw (bad, with_orders) at h))
  | inr (b64_key, good) ↦ elim (Option-cases (order_of 0 request_keys b64_key)) [
    | inl bad ↦ absurd (none_some (rw (good, bad, with_orders) at h))
    | inr (order, known) ↦ elim (Option-cases (with_orders marshal request_keys entries)) [
      | inl bad ↦ absurd (none_some (rw (good, known, bad, with_orders) at h))
      | inr (rest, others) ↦
          let (each, same) = with_orders-HasRank marshal request_keys entries rest others in
          let (n, at, found) = order_of_lem 0 request_keys b64_key order known in
          subst (λ xs. Each (HasRank marshal request_keys) xs × (map (λ x. x.1) xs ≡ e ∷ entries))
            (some_eq (rw (good, known, others, with_orders) at h))
            (
              (
                (b64_key, good, ap (get_elem? request_keys) {y = n} (omega (arith, at)) ∙ found),
                each,
              ),
              ap (◌∷◌ e) same,
            )
    ]
  ]
]
  where
    none_some : ◌≡◌ {A = Option (List Ranked)} none (some out) → ⊥
    none_some h = cc
