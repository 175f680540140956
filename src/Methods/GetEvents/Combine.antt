-- ===== src/Methods/GetEvents/Combine.antt =====
-- What the combined filters contain.
use stellar_rpc.Prelude.{
  ℕ, ◌≡◌, ◌⊎◌, refl, inl, inr, false, Option, none, some, List, [], ◌∷◌, ◌++◌, Bool-cases,
  Option-cases, some_eq, contains, is_nil, Some, Each, append_left-Some, append_right-Some,
  append-Each, weaken-Each, Each_of_contains, Some-contains, sym,
}
use mathlib.Core.Path.{subst}
use stellar_rpc.Methods.GetEvents.{
  EventFilter, add_contract_ids, contract_ids_from, add_event_types, event_types_from,
}

-- The id that a contract's string stands for is among those given.
abbrev pub Gives : (ℕ → Option ℕ) → List ℕ → ℕ → Type 0
Gives decode ids contract_id = (id : ℕ) × (decode contract_id ≡ some id) × Some (λ v. v ≡ id) ids

-- What adding a filter's contracts does
record Added (decode : ℕ → Option ℕ) (ids : List ℕ) (added : List ℕ) (out : List ℕ × List ℕ)
    : Type 0 where
  pub seen : Each (Gives decode out.1) out.0
  pub gives : Each (Gives decode out.1) added
  pub grows : (v : ℕ) → Some (λ w. w ≡ v) ids → Some (λ w. w ≡ v) out.1

add_contract_ids-Added :
    (decode : ℕ → Option ℕ) (seen ids added : List ℕ) (out : List ℕ × List ℕ)
    → Each (Gives decode ids) seen
    → add_contract_ids decode seen ids added ≡ some out
    → Added decode ids added out
unfolding add_contract_ids
add_contract_ids-Added decode seen ids [] out known e =
    subst (Added decode ids []) (some_eq e) (record { seen = known; gives = tt; grows = λ v h. h })
add_contract_ids-Added decode seen ids (id ∷ rest) out known e =
    elim (Bool-cases (contains seen id)) [
      | inl old ↦
          let added =
            add_contract_ids-Added decode seen ids rest out known
              (rw (old, add_contract_ids) at e) in
          let (v, decoded, there) = Each_of_contains (Gives decode ids) seen id old known in
          record {
            seen = added.seen;
            gives = ((v, decoded, added.grows v there), added.gives);
            grows = added.grows;
          }
      | inr new ↦ elim (Option-cases (decode id)) [
        | inl bad ↦ absurd (none_some (rw (new, bad, add_contract_ids) at e))
        | inr (v, decoded) ↦
            let grown : (w : ℕ) → Some (λ u. u ≡ w) ids → Some (λ u. u ≡ w) (ids ++ (v ∷ [])) =
              λ w h. append_left-Some (λ u. u ≡ w) ids (v ∷ []) h in
            let here : Some (λ u. u ≡ v) (ids ++ (v ∷ [])) =
              append_right-Some (λ u. u ≡ v) ids (v ∷ []) (inl refl) in
            let seen' =
              append-Each (Gives decode (ids ++ (v ∷ []))) seen (id ∷ [])
                (weaken-Each (Gives decode ids) (Gives decode (ids ++ (v ∷ []))) seen
                  (λ c (w, d, h). (w, d, grown w h)) known)
                ((v, decoded, here), tt) in
            let added =
              add_contract_ids-Added decode (seen ++ (id ∷ [])) (ids ++ (v ∷ [])) rest out seen'
                (rw (new, decoded, add_contract_ids) at e) in
            record {
              seen = added.seen;
              gives = ((v, decoded, added.grows v here), added.gives);
              grows = λ w h. added.grows w (grown w h);
            }
      ]
    ]
  where
    none_some : ◌≡◌ {A = Option (List ℕ × List ℕ)} none (some out) → ⊥
    none_some h = cc

-- Either there is no restriction, or every filter has contracts and all of them are in it.
abbrev pub CombinedIds : (ℕ → Option ℕ) → List EventFilter → List ℕ → List ℕ → Type 0
CombinedIds decode filters ids out =
    (out ≡ [])
    ⊎ (Each (λ f. (is_nil f.contract_ids ≡ false) × Each (Gives decode out) f.contract_ids) filters
        × ((v : ℕ) → Some (λ w. w ≡ v) ids → Some (λ w. w ≡ v) out))

pub contract_ids_from-CombinedIds :
    (decode : ℕ → Option ℕ) (seen ids : List ℕ) (filters : List EventFilter) (out : List ℕ)
    → Each (Gives decode ids) seen
    → contract_ids_from decode seen ids filters ≡ some out
    → CombinedIds decode filters ids out
unfolding contract_ids_from
contract_ids_from-CombinedIds decode seen ids [] out known e =
    inr (tt, λ v h. subst (Some (λ w. w ≡ v)) (some_eq e) h)
contract_ids_from-CombinedIds decode seen ids (f ∷ fs) out known e =
    elim (Bool-cases (is_nil f.contract_ids)) [
      | inl all ↦ inl (sym (some_eq (rw (all) at e)))
      | inr restricts ↦ elim (Option-cases (add_contract_ids decode seen ids f.contract_ids)) [
        | inl bad ↦ absurd (none_some (rw (restricts, bad, contract_ids_from) at e))
        | inr (next, more) ↦
            let added = add_contract_ids-Added decode seen ids f.contract_ids next known more in
            elim (contract_ids_from-CombinedIds decode next.0 next.1 fs out added.seen
              (rw (restricts, more, contract_ids_from) at e)) [
                | inl h ↦ inl h
                | inr (rest, grows) ↦ inr (
                  (
                    (
                      restricts,
                      weaken-Each (Gives decode next.1) (Gives decode out) f.contract_ids
                          (λ c (w, d, h). (w, d, grows w h)) added.gives,
                    ),
                    rest,
                  ),
                  λ v h. grows v (added.grows v h),
                )
              ]
      ]
    ]
  where
    none_some : ◌≡◌ {A = Option (List ℕ)} none (some out) → ⊥
    none_some h = cc

-- The same of the types.
abbrev pub HasType : (ℕ → ℕ) → List ℕ → ℕ → Type 0
HasType to_xdr types t = Some (λ u. u ≡ to_xdr t) types

record AddedTypes (to_xdr : ℕ → ℕ) (types added out : List ℕ) : Type 0 where
  pub has : Each (HasType to_xdr out) added
  pub grows : (v : ℕ) → Some (λ w. w ≡ v) types → Some (λ w. w ≡ v) out

add_event_types-AddedTypes :
    (to_xdr : ℕ → ℕ) (types added out : List ℕ)
    → add_event_types to_xdr types added ≡ out
    → AddedTypes to_xdr types added out
unfolding add_event_types
add_event_types-AddedTypes to_xdr types [] out e = record {
  has = tt;
  grows = λ v h. subst (Some (λ w. w ≡ v)) e h;
}
add_event_types-AddedTypes to_xdr types (t ∷ rest) out e =
    elim (Bool-cases (contains types (to_xdr t))) [
      | inl old ↦
          let more =
            add_event_types-AddedTypes to_xdr types rest out (rw (old, add_event_types) at e) in
          record {
            has = (more.grows (to_xdr t) (Some-contains types (to_xdr t) old), more.has);
            grows = more.grows;
          }
      | inr new ↦
          let more =
            add_event_types-AddedTypes to_xdr (types ++ (to_xdr t ∷ [])) rest out
              (rw (new, add_event_types) at e) in
          record {
            has = (
              more.grows (to_xdr t)
                  (append_right-Some (λ u. u ≡ to_xdr t) types (to_xdr t ∷ []) (inl refl)),
              more.has,
            );
            grows = λ v h. more.grows v (append_left-Some (λ u. u ≡ v) types (to_xdr t ∷ []) h);
          }
    ]

abbrev pub CombinedTypes : (ℕ → ℕ) → List EventFilter → List ℕ → List ℕ → Type 0
CombinedTypes to_xdr filters types out =
    (out ≡ [])
    ⊎ (Each (λ f. (is_nil f.event_types ≡ false) × Each (HasType to_xdr out) f.event_types) filters
        × ((v : ℕ) → Some (λ w. w ≡ v) types → Some (λ w. w ≡ v) out))

pub event_types_from-CombinedTypes :
    (to_xdr : ℕ → ℕ) (types : List ℕ) (filters : List EventFilter) (out : List ℕ)
    → event_types_from to_xdr types filters ≡ out
    → CombinedTypes to_xdr filters types out
unfolding event_types_from
event_types_from-CombinedTypes to_xdr types [] out e =
    inr (tt, λ v h. subst (Some (λ w. w ≡ v)) e h)
event_types_from-CombinedTypes to_xdr types (f ∷ fs) out e =
    elim (Bool-cases (is_nil f.event_types)) [
      | inl all ↦ inl (sym (rw (all) at e))
      | inr restricts ↦
          let added =
            add_event_types-AddedTypes to_xdr types f.event_types
              (add_event_types to_xdr types f.event_types) refl in
          elim (event_types_from-CombinedTypes to_xdr (add_event_types to_xdr types f.event_types)
            fs out (rw (restricts, event_types_from) at e)) [
              | inl h ↦ inl h
              | inr (rest, grows) ↦ inr (
                (
                  (
                    restricts,
                    weaken-Each (HasType to_xdr (add_event_types to_xdr types f.event_types))
                        (HasType to_xdr out) f.event_types (λ t h. grows (to_xdr t) h) added.has,
                  ),
                  rest,
                ),
                λ v h. grows v (added.grows v h),
              )
            ]
    ]
