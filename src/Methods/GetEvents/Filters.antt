-- ===== src/Methods/GetEvents/Filters.antt =====
-- The combined filters, which the database applies, against the request's filters.
use stellar_rpc.Prelude.{
  ℕ, ◌≡◌, ◌⊎◌, refl, sym, ap, ◌∙◌, inl, inr, Bool, true, false, ◌&&◌, some, List, [], ◌∷◌, some_eq,
  contains_of_Some, is_nil, Some, Each, Each-Some, weaken-Some,
}
use mathlib.Core.Path.{subst}
use stellar_rpc.EventStore.Query.{
  Event, StoredEvent, Row, TopicCondition, insert_event, topic_list, max_topic_count, is_in,
  topics_hold, filters_hold, columns_exist,
}
use stellar_rpc.EventStore.Query.Scan.{insert_event-Holds}
use stellar_rpc.Methods.GetEvents.{
  Handler, EventFilter, combine_contract_ids, contract_ids_from, combine_event_types,
  event_types_from, topics_from, combine_topics,
}
use stellar_rpc.Methods.GetEvents.Combine.{
  Gives, contract_ids_from-CombinedIds, HasType, event_types_from-CombinedTypes,
}
use stellar_rpc.Methods.GetEvents.Topics.{SegmentsHold, combine_topics_lem, TopicsAccept}

-- What the protocol documents of a filter: the event's type is one of the filter's, its contract is
-- one of them and one of its topics holds, where the filter has any of the kind.
pub record Accepts (h : Handler) (e : Event) (f : EventFilter) : Type 0 where
  pub type_in : (f.event_types ≡ []) ⊎ Some (λ t. h.event_type_xdr t ≡ e.event_type) f.event_types
  pub contract_in :
      (f.contract_ids ≡ [])
      ⊎ Some
          (λ contract_id.
            (id : ℕ) × (h.codec.decode_contract contract_id ≡ some id) × (e.contract_id ≡ some id))
          f.contract_ids
  pub topic_in :
      (f.topics ≡ []) ⊎ ((ts : List ℕ) × (e.topics ≡ some ts) × Some (SegmentsHold ts 0) f.topics)

-- What the protocol documents of a request: an event matches only if there are no filters or one of
-- them accepts it.
abbrev pub MatchesByFilter : Handler → Type 0
MatchesByFilter h =
    (filters : List EventFilter) (e : Event)
    → h.matches filters e ≡ true
    → (filters ≡ []) ⊎ Some (Accepts h e) filters

constant_Some {ℓ} : {A : Type ℓ} (P : Type 0) (xs : List A) → Some (λ x. P) xs → P
constant_Some P [] h = absurd h
constant_Some P (x ∷ xs) (inl h) = h
constant_Some P (x ∷ xs) (inr h) = constant_Some P xs h

is_in_of_Some : (vs : List ℕ) (v : ℕ) → Some (λ w. w ≡ v) vs → is_in vs (some v) ≡ true
unfolding is_in
is_in_of_Some [] v h = absurd h
is_in_of_Some (w ∷ ws) v h = contains_of_Some (w ∷ ws) v h

module _ (h : Handler) (e : Event) (filters : List EventFilter) where
  contracts_lem :
      (ids : List ℕ)
      → combine_contract_ids h.codec.decode_contract filters ≡ some ids
      → Some (Accepts h e) filters
      → is_in ids e.contract_id ≡ true
  unfolding combine_contract_ids is_in
  contracts_lem ids combined accepted =
      elim (contract_ids_from-CombinedIds h.codec.decode_contract [] [] filters ids tt combined) [
        | inl all ↦ subst (λ vs. is_in vs e.contract_id ≡ true) (sym all) refl
        | inr (each, grows) ↦ constant_Some (is_in ids e.contract_id ≡ true) filters (
            Each-Some
              (λ f.
                (is_nil f.contract_ids ≡ false)
                × Each (Gives h.codec.decode_contract ids) f.contract_ids)
              (Accepts h e) (λ f. is_in ids e.contract_id ≡ true) filters
              (λ f (restricts, gives) a. one f restricts gives a.contract_in) each accepted)
      ]
    where
      one :
          (f : EventFilter)
          → is_nil f.contract_ids ≡ false
          → Each (Gives h.codec.decode_contract ids) f.contract_ids
          → (f.contract_ids ≡ [])
            ⊎ Some
                (λ contract_id.
                  (id : ℕ) × (h.codec.decode_contract contract_id ≡ some id)
                  × (e.contract_id ≡ some id))
                f.contract_ids
          → is_in ids e.contract_id ≡ true
      one f restricts gives (inl none_left) =
          let e : is_nil f.contract_ids ≡ true = ap is_nil none_left in let f : ⊥ = cc in absurd f
      one f restricts gives (inr some_left) =
          constant_Some (is_in ids e.contract_id ≡ true) f.contract_ids (
            Each-Some (Gives h.codec.decode_contract ids)
              (λ contract_id.
                (id : ℕ) × (h.codec.decode_contract contract_id ≡ some id)
                × (e.contract_id ≡ some id))
              (λ contract_id. is_in ids e.contract_id ≡ true) f.contract_ids
              (λ contract_id (id, decoded, there) (id', decoded', here).
                let same : id ≡ id' = some_eq (sym decoded ∙ decoded') in
                subst (λ o. is_in ids o ≡ true) (sym (here ∙ ap some (sym same)))
                  (is_in_of_Some ids id there))
              gives some_left)

  types_lem :
      Some (Accepts h e) filters
      → is_in (combine_event_types h.event_type_xdr filters) (some e.event_type) ≡ true
  unfolding combine_event_types is_in
  types_lem accepted =
      let types = combine_event_types h.event_type_xdr filters in
      elim (event_types_from-CombinedTypes h.event_type_xdr [] filters types refl) [
        | inl all ↦ subst (λ vs. is_in vs (some e.event_type) ≡ true) (sym all) refl
        | inr (each, grows) ↦ constant_Some (is_in types (some e.event_type) ≡ true) filters (
            Each-Some
              (λ f.
                (is_nil f.event_types ≡ false)
                × Each (HasType h.event_type_xdr types) f.event_types)
              (Accepts h e) (λ f. is_in types (some e.event_type) ≡ true) filters
              (λ f (restricts, has) a. one types f restricts has a.type_in) each accepted)
      ]
    where
      one :
          (types : List ℕ) (f : EventFilter)
          → is_nil f.event_types ≡ false
          → Each (HasType h.event_type_xdr types) f.event_types
          → (f.event_types ≡ []) ⊎ Some (λ t. h.event_type_xdr t ≡ e.event_type) f.event_types
          → is_in types (some e.event_type) ≡ true
      one types f restricts has (inl none_left) =
          let e : is_nil f.event_types ≡ true = ap is_nil none_left in let f : ⊥ = cc in absurd f
      one types f restricts has (inr some_left) =
          constant_Some (is_in types (some e.event_type) ≡ true) f.event_types (
            Each-Some (HasType h.event_type_xdr types) (λ t. h.event_type_xdr t ≡ e.event_type)
              (λ t. is_in types (some e.event_type) ≡ true) f.event_types
              (λ t there here.
                is_in_of_Some types e.event_type (subst (λ v. Some (λ u. u ≡ v) types) here there))
              has some_left)

  topics_lem :
      (topics : List (List TopicCondition)) (row : Row) (ts : List ℕ)
      → combine_topics h.codec.marshal_segment filters ≡ some topics
      → columns_exist topics ≡ true
      → e.topics ≡ some ts
      → topic_list h.codec.marshal_segment max_topic_count ts ≡ some row.topics
      → Some (Accepts h e) filters
      → topics_hold topics row ≡ true
  topics_lem topics row ts combined known body listed accepted =
      combine_topics_lem h.codec.marshal_segment row ts listed filters topics combined known (
        weaken-Some (Accepts h e) (TopicsAccept h.codec.marshal_segment row ts listed) filters
          (λ f a. one f a.topic_in) accepted)
    where
      one :
          (f : EventFilter)
          → (f.topics ≡ [])
            ⊎ ((ts' : List ℕ) × (e.topics ≡ some ts') × Some (SegmentsHold ts' 0) f.topics)
          → (f.topics ≡ []) ⊎ Some (SegmentsHold ts 0) f.topics
      one f (inl h) = inl h
      one f (inr (ts', body', h)) =
          inr (subst (λ us. Some (SegmentsHold us 0) f.topics) (some_eq (sym body' ∙ body)) h)

-- The conditions that the database applies lose no event that matches the request, where the filters
-- combine, name columns of the table, and the event was inserted as the row.
pub filters_hold_of_matches :
    (h : Handler) (filters : List EventFilter) (ids : List ℕ) (topics : List (List TopicCondition))
    (e : StoredEvent) (row : Row)
    → MatchesByFilter h
    → combine_contract_ids h.codec.decode_contract filters ≡ some ids
    → combine_topics h.codec.marshal_segment filters ≡ some topics
    → columns_exist topics ≡ true
    → insert_event h.codec e ≡ some row
    → h.matches filters e.event ≡ true
    → filters_hold ids topics (combine_event_types h.event_type_xdr filters) row ≡ true
unfolding filters_hold combine_contract_ids contract_ids_from combine_topics topics_from is_in
    topics_hold combine_event_types event_types_from
filters_hold_of_matches h filters ids topics e row by_filter c t known made matched =
    let holds = insert_event-Holds h.codec e row made in
    elim (by_filter filters e.event matched) [
      | inl empty ↦ no_filters filters empty c t
      | inr accepted ↦
          let a = contracts_lem h e.event filters ids c accepted in
          let b = types_lem h e.event filters accepted in
          let d =
            topics_lem h e.event filters topics row holds.segments t known holds.body holds.columns
              accepted in
          all_true (subst (λ o. is_in ids o ≡ true) (sym holds.contract) a)
            (subst (λ t. is_in (combine_event_types h.event_type_xdr filters) (some t) ≡ true)
              (sym holds.type) b)
            d
    ]
  where
    all_true : {a b c : Bool} → a ≡ true → b ≡ true → c ≡ true → (a && (b && c)) ≡ true
    all_true x y z = rw (x, y, z) refl

    no_filters :
        (filters : List EventFilter)
        → filters ≡ []
        → combine_contract_ids h.codec.decode_contract filters ≡ some ids
        → combine_topics h.codec.marshal_segment filters ≡ some topics
        → filters_hold ids topics (combine_event_types h.event_type_xdr filters) row ≡ true
    no_filters [] empty c t =
        subst (λ vs. filters_hold vs topics [] row ≡ true) (some_eq c)
          (subst (λ ts. filters_hold [] ts [] row ≡ true) (some_eq t) refl)
    no_filters (f ∷ fs) empty c t = absurd (cons_nil empty)
      where
        cons_nil : f ∷ fs ≡ [] → ⊥
        cons_nil h = cc
