-- ===== src/Methods/GetEvents/Infos.antt =====
-- What a response shows of the entries that were found.
use stellar_rpc.Prelude.{
  ℕ, zero, suc, ◌≡◌, refl, ap, ◌∙◌, inl, inr, Bool, true, false, Option, none, some, List, [], ◌∷◌,
  map, Bool-cases, Option-cases, some_eq, if◌then◌else◌, length, ltb, Each, arith,
}
use mathlib.Core.Path.{subst}
use stellar_rpc.EventStore.Query.{StoredEvent}
use stellar_rpc.Methods.{ok}
use stellar_rpc.Methods.GetEvents.{
  Handler, EventInfo, convert_all, event_info_for_event, infos_of, last_id,
}
use stellar_rpc.Methods.GetEvents.Found.{entry_of}
use stellar_rpc.Methods.GetEvents.Split.{last_or}

-- An event that can be rendered
abbrev pub Renders : Handler → Bool → StoredEvent → Type 0
Renders h is_json e = (info : EventInfo) × (event_info_for_event h is_json (entry_of e) ≡ some info)

-- A value in the format that was asked for
abbrev pub convert_of : Handler → Bool → ℕ → Option ℕ
convert_of h true = h.convert_json
convert_of h false = h.marshal_base64

abbrev pub AreConverted : (ℕ → Option ℕ) → List ℕ → List ℕ → Type 0
AreConverted convert [] [] = Unit
AreConverted convert [] (t ∷ ts) = ⊥
AreConverted convert (topic ∷ topics) [] = ⊥
AreConverted convert (topic ∷ topics) (t ∷ ts) =
    (convert topic ≡ some t) × AreConverted convert topics ts

abbrev pub IsContract : Handler → Option ℕ → Option ℕ → Type 0
IsContract h none shown = shown ≡ none
IsContract h (some id) shown = shown ≡ some (h.must_encode id)

-- What is shown of a stored event
pub record IsInfo (h : Handler) (is_json : Bool) (e : StoredEvent) (info : EventInfo) : Type 0 where
  pub event_type : h.event_type_from_xdr e.event.event_type ≡ some info.event_type
  pub ledger : info.ledger ≡ e.cursor.ledger
  pub closed_at : info.ledger_closed_at ≡ e.close_time
  pub id : info.id ≡ h.codec.cursor_string e.cursor
  pub successful : info.in_successful_contract_call ≡ e.event.in_successful_contract_call
  pub hash : info.transaction_hash ≡ e.tx_hash
  pub op_index : info.op_index ≡ e.cursor.op
  pub tx_index : info.tx_index ≡ e.cursor.tx
  pub topics : List ℕ
  pub body : e.event.topics ≡ some topics
  pub are_topics : AreConverted (convert_of h is_json) topics info.topics
  pub value : convert_of h is_json e.event.payload ≡ some info.value
  pub contract : IsContract h e.event.contract_id info.contract_id

-- One info for each event, in their order
abbrev pub AreInfos : Handler → Bool → List StoredEvent → List EventInfo → Type 0
AreInfos h is_json [] [] = Unit
AreInfos h is_json [] (info ∷ infos) = ⊥
AreInfos h is_json (e ∷ es) [] = ⊥
AreInfos h is_json (e ∷ es) (info ∷ infos) = IsInfo h is_json e info × AreInfos h is_json es infos

convert_all-AreConverted :
    (convert : ℕ → Option ℕ) (topics ts : List ℕ)
    → convert_all convert topics ≡ some ts
    → AreConverted convert topics ts
unfolding convert_all
convert_all-AreConverted convert [] ts h = subst (AreConverted convert []) (some_eq h) tt
convert_all-AreConverted convert (topic ∷ topics) ts h = elim (Option-cases (convert topic)) [
  | inl bad ↦ absurd (none_some (rw (bad, convert_all) at h))
  | inr (t, good) ↦ elim (Option-cases (convert_all convert topics)) [
    | inl bad ↦ absurd (none_some (rw (good, bad, convert_all) at h))
    | inr (rest, others) ↦
        subst (AreConverted convert (topic ∷ topics))
          (some_eq (rw (good, others, convert_all) at h))
          (good, convert_all-AreConverted convert topics rest others)
  ]
]
  where
    none_some : ◌≡◌ {A = Option (List ℕ)} none (some ts) → ⊥
    none_some h = cc

encoded-IsContract :
    (h : Handler) (contract : Option ℕ)
    → IsContract h contract (elim contract [ none ↦ none | some id ↦ some (h.must_encode id) ])
encoded-IsContract h none = refl
encoded-IsContract h (some id) = refl

convert_of_lem :
    (h : Handler) (is_json : Bool)
    → (if is_json then h.convert_json else h.marshal_base64) ≡ convert_of h is_json
convert_of_lem h true = refl
convert_of_lem h false = refl

event_info_for_event-IsInfo :
    (h : Handler) (is_json : Bool) (e : StoredEvent) (info : EventInfo)
    → event_info_for_event h is_json (entry_of e) ≡ some info
    → IsInfo h is_json e info
unfolding event_info_for_event
event_info_for_event-IsInfo h is_json e info rendered =
    let convert = if is_json then h.convert_json else h.marshal_base64 in
    elim (Option-cases e.event.topics) [
      | inl bad ↦ absurd (none_some (rw (bad, event_info_for_event) at rendered))
      | inr (v0, body) ↦ elim (Option-cases (h.event_type_from_xdr e.event.event_type)) [
        | inl bad ↦ absurd (none_some (rw (body, bad, event_info_for_event) at rendered))
        | inr (event_type, known) ↦ elim (Bool-cases (ltb e.cursor.ledger 2147483648)) [
          | inr bad ↦ absurd (none_some (rw (body, known, bad, event_info_for_event) at rendered))
          | inl fits ↦ elim (Option-cases (convert_all convert v0)) [
            | inl bad ↦
                absurd (none_some (rw (body, known, fits, bad, event_info_for_event) at rendered))
            | inr (topics, converted) ↦ elim (Option-cases (convert e.event.payload)) [
              | inl bad ↦ absurd (
                  none_some
                    (rw (body, known, fits, converted, bad, event_info_for_event) at rendered))
              | inr (value, good) ↦
                  subst (IsInfo h is_json e)
                    (some_eq
                      (rw (body, known, fits, converted, good, event_info_for_event) at rendered))
                    (record {
                      event_type = known;
                      ledger = refl;
                      closed_at = refl;
                      id = refl;
                      successful = refl;
                      hash = refl;
                      op_index = refl;
                      tx_index = refl;
                      topics = v0;
                      body = body;
                      are_topics =
                          subst (λ f. AreConverted f v0 topics) (convert_of_lem h is_json)
                            (convert_all-AreConverted convert v0 topics converted);
                      value =
                          subst (λ f. f e.event.payload ≡ some value) (convert_of_lem h is_json)
                            good;
                      contract = encoded-IsContract h e.event.contract_id;
                    })
            ]
          ]
        ]
      ]
    ]
  where
    none_some : ◌≡◌ {A = Option EventInfo} none (some info) → ⊥
    none_some h = cc

pub infos_lem :
    (h : Handler) (is_json : Bool) (e : StoredEvent) (es : List StoredEvent)
    → Each (Renders h is_json) (e ∷ es)
    → (infos : List EventInfo) × (infos_of h is_json (map entry_of (e ∷ es)) ≡ some infos)
      × (length infos ≡ suc (length es))
      × (last_id infos ≡ ok (h.codec.cursor_string (last_or e es).cursor))
      × AreInfos h is_json (e ∷ es) infos
unfolding infos_of last_id
infos_lem h is_json e [] ((info, rendered), rest) =
    let is_info = event_info_for_event-IsInfo h is_json e info rendered in
    (info ∷ [], rw (rendered, infos_of) refl, refl, ap ok is_info.id, (is_info, tt))
infos_lem h is_json e (e' ∷ es) ((info, rendered), rest) =
    let (infos, shown, as_many, last, are_infos) = infos_lem h is_json e' es rest in
    (
      info ∷ infos,
      rw (rendered, shown, infos_of) refl,
      ap suc as_many,
      last_cons infos as_many ∙ last,
      (event_info_for_event-IsInfo h is_json e info rendered, are_infos),
    )
  where
    last_cons :
        (infos : List EventInfo)
        → length infos ≡ suc (length es)
        → last_id (info ∷ infos) ≡ last_id infos
    last_cons [] h = absurd (zero_suc h)
      where
        zero_suc : zero ≡ suc (length es) → ⊥
        zero_suc h = omega arith
    last_cons (i ∷ infos) h = refl
