-- ===== src/Methods/GetEvents/Sample.antt =====
-- Encodings and filters to test with: one contract, and events with one topic each.
use stellar_rpc.Prelude.{
  ℕ, ◌+◌, ◌*◌, ◌/◌, ◌%◌, ◌<◌, ◌≡◌, refl, sym, ap, inl, inr, Bool, true, false, ◌&&◌, Option, none,
  some, List, [], ◌∷◌, Bool-cases, if◌then◌else◌, ◌==◌, ==→eq, arith, any, is_nil, Some,
  Some_of_any,
}
use stellar_rpc.EventStore.{Cursor, Masks}
use stellar_rpc.EventStore.Query.{Event, Codec}
use stellar_rpc.EventStore.Query.Scan.{Fits, Lawful, before}
use stellar_rpc.Methods.GetEvents.{SegmentFilter, EventFilter, Handler, segment_value}
use stellar_rpc.Methods.GetEvents.Filters.{Accepts, MatchesByFilter}
use stellar_rpc.Methods.GetEvents.Topics.{SegmentsHold, Agrees}

abbrev pub masks : Masks
masks = record { transaction_mask = 1023; operation_mask = 15 }

-- The string of a cursor, as a number in which each part has its digits
abbrev pub number_of : Cursor → ℕ
number_of c = ((c.ledger * 1024 + c.tx) * 16 + c.op) * 4294967296 + c.event

abbrev pub cursor_of : ℕ → Cursor
cursor_of n = record {
  ledger = n / 4294967296 / 16 / 1024;
  tx = n / 4294967296 / 16 % 1024;
  op = n / 4294967296 % 16;
  event = n % 4294967296;
}

-- The events that are encoded: of one contract, with one topic that is also their value
abbrev pub event_of : ℕ → Event
event_of n = record {
  contract_id = some 5;
  event_type = 1;
  topics = some (n ∷ []);
  payload = n;
  in_successful_contract_call = true;
}

unfoldable pub marshal_parts : Option ℕ → Option (List ℕ) → Bool → ℕ → ℕ → Option ℕ
marshal_parts (some c) (some (t ∷ [])) true p k =
    if (c == 5) && ((t == p) && (k == 1)) then some p else none
marshal_parts _ _ _ p k = none

abbrev pub codec : Codec
codec = record {
  marshal_segment = λ v. some v;
  marshal_event = λ e.
      marshal_parts e.contract_id e.topics e.in_successful_contract_call e.payload e.event_type;
  unmarshal_event = λ n. some (event_of n);
  encode_contract = λ c. some c;
  decode_contract = λ c. some c;
  cursor_string = number_of;
  parse_cursor = λ n. some (cursor_of n);
  max_cursor = record { ledger = 2147483647; tx = 1023; op = 15; event = 4294967295 };
}

pub marshal_parts_lem :
    (c : Option ℕ) (ts : Option (List ℕ)) (good : Bool) (p k n : ℕ)
    → marshal_parts c ts good p k ≡ some n
    → ◌≡◌ {A = Event} (event_of n) (record {
      contract_id = c;
      event_type = k;
      topics = ts;
      payload = p;
      in_successful_contract_call = good;
    })
unfolding marshal_parts
marshal_parts_lem (some c) (some (t ∷ [])) true p k n h = elim (Bool-cases (c == 5)) [
  | inr bad ↦ absurd (none_some (rw (bad) at h))
  | inl same_c ↦ elim (Bool-cases (t == p)) [
    | inr bad ↦ absurd (none_some (rw (same_c, bad) at h))
    | inl same_t ↦ elim (Bool-cases (k == 1)) [
      | inr bad ↦ absurd (none_some (rw (same_c, same_t, bad) at h))
      | inl same_k ↦
          let e : some p ≡ some n = rw (same_c, same_t, same_k) at h in
          let a = ==→eq _ _ same_c in let b = ==→eq _ _ same_t in let d = ==→eq _ _ same_k in cc
    ]
  ]
]
  where
    none_some : ◌≡◌ {A = Option ℕ} none (some n) → ⊥
    none_some h = cc
marshal_parts_lem none ts good p k n h = let e : ⊥ = cc in absurd e
marshal_parts_lem (some c) none good p k n h = let e : ⊥ = cc in absurd e
marshal_parts_lem (some c) (some []) good p k n h = let e : ⊥ = cc in absurd e
marshal_parts_lem (some c) (some (t ∷ t' ∷ ts)) good p k n h = let e : ⊥ = cc in absurd e
marshal_parts_lem (some c) (some (t ∷ [])) false p k n h = let e : ⊥ = cc in absurd e

pub number_of_lem :
    (c d : Cursor) → Fits masks c → Fits masks d → before c d ≡ true → number_of c < number_of d
number_of_lem c d fits fits' h =
    let a = fits.tx_fits in
    let b = fits.op_fits in
    let e = fits.event_fits in
    let a' = fits'.tx_fits in let b' = fits'.op_fits in let e' = fits'.event_fits in ground arith

pub cursor_of_lem : (c : Cursor) → Fits masks c → cursor_of (number_of c) ≡ c
cursor_of_lem c fits =
    let a = fits.tx_fits in
    let b = fits.op_fits in
    let e = fits.event_fits in
    let l : (cursor_of (number_of c)).ledger ≡ c.ledger = omega arith in
    let t : (cursor_of (number_of c)).tx ≡ c.tx = omega arith in
    let o : (cursor_of (number_of c)).op ≡ c.op = omega arith in
    let v : (cursor_of (number_of c)).event ≡ c.event = omega arith in cc

pub codec-Lawful : Lawful masks codec
unfolding marshal_parts
codec-Lawful = record {
  reads = λ e blob h. ap some (
      marshal_parts_lem e.contract_id e.topics e.in_successful_contract_call e.payload e.event_type
        blob h);
  parses = λ c fits. ap some (cursor_of_lem c fits);
  orders = number_of_lem;
}

-- Filters of one contract and one topic
unfoldable pub one_contract : List ℕ → Option ℕ → Bool
one_contract (c ∷ []) (some c') = c == c'
one_contract cs c = false

unfoldable pub agrees : Option ℕ → ℕ → Bool
agrees none t = true
agrees (some v) t = t == v

unfoldable pub one_topic : List (List SegmentFilter) → Option (List ℕ) → Bool
one_topic ((segment ∷ []) ∷ []) (some (t ∷ [])) = agrees (segment_value segment) t
one_topic topics ts = false

unfoldable pub accepts : Event → EventFilter → Bool
accepts e f =
    is_nil f.event_types
    && (one_contract f.contract_ids e.contract_id && one_topic f.topics e.topics)

abbrev pub handler : Handler
handler = record {
  max_limit = 10;
  default_limit = 10;
  codec = codec;
  valid = λ request limit. true;
  matches = λ filters e. any (accepts e) filters;
  event_type_xdr = λ t. t;
  event_type_from_xdr = λ t. some t;
  convert_json = λ v. some v;
  marshal_base64 = λ v. some v;
  must_encode = λ c. c;
}

pub one_contract_lem :
    (cs : List ℕ) (c : Option ℕ)
    → one_contract cs c ≡ true
    → Some (λ i. (id : ℕ) × (◌≡◌ {A = Option ℕ} (some i) (some id)) × (c ≡ some id)) cs
unfolding one_contract
one_contract_lem [] c h = let e : ⊥ = cc in absurd e
one_contract_lem (i ∷ i' ∷ is) c h = let e : ⊥ = cc in absurd e
one_contract_lem (i ∷ []) none h = let e : ⊥ = cc in absurd e
one_contract_lem (i ∷ []) (some c) h = inl (i, refl, ap some (sym (==→eq i c h)))

pub agrees_lem : (value : Option ℕ) (t : ℕ) → agrees value t ≡ true → Agrees value (some t)
unfolding agrees
agrees_lem none t h = tt
agrees_lem (some v) t h = ap some (==→eq t v h)

pub one_topic_lem :
    (topics : List (List SegmentFilter)) (ts : Option (List ℕ))
    → one_topic topics ts ≡ true
    → (us : List ℕ) × (ts ≡ some us) × Some (SegmentsHold us 0) topics
unfolding one_topic
one_topic_lem ((s ∷ []) ∷ []) (some (t ∷ [])) h =
    (t ∷ [], refl, inl (agrees_lem (segment_value s) t h, tt))
one_topic_lem [] ts h = let e : ⊥ = cc in absurd e
one_topic_lem ([] ∷ topics) ts h = let e : ⊥ = cc in absurd e
one_topic_lem ((s ∷ s' ∷ ss) ∷ topics) ts h = let e : ⊥ = cc in absurd e
one_topic_lem ((s ∷ []) ∷ topic ∷ topics) ts h = let e : ⊥ = cc in absurd e
one_topic_lem ((s ∷ []) ∷ []) none h = let e : ⊥ = cc in absurd e
one_topic_lem ((s ∷ []) ∷ []) (some []) h = let e : ⊥ = cc in absurd e
one_topic_lem ((s ∷ []) ∷ []) (some (t ∷ t' ∷ ts)) h = let e : ⊥ = cc in absurd e

pub empty_lem : (ts : List ℕ) → is_nil ts ≡ true → ts ≡ []
empty_lem [] h = refl
empty_lem (t ∷ ts) h = let e : ⊥ = cc in absurd e

pub accepts-Accepts : (e : Event) (f : EventFilter) → accepts e f ≡ true → Accepts handler e f
unfolding accepts
accepts-Accepts e f h = elim (Bool-cases (is_nil f.event_types)) [
  | inr bad ↦ absurd (false_true (rw (bad, accepts) at h))
  | inl no_types ↦ elim (Bool-cases (one_contract f.contract_ids e.contract_id)) [
    | inr bad ↦ absurd (false_true (rw (no_types, bad, accepts) at h))
    | inl same ↦ record {
      type_in = inl (empty_lem f.event_types no_types);
      contract_in = inr (one_contract_lem f.contract_ids e.contract_id same);
      topic_in = inr (one_topic_lem f.topics e.topics (rw (no_types, same, accepts) at h));
    }
  ]
]
  where
    false_true : false ≡ true → ⊥
    false_true h = cc

pub handler-MatchesByFilter : MatchesByFilter handler
handler-MatchesByFilter filters e h =
    inr (Some_of_any (Accepts handler e) (accepts e) filters (accepts-Accepts e) h)
