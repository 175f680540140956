-- ===== src/Methods/GetEvents/Topics.antt =====
-- The combined topics against a row's columns.
use stellar_rpc.Prelude.{
  ℕ, zero, suc, ◌+◌, ◌-◌, ◌<◌, ◌≡◌, ◌⊎◌, refl, sym, ap, ◌∙◌, inl, inr, Bool, true, false, not,
  Option, none, some, List, [], ◌∷◌, ◌++◌, Bool-cases, Option-cases, some_eq, get_elem?, arith,
  ==_refl, any, filter, is_nil, Some, any_of_Some, append_left-Some, append_right-Some,
}
use mathlib.Core.Path.{subst}
use stellar_rpc.EventStore.Query.{
  Row, TopicCondition, topic_list, max_topic_count, condition_holds, column_is, all_hold,
  topics_hold, is_unknown, columns_exist,
}
use stellar_rpc.Methods.GetEvents.{
  SegmentFilter, EventFilter, segment_value, with_condition, conditions_from, Combined, failed,
  unrestricted, combined, add_topics, topics_from, combine_topics,
}

topic_list_lem :
    (marshal : ℕ → Option ℕ) (n : ℕ) (ts : List ℕ) (columns : List (Option ℕ)) (i v seg : ℕ)
    → topic_list marshal n ts ≡ some columns
    → i < n
    → get_elem? ts i ≡ some v
    → marshal v ≡ some seg
    → get_elem? columns i ≡ some (some seg)
unfolding topic_list
topic_list_lem marshal zero ts columns i v seg listed small at_i marshalled = absurd (omega arith)
topic_list_lem marshal (suc n) [] columns i v seg listed small at_i marshalled =
    let e : ⊥ = cc in absurd e
topic_list_lem marshal (suc n) (t ∷ ts) columns i v seg listed small at_i marshalled =
    elim (Option-cases (marshal t)) [
      | inl bad ↦
          let e : none ≡ some columns = rw (bad, topic_list) at listed in let f : ⊥ = cc in absurd f
      | inr (first, good) ↦ elim (Option-cases (topic_list marshal n ts)) [
        | inl bad ↦
            let e : none ≡ some columns = rw (good, bad, topic_list) at listed in
            let f : ⊥ = cc in absurd f
        | inr (rest, others) ↦
            let e : some first ∷ rest ≡ columns =
              some_eq (rw (good, others, topic_list) at listed) in
            subst (λ cs. get_elem? cs i ≡ some (some seg)) e
              (go i first rest small at_i good (λ k less there.
                topic_list_lem marshal n ts rest k v seg others less there marshalled))
      ]
    ]
  where
    go :
        (i first : ℕ) (rest : List (Option ℕ))
        → i < suc n
        → get_elem? (t ∷ ts) i ≡ some v
        → marshal t ≡ some first
        → ((k : ℕ) → k < n → get_elem? ts k ≡ some v → get_elem? rest k ≡ some (some seg))
        → get_elem? (some first ∷ rest) i ≡ some (some seg)
    go zero first rest small at_i good others =
        let same : t ≡ v = some_eq at_i in
        let e : some first ≡ some seg = sym good ∙ ap marshal same ∙ marshalled in ap some e
    go (suc i) first rest small at_i good others = others i (omega arith) at_i

-- A segment that has a value asks for it.
abbrev pub Agrees : Option ℕ → Option ℕ → Type 0
Agrees none topic = Unit
Agrees (some v) topic = topic ≡ some v

-- From the i-th topic on, the topics are those that the segments ask for.
abbrev pub SegmentsHold : List ℕ → ℕ → List SegmentFilter → Type 0
SegmentsHold ts i [] = Unit
SegmentsHold ts i (s ∷ ss) = Agrees (segment_value s) (get_elem? ts i) × SegmentsHold ts (i + 1) ss

module _ (marshal : ℕ → Option ℕ) (row : Row) (ts : List ℕ)
    (listed : topic_list marshal max_topic_count ts ≡ some row.topics) where
  condition_holds_lem :
      (i v seg : ℕ)
      → is_unknown (record { column = i + 1; value = seg }) ≡ false
      → get_elem? ts i ≡ some v
      → marshal v ≡ some seg
      → condition_holds row (record { column = i + 1; value = seg }) ≡ true
  unfolding condition_holds column_is
  condition_holds_lem i v seg known at_i marshalled =
      let small : i < 4 = ground arith in
      let here : get_elem? row.topics (i + 1 - 1) ≡ some (some seg) =
        ap (get_elem? row.topics) (omega arith)
        ∙ topic_list_lem marshal max_topic_count ts row.topics i v seg listed small at_i
            marshalled in
      rw (here, condition_holds) (==_refl seg)

  with_condition_lem :
      (i : ℕ) (value : Option ℕ) (rest : Option (List TopicCondition)) (conds : List TopicCondition)
      → with_condition marshal i value rest ≡ some conds
      → Agrees value (get_elem? ts i)
      → ((conds' : List TopicCondition)
          → rest ≡ some conds'
          → any is_unknown conds' ≡ false
          → all_hold row conds' ≡ true)
      → any is_unknown conds ≡ false
      → all_hold row conds ≡ true
  unfolding with_condition all_hold
  with_condition_lem i none rest conds e at_i others known = others conds e known
  with_condition_lem i (some v) none conds e at_i others known = elim (Option-cases (marshal v)) [
    | inl bad ↦
        let e' : none ≡ some conds = rw (bad, with_condition) at e in let f : ⊥ = cc in absurd f
    | inr (seg, good) ↦
        let e' : none ≡ some conds = rw (good, with_condition) at e in let f : ⊥ = cc in absurd f
  ]
  with_condition_lem i (some v) (some rest) conds e at_i others known =
      elim (Option-cases (marshal v)) [
        | inl bad ↦
            let e' : none ≡ some conds = rw (bad, with_condition) at e in let f : ⊥ = cc in absurd f
        | inr (seg, good) ↦
            let cond : TopicCondition = record { column = i + 1; value = seg } in
            let e' : cond ∷ rest ≡ conds = some_eq (rw (good, with_condition) at e) in
            subst (λ cs. all_hold row cs ≡ true) e'
              (go cond (subst (λ cs. any is_unknown cs ≡ false) (sym e') known)
                (λ k. condition_holds_lem i v seg k at_i good) (others rest refl))
      ]
    where
      go :
          (cond : TopicCondition)
          → any is_unknown (cond ∷ rest) ≡ false
          → (is_unknown cond ≡ false → condition_holds row cond ≡ true)
          → (any is_unknown rest ≡ false → all_hold row rest ≡ true)
          → all_hold row (cond ∷ rest) ≡ true
      go cond known first others = elim (Bool-cases (is_unknown cond)) [
        | inl bad ↦ let e : true ≡ false = rw (bad) at known in let f : ⊥ = cc in absurd f
        | inr fine ↦ rw (first fine) (others (rw (fine) at known))
      ]

  conditions_lem :
      (i : ℕ) (segments : List SegmentFilter) (conds : List TopicCondition)
      → conditions_from marshal i segments ≡ some conds
      → SegmentsHold ts i segments
      → any is_unknown conds ≡ false
      → all_hold row conds ≡ true
  unfolding conditions_from all_hold
  conditions_lem i [] conds e hold known = subst (λ cs. all_hold row cs ≡ true) (some_eq e) refl
  conditions_lem i (s ∷ ss) conds e hold known =
      with_condition_lem i (segment_value s) (conditions_from marshal (i + 1) ss) conds e hold.0
        (λ conds' e' known'. conditions_lem (i + 1) ss conds' e' hold.1 known') known

  -- A filter that the row satisfies, unless a column is unknown
  abbrev pub Candidate : List TopicCondition → Type 0
  Candidate conds =
      (is_nil conds ≡ false) × (any is_unknown conds ≡ false → all_hold row conds ≡ true)

  add_topics_lem :
      (filters : List (List TopicCondition)) (topics : List (List SegmentFilter))
      (out : List (List TopicCondition))
      → add_topics marshal filters topics ≡ combined out
      → (Some Candidate filters → Some Candidate out)
        × (Some (SegmentsHold ts 0) topics → Some Candidate out)
  unfolding add_topics
  add_topics_lem filters [] out e = (λ h. subst (Some Candidate) (combined_eq e) h, λ h. absurd h)
    where
      combined_eq : combined filters ≡ combined out → filters ≡ out
      combined_eq h = cc
  add_topics_lem filters (topic ∷ topics) out e =
      elim (Option-cases (conditions_from marshal 0 topic)) [
        | inl bad ↦ absurd (failed_combined (rw (bad, add_topics) at e))
        | inr (conds, good) ↦
            go conds good (λ filters' e'. add_topics_lem filters' topics out e')
              (rw (good, add_topics) at e)
      ]
    where
      failed_combined : failed ≡ combined out → ⊥
      failed_combined h = cc

      unrestricted_combined : unrestricted ≡ combined out → ⊥
      unrestricted_combined h = cc

      go :
          (conds : List TopicCondition)
          → conditions_from marshal 0 topic ≡ some conds
          → ((filters' : List (List TopicCondition))
              → add_topics marshal filters' topics ≡ combined out
              → (Some Candidate filters' → Some Candidate out)
                × (Some (SegmentsHold ts 0) topics → Some Candidate out))
          → elim conds as (λ x. Combined) [
            | [] ↦ unrestricted
            | cond ∷ conds' ↦ add_topics marshal (filters ++ ((cond ∷ conds') ∷ [])) topics
          ]
            ≡ combined out
          → (Some Candidate filters → Some Candidate out)
            × (Some (SegmentsHold ts 0) (topic ∷ topics) → Some Candidate out)
      go [] good others e' = absurd (unrestricted_combined e')
      go (cond ∷ conds) good others e' =
          let (grows, has) = others (filters ++ ((cond ∷ conds) ∷ [])) e' in
          let here : Candidate (cond ∷ conds) → Some Candidate out =
            λ c. grows (append_right-Some Candidate filters ((cond ∷ conds) ∷ []) (inl c)) in
          (
            λ h. grows (append_left-Some Candidate filters ((cond ∷ conds) ∷ []) h),
            λ h. elim h [
              | inl hold ↦
                  here (refl, λ known. conditions_lem 0 topic (cond ∷ conds) good hold known)
              | inr later ↦ has later
            ],
          )

  -- A filter that has topics accepts one of them.
  abbrev pub TopicsAccept : EventFilter → Type 0
  TopicsAccept f = (f.topics ≡ []) ⊎ Some (SegmentsHold ts 0) f.topics

  topics_from_lem :
      (topic_filters : List (List TopicCondition)) (filters : List EventFilter)
      (out : List (List TopicCondition))
      → topics_from marshal topic_filters filters ≡ combined out
      → (Some Candidate topic_filters → Some Candidate out)
        × (Some TopicsAccept filters → Some Candidate out)
  unfolding topics_from
  topics_from_lem topic_filters [] out e =
      (λ h. subst (Some Candidate) (combined_eq e) h, λ h. absurd h)
    where
      combined_eq : combined topic_filters ≡ combined out → topic_filters ≡ out
      combined_eq h = cc
  topics_from_lem topic_filters (f ∷ fs) out e = elim (Bool-cases (is_nil f.topics)) [
    | inl all ↦ absurd (unrestricted_combined (rw (all) at e))
    | inr restricts ↦
        go (add_topics marshal topic_filters f.topics) refl restricts
          (λ filters' e'. topics_from_lem filters' fs out e') (rw (restricts, topics_from) at e)
  ]
    where
      failed_combined : failed ≡ combined out → ⊥
      failed_combined h = cc

      unrestricted_combined : unrestricted ≡ combined out → ⊥
      unrestricted_combined h = cc

      go :
          (added : Combined)
          → add_topics marshal topic_filters f.topics ≡ added
          → is_nil f.topics ≡ false
          → ((filters' : List (List TopicCondition))
              → topics_from marshal filters' fs ≡ combined out
              → (Some Candidate filters' → Some Candidate out)
                × (Some TopicsAccept fs → Some Candidate out))
          → elim added as (λ x. Combined) [
            | failed ↦ failed
            | unrestricted ↦ unrestricted
            | combined filters' ↦ topics_from marshal filters' fs
          ]
            ≡ combined out
          → (Some Candidate topic_filters → Some Candidate out)
            × (Some TopicsAccept (f ∷ fs) → Some Candidate out)
      go failed a restricts others e' = absurd (failed_combined e')
      go unrestricted a restricts others e' = absurd (unrestricted_combined e')
      go (combined filters') a restricts others e' =
          let (grows, has) = add_topics_lem topic_filters f.topics filters' a in
          let (grows', has') = others filters' e' in
          (
            λ h. grows' (grows h),
            λ h. elim h [
              | inl (inl empty) ↦
                  let t : is_nil f.topics ≡ true = ap is_nil empty in let x : ⊥ = cc in absurd x
              | inl (inr hold) ↦ grows' (has hold)
              | inr later ↦ has' later
            ],
          )

  kept :
      (topics : List (List TopicCondition))
      → any (any is_unknown) topics ≡ false
      → Some Candidate topics
      → Some (λ conds. all_hold row conds ≡ true) (filter (λ conds. not (is_nil conds)) topics)
  kept [] known h = absurd h
  kept (conds ∷ rest) known h = elim (Bool-cases (any is_unknown conds)) [
    | inl bad ↦ let e : true ≡ false = rw (bad) at known in let f : ⊥ = cc in absurd f
    | inr fine ↦ step conds fine h (λ k. kept rest (rw (fine) at known) k)
  ]
    where
      step :
          (conds : List TopicCondition)
          → any is_unknown conds ≡ false
          → Some Candidate (conds ∷ rest)
          → (Some Candidate rest
              → Some
                  (λ conds. all_hold row conds ≡ true)
                  (filter (λ conds. not (is_nil conds)) rest))
          → Some
              (λ conds. all_hold row conds ≡ true)
              (filter (λ conds. not (is_nil conds)) (conds ∷ rest))
      step [] fine (inl h) others = let e : true ≡ false = h.0 in let f : ⊥ = cc in absurd f
      step [] fine (inr h) others = others h
      step (cond ∷ conds) fine (inl h) others = inl (h.1 fine)
      step (cond ∷ conds) fine (inr h) others = inr (others h)

  topics_hold_lem :
      (topics : List (List TopicCondition))
      → columns_exist topics ≡ true
      → Some Candidate topics
      → topics_hold topics row ≡ true
  unfolding columns_exist topics_hold
  topics_hold_lem topics known h =
      let ors = filter (λ conds. not (is_nil conds)) topics in
      elim (Bool-cases (is_nil ors)) [
        | inl none_left ↦ rw (none_left) refl
        | inr some_left ↦ rw (some_left) (
            any_of_Some (λ conds. all_hold row conds ≡ true) (all_hold row) ors (λ conds h. h)
              (kept topics (not_true (any (any is_unknown) topics) known) h))
      ]
    where
      not_true : (b : Bool) → not b ≡ true → b ≡ false
      not_true true h = sym h
      not_true false h = refl

  -- The row of an event whose topics one of the filters accepts satisfies the combined condition.
  pub combine_topics_lem :
      (filters : List EventFilter) (topics : List (List TopicCondition))
      → combine_topics marshal filters ≡ some topics
      → columns_exist topics ≡ true
      → Some TopicsAccept filters
      → topics_hold topics row ≡ true
  unfolding combine_topics topics_hold
  combine_topics_lem filters topics e known h = go (topics_from marshal [] filters) refl e
    where
      go :
          (c : Combined)
          → topics_from marshal [] filters ≡ c
          → elim c as (λ x. Option (List (List TopicCondition))) [
            | failed ↦ none
            | unrestricted ↦ some []
            | combined topic_filters ↦ some topic_filters
          ]
            ≡ some topics
          → topics_hold topics row ≡ true
      go failed a e' = absurd (none_some e')
        where
          none_some : ◌≡◌ {A = Option (List (List TopicCondition))} none (some topics) → ⊥
          none_some h = cc
      go unrestricted a e' = subst (λ ts. topics_hold ts row ≡ true) (some_eq e') refl
      go (combined out) a e' =
          let (grows, has) = topics_from_lem [] filters out a in
          topics_hold_lem topics known (subst (Some Candidate) (some_eq e') (has h))
