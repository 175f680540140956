-- ===== src/LedgerEntries/Request.antt =====
-- A whole call of getLedgerEntries.
use stellar_rpc.Prelude.{
  ℕ, zero, suc, ◌+◌, ◌≤◌, ◌≡◌, refl, sym, ◌∙◌, inl, inr, true, false, Option, none, some, List, [],
  ◌∷◌, map, leb, le→leb, ◌==◌, ==_refl, Bool-cases, Option-cases, some_eq, length, get_elem?, Each,
  Each_of_members, Each-Member,
}
use mathlib.Core.Path.{subst}
use stellar_rpc.Methods.{ok}
use stellar_rpc.LedgerEntries.{
  LedgerKey, LedgerKeyAndEntry, get_ledger_entries_max_keys, decode_keys, order_of, with_orders,
  sort_by_order, sort_according_to_request, LedgerEntryResult, Handler, ledger_key_entry_to_result,
  results_of, handle,
}
use stellar_rpc.LedgerEntries.Sorting.{
  Ranked, HasRank, IsSortOf, sort_by_order-IsSortOf, with_orders-HasRank,
}

-- An entry whose key was asked for
abbrev pub Asked : (LedgerKey → Option ℕ) → List ℕ → LedgerKeyAndEntry → Type 0
Asked marshal request_keys e =
    (b64_key : ℕ) × (n : ℕ) × (marshal e.key ≡ some b64_key)
    × (get_elem? request_keys n ≡ some b64_key)

-- What is shown of an entry: its key and its content in the format asked for, and until when it lives
abbrev pub IsResult : Handler → ℕ → LedgerKeyAndEntry → LedgerEntryResult → Type 0
IsResult h format e result =
    (h.render_key format e.key ≡ some result.key)
    × (h.render_entry format e.entry ≡ some result.value)
    × (result.live_until_ledger_seq ≡ e.live_until_ledger_seq)

-- One result for each entry, in their order
abbrev pub AreResults : Handler → ℕ → List LedgerKeyAndEntry → List LedgerEntryResult → Type 0
AreResults h format [] [] = Unit
AreResults h format [] (result ∷ results) = ⊥
AreResults h format (e ∷ entries) [] = ⊥
AreResults h format (e ∷ entries) (result ∷ results) =
    IsResult h format e result × AreResults h format entries results

-- The conversions of an entry's key and of its content succeed.
abbrev pub Renders : Handler → ℕ → LedgerKeyAndEntry → Type 0
Renders h format e =
    (key : ℕ) × (value : ℕ) × (h.render_key format e.key ≡ some key)
    × (h.render_entry format e.entry ≡ some value)

-- The results of a response, which are those of the entries in the order of the request
pub record Shows (h : Handler) (request_keys : List ℕ) (format : ℕ)
    (entries : List LedgerKeyAndEntry) (results : List LedgerEntryResult) : Type 0 where
  pub unsorted : List Ranked
  pub sorted : List Ranked
  pub same_entries : map (λ x. x.1) unsorted ≡ entries
  pub ranks : Each (HasRank h.marshal_key request_keys) unsorted
  pub sort_of : IsSortOf unsorted sorted
  pub shows : AreResults h format (map (λ x. x.1) sorted) results

order_of-some :
    (i : ℕ) (keys : List ℕ) (key n : ℕ)
    → get_elem? keys n ≡ some key
    → (order : ℕ) × (order_of i keys key ≡ some order)
unfolding order_of
order_of-some i [] key n h = let e : ⊥ = cc in absurd e
order_of-some i (k ∷ keys) key n h = elim (Option-cases (order_of (i + 1) keys key)) [
  | inr (later, found) ↦ (later, rw (found, order_of) refl)
  | inl none_later ↦ elim (Bool-cases (k == key)) [
    | inl same ↦ (i, rw (none_later, same, order_of) refl)
    | inr other ↦ absurd (nowhere n h none_later other (λ m g. order_of-some (i + 1) keys key m g))
  ]
]
  where
    nowhere :
        (n : ℕ)
        → get_elem? (k ∷ keys) n ≡ some key
        → order_of (i + 1) keys key ≡ none
        → (k == key) ≡ false
        → ((m : ℕ)
            → get_elem? keys m ≡ some key
            → (order : ℕ) × (order_of (i + 1) keys key ≡ some order))
        → ⊥
    nowhere zero h none_later other rest =
        let e : k ≡ key = some_eq h in let t : (k == key) ≡ true = rw (e) (==_refl key) in cc
    nowhere (suc m) h none_later other rest =
        let (order, found) = rest m h in let e : none ≡ some order = sym none_later ∙ found in cc

with_orders-some :
    (marshal : LedgerKey → Option ℕ) (request_keys : List ℕ) (entries : List LedgerKeyAndEntry)
    → Each (Asked marshal request_keys) entries
    → (out : List Ranked) × (with_orders marshal request_keys entries ≡ some out)
unfolding with_orders
with_orders-some marshal request_keys [] each = ([], refl)
with_orders-some marshal request_keys (e ∷ entries) ((b64_key, n, good, found), each) =
    let (order, known) = order_of-some 0 request_keys b64_key n found in
    let (rest, others) = with_orders-some marshal request_keys entries each in
    ((order, e) ∷ rest, rw (good, known, others, with_orders) refl)

ledger_key_entry_to_result_lem :
    (h : Handler) (format : ℕ) (e : LedgerKeyAndEntry)
    → Renders h format e
    → (result : LedgerEntryResult) × (ledger_key_entry_to_result h format e ≡ some result)
      × IsResult h format e result
unfolding ledger_key_entry_to_result
ledger_key_entry_to_result_lem h format e (key, value, k, v) = (
  record { key = key; value = value; live_until_ledger_seq = e.live_until_ledger_seq },
  rw (k, v, ledger_key_entry_to_result) refl,
  (k, v, refl),
)

results_of-some :
    (h : Handler) (format : ℕ) (entries : List LedgerKeyAndEntry)
    → Each (Renders h format) entries
    → (results : List LedgerEntryResult) × (results_of h format entries ≡ some results)
      × AreResults h format entries results
unfolding results_of
results_of-some h format [] each = ([], refl, tt)
results_of-some h format (e ∷ entries) (renders, each) =
    let (result, rendered, is_result) = ledger_key_entry_to_result_lem h format e renders in
    let (results, others, are_results) = results_of-some h format entries each in
    (result ∷ results, rw (rendered, others, results_of) refl, (is_result, are_results))

unmap-Each :
    (P : LedgerKeyAndEntry → Type 0) (xs : List Ranked)
    → Each P (map (λ x. x.1) xs)
    → Each (λ x. P x.1) xs
unmap-Each P [] each = tt
unmap-Each P (x ∷ xs) each = (each.0, unmap-Each P xs each.1)

remap-Each :
    (P : LedgerKeyAndEntry → Type 0) (xs : List Ranked)
    → Each (λ x. P x.1) xs
    → Each P (map (λ x. x.1) xs)
remap-Each P [] each = tt
remap-Each P (x ∷ xs) each = (each.0, remap-Each P xs each.1)

sorted_lem :
    (marshal : LedgerKey → Option ℕ) (request_keys : List ℕ) (entries : List LedgerKeyAndEntry)
    (unsorted : List Ranked)
    → with_orders marshal request_keys entries ≡ some unsorted
    → sort_according_to_request marshal request_keys entries
      ≡ some (map (λ x. x.1) (sort_by_order unsorted))
unfolding sort_according_to_request
sorted_lem marshal request_keys entries unsorted ordered =
    rw (ordered, sort_according_to_request) refl

handle_lem :
    (h : Handler) (request_keys : List ℕ) (format : ℕ) (ledger_keys : List LedgerKey)
    (entries sorted : List LedgerKeyAndEntry) (latest : ℕ) (results : List LedgerEntryResult)
    → h.valid_format format ≡ true
    → leb (length request_keys) get_ledger_entries_max_keys ≡ true
    → decode_keys h.decode_key request_keys ≡ ok ledger_keys
    → h.getter ledger_keys ≡ ok (entries, latest)
    → sort_according_to_request h.marshal_key request_keys entries ≡ some sorted
    → results_of h format sorted ≡ some results
    → handle h request_keys format ≡ ok (results, latest)
unfolding handle
handle_lem h request_keys format ledger_keys entries sorted latest results valid size decoded
      fetched sorts shown =
    rw (valid, size, decoded, fetched, sorts, shown) refl

-- A request with a valid format and at most 200 keys that can be decoded, none of them of a TTL, is
-- answered with one result for each of the getter's entries, in the order of the request's keys, which
-- holds the key and the content of that entry as they are rendered and until when it lives, where the getter answers entries whose keys were asked for, and they can be rendered.
pub handle-Shows :
    (h : Handler) (request_keys : List ℕ) (format : ℕ) (ledger_keys : List LedgerKey)
    (entries : List LedgerKeyAndEntry) (latest : ℕ)
    → h.valid_format format ≡ true
    → length request_keys ≤ get_ledger_entries_max_keys
    → decode_keys h.decode_key request_keys ≡ ok ledger_keys
    → h.getter ledger_keys ≡ ok (entries, latest)
    → Each (Asked h.marshal_key request_keys) entries
    → Each (Renders h format) entries
    → (results : List LedgerEntryResult) × (handle h request_keys format ≡ ok (results, latest))
      × Shows h request_keys format entries results
handle-Shows h request_keys format ledger_keys entries latest valid few decoded fetched asked
      renders =
    let (unsorted, ordered) = with_orders-some h.marshal_key request_keys entries asked in
    let (ranks, same) = with_orders-HasRank h.marshal_key request_keys entries unsorted ordered in
    let sorted = sort_by_order unsorted in
    let sort = sort_by_order-IsSortOf unsorted in
    let each : Each (λ x. Renders h format x.1) sorted =
      Each_of_members (λ x. Renders h format x.1) sorted
        (λ x m.
          Each-Member (λ x. Renders h format x.1) unsorted x
            (unmap-Each (Renders h format) unsorted
              (subst (Each (Renders h format)) (sym same) renders))
            (sort.adds_none x m)) in
    let (results, shown, are_results) =
      results_of-some h format (map (λ x. x.1) sorted)
        (remap-Each (Renders h format) sorted each) in
    (
      results,
      handle_lem h request_keys format ledger_keys entries (map (λ x. x.1) sorted) latest results
          valid (le→leb _ _ few) decoded fetched
          (sorted_lem h.marshal_key request_keys entries unsorted ordered) shown,
      record {
        unsorted = unsorted;
        sorted = sorted;
        same_entries = same;
        ranks = ranks;
        sort_of = sort;
        shows = are_results;
      },
    )
