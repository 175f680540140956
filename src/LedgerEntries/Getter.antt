-- ===== src/LedgerEntries/Getter.antt =====
-- What the getter makes of stellar-core's response.
use stellar_rpc.Prelude.{
  ℕ, ◌≤◌, ◌≡◌, ◌⊎◌, refl, sym, ◌∙◌, inl, inr, Bool, true, false, not, Option, some, List, [], ◌∷◌,
  map, arith, Bool-cases, length, filter, Each,
}
use stellar_rpc.LedgerStore.{LedgerStore, get_latest_ledger_sequence}
use stellar_rpc.Methods.{ok}
use stellar_rpc.LedgerEntries.{
  LedgerKey, LedgerKeyAndEntry, CoreEntry, CoreLedgerEntryGetter, live_until, is_not_found,
  collect_entries, get_ledger_entries,
}

abbrev pub zip : List LedgerKey → List CoreEntry → List (LedgerKey × CoreEntry)
zip [] entries = []
zip (k ∷ keys) [] = []
zip (k ∷ keys) (e ∷ entries) = (k, e) ∷ zip keys entries

-- The entries that were found, each with the key at its place
abbrev pub found_of : (ℕ → ℕ) → List LedgerKey → List CoreEntry → List LedgerKeyAndEntry
found_of value keys entries =
    map (λ p. record { key = p.0; entry = value p.1.entry; live_until_ledger_seq = live_until p.1 })
      (filter (λ p. not (is_not_found p.1.state)) (zip keys entries))

-- An entry that is there can be decoded.
abbrev pub Decodes : (ℕ → Option ℕ) → (ℕ → ℕ) → CoreEntry → Type 0
Decodes decode value e = (is_not_found e.state ≡ true) ⊎ (decode e.entry ≡ some (value e.entry))

collect_entries_lem :
    (decode : ℕ → Option ℕ) (value : ℕ → ℕ) (keys : List LedgerKey) (entries : List CoreEntry)
    → length entries ≤ length keys
    → Each (Decodes decode value) entries
    → collect_entries decode keys entries ≡ ok (found_of value keys entries)
unfolding collect_entries
collect_entries_lem decode value [] [] enough each = refl
collect_entries_lem decode value (k ∷ keys) [] enough each = refl
collect_entries_lem decode value [] (e ∷ entries) enough each = absurd (omega arith)
collect_entries_lem decode value (k ∷ keys) (e ∷ entries) enough each =
    let rest = collect_entries_lem decode value keys entries (omega arith) each.1 in
    elim (Bool-cases (is_not_found e.state)) [
      | inl gone ↦ rw (gone, rest, collect_entries) refl
      | inr there ↦
          let decoded : decode e.entry ≡ some (value e.entry) = elim each.0 [
            | inl gone ↦ let x : true ≡ false = sym gone ∙ there in let y : ⊥ = cc in absurd y
            | inr d ↦ d
          ] in
          rw (there, decoded, rest, collect_entries) refl
    ]

-- A getter of the latest ledger asks stellar-core at the store's latest ledger, and answers the entries
-- that exist, each with the key at its place, and that ledger. It does not run past the keys, where
-- stellar-core answers at most one entry for each key, in their order, and what is there can be decoded.
pub get_ledger_entries_lem :
    (c : CoreLedgerEntryGetter) (value : ℕ → ℕ) (answers : Bool) (store : LedgerStore)
    (keys : List LedgerKey) (latest : ℕ) (entries : List CoreEntry)
    → c.at_ledger ≡ 0
    → (get_latest_ledger_sequence answers store).1 ≡ some latest
    → c.core latest keys ≡ some entries
    → length entries ≤ length keys
    → Each (Decodes c.decode value) entries
    → (get_ledger_entries c answers store keys).1 ≡ ok (found_of value keys entries, latest)
unfolding get_ledger_entries
get_ledger_entries_lem c value answers store keys latest entries at known asked enough each =
    rw (at, known, asked, collect_entries_lem c.decode value keys entries enough each) refl
