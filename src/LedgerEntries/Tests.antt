-- ===== src/LedgerEntries/Tests.antt =====
-- Two keys, of which stellar-core has both entries, the second one archived.
use stellar_rpc.Prelude.{ℕ, ◌≡◌, refl, inr, true, false, none, some, List, [], ◌∷◌, arith}
use stellar_rpc.Window.{pos}
use stellar_rpc.LedgerStore.{LedgerStore, get_latest_ledger_sequence}
use stellar_rpc.Methods.{ok}
use stellar_rpc.LedgerEntries.{
  LedgerKey, LedgerKeyAndEntry, archived, live, CoreLedgerEntryGetter, live_until,
  get_ledger_entries, decode_keys, LedgerEntryResult, Handler, handle,
}
use stellar_rpc.LedgerEntries.Getter.{get_ledger_entries_lem}
use stellar_rpc.LedgerEntries.Request.{Shows, handle-Shows}

abbrev key_of : ℕ → LedgerKey
key_of n = record { is_ttl = false; name = n }

abbrev entries : List LedgerKeyAndEntry
entries =
    record { key = key_of 6; entry = 60; live_until_ledger_seq = some 0 }
    ∷ record { key = key_of 5; entry = 50; live_until_ledger_seq = none }
    ∷ []

abbrev handler : Handler
handler = record {
  valid_format = λ format. true;
  decode_key = λ n. some (key_of n);
  marshal_key = λ k. some k.name;
  getter = λ keys. ok (entries, 9);
  render_key = λ format k. some k.name;
  render_entry = λ format e. some e;
}

decoded : decode_keys handler.decode_key (5 ∷ 6 ∷ []) ≡ ok (key_of 5 ∷ key_of 6 ∷ [])
unfolding decode_keys
decoded = refl

handle-Shows_example :
    (results : List LedgerEntryResult) × (handle handler (5 ∷ 6 ∷ []) 0 ≡ ok (results, 9))
    × Shows handler (5 ∷ 6 ∷ []) 0 entries results
handle-Shows_example =
    handle-Shows handler (5 ∷ 6 ∷ []) 0 (key_of 5 ∷ key_of 6 ∷ []) entries 9 refl (omega arith)
      decoded refl ((6, 1, refl, refl), ((5, 0, refl, refl), tt))
      ((6, 60, refl, refl), ((5, 50, refl, refl), tt))

abbrev store : LedgerStore
store = record {
  rows = record { sequence = 9; close_time = pos 90 } ∷ [];
  cache = record {
    latest_ledger_seq = 9;
    latest_ledger_close_time = pos 90;
    first_ledger_seq = 9;
    first_ledger_close_time = pos 90;
  };
  history_retention_window = 3;
}

abbrev getter : CoreLedgerEntryGetter
getter = record {
  at_ledger = 0;
  core = λ at keys. some (
      record { state = live; entry = 50; live_until_ledger_seq = 12 }
      ∷ record { state = archived; entry = 60; live_until_ledger_seq = 0 }
      ∷ []);
  decode = λ n. some n;
}

known : (get_latest_ledger_sequence true store).1 ≡ some 9
unfolding get_latest_ledger_sequence
known = refl

get_ledger_entries_lem_example :
    (get_ledger_entries getter true store (key_of 5 ∷ key_of 6 ∷ [])).1
    ≡ ok (
      record { key = key_of 5; entry = 50; live_until_ledger_seq = some 12 }
          ∷ record { key = key_of 6; entry = 60; live_until_ledger_seq = some 0 }
          ∷ [],
      9,
    )
unfolding live_until
get_ledger_entries_lem_example =
    get_ledger_entries_lem getter (λ n. n) true store (key_of 5 ∷ key_of 6 ∷ []) 9
      (record { state = live; entry = 50; live_until_ledger_seq = 12 }
        ∷ record { state = archived; entry = 60; live_until_ledger_seq = 0 }
        ∷ [])
      refl known refl (omega arith) (inr refl, (inr refl, tt))
