-- ===== src/DatastoreReader.antt =====
-- cmd/stellar-rpc/internal/rpcdatastore/ledger_reader.go: ledgers from the cloud datastore. The buffered
-- backend is the outside's; each ledger is the `LedgerInfo` of its meta.
use stellar_rpc.Prelude.{
  ℕ, zero, suc, ◌+◌, ◌-◌, Bool, not, Option, none, some, List, [], ◌∷◌, if◌then◌else◌, u32,
}
use stellar_rpc.Window.{LedgerInfo, LedgerSeqRange}

-- The interface `LedgerReader`; `none` is an error.
pub record LedgerReader : Type 0 where
  pub get_available_ledger_range : Option LedgerSeqRange
  pub get_ledgers : ℕ → ℕ → Option (List LedgerInfo)

-- What the backend of one call answers
pub record Backend : Type 0 where
  pub is_created : Bool
  pub prepare_range : ℕ → ℕ → Bool
  pub get_ledger : ℕ → Option LedgerInfo

infixr 67 ◌∷?◌
abbrev pub ◌∷?◌ : Option LedgerInfo → Option (List LedgerInfo) → Option (List LedgerInfo)
none ∷? ls = none
some l ∷? none = none
some l ∷? some ls = some (l ∷ ls)

-- The loop of `GetLedgers`, with the rounds that are left
unfoldable pub fetch_from : Backend → ℕ → ℕ → Option (List LedgerInfo)
fetch_from b zero sequence = some []
fetch_from b (suc rounds) sequence =
    b.get_ledger sequence ∷? fetch_from b rounds (u32 (sequence + 1))

-- `GetLedgers`, for an end below 2^32 - 1
unfoldable pub get_ledgers : Backend → ℕ → ℕ → Option (List LedgerInfo)
get_ledgers b start end =
    if not b.is_created
    then none
    else if not (b.prepare_range start end)
    then none
    else fetch_from b (end + 1 - start) start

-- `GetAvailableLedgerRange`: from genesis on, without an end.
abbrev pub available_range : LedgerSeqRange
available_range = record { first_ledger = 2; last_ledger = 0 }

-- `ledgerReader`
unfoldable pub ledger_reader : Backend → LedgerReader
unfolding get_ledgers
ledger_reader b = record {
  get_available_ledger_range = some available_range;
  get_ledgers = get_ledgers b;
}
