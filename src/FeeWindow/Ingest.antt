-- ===== src/FeeWindow/Ingest.antt =====
-- cmd/stellar-rpc/internal/feewindow/feewindow.go, `IngestFees`: the fees of a closed ledger, sorted
-- into the two windows. What the xdr and ingest packages hand over is data: of a transaction, the
-- parts that the loop reads.
pub mod Laws
pub mod Lockstep
pub mod Retry
mod Tests
use stellar_rpc.Prelude.{
  ℕ, zero, suc, ◌+◌, ◌-◌, ◌/◌, ◌%◌, ◌≡◌, Bool, true, false, Option, none, some, List, [], ◌∷◌, ◌++◌,
  ltb, leb, ◌==◌, if◌then◌else◌, length, u64, sub64,
}
use stellar_rpc.Window.{LedgerBucket, Timestamp}
use stellar_rpc.FeeWindow.{FeeWindow, append_ledger_fees, reset_fees, new_fee_window}

-- The operation types that the code tells apart.
pub data OperationType : Type 0 where
  invoke_host_function extend_footprint_ttl restore_footprint other_operation : OperationType

-- `SorobanTransactionMeta.Ext`: V1 carries two int64 fees, as bit patterns.
pub data SorobanExt : Type 0 where
  v1 : (non_refundable refundable : ℕ) → SorobanExt
  other_ext : SorobanExt

-- `UnsafeMeta`: its version, and the Soroban part of V3 and V4, which may be nil.
pub data TransactionMeta : Type 0 where
  v3 : Option SorobanExt → TransactionMeta
  v4 : Option SorobanExt → TransactionMeta
  other_meta : TransactionMeta

pub record Transaction : Type 0 where
  pub fee_charged : ℕ  -- int64, as its bit pattern
  pub operations : List OperationType
  pub unsafe_meta : TransactionMeta

-- What `reader.Read()` returns before io.EOF.
pub data Read : Type 0 where
  transaction : Transaction → Read
  read_error : Read

pub record LedgerCloseMeta : Type 0 where
  pub reader : Option (List Read)  -- `none`: NewLedgerTransactionReaderFromLedgerCloseMeta fails
  pub ledger_sequence : ℕ
  pub ledger_close_time : Timestamp

pub data FeeField : Type 0 where
  fee_charged_field resource_fee_field : FeeField

pub data IngestError : Type 0 where
  no_reader : IngestError
  unreadable : IngestError
  negative : FeeField → IngestError
  classic_gap : (expected received : ℕ) → IngestError
  soroban_gap : (expected received : ℕ) → IngestError

-- `int64ToUint64`: `none` for a negative value.
unfoldable pub int64_to_uint64 : ℕ → Option ℕ
int64_to_uint64 value = if leb 9223372036854775808 value then none else some value

-- Where the fee of one transaction goes.
pub data Share : Type 0 where
  skipped : Share
  soroban : ℕ → Share
  classic : ℕ → Share
  invalid : FeeField → Share

abbrev pub is_soroban : OperationType → Bool
is_soroban other_operation = false
is_soroban _ = true

abbrev pub soroban_ext : TransactionMeta → Option SorobanExt
soroban_ext (v3 ext) = ext
soroban_ext (v4 ext) = ext
soroban_ext other_meta = none

-- The body of the inner `switch`: the int64 sum and the uint64 difference wrap.
unfoldable pub soroban_share : ℕ → Option SorobanExt → Share
unfolding int64_to_uint64
soroban_share fee none = skipped
soroban_share fee (some other_ext) = skipped
soroban_share fee (some (v1 non_refundable refundable)) =
    elim (int64_to_uint64 (u64 (non_refundable + refundable))) [
      | none ↦ invalid resource_fee_field
      | some resource_fee ↦ soroban (sub64 fee resource_fee)
    ]

unfoldable pub share_of : ℕ → List OperationType → TransactionMeta → Share
share_of fee [] meta = skipped
share_of fee (op ∷ []) meta =
    if is_soroban op then soroban_share fee (soroban_ext meta) else classic (fee / length (op ∷ []))
share_of fee (op ∷ op' ∷ ops) meta = classic (fee / length (op ∷ op' ∷ ops))

unfoldable pub share : Transaction → Share
unfolding int64_to_uint64
share tx = elim (int64_to_uint64 tx.fee_charged) [
  | none ↦ invalid fee_charged_field
  | some fee ↦ share_of fee tx.operations tx.unsafe_meta
]

pub record Fees : Type 0 where
  pub soroban_inclusion_fees : List ℕ
  pub classic_fees : List ℕ

pub data Collected : Type 0 where
  collected : Fees → Collected
  failed : IngestError → Collected

-- The loop over the ledger's transactions.
unfoldable pub collect : List Read → Fees → Collected
collect [] fees = collected fees
collect (read_error ∷ reads) fees = failed unreadable
collect (transaction tx ∷ reads) fees = elim (share tx) [
  | skipped ↦ collect reads fees
  | invalid field ↦ failed (negative field)
  | soroban fee ↦
      collect reads
        (record fees { soroban_inclusion_fees = fees.soroban_inclusion_fees ++ (fee ∷ []) })
  | classic fee ↦ collect reads (record fees { classic_fees = fees.classic_fees ++ (fee ∷ []) })
]

-- `FeeWindows`: the database is seen through the calls of its `Rollback`, which are counted.
pub record FeeWindows : Type 0 where
  pub soroban_inclusion_fee_window : FeeWindow
  pub classic_fee_window : FeeWindow
  pub rollbacks : ℕ

-- `NewFeeWindows`
unfoldable pub new_fee_windows : ℕ → ℕ → FeeWindows
new_fee_windows classic_retention soroban_retention = record {
  soroban_inclusion_fee_window = new_fee_window soroban_retention;
  classic_fee_window = new_fee_window classic_retention;
  rollbacks = 0;
}

-- `return errors.Join(err, fw.db.Rollback())`
abbrev pub give_up : FeeWindows → IngestError → Option (FeeWindows × Option IngestError)
give_up fw err = some (record fw { rollbacks = fw.rollbacks + 1 }, some err)

abbrev pub bucket_of : LedgerCloseMeta → List ℕ → LedgerBucket (List ℕ)
bucket_of meta fees = record {
  ledger_seq = meta.ledger_sequence;
  ledger_close_timestamp = meta.ledger_close_time;
  bucket_content = fees;
}

-- The second append, to the Soroban window.
unfoldable pub ingest_soroban :
    FeeWindows → LedgerCloseMeta → Fees → Option (FeeWindows × Option IngestError)
ingest_soroban fw meta fees =
    elim (append_ledger_fees fw.soroban_inclusion_fee_window
      (bucket_of meta fees.soroban_inclusion_fees)) [
        | none ↦ none
        | some (w, none) ↦ some (record fw { soroban_inclusion_fee_window = w }, none)
        | some (w, some (expected, received)) ↦
            give_up (record fw { soroban_inclusion_fee_window = w }) (soroban_gap expected received)
      ]

-- The first append, to the classic window.
unfoldable pub ingest_classic :
    FeeWindows → LedgerCloseMeta → Fees → Option (FeeWindows × Option IngestError)
ingest_classic fw meta fees =
    elim (append_ledger_fees fw.classic_fee_window (bucket_of meta fees.classic_fees)) [
      | none ↦ none
      | some (w, none) ↦ ingest_soroban (record fw { classic_fee_window = w }) meta fees
      | some (w, some (expected, received)) ↦
          give_up (record fw { classic_fee_window = w }) (classic_gap expected received)
    ]

abbrev pub no_shares : Fees
no_shares = record { soroban_inclusion_fees = []; classic_fees = [] }

-- `IngestFees`
unfoldable pub ingest_fees : FeeWindows → LedgerCloseMeta → Option (FeeWindows × Option IngestError)
ingest_fees fw meta = elim meta.reader [
  | none ↦ give_up fw no_reader
  | some reads ↦ elim (collect reads no_shares) [
    | failed err ↦ give_up fw err
    | collected fees ↦ ingest_classic fw meta fees
  ]
]

-- `FeeWindows.Reset`
unfoldable pub reset_windows : FeeWindows → FeeWindows
reset_windows fw = record fw {
  soroban_inclusion_fee_window = reset_fees fw.soroban_inclusion_fee_window;
  classic_fee_window = reset_fees fw.classic_fee_window;
}
