-- ===== src/Methods/Status.antt =====
-- methods/get_health.go, get_latest_ledger.go, get_fee_stats.go, get_network.go, get_version_info.go
-- and util.go: the requests about the state of the service. Each returns the store of ledgers, whose cache it
-- may have filled.
pub mod Agree
mod Tests
use stellar_rpc.Prelude.{
  ℕ, Bool, true, false, Option, none, some, List, [], ◌∷◌, ltb, ◌==◌, if◌then◌else◌,
}
use stellar_rpc.Window.{LedgerInfo, LedgerRange, zero_range, Timestamp}
use stellar_rpc.FeeWindow.{FeeDistribution, FeeWindow}
use stellar_rpc.FeeWindow.Ingest.{FeeWindows}
use stellar_rpc.LedgerStore.{
  LedgerStore, Ranged, ranged, get_ledger_range, get_latest_ledger_sequence, Lookup, found,
  not_found, multiple_entries, get_ledger,
}
use stellar_rpc.Methods.{RpcError, internal_error, Result, ok, err, ◌>>=◌, ◌>>◌, or_fail, check}
use stellar_rpc.Methods.GetLedgers.{range_or_fail}

pub record HealthResponse : Type 0 where
  pub latest_ledger : LedgerInfo
  pub oldest_ledger : LedgerInfo
  pub ledger_retention_window : ℕ

-- `NewHealthCheck`: `is_late` tells whether the time since a ledger's close is above the maximum.
unfoldable pub get_health :
    ℕ → (Timestamp → Bool) → Bool → LedgerStore → LedgerStore × Result HealthResponse
get_health retention_window is_late answers s =
    let (s', range) = get_ledger_range answers s in
    (
      s',
      range_or_fail range >>= λ r.
          if ltb r.last_ledger.sequence 1
          then err internal_error
          else if is_late r.last_ledger.close_time
          then err internal_error
          else ok (record {
            latest_ledger = r.last_ledger;
            oldest_ledger = r.first_ledger;
            ledger_retention_window = retention_window;
          }),
    )

-- A ledger's header: its hash, its version of the protocol, its close time and its encoding
pub record Header : Type 0 where
  pub hash : ℕ
  pub ledger_version : ℕ
  pub close_time : Timestamp

pub record LatestLedgerResponse : Type 0 where
  pub header : Header
  pub sequence : ℕ
  pub ledger_header : ℕ

-- A ledger that was found; an error and a missing one are errors.
abbrev pub found_or_fail : Lookup → Result LedgerInfo
found_or_fail (found l) = ok l
found_or_fail _ = err internal_error

-- `NewGetLatestLedgerHandler`: `parse` reads the header of a ledger and `marshal` writes it.
unfoldable pub get_latest_ledger :
    (LedgerInfo → Option Header)
    → (Header → Option ℕ)
    → Bool
    → LedgerStore
    → LedgerStore × Result LatestLedgerResponse
get_latest_ledger parse marshal answers s =
    let (s', latest) = get_latest_ledger_sequence answers s in
    (
      s',
      or_fail latest internal_error >>= λ sequence.
          found_or_fail (get_ledger s'.rows sequence) >>= λ raw.
          or_fail (parse raw) internal_error >>= λ header.
          or_fail (marshal header) internal_error >>= λ encoded.
          ok (record { header = header; sequence = sequence; ledger_header = encoded }),
    )

-- What a ledger's meta says: its version, and the protocol's in its header
pub record Meta : Type 0 where
  pub version : ℕ
  pub ledger_version : ℕ

-- `getProtocolVersion`; `none` is an error.
abbrev pub version_of : Lookup → (LedgerInfo → Meta) → Option ℕ
version_of (found l) meta =
    if (meta l).version == 1
    then some (meta l).ledger_version
    else if (meta l).version == 2
    then some (meta l).ledger_version
    else none
version_of not_found meta = none
version_of (multiple_entries n) meta = none

unfoldable pub get_protocol_version :
    (LedgerInfo → Meta) → Bool → LedgerStore → LedgerStore × Option ℕ
get_protocol_version meta answers s =
    let (s', latest) = get_latest_ledger_sequence answers s in
    (
      s',
      elim latest [ none ↦ none | some sequence ↦ version_of (get_ledger s'.rows sequence) meta ],
    )

-- `NewGetNetworkHandler`, without the texts of the configuration
unfoldable pub get_network : (LedgerInfo → Meta) → Bool → LedgerStore → LedgerStore × Result ℕ
get_network meta answers s =
    let (s', version) = get_protocol_version meta answers s in (s', or_fail version internal_error)

-- `NewGetVersionInfoHandler`: an error is logged, and the version is then 0.
unfoldable pub get_version_info : (LedgerInfo → Meta) → Bool → LedgerStore → LedgerStore × ℕ
get_version_info meta answers s =
    let (s', version) = get_protocol_version meta answers s in
    (s', elim version [ none ↦ 0 | some v ↦ v ])

pub record FeeStatsResponse : Type 0 where
  pub soroban_inclusion_fee : FeeDistribution
  pub inclusion_fee : FeeDistribution
  pub latest_ledger : ℕ

-- The range that goes with an error is zero.
abbrev pub range_or_zero : Ranged → LedgerRange
range_or_zero (ranged r) = r
range_or_zero _ = zero_range

-- `NewGetFeeStatsHandler`: an error is logged. `convertFeeDistribution` copies every field.
unfoldable pub get_fee_stats : FeeWindows → Bool → LedgerStore → LedgerStore × FeeStatsResponse
get_fee_stats windows answers s =
    let (s', range) = get_ledger_range answers s in
    (
      s',
      record {
        soroban_inclusion_fee = windows.soroban_inclusion_fee_window.distribution;
        inclusion_fee = windows.classic_fee_window.distribution;
        latest_ledger = (range_or_zero range).last_ledger.sequence;
      },
    )
