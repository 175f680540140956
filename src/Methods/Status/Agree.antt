-- ===== src/Methods/Status/Agree.antt =====
-- The requests about the state of the service agree on the latest ledger.
use stellar_rpc.Prelude.{
  ℕ, ◌<◌, ◌≡◌, refl, sym, ap, ◌∙◌, Bool, true, false, Option, some, List, [], ◌∷◌, arith, le→ltb,
  ==_refl, ne→==,
}
use mathlib.Core.Path.{subst}
use stellar_rpc.Window.{LedgerInfo, Timestamp}
use stellar_rpc.FeeWindow.Ingest.{FeeWindows}
use stellar_rpc.LedgerStore.{
  LedgerStore, ranged, last_row, get_ledger_range, get_latest_ledger_sequence, found, get_ledger,
  select,
}
use stellar_rpc.LedgerStore.Rows.{IsAbove, ends_of, last_row_above}
use stellar_rpc.LedgerStore.Coherent.{IsCoherent, get_ledger_range-Answers}
use stellar_rpc.LedgerStore.Latest.{newest_of, get_latest_ledger_sequence-Answers}
use stellar_rpc.Methods.{Result, ok}
use stellar_rpc.Methods.Status.{
  HealthResponse, get_health, Header, LatestLedgerResponse, get_latest_ledger, Meta,
  get_protocol_version, get_network, FeeStatsResponse, get_fee_stats,
}

get_ledger-last_row :
    (n : ℕ) (r : LedgerInfo) (rs : List LedgerInfo)
    → IsAbove n (r ∷ rs)
    → get_ledger (r ∷ rs) (last_row r rs).sequence ≡ found (last_row r rs)
unfolding get_ledger select
get_ledger-last_row n r [] above = rw (==_refl r.sequence) refl
get_ledger-last_row n r (r' ∷ rs) above =
    let later = last_row_above r.sequence r' rs above.1 in
    rw (ne→== r.sequence (last_row r' rs).sequence (λ e. omega arith))
      (get_ledger-last_row r.sequence r' rs above.1)

-- The newest of a table
abbrev pub NewestIs : LedgerStore → LedgerInfo → Type 0
NewestIs s newest =
    (oldest : LedgerInfo) × (rs : List LedgerInfo) × (s.rows ≡ oldest ∷ rs)
    × (last_row oldest rs ≡ newest)

module _ (s : LedgerStore) (newest : LedgerInfo) (coherent : IsCoherent s)
    (known : NewestIs s newest) where
  same_newest : (s' : LedgerStore) → s'.rows ≡ s.rows → NewestIs s' newest
  same_newest s' same = let (oldest, rs, rows, last) = known in (oldest, rs, same ∙ rows, last)

  newest_range :
      (oldest : LedgerInfo) × ((get_ledger_range true s).1
        ≡ ranged (record { first_ledger = oldest; last_ledger = newest }))
  newest_range =
      let (oldest, rs, rows, last) = known in
      (
        oldest,
        (get_ledger_range-Answers s coherent).answer
            ∙ ap ends_of rows
            ∙ ap (λ l. ranged (record { first_ledger = oldest; last_ledger = l })) last,
      )

  newest_sequence : (get_latest_ledger_sequence true s).1 ≡ some newest.sequence
  newest_sequence =
      let (oldest, rs, rows, last) = known in
      (get_latest_ledger_sequence-Answers s coherent).answer
      ∙ ap newest_of rows
      ∙ ap (λ l. some l.sequence) last

  newest_lookup :
      get_ledger (get_latest_ledger_sequence true s).0.rows newest.sequence ≡ found newest
  newest_lookup =
      let (oldest, rs, rows, last) = known in
      let same = (get_latest_ledger_sequence-Answers s coherent).same_rows ∙ rows in
      let above : IsAbove 0 (oldest ∷ rs) = subst (IsAbove 0) rows coherent.ascending in
      ap (λ xs. get_ledger xs newest.sequence) same
      ∙ ap (λ l. get_ledger (oldest ∷ rs) l.sequence) (sym last)
      ∙ get_ledger-last_row 0 oldest rs above
      ∙ ap found last

  newest_positive : 0 < newest.sequence
  newest_positive =
      let (oldest, rs, rows, last) = known in
      let above : IsAbove 0 (oldest ∷ rs) = subst (IsAbove 0) rows coherent.ascending in
      let positive = last_row_above 0 oldest rs above in omega (arith, ap (λ l. l.sequence) last)

  range_coherent : IsCoherent (get_ledger_range true s).0
  range_coherent = (get_ledger_range-Answers s coherent).coherent

  latest_coherent : IsCoherent (get_latest_ledger_sequence true s).0
  latest_coherent = (get_latest_ledger_sequence-Answers s coherent).coherent

  get_health_lem :
      (window : ℕ) (is_late : Timestamp → Bool)
      → is_late newest.close_time ≡ false
      → (r : HealthResponse) × ((get_health window is_late true s).1 ≡ ok r)
        × (r.latest_ledger ≡ newest)
  unfolding get_health
  get_health_lem window is_late in_time =
      let (oldest, range) = newest_range in
      let started = le→ltb newest.sequence 1 newest_positive in
      (
        record { latest_ledger = newest; oldest_ledger = oldest; ledger_retention_window = window },
        rw (range, started, in_time) refl,
        refl,
      )

  get_latest_ledger_lem :
      (parse : LedgerInfo → Option Header) (marshal : Header → Option ℕ) (header : Header)
      (encoded : ℕ)
      → parse newest ≡ some header
      → marshal header ≡ some encoded
      → (get_latest_ledger parse marshal true s).1
        ≡ ok (record { header = header; sequence = newest.sequence; ledger_header = encoded })
  unfolding get_latest_ledger
  get_latest_ledger_lem parse marshal header encoded parsed marshalled =
      rw (newest_sequence, newest_lookup, parsed, marshalled) refl

  get_protocol_version_lem :
      (meta : LedgerInfo → Meta)
      → (meta newest).version ≡ 2
      → (get_protocol_version meta true s).1 ≡ some (meta newest).ledger_version
  unfolding get_protocol_version
  get_protocol_version_lem meta version =
      rw (newest_sequence, newest_lookup, version, get_protocol_version) refl

  get_network_lem :
      (meta : LedgerInfo → Meta)
      → (meta newest).version ≡ 2
      → (get_network meta true s).1 ≡ ok (meta newest).ledger_version
  unfolding get_network
  get_network_lem meta version = rw (get_protocol_version_lem meta version) refl

  get_fee_stats_lem :
      (windows : FeeWindows) → (get_fee_stats windows true s).1.latest_ledger ≡ newest.sequence
  unfolding get_fee_stats
  get_fee_stats_lem windows = let (oldest, range) = newest_range in rw (range) refl

-- The answers of four requests, one after the other
pub record Agreement (newest : LedgerInfo) (ledger_version : ℕ) (health : Result HealthResponse)
    (latest : Result LatestLedgerResponse) (fees : FeeStatsResponse) (network : Result ℕ)
    : Type 0 where
  pub health_response : HealthResponse
  pub latest_response : LatestLedgerResponse
  pub healthy : health ≡ ok health_response
  pub answered : latest ≡ ok latest_response
  pub health_ledger : health_response.latest_ledger ≡ newest
  pub latest_ledger : latest_response.sequence ≡ newest.sequence
  pub fees_ledger : fees.latest_ledger ≡ newest.sequence
  pub network_version : network ≡ ok ledger_version

-- On a store that is sound and not empty, getHealth, getLatestLedger, getFeeStats and getNetwork, one
-- after the other, all answer about the newest ledger of its table, whatever of its ends is cached. The
-- ledger is not late, its header can be read and written, and its meta is of version 2.
pub requests-Agreement :
    (s : LedgerStore) (newest : LedgerInfo) (window : ℕ) (is_late : Timestamp → Bool)
    (parse : LedgerInfo → Option Header) (marshal : Header → Option ℕ) (header : Header)
    (encoded : ℕ) (windows : FeeWindows) (meta : LedgerInfo → Meta)
    → IsCoherent s
    → NewestIs s newest
    → is_late newest.close_time ≡ false
    → parse newest ≡ some header
    → marshal header ≡ some encoded
    → (meta newest).version ≡ 2
    → (let health = get_health window is_late true s in
        let latest = get_latest_ledger parse marshal true health.0 in
        let fees = get_fee_stats windows true latest.0 in
        let network = get_network meta true fees.0 in
        Agreement newest (meta newest).ledger_version health.1 latest.1 fees.1 network.1)
unfolding get_health get_latest_ledger get_fee_stats
requests-Agreement s newest window is_late parse marshal header encoded windows meta coherent known
      in_time parsed marshalled version =
    let (health, healthy, same) = get_health_lem s newest coherent known window is_late in_time in
    let s1 = (get_ledger_range true s).0 in
    let c1 : IsCoherent s1 = range_coherent s newest coherent known in
    let k1 : NewestIs s1 newest =
      same_newest s newest coherent known s1 (get_ledger_range-Answers s coherent).same_rows in
    let s2 = (get_latest_ledger_sequence true s1).0 in
    let c2 : IsCoherent s2 = latest_coherent s1 newest c1 k1 in
    let k2 : NewestIs s2 newest =
      same_newest s1 newest c1 k1 s2 (get_latest_ledger_sequence-Answers s1 c1).same_rows in
    let s3 = (get_ledger_range true s2).0 in
    let c3 : IsCoherent s3 = range_coherent s2 newest c2 k2 in
    let k3 : NewestIs s3 newest =
      same_newest s2 newest c2 k2 s3 (get_ledger_range-Answers s2 c2).same_rows in
    record {
      health_response = health;
      latest_response = record {
        header = header;
        sequence = newest.sequence;
        ledger_header = encoded;
      };
      healthy = healthy;
      answered =
          get_latest_ledger_lem s1 newest c1 k1 parse marshal header encoded parsed marshalled;
      health_ledger = same;
      latest_ledger = refl;
      fees_ledger = get_fee_stats_lem s2 newest c2 k2 windows;
      network_version = get_network_lem s3 newest c3 k3 meta version;
    }
