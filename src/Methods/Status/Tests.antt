-- ===== src/Methods/Status/Tests.antt =====
-- A table of three ledgers, with nothing cached.
use stellar_rpc.Prelude.{ℕ, ◌*◌, refl, false, some, [], ◌∷◌, arith, true, inl}
use stellar_rpc.Window.{LedgerInfo, pos}
use stellar_rpc.FeeWindow.Ingest.{new_fee_windows}
use stellar_rpc.LedgerStore.{LedgerStore}
use stellar_rpc.LedgerStore.Coherent.{IsCoherent}
use stellar_rpc.Methods.Status.{
  Header, Meta, get_health, get_latest_ledger, get_fee_stats, get_network,
}
use stellar_rpc.Methods.Status.Agree.{Agreement, requests-Agreement}

abbrev at : ℕ → LedgerInfo
at n = record { sequence = n; close_time = pos (n * 5) }

abbrev cold : LedgerStore
cold = record {
  rows = at 10 ∷ at 11 ∷ at 12 ∷ [];
  cache = record {
    latest_ledger_seq = 0;
    latest_ledger_close_time = pos 0;
    first_ledger_seq = 0;
    first_ledger_close_time = pos 0;
  };
  history_retention_window = 3;
}

cold-IsCoherent : IsCoherent cold
cold-IsCoherent = record {
  ascending = (omega arith, (omega arith, (omega arith, tt)));
  agrees = (inl refl, inl refl);
}

abbrev header_of : LedgerInfo → Header
header_of l = record { hash = l.sequence; ledger_version = 22; close_time = l.close_time }

abbrev meta_of : LedgerInfo → Meta
meta_of l = record { version = 2; ledger_version = 22 }

requests-Agreement_example :
    (let health = get_health 3 (λ t. false) true cold in
      let latest = get_latest_ledger (λ l. some (header_of l)) (λ h. some h.hash) true health.0 in
      let fees = get_fee_stats (new_fee_windows 2 2) true latest.0 in
      let network = get_network meta_of true fees.0 in
      Agreement (at 12) 22 health.1 latest.1 fees.1 network.1)
requests-Agreement_example =
    requests-Agreement cold (at 12) 3 (λ t. false) (λ l. some (header_of l)) (λ h. some h.hash)
      (header_of (at 12)) 12 (new_fee_windows 2 2) meta_of cold-IsCoherent
      (at 10, at 11 ∷ at 12 ∷ [], refl, refl) refl refl refl refl
