-- ===== src/Methods/GetLedgers/Remote.antt =====
-- The datastore's reader, for the handler.
use stellar_rpc.Prelude.{
  ℕ, zero, suc, ◌+◌, ◌-◌, ◌≤◌, ◌<◌, ◌≡◌, refl, true, some, List, [], ◌∷◌, arith, u32, u32_mod,
}
use mathlib.Core.Path.{subst}
use stellar_rpc.Window.{LedgerInfo}
use stellar_rpc.DatastoreReader.{Backend, fetch_from, get_ledgers, ledger_reader}
use stellar_rpc.Methods.GetLedgers.Fetch.{RunTo, Serves}

-- A backend that starts, and has each ledger from 2 to below `first` under its sequence.
pub record Works (b : Backend) (first : ℕ) : Type 0 where
  pub created : b.is_created ≡ true
  pub prepares : (s e : ℕ) → 2 ≤ s → s ≤ e → e < first → b.prepare_range s e ≡ true
  pub has :
      (n : ℕ) → 2 ≤ n → n < first → (l : LedgerInfo) × (b.get_ledger n ≡ some l) × (l.sequence ≡ n)

fetch_from-run :
    (b : Backend) (first rounds n : ℕ)
    → Works b first
    → first < u32_mod
    → 2 ≤ n
    → n + rounds ≤ first
    → (ls : List LedgerInfo) × (fetch_from b rounds n ≡ some ls) × RunTo n (n + rounds) ls
unfolding fetch_from
fetch_from-run b first zero n works small low high = ([], refl, (tt, omega arith))
fetch_from-run b first (suc rounds) n works small low high =
    let (l, got, at) = works.has n low (omega arith) in
    let (ls, rest, run) =
      fetch_from-run b first rounds (n + 1) works small (omega arith) (omega arith) in
    let rest' : fetch_from b rounds (u32 (n + 1)) ≡ some ls =
      subst (λ m. fetch_from b rounds m ≡ some ls) (omega arith) rest in
    (l ∷ ls, rw (got, rest') refl, ((at, run.0), omega (arith, run.1)))

-- Over a backend that has the ledgers below `first`, the reader serves each range of them in order.
pub ledger_reader-Serves :
    (b : Backend) (first : ℕ) → Works b first → first < u32_mod → Serves (ledger_reader b) first
unfolding ledger_reader get_ledgers fetch_from
ledger_reader-Serves b first works small s e low ordered high =
    let (ls, got, run) = fetch_from-run b first (e + 1 - s) s works small low (omega arith) in
    (
      ls,
      rw (works.created, works.prepares s e low ordered high, got) refl,
      (run.0, omega (arith, run.1)),
    )
