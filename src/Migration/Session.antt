-- ===== src/Migration/Session.antt =====
-- What the code relies on of the session: its calls outside a transaction take effect at once, those in
-- one when it is committed.
use stellar_rpc.Prelude.{ℕ, ◌≡◌, Bool, true, false}
use stellar_rpc.Migration.{SessionCalls, GuardedMigration, flushed}

-- Whether a transaction is open; whether a key is set for everyone, and for the session itself.
pub record IsSession {S : Type 0} (db : SessionCalls S) : Type 0 where
  pub in_tx : S → Bool
  pub kept : ℕ → S → Bool
  pub written : ℕ → S → Bool
  pub rollback_ends : (s : S) → in_tx (db.rollback s).0 ≡ false
  pub commit_keeps :
      (s : S) (key : ℕ)
      → in_tx s ≡ true
      → (db.commit s).1 ≡ true
      → kept key (db.commit s).0 ≡ written key s
  pub commit_fails :
      (s : S) (key : ℕ) → (db.commit s).1 ≡ false → kept key (db.commit s).0 ≡ kept key s
  pub set_same : (s : S) (key : ℕ) → in_tx (db.set_meta_bool key s).0 ≡ in_tx s
  pub set_inside :
      (s : S) (key other : ℕ)
      → in_tx s ≡ true
      → kept other (db.set_meta_bool key s).0 ≡ kept other s
  pub set_outside :
      (s : S) (key : ℕ)
      → in_tx s ≡ false
      → (db.set_meta_bool key s).1 ≡ true
      → kept key (db.set_meta_bool key s).0 ≡ true
  pub set_writes :
      (s : S) (key : ℕ)
      → (db.set_meta_bool key s).1 ≡ true
      → written key (db.set_meta_bool key s).0 ≡ true
  pub set_others :
      (s : S) (key other : ℕ)
      → written other s ≡ true
      → written other (db.set_meta_bool key s).0 ≡ true

-- Flushing a migration's rows changes neither the transaction nor the guards.
pub record FlushesRows {S : Type 0} {db : SessionCalls S} (session : IsSession db)
    (g : GuardedMigration S) : Type 0 where
  pub same_tx : (s : S) → session.in_tx (flushed g.migration.flush_pending s).0 ≡ session.in_tx s
  pub same_kept :
      (s : S) (key : ℕ)
      → session.kept key (flushed g.migration.flush_pending s).0 ≡ session.kept key s
  pub same_written :
      (s : S) (key : ℕ)
      → session.written key (flushed g.migration.flush_pending s).0 ≡ session.written key s
