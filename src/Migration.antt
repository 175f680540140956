-- ===== src/Migration.antt =====
-- cmd/stellar-rpc/internal/db/migration.go: data migrations, guarded by a key of the meta table and run
-- together in one transaction of the database's session. The session is the outside's: its operations
-- return the session after them and whether they succeeded.
pub mod Session
pub mod AllOrNothing
pub mod Leak
pub mod Range
mod Tests
use stellar_rpc.Prelude.{
  ℕ, ◌+◌, ◌-◌, ◌≡◌, Bool, true, false, not, ◌&&◌, Option, none, some, List, [], ◌∷◌, ◌++◌, ltb,
  if◌then◌else◌,
}
use stellar_rpc.Window.{LedgerInfo}
use stellar_rpc.SeqRange.{SeqRange, is_empty, is_ledger_included, merge, no_range}

-- What `getMetaBool` answers.
pub data MetaBool : Type 0 where
  value : Bool → MetaBool
  missing : MetaBool  -- ErrEmptyDB
  unreadable : MetaBool

-- The session's calls, on its state S
pub record SessionCalls (S : Type 0) : Type 0 where
  pub begin : S → S × Bool
  pub commit : S → S × Bool
  pub rollback : S → S × Bool
  pub get_meta_bool : ℕ → S → MetaBool
  pub set_meta_bool : ℕ → S → S × Bool

-- `MigrationApplier`, and `flushPending` where it has one
pub record MigrationApplier (S : Type 0) : Type 0 where
  pub applicable_range : SeqRange
  pub apply : LedgerInfo → S → S × Bool
  pub flush_pending : Option (S → S × Bool)

-- `Migration`
pub record Migration (S : Type 0) : Type 0 where
  pub range : SeqRange
  pub apply_ledger : LedgerInfo → S → S × Bool
  pub commit_migration : S → S × Bool

-- `guardedMigration`, without its log
pub record GuardedMigration (S : Type 0) : Type 0 where
  pub guard_meta_key : ℕ
  pub migration : MigrationApplier S
  pub already_migrated : Bool

-- What `newGuardedDataMigration` returns: a failure, nothing where it is done, or the migration.
pub data Guarded (S : Type 0) : Type 0 where
  not_guarded : Guarded S
  completed : Guarded S
  guarded : GuardedMigration S → Guarded S

module _ {S : Type 0} where
  unfoldable pub guarded_range : GuardedMigration S → SeqRange
  guarded_range g = if g.already_migrated then no_range else g.migration.applicable_range

  unfoldable pub guarded_apply : GuardedMigration S → LedgerInfo → S → S × Bool
  guarded_apply g meta s = if g.already_migrated then (s, true) else g.migration.apply meta s

  abbrev pub flushed : Option (S → S × Bool) → S → S × Bool
  flushed none s = (s, true)
  flushed (some flush) s = flush s

  -- `guardedMigration.Commit`
  unfoldable pub guarded_commit : SessionCalls S → GuardedMigration S → S → S × Bool
  guarded_commit db g s =
      let f = flushed g.migration.flush_pending s in
      if g.already_migrated
      then (s, true)
      else if f.1
      then db.set_meta_bool g.guard_meta_key f.0
      else (f.0, false)

  abbrev pub as_migration : SessionCalls S → GuardedMigration S → Migration S
  as_migration db g = record {
    range = guarded_range g;
    apply_ledger = guarded_apply g;
    commit_migration = guarded_commit db g;
  }

  -- `MultiMigration.Append`
  unfoldable pub append_migration : List (Migration S) → Migration S → List (Migration S)
  append_migration ms m = if is_empty m.range then ms else ms ++ (m ∷ [])

  -- The loop of `MultiMigration.ApplicableRange`
  unfoldable pub range_from : List (Migration S) → SeqRange → SeqRange
  range_from [] result = result
  range_from (m ∷ ms) result = range_from ms (merge m.range result)

  abbrev pub applicable_range_of : List (Migration S) → SeqRange
  applicable_range_of ms = range_from ms no_range

  -- One call of a migration; where it fails, the transaction is rolled back and the error kept.
  abbrev pub or_rollback : SessionCalls S → S × Bool → Bool → S × Bool
  or_rollback db out fine = if out.1 then (out.0, fine) else ((db.rollback out.0).0, false)

  -- The loop of `MultiMigration.Apply`, with whether there was no error so far
  unfoldable pub apply_from : SessionCalls S → LedgerInfo → List (Migration S) → S → Bool → S × Bool
  apply_from db meta [] s fine = (s, fine)
  apply_from db meta (m ∷ ms) s fine =
      let applied = or_rollback db (m.apply_ledger meta s) fine in
      let rest = apply_from db meta ms applied.0 applied.1 in
      let skipped = apply_from db meta ms s fine in
      if not (is_ledger_included m.range meta.sequence) then skipped else rest

  abbrev pub apply_all : SessionCalls S → List (Migration S) → LedgerInfo → S → S × Bool
  apply_all db ms meta s = apply_from db meta ms s true

  -- The loop of `MultiMigration.Commit`
  unfoldable pub commit_from : SessionCalls S → List (Migration S) → S → Bool → S × Bool
  commit_from db [] s fine = (s, fine)
  commit_from db (m ∷ ms) s fine =
      let committed = or_rollback db (m.commit_migration s) fine in
      commit_from db ms committed.0 committed.1

  -- `MultiMigration.Commit`
  unfoldable pub commit_all : SessionCalls S → List (Migration S) → S → S × Bool
  commit_all db ms s =
      let committed = commit_from db ms s true in
      if committed.1 then db.commit committed.0 else (committed.0, false)

  abbrev pub created : ℕ → S × Option (MigrationApplier S) → S × Guarded S
  created key (s, none) = (s, not_guarded)
  created key (s, some applier) =
      (s, guarded (record { guard_meta_key = key; migration = applier; already_migrated = false }))

  -- `newGuardedDataMigration`
  unfoldable pub new_guarded_data_migration :
      SessionCalls S → ℕ → (S → S × Option (MigrationApplier S)) → S → S × Guarded S
  new_guarded_data_migration db key factory s = elim (db.get_meta_bool key s) [
    | unreadable ↦ (s, not_guarded)
    | missing ↦ created key (factory s)
    | value previously_migrated ↦
        if previously_migrated then (s, completed) else created key (factory s)
  ]

  -- The loop of `BuildMigrations`, with the migrations so far; `none` is an error.
  unfoldable pub build_from :
      SessionCalls S
      → List (ℕ × (S → S × Option (MigrationApplier S)))
      → List (Migration S)
      → S
      → S × Option (List (Migration S))
  build_from db [] ms s = (s, some ms)
  build_from db ((key, factory) ∷ rest) ms s =
      let out = new_guarded_data_migration db key factory s in
      elim out.1 [
        | not_guarded ↦ ((db.rollback out.0).0, none)
        | completed ↦ build_from db rest ms out.0
        | guarded g ↦ build_from db rest (ms ++ (as_migration db g ∷ [])) out.0
      ]

  -- `BuildMigrations`
  unfoldable pub build_migrations :
      SessionCalls S
      → List (ℕ × (S → S × Option (MigrationApplier S)))
      → S
      → S × Option (List (Migration S))
  build_migrations db factories s =
      let begun = db.begin s in
      if begun.1 then build_from db factories [] begun.0 else ((db.rollback begun.0).0, none)

-- `GetMigrationLedgerRange`, for the latest ledger sequence (0 in an empty database)
unfoldable pub migration_ledger_range : ℕ → ℕ → SeqRange
migration_ledger_range latest_ledger retention_window = record {
  first = if ltb retention_window latest_ledger then latest_ledger - retention_window else 2;
  last = latest_ledger;
}
