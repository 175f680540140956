-- ===== src/Migration/Leak.antt =====
-- `MultiMigration.Commit` where a migration's own commit fails.
use stellar_rpc.Prelude.{◌≡◌, refl, ◌∙◌, true, false, [], ◌∷◌}
use stellar_rpc.Migration.{
  SessionCalls, Migration, GuardedMigration, as_migration, flushed, guarded_commit, commit_from,
  commit_all,
}
use stellar_rpc.Migration.Session.{IsSession, FlushesRows}

-- Where the commit of a migration fails, the transaction is rolled back, but the guarded migration after
-- it still commits, outside of it: `Commit` returns an error and yet that guard is set for good, if its
-- flush and its write succeed.
pub commit_all-leaks :
    {S : Type 0} (db : SessionCalls S) (session : IsSession db) (m : Migration S)
    (g : GuardedMigration S) (s : S)
    → (m.commit_migration s).1 ≡ false
    → g.already_migrated ≡ false
    → FlushesRows session g
    → (flushed g.migration.flush_pending (db.rollback (m.commit_migration s).0).0).1 ≡ true
    → (db.set_meta_bool g.guard_meta_key
        (flushed g.migration.flush_pending (db.rollback (m.commit_migration s).0).0).0).1
      ≡ true
    → ((commit_all db (m ∷ as_migration db g ∷ []) s).1 ≡ false)
      × (session.kept g.guard_meta_key (commit_all db (m ∷ as_migration db g ∷ []) s).0 ≡ true)
unfolding commit_all commit_from guarded_commit
commit_all-leaks db session m g s failed fresh flushes flush_fine set_fine =
    let rolled = (db.rollback (m.commit_migration s).0).0 in
    let after = (flushed g.migration.flush_pending rolled).0 in
    let outside = flushes.same_tx rolled ∙ session.rollback_ends (m.commit_migration s).0 in
    (
      rw (failed, fresh, flush_fine, set_fine) refl,
      rw (failed, fresh, flush_fine, set_fine)
          (session.set_outside after g.guard_meta_key outside set_fine),
    )
