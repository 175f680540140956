-- ===== src/Migration/AllOrNothing.antt =====
-- `MultiMigration.Commit` over guarded migrations.
use stellar_rpc.Prelude.{
  ℕ, ◌≡◌, ◌⊎◌, inl, inr, refl, sym, ◌∙◌, Bool, true, false, List, [], ◌∷◌, map, Bool-cases,
}
use stellar_rpc.Migration.{
  SessionCalls, Migration, GuardedMigration, as_migration, flushed, guarded_commit, commit_from,
  commit_all,
}
use stellar_rpc.Migration.Session.{IsSession, FlushesRows}

not_both : ◌≡◌ {A = Bool} true false → ⊥
not_both e = cc

module _ {S : Type 0} (db : SessionCalls S) (session : IsSession db) where
  abbrev pub AllFresh : List (GuardedMigration S) → Type 0
  AllFresh [] = Unit
  AllFresh (g ∷ gs) = (g.already_migrated ≡ false) × FlushesRows session g × AllFresh gs

  abbrev pub AllKept : List (GuardedMigration S) → S → Type 0
  AllKept [] s = Unit
  AllKept (g ∷ gs) s = (session.kept g.guard_meta_key s ≡ true) × AllKept gs s

  abbrev AllWritten : List (GuardedMigration S) → S → Type 0
  AllWritten [] s = Unit
  AllWritten (g ∷ gs) s = (session.written g.guard_meta_key s ≡ true) × AllWritten gs s

  -- After calls that all succeeded in the transaction
  record Ran (gs : List (GuardedMigration S)) (s out : S) : Type 0 where
    open_tx : session.in_tx out ≡ true
    same_kept : (key : ℕ) → session.kept key out ≡ session.kept key s
    keeps_written : (key : ℕ) → session.written key s ≡ true → session.written key out ≡ true
    all_written : AllWritten gs out

  commit_from-failed : (ms : List (Migration S)) (s : S) → (commit_from db ms s false).1 ≡ false
  unfolding commit_from
  commit_from-failed [] s = refl
  commit_from-failed (m ∷ ms) s = elim (Bool-cases (m.commit_migration s).1) [
    | inl fine ↦ rw (fine, commit_from) (commit_from-failed ms (m.commit_migration s).0)
    | inr failed ↦
        rw (failed, commit_from) (commit_from-failed ms (db.rollback (m.commit_migration s).0).0)
  ]

  guarded_commit-Ran :
      (g : GuardedMigration S) (s : S)
      → g.already_migrated ≡ false
      → FlushesRows session g
      → session.in_tx s ≡ true
      → (guarded_commit db g s).1 ≡ true
      → Ran (g ∷ []) s (guarded_commit db g s).0
  unfolding guarded_commit
  guarded_commit-Ran g s fresh flushes open_tx succeeded =
      elim (Bool-cases (flushed g.migration.flush_pending s).1) [
        | inr failed ↦ absurd (not_both (sym (rw (fresh, failed, guarded_commit) at succeeded)))
        | inl fine ↦
            let f = (flushed g.migration.flush_pending s).0 in
            let inside = flushes.same_tx s ∙ open_tx in
            rw (fresh, fine, guarded_commit)
              (record {
                open_tx = session.set_same f g.guard_meta_key ∙ inside;
                same_kept = λ key.
                    session.set_inside f g.guard_meta_key key inside ∙ flushes.same_kept s key;
                keeps_written = λ key set.
                    session.set_others f g.guard_meta_key key (flushes.same_written s key ∙ set);
                all_written = (
                  session.set_writes f g.guard_meta_key
                      (rw (fresh, fine, guarded_commit) at succeeded),
                  tt,
                );
              })
      ]

  keep_all :
      (gs : List (GuardedMigration S)) (s out : S)
      → ((key : ℕ) → session.written key s ≡ true → session.written key out ≡ true)
      → AllWritten gs s
      → AllWritten gs out
  keep_all [] s out keeps h = tt
  keep_all (g ∷ gs) s out keeps h = (keeps g.guard_meta_key h.0, keep_all gs s out keeps h.1)

  commit_from-Ran :
      (gs : List (GuardedMigration S)) (s : S)
      → AllFresh gs
      → session.in_tx s ≡ true
      → (commit_from db (map (as_migration db) gs) s true).1 ≡ true
      → Ran gs s (commit_from db (map (as_migration db) gs) s true).0
  unfolding commit_from
  commit_from-Ran [] s fresh open_tx succeeded = record {
    open_tx = open_tx;
    same_kept = λ key. refl;
    keeps_written = λ key set. set;
    all_written = tt;
  }
  commit_from-Ran (g ∷ gs) s fresh open_tx succeeded = elim (Bool-cases (guarded_commit db g s).1) [
    | inr failed ↦ absurd (
        not_both (
          sym (rw (failed, commit_from) at succeeded)
          ∙ commit_from-failed (map (as_migration db) gs)
              (db.rollback (guarded_commit db g s).0).0))
    | inl fine ↦
        let first = guarded_commit-Ran g s fresh.0 fresh.1 open_tx fine in
        let rest =
          commit_from-Ran gs (guarded_commit db g s).0 fresh.2 first.open_tx
            (rw (fine, commit_from) at succeeded) in
        rw (fine, commit_from)
          (record {
            open_tx = rest.open_tx;
            same_kept = λ key. rest.same_kept key ∙ first.same_kept key;
            keeps_written = λ key set. rest.keeps_written key (first.keeps_written key set);
            all_written =
                (rest.keeps_written g.guard_meta_key first.all_written.0, rest.all_written);
          })
  ]

  all_kept :
      (gs : List (GuardedMigration S)) (s out : S)
      → ((key : ℕ) → session.kept key out ≡ session.written key s)
      → AllWritten gs s
      → AllKept gs out
  all_kept [] s out same h = tt
  all_kept (g ∷ gs) s out same h = (same g.guard_meta_key ∙ h.0, all_kept gs s out same h.1)

  -- Commit of guarded migrations that are not done yet, in the open transaction: it succeeds and the
  -- guards of all of them are set for good; or the commits of all of them succeeded, that of the
  -- transaction failed, and every guard is as it was; or it fails since that of one of them did.
  pub commit_all-AllKept :
      (gs : List (GuardedMigration S)) (s : S)
      → AllFresh gs
      → session.in_tx s ≡ true
      → let ms = map (as_migration db) gs in
        (((commit_all db ms s).1 ≡ true) × AllKept gs (commit_all db ms s).0)
        ⊎ (((commit_all db ms s).1 ≡ false)
            × ((commit_from db ms s true).1 ≡ true)
            × ((key : ℕ) → session.kept key (commit_all db ms s).0 ≡ session.kept key s))
        ⊎ (((commit_all db ms s).1 ≡ false) × ((commit_from db ms s true).1 ≡ false))
  unfolding commit_all
  commit_all-AllKept gs s fresh open_tx =
      let ms = map (as_migration db) gs in
      elim (Bool-cases (commit_from db ms s true).1) [
        | inr failed ↦ rw (failed) (inr (inr (refl, refl)))
        | inl fine ↦
            let ran = commit_from-Ran gs s fresh open_tx fine in
            let out = (commit_from db ms s true).0 in
            elim (Bool-cases (db.commit out).1) [
              | inl committed ↦ rw (fine) (
                  inl (
                    committed,
                    all_kept gs out (db.commit out).0
                        (λ key. session.commit_keeps out key ran.open_tx committed) ran.all_written,
                  ))
              | inr refused ↦ rw (fine) (
                  inr (
                    inl (
                      refused,
                      refl,
                      λ key. session.commit_fails out key refused ∙ ran.same_kept key,
                    )))
            ]
      ]
