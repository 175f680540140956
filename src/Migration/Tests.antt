-- ===== src/Migration/Tests.antt =====
-- Migrations on a concrete session.
use stellar_rpc.Prelude.{
  ℕ, ◌≡◌, ◌⊎◌, refl, sym, ==_refl, Bool, true, false, Option, none, some, List, [], ◌∷◌, ◌||◌, ◌==◌,
  if◌then◌else◌, map,
}
use stellar_rpc.SeqRange.{SeqRange}
use stellar_rpc.Migration.{
  SessionCalls, value, missing, Migration, GuardedMigration, as_migration, commit_all, commit_from,
}
use stellar_rpc.Migration.Session.{IsSession, FlushesRows}
use stellar_rpc.Migration.AllOrNothing.{AllKept, commit_all-AllKept}
use stellar_rpc.Migration.Leak.{commit_all-leaks}

-- A database of the keys that are set, and an open transaction's.
record Database : Type 0 where
  saved : ℕ → Bool
  tx : Option (ℕ → Bool)

abbrev with_key : ℕ → (ℕ → Bool) → ℕ → Bool
with_key key keys other = (other == key) || keys other

abbrev set_in : ℕ → (ℕ → Bool) → Option (ℕ → Bool) → Database
set_in key saved none = record { saved = with_key key saved; tx = none }
set_in key saved (some keys) = record { saved = saved; tx = some (with_key key keys) }

abbrev commit_in : (ℕ → Bool) → Option (ℕ → Bool) → Database × Bool
commit_in saved none = (record { saved = saved; tx = none }, false)
commit_in saved (some keys) = (record { saved = keys; tx = none }, true)

abbrev is_open : Option (ℕ → Bool) → Bool
is_open none = false
is_open (some keys) = true

abbrev seen : (ℕ → Bool) → Option (ℕ → Bool) → ℕ → Bool
seen saved none key = saved key
seen saved (some keys) key = keys key

abbrev db : SessionCalls Database
db = record {
  begin = λ s. (record { saved = s.saved; tx = some s.saved }, true);
  commit = λ s. commit_in s.saved s.tx;
  rollback = λ s. (record { saved = s.saved; tx = none }, true);
  get_meta_bool = λ key s. if seen s.saved s.tx key then value true else missing;
  set_meta_bool = λ key s. (set_in key s.saved s.tx, true);
}

not_both : ◌≡◌ {A = Bool} true false → ⊥
not_both e = cc

or_right : (b c : Bool) → c ≡ true → (b || c) ≡ true
or_right true c e = refl
or_right false c e = e

key_set : (key : ℕ) (keys : ℕ → Bool) → with_key key keys key ≡ true
key_set key keys = rw (==_refl key) refl

module _ (saved : ℕ → Bool) where
  commit_keeps :
      (tx : Option (ℕ → Bool)) (key : ℕ)
      → (commit_in saved tx).1 ≡ true
      → (commit_in saved tx).0.saved key ≡ seen saved tx key
  commit_keeps none key fine = refl
  commit_keeps (some keys) key fine = refl

  commit_fails :
      (tx : Option (ℕ → Bool)) (key : ℕ)
      → (commit_in saved tx).1 ≡ false
      → (commit_in saved tx).0.saved key ≡ saved key
  commit_fails none key failed = refl
  commit_fails (some keys) key failed = absurd (not_both failed)

  set_same : (tx : Option (ℕ → Bool)) (key : ℕ) → is_open (set_in key saved tx).tx ≡ is_open tx
  set_same none key = refl
  set_same (some keys) key = refl

  set_inside :
      (tx : Option (ℕ → Bool)) (key other : ℕ)
      → is_open tx ≡ true
      → (set_in key saved tx).saved other ≡ saved other
  set_inside none key other e = absurd (not_both (sym e))
  set_inside (some keys) key other e = refl

  set_outside :
      (tx : Option (ℕ → Bool)) (key : ℕ)
      → is_open tx ≡ false
      → (set_in key saved tx).saved key ≡ true
  set_outside none key e = key_set key saved
  set_outside (some keys) key e = absurd (not_both e)

  set_writes :
      (tx : Option (ℕ → Bool)) (key : ℕ)
      → seen (set_in key saved tx).saved (set_in key saved tx).tx key ≡ true
  set_writes none key = key_set key saved
  set_writes (some keys) key = key_set key keys

  set_others :
      (tx : Option (ℕ → Bool)) (key other : ℕ)
      → seen saved tx other ≡ true
      → seen (set_in key saved tx).saved (set_in key saved tx).tx other ≡ true
  set_others none key other e = or_right (other == key) (saved other) e
  set_others (some keys) key other e = or_right (other == key) (keys other) e

session : IsSession db
session = record {
  in_tx = λ s. is_open s.tx;
  kept = λ key s. s.saved key;
  written = λ key s. seen s.saved s.tx key;
  rollback_ends = λ s. refl;
  commit_keeps = λ s key inside. commit_keeps s.saved s.tx key;
  commit_fails = λ s key. commit_fails s.saved s.tx key;
  set_same = λ s key. set_same s.saved s.tx key;
  set_inside = λ s key other. set_inside s.saved s.tx key other;
  set_outside = λ s key outside fine. set_outside s.saved s.tx key outside;
  set_writes = λ s key fine. set_writes s.saved s.tx key;
  set_others = λ s key other. set_others s.saved s.tx key other;
}

abbrev guarded_by : ℕ → SeqRange → GuardedMigration Database
guarded_by key range = record {
  guard_meta_key = key;
  migration = record {
    applicable_range = range;
    apply = λ meta s. (s, true);
    flush_pending = none;
  };
  already_migrated = false;
}

abbrev transactions : GuardedMigration Database
transactions = guarded_by 1 (record { first = 3; last = 7 })

abbrev events : GuardedMigration Database
events = guarded_by 2 (record { first = 5; last = 9 })

flushes : (key : ℕ) (range : SeqRange) → FlushesRows session (guarded_by key range)
flushes key range = record {
  same_tx = λ s. refl;
  same_kept = λ s k. refl;
  same_written = λ s k. refl;
}

-- Neither is done, and the transaction is open.
abbrev begun : Database
begun = record { saved = λ key. false; tx = some (λ key. false) }

abbrev both : List (Migration Database)
both = map (as_migration db) (transactions ∷ events ∷ [])

commit_all-AllKept_example :
    (((commit_all db both begun).1 ≡ true)
      × AllKept db session (transactions ∷ events ∷ []) (commit_all db both begun).0)
    ⊎ (((commit_all db both begun).1 ≡ false)
        × ((commit_from db both begun true).1 ≡ true)
        × ((key : ℕ) → session.kept key (commit_all db both begun).0 ≡ session.kept key begun))
    ⊎ (((commit_all db both begun).1 ≡ false) × ((commit_from db both begun true).1 ≡ false))
unfolding session
commit_all-AllKept_example =
    commit_all-AllKept db session (transactions ∷ events ∷ []) begun
      (
        refl,
        flushes 1 transactions.migration.applicable_range,
        (refl, flushes 2 events.migration.applicable_range, tt),
      )
      refl

-- A migration whose own commit fails.
abbrev broken : Migration Database
broken = record {
  range = record { first = 3; last = 7 };
  apply_ledger = λ meta s. (s, true);
  commit_migration = λ s. (s, false);
}

commit_all-leaks_example :
    ((commit_all db (broken ∷ as_migration db events ∷ []) begun).1 ≡ false)
    × (session.kept 2 (commit_all db (broken ∷ as_migration db events ∷ []) begun).0 ≡ true)
commit_all-leaks_example =
    commit_all-leaks db session broken events begun refl refl
      (flushes 2 events.migration.applicable_range) refl refl
