-- ===== src/Txn/Undo.antt =====
-- core/txn/recover.go: Rollback, which the updater calls when a step fails, and ResumeDeferred,
-- which the launcher calls to finish a transaction that waits for a restart.
pub mod Safe
use idunn.Prelude.{true, Option, none, some, List, Bytes, last?}
use idunn.Txn.Journal.{
  migrate, apply, State, begin, migrated, swapped, committed, rolled_back, deferred, uninstalling,
  Record, being_uninstalled,
}
use idunn.Txn.Log.{open_journal, append}
use idunn.Txn.Recover.{
  Migrator, Recovery, nothing_recovered, next_record, run_hook, clean_orphans, settle_committed,
  complete, undo_transaction,
}
use idunn.Layout.Effects.{Action, pure, raise, ◌>>=◌, ◌>>◌}

module _ {H : Type 0} where
  roll_back_from : Option (Migrator H) → List Record → Record → State → Action H (Unit {0})
  roll_back_from m records last committed = settle_committed last
  roll_back_from m records last rolled_back = clean_orphans
  roll_back_from m records last uninstalling = raise being_uninstalled
  roll_back_from m records last begin = undo_transaction none records last
  roll_back_from m records last _ = undo_transaction m records last

  roll_back_last : Option (Migrator H) → List Record → Option Record → Action H (Unit {0})
  unfolding roll_back_from
  roll_back_last m records none = clean_orphans
  roll_back_last m records (some last) = roll_back_from m records last last.state

  -- Rollback.
  unfoldable pub roll_back : Option (Migrator H) → Action H (Unit {0})
  unfolding roll_back_last
  roll_back m = do records ← open_journal; roll_back_last m records (last? records)

  run_migration : Option (Migrator H) → Record → Action H (Unit {0})
  run_migration none last = pure tt
  run_migration (some m) last = run_hook (m.migrate last.from_version last.to_version)

  resume :
      Option (Migrator H) → (Bytes → Action H (Unit {0})) → List Record → Record → Action H Recovery
  unfolding run_migration
  resume m swap records last = do
    run_migration m last
    records' ← append records (next_record last migrated migrate)
    swap last.to_version
    records'' ← append records' (next_record last swapped apply)
    complete records'' (next_record last swapped apply)
    pure (record {
      recovered = true;
      completed = true;
      was_deferred = true;
      from_version = last.from_version;
      to_version = last.to_version;
    })

  resume_from :
      Option (Migrator H)
      → (Bytes → Action H (Unit {0}))
      → List Record
      → Record
      → State
      → Action H Recovery
  unfolding resume
  resume_from m swap records last deferred = resume m swap records last
  resume_from m swap records last _ = pure nothing_recovered

  resume_last :
      Option (Migrator H)
      → (Bytes → Action H (Unit {0}))
      → List Record
      → Option Record
      → Action H Recovery
  unfolding resume_from
  resume_last m swap records none = pure nothing_recovered
  resume_last m swap records (some last) = resume_from m swap records last last.state

  -- ResumeDeferred, with a swap that is given and a context that is not cancelled.
  unfoldable pub resume_deferred :
      Option (Migrator H) → (Bytes → Action H (Unit {0})) → Action H Recovery
  unfolding resume_last
  resume_deferred m swap = do records ← open_journal; resume_last m swap records (last? records)
