-- ===== src/Txn/Recover.antt =====
-- core/txn/recover.go: what an interrupted transaction becomes.
pub mod Safe
pub mod Stuck
pub mod Progress
pub mod Settles
pub mod Completes
use idunn.Prelude.{
  ℕ, Bool, true, false, not, Option, none, some, List, [], Bytes, ok, err, last?, same, refuse_if,
  if◌then◌else◌,
}
use idunn.Txn.Journal.{
  Phase, apply, commit, rollback, State, begin, staged, migrated, swapped, committed, rolled_back,
  deferred, uninstalling, other, Record, being_uninstalled, inconsistent_swap, missing_version,
  hook_failed, unknown_state,
}
use idunn.Txn.Log.{open_journal, append}
use idunn.Layout.Disk.{
  missing, exists, damaged, Place, at_root, at_meta, at_versions, set_scratch, update,
}
use idunn.Layout.Effects.{Action, pure, raise, lift, look, look_or, effect, io, quiet, ◌>>=◌, ◌>>◌}
use idunn.Layout.Pointer.{
  is_empty, validate_version, pointer_target, set_pointer, remove_pointer, write_install,
  promote_launcher,
}

-- hook.Migrator: the two hooks of the host, which change the host's own state and may fail. They
-- are given the version that the transaction starts from and the one that it installs.
pub record Migrator (H : Type 0) : Type 0 where
  pub migrate : Bytes → Bytes → H → Bool × H
  pub undo : Bytes → Bytes → H → Bool × H

pub record Recovery : Type 0 where
  pub recovered : Bool
  pub completed : Bool
  pub was_deferred : Bool
  pub from_version : Bytes
  pub to_version : Bytes

abbrev pub nothing_recovered : Recovery
nothing_recovered = record {
  recovered = false;
  completed = false;
  was_deferred = false;
  from_version = [];
  to_version = [];
}

abbrev pub layout_schema : ℕ
layout_schema = 1

abbrev pub next_record : Record → State → Phase → Record
next_record last s p = record last { state = s; phase = p }

abbrev pub finished : Record → Bool → Recovery
finished last done = record {
  recovered = true;
  completed = done;
  was_deferred = false;
  from_version = last.from_version;
  to_version = last.to_version;
}

module _ {H : Type 0} where
  -- A hook has run: its verdict, and the host as it left it.
  unfoldable pub run_hook : (H → Bool × H) → Action H (Unit {0})
  run_hook f w =
      let (fine, h) = f w.disk.host in
      let d = w.disk in
      (if fine then ok tt else err hook_failed, record w { disk = record d { host = h } })

  -- removeScratch of one directory.
  remove_scratch : Place → Action H (Unit {0})
  remove_scratch p = do quiet; io (set_scratch p false)

  -- cleanOrphans: the staging tree with the launchers that wait in it, then the scratch files.
  unfoldable pub clean_orphans : Action H (Unit {0})
  unfolding remove_scratch
  clean_orphans = do
    io (λ d. record d { staged = λ v. false; pending = λ v. none })
    remove_scratch at_root
    remove_scratch at_meta
    remove_scratch at_versions

  settle_pending : Bytes → Option Bytes → Action H (Unit {0})
  settle_pending v none = clean_orphans
  settle_pending v (some name) = do
    live ← pointer_target
    if same live v then promote_launcher v else pure tt
    clean_orphans

  -- settleCommitted.
  unfoldable pub settle_committed : Record → Action H (Unit {0})
  unfolding settle_pending
  settle_committed last = do
    lift (validate_version last.to_version)
    -- only the answer that nothing is there counts as such
    waiting ← look_or (some []) (λ d. d.pending last.to_version)
    settle_pending last.to_version waiting

  -- The record that the swap happened, where only the disk says so.
  record_swap : State → List Record → Record → Action H (List Record)
  record_swap migrated records last = append records (next_record last swapped apply)
  record_swap _ records last = pure records

  -- complete.
  unfoldable pub complete : List Record → Record → Action H (Unit {0})
  unfolding record_swap
  complete records last = do
    live ← pointer_target
    lift (refuse_if (not (same live last.to_version)) inconsistent_swap)
    records' ← record_swap last.state records last
    write_install
        (record { name = last.name; version = last.to_version; layout_schema = layout_schema })
    records'' ← append records' (next_record last committed commit)
    settle_committed last

  move_back : Bytes → Bytes → Action H (Unit {0})
  move_back live version = if same live version then pure tt else do
    lift (validate_version version)
    found ← look (λ d. exists (d.dirs version))
    lift (refuse_if (not found) missing_version)
    set_pointer version

  -- restorePointer.
  unfoldable pub restore_pointer : Record → Action H (Unit {0})
  unfolding move_back
  restore_pointer last =
      if is_empty last.from_version
      then remove_pointer
      else do live ← pointer_target; move_back live last.from_version

  undo_migration : Option (Migrator H) → Record → Action H (Unit {0})
  undo_migration none last = pure tt
  undo_migration (some m) last = run_hook (m.undo last.from_version last.to_version)

  -- RemoveAll of a version directory; one that fails may have removed a part.
  unfoldable pub remove_version : Bytes → Action H (Unit {0})
  remove_version v =
      effect (λ d. record d { dirs = update d.dirs v missing })
        (λ d. record d { dirs = update d.dirs v (damaged (d.dirs v)) })

  remove_target : Record → Action H (Unit {0})
  remove_target last =
      if same last.to_version last.from_version
      then pure tt
      else do lift (validate_version last.to_version); remove_version last.to_version

  -- rollback.
  unfoldable pub undo_transaction : Option (Migrator H) → List Record → Record → Action H (Unit {0})
  unfolding undo_migration remove_target
  undo_transaction m records last = do
    restore_pointer last
    undo_migration m last
    remove_target last
    records' ← append records (next_record last rolled_back rollback)
    clean_orphans

  -- The case of RecoverResult where only the disk knows whether the swap happened.
  recover_migrated : Option (Migrator H) → List Record → Record → Action H Recovery
  recover_migrated m records last = do
    live ← pointer_target
    if same live last.to_version
        then (do complete records last; pure (finished last true))
        else (do undo_transaction m records last; pure (finished last false))

  recover_from : Option (Migrator H) → List Record → Record → State → Action H Recovery
  unfolding recover_migrated
  recover_from m records last committed = do settle_committed last; pure nothing_recovered
  recover_from m records last rolled_back = do clean_orphans; pure nothing_recovered
  recover_from m records last uninstalling = raise being_uninstalled
  recover_from m records last deferred =
      pure (record (finished last false) { recovered = false; was_deferred = true })
  recover_from m records last swapped = do complete records last; pure (finished last true)
  recover_from m records last migrated = recover_migrated m records last
  recover_from m records last begin = do
    undo_transaction none records last
    pure (finished last false)
  recover_from m records last staged = do
    undo_transaction m records last
    pure (finished last false)
  recover_from m records last (other s) = raise unknown_state

  recover_last : Option (Migrator H) → List Record → Option Record → Action H Recovery
  unfolding recover_from
  recover_last m records none = do clean_orphans; pure nothing_recovered
  recover_last m records (some last) = recover_from m records last last.state

  -- RecoverResult.
  unfoldable pub recover : Option (Migrator H) → Action H Recovery
  unfolding recover_last last?
  recover m = do records ← open_journal; recover_last m records (last? records)
