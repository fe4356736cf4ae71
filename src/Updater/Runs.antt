-- ===== src/Updater/Runs.antt =====
-- Whole runs of the operations at concrete install roots.
use idunn.Prelude.{Option, true, false, ℕ, ◌≡◌, refl, some, [], last?, same, member}
use idunn.Txn.Journal.{next_records, check_record, extend, parse, check_records}
use idunn.Release.Version.{valid_version, compare_versions}
use idunn.Txn.Log.{open_journal, append}
use idunn.Txn.Invariant.{last_of}
use idunn.Txn.Recover.{
  Migrator, run_hook, clean_orphans, restore_pointer, undo_transaction, recover, remove_version,
}
use idunn.Txn.Undo.{roll_back}
use idunn.Layout.Disk.{names, whole, missing, set_scratch, update}
use idunn.Layout.Effects.{
  World, pure, raise, lift, look, look_or, attempt, effect, io, quiet, on_error, write_file_atomic,
  ◌>>=◌,
}
use idunn.Layout.Pointer.{
  validate_version, pointer_target, set_pointer, write_install, promote_launcher,
}
use idunn.Stage.Swap.{swap}
use idunn.Stage.Staging.{stage}
use idunn.Stage.Collect.{collect, retained, split_at}
use idunn.Updater.Apply.{apply_release}
use idunn.Updater.Reach.{applies, further, here, Reach-live_whole}
use idunn.Updater.Tests.{
  fresh, old_version, new_version, half_undone, swap_history, first_plan, first_run, at_old,
  history, after_migration, hooks,
}

abbrev recovered : World ℕ
recovered =
    (recover hooks (record { disk = at_old (some (history after_migration)); outcomes = [] })).1

undone_current : recovered.disk.current ≡ names old_version
unfolding recover open_journal parse last? pointer_target pure raise lift look attempt effect io
    quiet on_error write_file_atomic ◌>>=◌ validate_version restore_pointer undo_transaction
    run_hook remove_version append next_records clean_orphans set_pointer set_scratch check_records
    same valid_version check_record extend
undone_current = refl

undone_new : recovered.disk.dirs new_version ≡ missing
unfolding recover open_journal parse last? pointer_target pure raise lift look attempt effect io
    quiet on_error write_file_atomic ◌>>=◌ validate_version restore_pointer undo_transaction
    run_hook remove_version append next_records clean_orphans set_pointer set_scratch update
    check_records same valid_version check_record extend
undone_new = refl

first_current : first_run.disk.current ≡ names old_version
unfolding apply_release append next_records last? pure raise lift look look_or attempt effect io
    quiet on_error write_file_atomic ◌>>=◌ validate_version pointer_target stage swap run_hook
    set_pointer set_scratch write_install promote_launcher collect retained update remove_version
    check_record extend valid_version same split_at compare_versions member
first_current = refl

Reach-live_whole_example : first_run.disk.dirs old_version ≡ whole
Reach-live_whole_example =
    Reach-live_whole old_version refl refl
      (further (applies first_plan [] (record { disk = fresh; outcomes = [] }) refl) here)
      first_current

-- A hook that cannot undo its migration.
abbrev failing : Option (Migrator ℕ)
failing = some (record { migrate = λ a b h. (true, 8); undo = λ a b h. (false, h) })

-- The new version is live, and the transaction has not committed.
abbrev swapped_root : World ℕ
swapped_root = record {
  disk = record (at_old (some swap_history)) { current = names new_version };
  outcomes = [];
}

-- A rollback whose hook fails has restored `current` and left the journal at SWAPPED, which is
-- where recovery refuses for good.
half_undone_current : (roll_back failing swapped_root).1.disk.current ≡ names old_version
unfolding roll_back open_journal parse last? pointer_target pure raise lift look attempt effect io
    quiet on_error write_file_atomic ◌>>=◌ validate_version restore_pointer undo_transaction
    run_hook set_pointer set_scratch check_records same valid_version
half_undone_current = refl

half_undone_journal : last_of (roll_back failing swapped_root).1.disk.journal ≡ some half_undone
unfolding roll_back open_journal parse last? pointer_target pure raise lift look attempt effect io
    quiet on_error write_file_atomic ◌>>=◌ validate_version restore_pointer undo_transaction
    run_hook set_pointer set_scratch check_records same valid_version
half_undone_journal = refl
