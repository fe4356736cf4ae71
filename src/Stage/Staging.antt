-- ===== src/Stage/Staging.antt =====
-- Stage of core/stage/stage.go: the steps from the staging tree to the version directory. How one
-- file comes by its bytes (reuse, patches, download) is one call here, which may fail; a file is
-- given by whether it is the launcher that the release carries.
pub mod Safe
use idunn.Prelude.{
  ◌≡◌, Bool, true, false, not, Option, none, some, List, [], ◌∷◌, Bytes, same, refuse_if,
  if◌then◌else◌,
}
use idunn.Txn.Journal.{Error, in_use, already_exists}
use idunn.Txn.Recover.{remove_version}
use idunn.Layout.Disk.{Disk, whole, exists, update}
use idunn.Layout.Effects.{
  Action, pure, lift, look, attempt, effect, io, quiet, on_error, ◌>>=◌, ◌>>◌,
}
use idunn.Layout.Pointer.{validate_version, pointer_target}

module _ {H : Type 0} where
  -- The copy of a staged file that WriteLauncherPendingStream makes of the launcher.
  keep_launcher : Bytes → Bytes → Bool → Action H (Unit {0})
  keep_launcher v name false = pure tt
  keep_launcher v name true = do
    io (λ d. record d { pending = update d.pending v none })
    quiet
    io (λ d. record d { pending = update d.pending v (some name) })

  -- The loop over the files of the descriptor.
  stage_files : Bytes → Bytes → List Bool → Action H (Unit {0})
  unfolding keep_launcher
  stage_files v name [] = pure tt
  stage_files v name (is_launcher ∷ rest) =
      let others = stage_files v name rest in do quiet; keep_launcher v name is_launcher; others

  -- The rename of the staging tree to the version directory, which must not be there.
  promote_staging : Bytes → Action H (Unit {0})
  promote_staging v = do
    found ← look (λ d. exists (d.dirs v))
    lift (refuse_if found already_exists)
    quiet
    io (λ d. record d { staged = update d.staged v false; dirs = update d.dirs v whole })
    on_error quiet (remove_version v)

  -- Stage of version `v`, whose launcher is called `name`.
  unfoldable pub stage : Bytes → Bytes → List Bool → Action H (Unit {0})
  unfolding stage_files promote_staging
  stage v name files = do
    lift (validate_version v)
    live ← pointer_target
    lift (refuse_if (same live v) in_use)
    io (λ d. record d { staged = update d.staged v false })
    io (λ d. record d { staged = update d.staged v true })
    io (λ d. record d { pending = update d.pending v none })
    quiet
    stage_files v name files
    promote_staging v
