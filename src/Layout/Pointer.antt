-- ===== src/Layout/Pointer.antt =====
-- internal/layout: pointer.go in its POSIX form, VersionDir and ValidateVersion of layout.go,
-- WriteInstall of state.go, and PromoteLauncher of launcher.go.
pub mod Region
pub mod Progress
use idunn.Prelude.{
  if◌then◌else◌, Option, same, Bool, true, false, ◌||◌, not, none, some, [], ◌∷◌, Bytes, Result,
  ◌==◌, refuse_if,
}
use idunn.Release.Version.{valid_version}
use idunn.Txn.Journal.{Error, bad_version, foreign_pointer, bad_install}
use idunn.Layout.Disk.{
  Disk, Pointer, absent, names, foreign, at_root, at_meta, Install, set_scratch, update,
}
use idunn.Layout.Effects.{
  Action, pure, raise, lift, look, io, quiet, on_error, write_file_atomic, ◌>>=◌, ◌>>◌,
}

abbrev pub is_empty : Bytes → Bool
is_empty [] = true
is_empty (c ∷ s) = false

-- ValidateVersion. VersionDir makes the same check before it joins the path.
unfoldable pub validate_version : Bytes → Result Error (Unit {0})
validate_version v = refuse_if (is_empty v || not (valid_version v)) bad_version

-- A launcher staged under another name by an earlier update is superseded.
keep_own : Bytes → Option (Bytes × Bytes) → Option (Bytes × Bytes)
keep_own name none = none
keep_own name (some (old, v)) = if same old name then some (old, v) else none

module _ {H : Type 0} where
  -- versionFromTarget of what Readlink gave, where the link has the form versions/<v>.
  unfoldable pub read_pointer : Pointer → Action H Bytes
  read_pointer absent = pure []
  read_pointer foreign = raise foreign_pointer
  read_pointer (names v) = do lift (validate_version v); pure v

  -- PointerTarget: the version that `current` names, or the empty text.
  unfoldable pub pointer_target : Action H Bytes
  unfolding read_pointer
  pointer_target = do p ← look (λ d. d.current); read_pointer p

  -- The symlink under a scratch name, its rename over `current`, and the sync of the root.
  unfoldable pub set_pointer : Bytes → Action H (Unit {0})
  set_pointer v = do
    lift (validate_version v)
    io (set_scratch at_root true)
    on_error (io (λ d. set_scratch at_root false (record d { current = names v })))
        (io (set_scratch at_root false))
    quiet

  unfoldable pub remove_pointer : Action H (Unit {0})
  remove_pointer = io (λ d. record d { current = absent })

  -- WriteInstall, for a document that encoding/json can encode.
  unfoldable pub write_install : Install → Action H (Unit {0})
  write_install in_state = do
    lift (refuse_if (is_empty in_state.name) bad_install)
    lift (validate_version in_state.version)
    lift (refuse_if (in_state.layout_schema == 0) bad_install)
    quiet
    write_file_atomic at_meta (λ d. record d { install = some in_state })

  promote_pending : Bytes → Option Bytes → Action H (Unit {0})
  unfolding keep_own
  promote_pending v none = pure tt
  promote_pending v (some name) = do
    quiet
    quiet
    quiet
    io (λ d. record d { next_launcher = keep_own name d.next_launcher })
    io (λ d. record d { next_launcher = some (name, v); pending = update d.pending v none })
    quiet
    quiet

  -- PromoteLauncher: look at the pending directory, list it, look at its one file and at the
  -- directory of the next launcher, make that and drop what it held, rename the file into it, sync,
  -- and remove the empty directory. A refused look stands for an entry of the wrong kind too.
  unfoldable pub promote_launcher : Bytes → Action H (Unit {0})
  unfolding promote_pending
  promote_launcher v = do
    lift (validate_version v)
    waiting ← look (λ d. d.pending v)
    promote_pending v waiting
