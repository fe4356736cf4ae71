-- ===== src/Probation/Start.antt =====
-- core/launch/probation.go: what a start of the launcher does about the version on probation. Events
-- for the host are left out.
pub mod Rules
pub mod Revert
pub mod Finish
pub mod Progress
use idunn.Prelude.{
  ℕ, ◌+◌, Bool, true, false, not, Option, none, some, [], ◌∷◌, Bytes, refuse_if, same, ltb, leb,
  if◌then◌else◌, Result, ok, err,
}
use idunn.Txn.Journal.{Error, io_failed, missing_version, no_install_state}
use idunn.Layout.Disk.{Install, exists}
use idunn.Layout.Effects.{World, Action, pure, raise, lift, look, attempt, ◌>>=◌, ◌>>◌}
use idunn.Layout.Pointer.{validate_version, pointer_target, write_install}
use idunn.Stage.Swap.{swap}
use idunn.Txn.Recover.{Migrator, run_hook, remove_version}
use idunn.Probation.Reason.{Runes}
use idunn.Probation.Record.{
  Status, active, confirmed, unhealthy, reverting, reverted, kept, other, Probation,
}
use idunn.Probation.Files.{Files, read_probation, write_probation}
use idunn.Probation.Changes.{
  is_reverting, sanitize, too_many_restarts, not_confirmed, to_kept, to_reverting, to_reverted,
}
use idunn.Probation.Outcomes.{
  rolled_back, result_kept, class_unconfirmed, class_unhealthy, class_restarts, class_reinstalled,
}
use idunn.Probation.Reports.{write_probation_outcome}

pub record ProbationResult : Type 0 where
  pub version : Bytes
  pub attempt : ℕ
  pub restart : Bool
  pub is_reverted : Bool
  pub to : Bytes
  pub reason : Runes
  pub is_kept : Bool
  pub failure : Option Error

abbrev pub no_result : ProbationResult
no_result = record {
  version = [];
  attempt = 0;
  restart = false;
  is_reverted = false;
  to = [];
  reason = [];
  is_kept = false;
  failure = none;
}

-- The application lock, as `revert` meets it: none to take, or the answer of TryLock.
pub data Lock : Type 0 where
  not_needed granted busy failing : Lock

-- The build and the clock, for telemetry.
pub record Platform : Type 0 where
  pub goos : Bytes
  pub goarch : Bytes
  pub now : ℕ

-- The release's layout, for the install state that a rollback writes.
abbrev pub layout_schema : ℕ
layout_schema = 1

module _ {H : Type 0} where
  -- The error goes into the result, and the start goes on.
  unfoldable pub recording :
      ProbationResult → Action (Files H) ProbationResult → Action (Files H) ProbationResult
  recording pr m w =
      let (r, w') = m w in (ok (elim r [ ok a ↦ a | err e ↦ record pr { failure = some e } ]), w')

  -- recordOutcome
  unfoldable pub record_outcome : Platform → Probation → Bytes → Bytes → Action (Files H) (Unit {0})
  record_outcome o p result [] = pure tt
  record_outcome o p result (c ∷ class) = attempt (
      write_probation_outcome (record {
        from_version = p.previous;
        to_version = p.version;
        os = o.goos;
        arch = o.goarch;
        result = result;
        class = c ∷ class;
        at = o.now;
      }))

  unfoldable pub undo_migration : Option (Migrator H) → Probation → Action (Files H) (Unit {0})
  undo_migration none p = pure tt
  undo_migration (some m) p =
      run_hook
        (λ f. let (fine, h) = m.undo p.previous p.version f.app in (fine, record f { app = h }))

  -- The previous version is gone: the one on probation stays.
  unfoldable pub keep_version :
      Platform → ProbationResult → Probation → Runes → Bytes → Action (Files H) ProbationResult
  keep_version o pr p reason class = do
    lift (refuse_if (is_reverting p.status) missing_version)
    write_probation (to_kept reason p)
    record_outcome o (to_kept reason p) result_kept class
    pure (record pr { is_kept = true; reason = (to_kept reason p).reason })

  unfoldable pub begin_revert : Platform → Probation → Runes → Bytes → Action (Files H) (Unit {0})
  begin_revert o p reason class = if is_reverting p.status then pure tt else (do
    write_probation (to_reverting reason p)
    record_outcome o (to_reverting reason p) rolled_back class)

  unfoldable pub settle_install : Bytes → Option Install → Action (Files H) (Unit {0})
  settle_install previous none = raise no_install_state
  settle_install previous (some i) =
      if same i.version previous
      then pure tt
      else write_install
          (record { name = i.name; version = previous; layout_schema = layout_schema })

  unfoldable pub move_back :
      Platform
      → Option (Migrator H)
      → ProbationResult
      → Probation
      → Runes
      → Bytes
      → Action (Files H) ProbationResult
  unfolding begin_revert undo_migration settle_install
  move_back o m pr p reason class = do
    begin_revert o p reason class
    swap p.previous
    undo_migration m p
    i ← look (λ d. d.install)
    settle_install p.previous i
    write_probation (to_reverted reason p)
    attempt (do lift (validate_version p.version); remove_version p.version)
    pure (record pr { is_reverted = true; to = p.previous; reason = reason })

  unfoldable pub revert_locked :
      Platform
      → Option (Migrator H)
      → ProbationResult
      → Probation
      → Runes
      → Bytes
      → Action (Files H) ProbationResult
  unfolding move_back
  revert_locked o m pr p reason class = do
    lift (validate_version p.previous)
    found ← look (λ d. exists (d.dirs p.previous))
    if found then move_back o m pr p reason class else keep_version o pr p reason class

  -- revert
  unfoldable pub revert :
      Platform
      → Option (Migrator H)
      → Lock
      → Probation
      → Runes
      → Bytes
      → Action (Files H) ProbationResult
  unfolding revert_locked recording
  revert o m busy p reason class = pure (record no_result { version = p.version })
  revert o m failing p reason class =
      pure (record no_result { version = p.version; failure = some io_failed })
  revert o m not_needed p reason class =
      let pr = record no_result { version = p.version } in
      recording pr (revert_locked o m pr p (sanitize reason) class)
  revert o m granted p reason class =
      let pr = record no_result { version = p.version } in
      recording pr (revert_locked o m pr p (sanitize reason) class)

  -- The record of a counted start is written before the application starts.
  unfoldable pub record_start : ProbationResult → Probation → Action (Files H) ProbationResult
  record_start pr p = recording pr (do write_probation p; pure pr)

  -- A start that the application asked for, and one that it did not.
  unfoldable pub settle_restart :
      Platform → Option (Migrator H) → Lock → Probation → Action (Files H) ProbationResult
  settle_restart o m l p =
      if ltb p.restarts_allowed p.restarts
      then revert o m l p (too_many_restarts p) class_restarts
      else record_start (record no_result { version = p.version; restart = true })
          (record p { restart_pending = false })

  unfoldable pub settle_attempt :
      Platform → Option (Migrator H) → Lock → Probation → Action (Files H) ProbationResult
  settle_attempt o m l p =
      if leb p.attempts_allowed p.attempts
      then revert o m l p (not_confirmed p) class_unconfirmed
      else record_start (record no_result { version = p.version; attempt = p.attempts + 1 })
          (record p { attempts = p.attempts + 1 })

  unfoldable pub settle_live :
      Platform → Option (Migrator H) → Lock → Probation → Status → Action (Files H) ProbationResult
  unfolding settle_restart settle_attempt
  settle_live o m l p unhealthy = revert o m l p p.reason class_unhealthy
  settle_live o m l p reverted = revert o m l p p.reason class_reinstalled
  settle_live o m l p active =
      if p.restart_pending then settle_restart o m l p else settle_attempt o m l p
  settle_live o m l p _ = pure no_result

  unfoldable pub settle :
      Platform → Option (Migrator H) → Lock → Option Probation → Action (Files H) ProbationResult
  unfolding settle_live
  settle o m l none = pure no_result
  settle o m l (some p) = if is_reverting p.status then revert o m l p p.reason [] else (do
    live ← pointer_target
    if same live p.version then settle_live o m l p p.status else pure no_result)

  -- probation
  unfoldable pub probation :
      Platform → Option (Migrator H) → Lock → Action (Files H) ProbationResult
  unfolding settle
  probation o m l = recording no_result (do p ← read_probation; settle o m l p)
