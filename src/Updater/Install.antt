-- ===== src/Updater/Install.antt =====
-- core/updater/apply.go: Apply over the releases of a walk, and what apply asks before the BEGIN
-- record of each.
pub mod Safe
pub mod Reads
pub mod Blocked
pub mod Loop
mod Tests
use idunn.Prelude.{
  ℕ, Bool, true, false, not, ◌&&◌, ◌||◌, Option, none, some, List, [], ◌∷◌, Bytes, Result, ok, err,
  refuse_if, same, map, if◌then◌else◌,
}
use idunn.Prelude.Integers.{ℤ, pos, negsuc}
use idunn.Timefloor
use idunn.Timefloor.{Floor, FloorError}
use idunn.Txn.Journal.{
  Record, Error, bad_clock, not_applicable, blocked_version, check_failed, declined, stale,
}
use idunn.Txn.Log.{open_journal}
use idunn.Txn.Recover.{Migrator, recover}
use idunn.Layout.Effects.{Action, pure, lift, ◌>>=◌, ◌>>◌}
use idunn.Layout.Pointer.{pointer_target}
use idunn.Release.Descriptor.{Descriptor}
use idunn.Probation.Files.{Files}
use idunn.Probation.Allowance.{HostPolicy, Resolver}
use idunn.Probation.Arming.{arm_probation, blocked_reason}
use idunn.Updater.Policy.{Client, Refusal, applicable}
use idunn.Updater.Steps.{History, steps}
use idunn.Updater.Apply.{Plan, Applied, installed_now, waits_for_restart, Quiesced, apply_release}

-- The part of Updater that installs a release: what it is configured with, and the trust client.
pub record Updater (H : Type 0) : Type 0 where
  pub client : Client
  pub floor : Floor
  pub known : Option History
  pub hooks : Option (Migrator H)
  pub host_policy : HostPolicy
  pub resolver : Option Resolver
  pub verify_after_apply : Bool
  pub retain : ℕ

-- What the clock, the host and the filesystem answer while one release is installed.
pub record Answers : Type 0 where
  pub now : ℕ
  pub check_passes : Bool
  pub confirmed : Bool
  pub launcher : Bytes
  pub fetched : List Bool
  pub quiesced : Quiesced
  pub listing : List Bytes
  pub pinned : List Bytes

abbrev pub check_clock : Result FloorError (Unit {0}) → Result Error (Unit {0})
check_clock (ok t) = ok tt
check_clock (err e) = err bad_clock

abbrev pub check_applicable : Result Refusal (Unit {0}) → Result Error (Unit {0})
check_applicable (ok t) = ok tt
check_applicable (err e) = err not_applicable

abbrev pub is_blocked : List ℕ → Bool
is_blocked [] = false
is_blocked (c ∷ s) = true

-- A layout schema as the install state holds it, which refuses 0 and what is below it.
abbrev pub schema_of : ℤ → ℕ
schema_of (pos n) = n
schema_of (negsuc n) = 0

-- The hooks of the host, which know nothing of the files of probation.
unfoldable pub on_files : {H : Type 0} → Migrator H → Migrator (Files H)
on_files m = record {
  migrate = λ from to f. let (fine, h) = m.migrate from to f.app in (fine, record f { app = h });
  undo = λ from to f. let (fine, h) = m.undo from to f.app in (fine, record f { app = h });
}

unfoldable pub hooks_of : {H : Type 0} → Option (Migrator H) → Option (Migrator (Files H))
unfolding on_files
hooks_of none = none
hooks_of (some m) = some (on_files m)

-- How the questions end, where none refuses: the release is staged already and waits, or its
-- transaction may begin, from the version installed and the records of the journal.
pub data Verdict : Type 0 where
  waits : Verdict
  ready : Bytes → List Record → Verdict

unfoldable pub walk_of : Result Refusal (List Descriptor) → Descriptor → List Descriptor
walk_of (ok ds) d = ds
walk_of (err e) d = d ∷ []

module _ {H : Type 0} where
  unfoldable pub ask : Updater H → Answers → Descriptor → Bytes → Action (Files H) Verdict
  ask u a d from = do
    installed ← pointer_target
    lift (refuse_if (not (same installed from)) stale)
    lift (refuse_if (same installed d.version) stale)
    lift (check_applicable (applicable u.client d installed))
    reason ← blocked_reason d.version
    lift (refuse_if (is_blocked reason) blocked_version)
    lift (refuse_if (not a.check_passes) check_failed)
    lift (refuse_if (not a.confirmed) declined)
    records ← open_journal
    arm_probation u.host_policy u.resolver u.client.goos u.client.goarch installed d.version
    pure (ready installed records)

  -- apply, up to the BEGIN record.
  unfoldable pub pre_flight : Updater H → Answers → Descriptor → Bytes → Action (Files H) Verdict
  unfolding ask hooks_of
  pre_flight u a d from = do
    lift (check_clock (Timefloor.check u.floor a.now))
    rec ← recover (hooks_of u.hooks)
    if rec.was_deferred && same rec.to_version d.version then pure waits else ask u a d from

  unfoldable pub plan_of : Updater H → Answers → Descriptor → Bytes → Plan (Files H)
  plan_of u a d installed = record {
    name = d.name;
    from_version = installed;
    to_version = d.version;
    layout_schema = schema_of d.layout_schema;
    launcher = a.launcher;
    files = a.fetched;
    quiesced = a.quiesced;
    hooks = hooks_of u.hooks;
    verify_after_apply = u.verify_after_apply;
    listing = a.listing;
    pinned = a.pinned;
    retain = u.retain;
  }

  unfoldable pub install_ready :
      Updater H → Answers → Descriptor → Verdict → Action (Files H) Applied
  unfolding plan_of
  install_ready u a d waits = pure waits_for_restart
  install_ready u a d (ready installed records) = apply_release (plan_of u a d installed) records

  -- applyRelease: a refusal before the BEGIN record undoes nothing.
  unfoldable pub install_release :
      Updater H → Answers → Descriptor → Bytes → Action (Files H) Applied
  unfolding install_ready
  install_release u a d from = do v ← pre_flight u a d from; install_ready u a d v

  -- The loop of Apply; a release that waits for a restart ends it.
  unfoldable pub go_on : Applied → Action (Files H) Applied → Action (Files H) Applied
  go_on installed_now rest = rest
  go_on waits_for_restart rest = pure waits_for_restart

  unfoldable pub install_all :
      Updater H → (Descriptor → Answers) → List Descriptor → Bytes → Action (Files H) Applied
  unfolding go_on
  install_all u answers [] from = pure installed_now
  install_all u answers (d ∷ ds) from = do
    done ← install_release u (answers d) d from
    go_on done (install_all u answers ds d.version)

  unfoldable pub otherwise : {A : Type 0} → A → Action (Files H) A → Action (Files H) A
  otherwise x m w = let (r, w') = m w in (ok (elim r [ ok a ↦ a | err e ↦ x ]), w')

  -- plan, at the time `now`: the walk, or the release alone.
  unfoldable pub plan_walk : Updater H → ℕ → Descriptor → Bytes → Action (Files H) (List Descriptor)
  unfolding otherwise walk_of hooks_of
  plan_walk u now d from = otherwise (d ∷ []) (do
    lift (check_clock (Timefloor.check u.floor now))
    recover (hooks_of u.hooks)
    installed ← pointer_target
    pure (
        if not (same installed from) || same installed d.version
        then d ∷ []
        else walk_of (steps u.client u.known d installed) d))

  -- Apply, of a root that this process may write.
  unfoldable pub install :
      Updater H → ℕ → (Descriptor → Answers) → Descriptor → Bytes → Action (Files H) Applied
  install u now answers d from = do walk ← plan_walk u now d from; install_all u answers walk from
