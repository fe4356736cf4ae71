-- ===== src/Updater/Apply.antt =====
-- core/updater/apply.go: the transaction proper of apply, from its BEGIN record on, and the rollback
-- of applyRelease. What stands before BEGIN refuses a release and changes nothing that is modelled
-- here but what recovery does, which is Txn.Recover.
pub mod Safe
use idunn.Prelude.{
  ℕ, Bool, true, false, not, ◌&&◌, ◌||◌, Option, none, some, List, [], ◌∷◌, Bytes, Result, ok, err,
  same, if◌then◌else◌,
}
use idunn.Txn.Journal.{
  Phase, check, quiesce, stage as phase_stage, migrate, apply, commit, State, begin, staged,
  migrated, swapped, committed, deferred, Record, Error,
}
use idunn.Txn.Log.{append}
use idunn.Txn.Recover.{Migrator, run_hook, remove_version}
use idunn.Txn.Undo.{roll_back}
use idunn.Layout.Disk.{Disk, exists}
use idunn.Layout.Effects.{
  Action, World, pure, raise, look, attempt, io, quiet, on_error, ◌>>=◌, ◌>>◌,
}
use idunn.Layout.Pointer.{write_install, promote_launcher}
use idunn.Stage.Staging.{stage}
use idunn.Stage.Swap.{swap}
use idunn.Stage.Collect.{collect}

-- What quiesce finds: the application is not writing, or it does not stop, and the policy says to
-- wait for the next start or to give up.
pub data Quiesced : Type 0 where
  quiet_now : Quiesced
  wait_for_restart : Quiesced
  give_up : Error → Quiesced

-- How a transaction ended without an error.
pub data Applied : Type 0 where
  installed_now waits_for_restart : Applied

-- A release, as far as its installation depends on it, and the host's answers.
pub record Plan (H : Type 0) : Type 0 where
  pub name : Bytes
  pub from_version : Bytes
  pub to_version : Bytes
  pub layout_schema : ℕ
  pub launcher : Bytes
  pub files : List Bool
  pub quiesced : Quiesced
  pub hooks : Option (Migrator H)
  pub verify_after_apply : Bool
  -- what GC lists under versions/, what a probation pins, and how many versions the policy keeps
  pub listing : List Bytes
  pub pinned : List Bytes
  pub retain : ℕ

module _ {H : Type 0} where
  abbrev pub plan_record : Plan H → State → Phase → Record
  plan_record p s ph = record {
    state = s;
    name = p.name;
    from_version = p.from_version;
    to_version = p.to_version;
    phase = ph;
  }

  migrate_host : Option (Migrator H) → Plan H → Action H (Unit {0})
  migrate_host none p = pure tt
  migrate_host (some m) p = run_hook (m.migrate p.from_version p.to_version)

  -- The launcher that the release carries, and then the staging tree; a failure is only reported.
  promote_or_tidy : Plan H → Action H (Unit {0})
  promote_or_tidy p = attempt (do
    promote_launcher p.to_version
    io (λ d. record d { staged = λ v. false; pending = λ v. none }))

  -- From the swap to the commit, and what follows it.
  finish : Plan H → List Record → Action H Applied
  unfolding migrate_host promote_or_tidy
  finish p records = do
    migrate_host p.hooks p
    records' ← append records (plan_record p migrated migrate)
    swap p.to_version
    records'' ← append records' (plan_record p swapped apply)
    if p.verify_after_apply then quiet else pure tt
    write_install
        (record { name = p.name; version = p.to_version; layout_schema = p.layout_schema })
    append records'' (plan_record p committed commit)
    promote_or_tidy p
    collect p.listing p.pinned p.retain
    pure installed_now

  after_quiesce : Plan H → List Record → Quiesced → Action H Applied
  unfolding finish
  after_quiesce p records quiet_now = finish p records
  after_quiesce p records wait_for_restart = do
    attempt (append records (plan_record p deferred quiesce))
    pure waits_for_restart
  after_quiesce p records (give_up e) = raise e

  -- Everything behind the BEGIN record.
  transact : Plan H → List Record → Action H Applied
  unfolding after_quiesce
  transact p records = do
    stage p.to_version p.launcher p.files
    records' ← append records (plan_record p staged phase_stage)
    after_quiesce p records' p.quiesced

  undo_failed : Result Error Applied → Option (Migrator H) → Action H Applied
  undo_failed (ok a) m w = (ok a, w)
  undo_failed (err e) m w = (err e, (roll_back m w).1)

  -- apply from `record(txn.StateBegin, …)` on, with the rollback that applyRelease makes of a
  -- failure behind that record.
  unfoldable pub apply_release : Plan H → List Record → Action H Applied
  unfolding transact undo_failed
  apply_release p records = do
    records' ← append records (plan_record p begin check)
    λ w. let (r, w') = transact p records' w in undo_failed r p.hooks w'
