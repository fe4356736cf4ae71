-- ===== src/Updater/Tests.antt =====
-- The invariant at a root with one version in place, and at a fresh one.
use idunn.Prelude.{
  length, ◌+◌, ◌*◌, ℕ, ◌≡◌, ◌≢◌, refl, true, false, Option, none, some, List, [], ◌∷◌, Bytes, codes,
  last?, same, sym, ap, ◌∙◌, inl,
}
use idunn.Txn.Journal.{
  document, Record, Document, begin, staged, migrated, swapped, deferred, check, stage, migrate,
}
use idunn.Txn.Invariant.{last_of, Sound}
use idunn.Txn.Invariant.Steps.{some_eq}
use idunn.Layout.Pointer.Region.{pointer_at}
use idunn.Txn.Recover.{Migrator, recover}
use idunn.Txn.Recover.Stuck.{IsErr, recover-IsErr}
use idunn.Txn.Undo.{roll_back, resume_deferred}
use idunn.Layout.Disk.{Disk, absent, names, whole, missing}
use idunn.Layout.Effects.{World, Outcome, done, refused, unsure}
use idunn.Layout.Effects.Region.{Over}
use idunn.Stage.Swap.{swap}
use idunn.Updater.Apply.{Plan, quiet_now, apply_release}
use idunn.Updater.Reach.{
  Reach, recovers, applies, here, further, recover-Sound, roll_back-Sound, resume_deferred-Sound,
  apply_release-Sound, Reach-Sound, fresh-Sound,
}

abbrev pub old_version : Bytes
old_version = codes "1.0.0"

abbrev pub new_version : Bytes
new_version = codes "1.1.0"

-- Both versions in place, `current` at the old one, and a host with a number for its state.
abbrev pub at_old : Option Document → Disk ℕ
at_old j = record {
  current = names old_version;
  dirs = λ v. whole;
  journal = j;
  journal_len = 700;
  encoded_len = λ rs. 64 + 200 * length rs;
  install = none;
  staged = λ v. false;
  pending = λ v. none;
  next_launcher = none;
  scratch = λ p. false;
  host = 7;
}

abbrev pub hooks : Option (Migrator ℕ)
hooks = some (record { migrate = λ a b h. (true, 8); undo = λ a b h. (true, 7) })

abbrev pub begun : Record
begun = record {
  state = begin;
  name = codes "app";
  from_version = old_version;
  to_version = new_version;
  phase = check;
}

abbrev pub after_migration : Record
after_migration = record {
  state = migrated;
  name = codes "app";
  from_version = old_version;
  to_version = new_version;
  phase = migrate;
}

abbrev pub waiting : Record
waiting = record {
  state = deferred;
  name = codes "app";
  from_version = old_version;
  to_version = new_version;
  phase = stage;
}

abbrev pub history : Record → Document
history r = document (begun ∷ record begun { state = staged } ∷ r ∷ [])

abbrev pub plan : Plan ℕ
plan = record {
  name = codes "app";
  from_version = old_version;
  to_version = new_version;
  layout_schema = 1;
  launcher = [];
  files = false ∷ [];
  quiesced = quiet_now;
  hooks = hooks;
  verify_after_apply = true;
  listing = old_version ∷ new_version ∷ [];
  pinned = [];
  retain = 2;
}

-- The same with a journal that ends with a record of a transaction from the old version.
pub at_old-Sound :
    (r : Record) → r.from_version ≡ old_version → Over Sound (at_old (some (history r)))
unfolding last?
at_old-Sound r e = record {
  live_whole = λ v h. refl;
  base_whole = λ r' h o b. refl;
  waiting_whole = λ r' h d. refl;
  placed = λ r' h o. inl (sym (ap pointer_at (ap (λ x. x.from_version) (some_eq h refl) ∙ e)));
}

active : (r : Record) → last_of (some (history after_migration)) ≡ some r → r.state ≢ deferred
unfolding last?
active r h d = cc (ap (λ x. x.state) (some_eq h refl))

-- A crash after the old version was restored: the pointer is back and the next call is refused.
abbrev pub crash : List Outcome
crash = done ∷ done ∷ done ∷ refused ∷ []

recover-Sound_example :
    Over Sound
      (recover hooks
        (record { disk = at_old (some (history after_migration)); outcomes = crash })).1.disk
recover-Sound_example =
    recover-Sound hooks
      (record { disk = at_old (some (history after_migration)); outcomes = crash })
      (at_old-Sound after_migration refl)

roll_back-Sound_example :
    Over Sound
      (roll_back hooks
        (record { disk = at_old (some (history after_migration)); outcomes = crash })).1.disk
roll_back-Sound_example =
    roll_back-Sound hooks
      (record { disk = at_old (some (history after_migration)); outcomes = crash })
      (at_old-Sound after_migration refl) active

resume_deferred-Sound_example :
    Over Sound
      (resume_deferred hooks swap
        (record { disk = at_old (some (history waiting)); outcomes = [] })).1.disk
resume_deferred-Sound_example =
    resume_deferred-Sound hooks (record { disk = at_old (some (history waiting)); outcomes = [] })
      (at_old-Sound waiting refl)

abbrev pub fresh : Disk ℕ
fresh = record (at_old none) { current = absent; dirs = λ v. missing }

abbrev pub first_plan : Plan ℕ
first_plan = record plan { from_version = []; to_version = old_version; listing = old_version ∷ [] }

abbrev pub settled : World ℕ
settled = record { disk = at_old none; outcomes = unsure ∷ [] }

at_old_alone-Sound : Over Sound (at_old none)
at_old_alone-Sound = record {
  live_whole = λ v h. refl;
  base_whole = λ r h. cc;
  waiting_whole = λ r h. cc;
  placed = λ r h. cc;
}

apply_release-Sound_example : Over Sound (apply_release plan [] settled).1.disk
apply_release-Sound_example = apply_release-Sound plan [] settled at_old_alone-Sound refl

-- A first installation, and the recovery of what it left.
abbrev pub first_run : World ℕ
first_run = (apply_release first_plan [] (record { disk = fresh; outcomes = [] })).1

abbrev two_steps :
    Reach fresh (recover hooks (record { disk = first_run.disk; outcomes = crash })).1.disk
two_steps =
    further (applies first_plan [] (record { disk = fresh; outcomes = [] }) refl)
      (further (recovers hooks (record { disk = first_run.disk; outcomes = crash })) here)

Reach-Sound_example :
    Over Sound (recover hooks (record { disk = first_run.disk; outcomes = crash })).1.disk
Reach-Sound_example = Reach-Sound two_steps (fresh-Sound fresh refl refl)

-- A rollback of a swapped transaction that restored `current` and stopped there.
abbrev pub half_undone : Record
half_undone = record begun { state = swapped }

abbrev pub swap_history : Document
swap_history =
    document (begun ∷ record begun { state = staged } ∷ after_migration ∷ half_undone ∷ [])

abbrev stopped : World ℕ
stopped = record { disk = at_old (some swap_history); outcomes = [] }

last_half_undone : last_of stopped.disk.journal ≡ some half_undone
unfolding last?
last_half_undone = refl

pub apart : same old_version new_version ≡ false
unfolding same
apart = refl

recover-IsErr_example :
    IsErr (recover hooks stopped).0
    × ((recover hooks stopped).1.disk.current ≡ stopped.disk.current)
    × ((recover hooks stopped).1.disk.journal ≡ stopped.disk.journal)
recover-IsErr_example = recover-IsErr hooks stopped half_undone last_half_undone refl refl apart
