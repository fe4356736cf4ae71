-- ===== src/Updater/Reach.antt =====
-- Every run of the operations that change an install root: one after the other, each with any of
-- its calls failing, and with a crash wherever the remaining calls of one are refused.
use idunn.Prelude.{◌≡◌, ◌≢◌, Option, none, some, List, Bytes}
use idunn.Txn.Journal.{Record, deferred}
use idunn.Txn.Recover.{Migrator, recover}
use idunn.Txn.Recover.Safe.{Safe-recover}
use idunn.Txn.Undo.{roll_back, resume_deferred}
use idunn.Txn.Undo.Safe.{Safe-roll_back, Safe-resume_deferred}
use idunn.Txn.Invariant.{last_of, Sound}
use idunn.Layout.Disk.{Disk, absent, names, whole}
use idunn.Layout.Effects.{World}
use idunn.Layout.Effects.Triple.{Triple-always}
use idunn.Layout.Effects.Region.{Over}
use idunn.Layout.Pointer.Region.{pointer_at}
use idunn.Stage.Swap.{swap}
use idunn.Updater.Apply.{Plan, apply_release}
use idunn.Updater.Apply.Safe.{Safe-apply_release}

-- One operation on the disk, with the outcomes of its calls. A release is installed from the
-- version that `current` names, and Rollback is called on no transaction that waits for a restart.
pub data Step {H : Type 0} : Disk H → Disk H → Type 0 where
  recovers : (m : Option (Migrator H)) (w : World H) → Step (w.disk) ((recover m w).1.disk)
  rolls_back :
      (m : Option (Migrator H)) (w : World H)
      → ((r : Record) → last_of w.disk.journal ≡ some r → r.state ≢ deferred)
      → Step (w.disk) ((roll_back m w).1.disk)
  resumes :
      (m : Option (Migrator H)) (w : World H) → Step (w.disk) ((resume_deferred m swap w).1.disk)
  applies :
      (p : Plan H) (records : List Record) (w : World H)
      → w.disk.current ≡ pointer_at p.from_version
      → Step (w.disk) ((apply_release p records w).1.disk)

pub data Reach {H : Type 0} : Disk H → Disk H → Type 0 where
  here : {d : Disk H} → Reach d d
  further : {d d' d'' : Disk H} → Step d d' → Reach d' d'' → Reach d d''

module _ {H : Type 0} where
  -- RecoverResult, with any of its calls failing, leaves a sound install root sound.
  pub recover-Sound :
      (m : Option (Migrator H)) (w : World H) → Over Sound w.disk → Over Sound (recover m w).1.disk
  recover-Sound m w = Triple-always (Safe-recover m).triple w

  -- Rollback of a transaction that does not wait for a restart, with any of its calls failing,
  -- leaves a sound install root sound.
  pub roll_back-Sound :
      (m : Option (Migrator H)) (w : World H)
      → Over Sound w.disk
      → ((r : Record) → last_of w.disk.journal ≡ some r → r.state ≢ deferred)
      → Over Sound (roll_back m w).1.disk
  roll_back-Sound m w h n = Triple-always (Safe-roll_back m).triple w (h, n)

  -- ResumeDeferred with the updater's Swap, with any of its calls failing, leaves a sound install
  -- root sound.
  pub resume_deferred-Sound :
      (m : Option (Migrator H)) (w : World H)
      → Over Sound w.disk
      → Over Sound (resume_deferred m swap w).1.disk
  resume_deferred-Sound m w = Triple-always (Safe-resume_deferred m).triple w

  -- The transaction that installs a release from the version that `current` names, with any of its
  -- calls failing and with the rollback of a failure, leaves a sound install root sound.
  pub apply_release-Sound :
      (p : Plan H) (records : List Record) (w : World H)
      → Over Sound w.disk
      → w.disk.current ≡ pointer_at p.from_version
      → Over Sound (apply_release p records w).1.disk
  apply_release-Sound p records w h at_from =
      Triple-always (Safe-apply_release p records).triple w (h, at_from)

  Step-Sound : {d d' : Disk H} → Step d d' → Over Sound d → Over Sound d'
  Step-Sound (recovers m w) h = recover-Sound m w h
  Step-Sound (rolls_back m w n) h = roll_back-Sound m w h n
  Step-Sound (resumes m w) h = resume_deferred-Sound m w h
  Step-Sound (applies p records w at_from) h = apply_release-Sound p records w h at_from

  -- Every disk that a sequence of these operations reaches from a sound one is sound, whichever of
  -- their calls fail: `current` names no version that is not there in full; while a transaction is
  -- open, the version it came from is there in full and `current` names that one or, from MIGRATED
  -- on, that one or the new one; and a transaction that waits for a restart has its version there in
  -- full.
  pub Reach-Sound : {d d' : Disk H} → Reach d d' → Over Sound d → Over Sound d'
  Reach-Sound here h = h
  Reach-Sound (further s r) h = Reach-Sound r (Step-Sound s h)

  pub fresh-Sound : (d : Disk H) → d.current ≡ absent → d.journal ≡ none → Over Sound d
  fresh-Sound d c j = record {
    live_whole = λ v e. cc;
    base_whole = λ r e. cc;
    waiting_whole = λ r e. cc;
    placed = λ r e. cc;
  }

  -- On every disk that a sequence of these operations reaches from one with no journal and no
  -- `current`, whichever of their calls fail, the version that `current` names is there in full.
  pub Reach-live_whole :
      {d d' : Disk H} (v : Bytes)
      → d.current ≡ absent
      → d.journal ≡ none
      → Reach d d'
      → d'.current ≡ names v
      → d'.dirs v ≡ whole
  Reach-live_whole {d} v c j r = (Reach-Sound r (fresh-Sound d c j)).live_whole v
