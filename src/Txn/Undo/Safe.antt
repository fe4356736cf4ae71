-- ===== src/Txn/Undo/Safe.antt =====
-- Rollback and the resumption of a deferred transaction keep the invariant of the install root.
use idunn.Prelude.{◌≡◌, ◌≢◌, refl, sym, ap, ◌∙◌, true, Option, none, some, List, last?}
use idunn.Txn.Journal.{
  migrate, apply, State, begin, migrated, swapped, committed, rolled_back, deferred, uninstalling,
  other, Record,
}
use idunn.Txn.Journal.Known.{IsKnown}
use idunn.Txn.Invariant.{last_of, is_open, Sound, SoundAt}
use idunn.Txn.Invariant.Steps.{SoundAt-advance, SoundAt-swapped}
use idunn.Txn.Log.Region.{Holds, Safe-open_journal, Safe-append}
use idunn.Txn.Recover.{Migrator, next_record}
use idunn.Txn.Recover.Safe.{
  Safe-clean_orphans, Safe-settle_committed, Safe-complete, Safe-undo_transaction, Safe-run_hook,
}
use idunn.Txn.Undo.{
  roll_back_from, roll_back_last, roll_back, run_migration, resume, resume_from, resume_last,
  resume_deferred,
}
use idunn.Layout.Disk.{whole}
use idunn.Layout.Effects.Region.{
  Region, Safe, Safe-pure, Safe-raise, Safe-weaken, Safe-bind, Safe-given,
}
use idunn.Stage.Swap.{swap}
use idunn.Stage.Swap.Safe.{Safe-swap}

-- No transaction waits for a restart.
abbrev pub SoundActive : Region
SoundActive c f j = Sound c f j × ((r : Record) → last_of j ≡ some r → r.state ≢ deferred)

module _ {H : Type 0} (m : Option (Migrator H)) (records : List Record) (last : Record) where
  Safe-roll_back_from :
      (s : State)
      → last.state ≡ s
      → IsKnown s
      → s ≢ deferred
      → Safe (SoundAt last) (roll_back_from m records last s) (λ _. Sound) Sound
  unfolding roll_back_from
  Safe-roll_back_from committed e k n =
      Safe-weaken (Safe-settle_committed (λ c f j h. h) last) (λ c f j h. h.0) (λ _ c f j h. h)
        (λ c f j h. h)
  Safe-roll_back_from rolled_back e k n =
      Safe-weaken (Safe-clean_orphans (λ c f j h. h)) (λ c f j h. h.0) (λ _ c f j h. h)
        (λ c f j h. h)
  Safe-roll_back_from uninstalling e k n = Safe-raise _ (λ c f j h. h.0)
  Safe-roll_back_from begin e k n =
      Safe-undo_transaction last (ap is_open e) none records (λ d. n (sym e ∙ d))
  Safe-roll_back_from deferred e k n = absurd (n refl)
  Safe-roll_back_from (other s) e k n = absurd k
  Safe-roll_back_from _ e k n =
      Safe-undo_transaction last (ap is_open e) m records (λ d. n (sym e ∙ d))

module _ {H : Type 0} (m : Option (Migrator H)) where
  Safe-roll_back_last :
      (records : List Record) (o : Option Record)
      → ((last : Record) → o ≡ some last → IsKnown last.state × (last.state ≢ deferred))
      → Safe
          (λ c f j. Sound c f j × (o ≡ last_of j))
          (roll_back_last m records o)
          (λ _. Sound)
          Sound
  unfolding roll_back_last
  Safe-roll_back_last records none k =
      Safe-weaken (Safe-clean_orphans (λ c f j h. h)) (λ c f j h. h.0) (λ _ c f j h. h)
        (λ c f j h. h)
  Safe-roll_back_last records (some last) k =
      let (known, active) = k last refl in
      Safe-weaken (Safe-roll_back_from m records last last.state refl known active)
        (λ c f j h. (h.0, sym h.1)) (λ _ c f j h. h) (λ c f j h. h)

  -- From a sound root where no transaction waits for a restart.
  pub Safe-roll_back : Safe SoundActive (roll_back m) (λ _. Sound) Sound
  unfolding roll_back
  Safe-roll_back = Safe-bind (Holds SoundActive) (Safe-open_journal (λ c f j h. h.0)) λ records.
      let Ready : Type 0 =
        (last : Record)
        → last? records ≡ some last
        → IsKnown last.state × (last.state ≢ deferred) in
      Safe-weaken (Safe-given Ready (Safe-roll_back_last records (last? records)))
        (λ c f j h. ((h.0.0, h.1), λ last e. (h.2 last e, h.0.1 last (sym h.1 ∙ e))))
        (λ _ c f j h. h) (λ c f j h. h)

-- The end of a transaction that waited: its version is there in full before `current` names it.
module _ {H : Type 0} (m : Option (Migrator H)) (records : List Record) (last : Record)
    (waits : last.state ≡ deferred) where
  Safe-run_migration : Safe (SoundAt last) (run_migration m last) (λ _. SoundAt last) Sound
  unfolding run_migration
  Safe-run_migration =
      elim m as (λ o. Safe (SoundAt last) (run_migration o last) (λ _. SoundAt last) Sound) [
        | none ↦ Safe-pure tt (λ c f j h. h)
        | some hooks ↦ Safe-run_hook (λ c f j h. h.0) _
      ]

  Safe-resume : Safe (SoundAt last) (resume m swap records last) (λ _. Sound) Sound
  unfolding resume
  Safe-resume =
      let after_migration : Record = next_record last migrated migrate in
      let after_swap : Record = next_record last swapped apply in
      let Ready : Region = λ c f j. SoundAt after_migration c f j × (f last.to_version ≡ whole) in
      let opened : is_open last.state ≡ true = ap is_open waits in
      Safe-bind (λ _. SoundAt last) Safe-run_migration
        λ _.
          Safe-bind (λ _. Ready)
            (Safe-append (λ c f j h. h.0) (λ c f j h. h.0.0) records after_migration
              (λ c f j j' h e. (
                SoundAt-advance last migrated migrate opened (λ d. cc) (λ _. refl) h e,
                h.0.waiting_whole last h.1 waits,
              )))
            λ records'.
              Safe-bind (λ _. SoundAt after_migration)
                (Safe-swap (λ c f j h. h.0.0) (λ c f j h. h.0) last.to_version
                  (λ c f j h. SoundAt-swapped after_migration refl h.1 h.0))
                λ _.
                  Safe-bind (λ _. SoundAt after_swap)
                    (Safe-append (λ c f j h. h.0) (λ c f j h. h.0) records' after_swap
                      (λ c f j j' h e.
                        SoundAt-advance after_migration swapped apply refl (λ d. cc) (λ _. refl) h
                          e))
                    λ records''.
                      Safe-bind (λ _. Sound) (Safe-complete after_swap refl records'' refl)
                        λ _. Safe-pure _ (λ c f j h. h)

module _ {H : Type 0} (m : Option (Migrator H)) where
  Safe-resume_from :
      (records : List Record) (last : Record) (s : State)
      → last.state ≡ s
      → Safe (SoundAt last) (resume_from m swap records last s) (λ _. Sound) Sound
  unfolding resume_from
  Safe-resume_from records last deferred e = Safe-resume m records last e
  Safe-resume_from records last _ e = Safe-pure _ (λ c f j h. h.0)

  Safe-resume_last :
      (records : List Record) (o : Option Record)
      → Safe
          (λ c f j. Sound c f j × (o ≡ last_of j))
          (resume_last m swap records o)
          (λ _. Sound)
          Sound
  unfolding resume_last
  Safe-resume_last records none = Safe-pure _ (λ c f j h. h.0)
  Safe-resume_last records (some last) =
      Safe-weaken (Safe-resume_from records last last.state refl) (λ c f j h. (h.0, sym h.1))
        (λ _ c f j h. h) (λ c f j h. h)

  pub Safe-resume_deferred : Safe Sound (resume_deferred m swap) (λ _. Sound) Sound
  unfolding resume_deferred
  Safe-resume_deferred = Safe-bind (Holds Sound) (Safe-open_journal (λ c f j h. h)) λ records.
      Safe-weaken (Safe-resume_last records (last? records)) (λ c f j h. (h.0, h.1))
        (λ _ c f j h. h) (λ c f j h. h)
