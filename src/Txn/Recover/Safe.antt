-- ===== src/Txn/Recover/Safe.antt =====
-- Recovery keeps the invariant of the install root, whichever of its calls fail.
use mathlib.Core.Path.{subst}
use idunn.Prelude.{
  ◌≡◌, ◌≢◌, refl, sym, ap, ◌∙◌, Bool, true, false, Option, none, some, List, [], ◌∷◌, Bytes, ok,
  err, same_iff, last?, same, if◌then◌else◌,
}
use idunn.Txn.Journal.{
  apply, commit, rollback, State, begin, staged, migrated, swapped, committed, rolled_back,
  hook_failed, deferred, Document, uninstalling, other, Record,
}
use idunn.Txn.Invariant.{last_of, is_open, is_past_migration, Sound, SoundAt}
use idunn.Txn.Invariant.Steps.{SoundAt-closed, SoundAt-advance, SoundAt-restored, SoundAt-removed}
use idunn.Txn.Log.Region.{Holds, Safe-open_journal, Safe-append}
use idunn.Txn.Recover.{
  Migrator, next_record, run_hook, remove_scratch, clean_orphans, settle_pending, settle_committed,
  record_swap, complete, move_back, restore_pointer, undo_migration, remove_version, remove_target,
  undo_transaction, recover_migrated, recover_from, recover_last, recover, is_empty,
}
use idunn.Layout.Effects.Triple.{Post}
use idunn.Layout.Disk.{absent, Disk, Pointer, names, Dir, at_root, at_meta, at_versions, Place}
use idunn.Layout.Effects.Region.{
  Region, Over, ◌⊑◌, Safe, Safe-pure, Safe-raise, Safe-lift, Safe-look, Safe-look_or, Safe-weaken,
  Safe-if, Safe-bind, Safe-effect, Safe-quiet, Safe-unseen, Safe-scratch,
}
use idunn.Layout.Pointer.Region.{
  pointer_at, Targets, validate_version-names, Safe-pointer_target, Safe-set_pointer,
  Safe-remove_pointer, Safe-write_install, Safe-promote_launcher,
}

module _ {H : Type 0} {p e : Region} (bad : p ⊑ e) where
  Safe-remove_scratch : (pl : Place) → Safe {H = H} p (remove_scratch pl) (λ _. p) e
  unfolding remove_scratch
  Safe-remove_scratch pl = Safe-bind (λ _. p) (Safe-quiet bad) (λ _. Safe-scratch pl false bad)

  pub Safe-clean_orphans : Safe {H = H} p clean_orphans (λ _. p) e
  unfolding clean_orphans
  Safe-clean_orphans =
      Safe-bind (λ _. p) (Safe-unseen _ (λ d h. h) bad)
        λ _.
          Safe-bind (λ _. p) (Safe-remove_scratch at_root)
            λ _.
              Safe-bind (λ _. p) (Safe-remove_scratch at_meta) λ _. Safe-remove_scratch at_versions

  Safe-settle_pending :
      (v : Bytes) (waiting : Option Bytes) → Safe {H = H} p (settle_pending v waiting) (λ _. p) e
  unfolding settle_pending
  Safe-settle_pending v none = Safe-clean_orphans
  Safe-settle_pending v (some name) = Safe-bind (Targets p) (Safe-pointer_target bad) λ live.
      Safe-bind (λ _. p)
        (Safe-weaken
          (Safe-if (same live v) (λ _. Safe-promote_launcher bad v)
            (λ _. Safe-pure tt (λ c f j h. h)))
          (λ c f j h. h.0) (λ _ c f j h. h) (λ c f j h. h))
        λ _. Safe-clean_orphans

  pub Safe-settle_committed : (last : Record) → Safe {H = H} p (settle_committed last) (λ _. p) e
  unfolding settle_committed
  Safe-settle_committed last =
      Safe-bind (λ _. p) (Safe-lift _ (λ _ _ c f j h. h) bad)
        λ _.
          Safe-bind (λ _. p) (Safe-look_or _ _ (λ a c f j h. h))
            λ waiting. Safe-settle_pending last.to_version waiting

  hook-Post :
      (fine : Bool) (d : Disk H)
      → Over p d
      → Post {A = Unit {0}} (λ _. Over p) (Over e) (if fine then ok tt else err hook_failed) d
  hook-Post true d h = h
  hook-Post false d h = bad _ _ _ h

  pub Safe-run_hook : (g : H → Bool × H) → Safe p (run_hook g) (λ _. p) e
  unfolding run_hook
  Safe-run_hook g = record {
    triple = record {
      at = λ w h.
          let (fine, host) = g w.disk.host in hook-Post fine (record (w.disk) { host = host }) h;
    };
  }

sound : (last : Record) → SoundAt last ⊑ Sound
sound last c f j h = h.0

-- `current` names the version that the transaction came from.
abbrev Back : Record → Region
Back last c f j = SoundAt last c f j × (c ≡ pointer_at last.from_version)

back : (last : Record) → Back last ⊑ Sound
back last c f j h = h.0.0

restored :
    {c c' : Pointer} {f : Bytes → Dir} {j : Option Document} (last : Record)
    → is_open last.state ≡ true
    → c' ≡ pointer_at last.from_version
    → SoundAt last c f j
    → Back last c' f j
restored {f} {j} last opened e h =
    (subst (λ x. SoundAt last x f j) (sym e) (SoundAt-restored last opened h), e)

absent_at : (v : Bytes) → is_empty v ≡ true → absent ≡ pointer_at v
absent_at [] h = refl
absent_at (x ∷ v) h = cc

-- Recovery of one open transaction, from a root that is sound and whose journal ends with it.
module _ {H : Type 0} (last : Record) (opened : is_open last.state ≡ true) where
  Safe-record_swap :
      (s : State) (records : List Record)
      → is_past_migration last.state ≡ true
      → Safe {H = H} (SoundAt last) (record_swap s records last) (λ _. Sound) Sound
  unfolding record_swap
  Safe-record_swap migrated records past =
      Safe-append (sound last) (λ c f j h. h) records _
        (λ c f j j' h e. (SoundAt-advance last swapped apply opened (λ d. cc) (λ _. refl) h e).0)
  Safe-record_swap _ records past = Safe-pure records (sound last)

  pub Safe-complete :
      (records : List Record)
      → is_past_migration last.state ≡ true
      → Safe {H = H} (SoundAt last) (complete records last) (λ _. Sound) Sound
  unfolding complete
  Safe-complete records past =
      Safe-bind (Targets (SoundAt last)) (Safe-pointer_target (sound last)) λ live.
        Safe-bind (λ _. SoundAt last) (Safe-lift _ (λ _ _ c f j h. h.0) (λ c f j h. h.0.0))
          λ _.
            Safe-bind (λ _. Sound) (Safe-record_swap last.state records past)
              λ records'.
                Safe-bind (λ _. Sound) (Safe-write_install (λ c f j h. h) _)
                  λ _.
                    Safe-bind (λ _. Sound)
                      (Safe-append (λ c f j h. h) (λ c f j h. h) records' _
                        (λ c f j j' h e.
                          (SoundAt-closed (next_record last committed commit) h e refl).0))
                      λ _. Safe-settle_committed (λ c f j h. h) last

  Safe-move_back :
      (live : Bytes)
      → Safe {H = H}
          (Targets (SoundAt last) live)
          (move_back live last.from_version)
          (λ _. Back last)
          Sound
  unfolding move_back
  Safe-move_back live =
      let Valid : Region =
        λ c f j. SoundAt last c f j × (names last.from_version ≡ pointer_at last.from_version) in
      let valid_sound : Valid ⊑ Sound = λ c f j h. h.0.0 in
      Safe-if (same live last.from_version)
        (λ e. Safe-pure tt (λ c f j h. (h.0, h.1 ∙ ap pointer_at ((same_iff _ _).0 e))))
        (λ _.
          Safe-bind (λ _. Valid)
            (Safe-lift _ (λ _ valid c f j h. (h.0, validate_version-names last.from_version valid))
              (λ c f j h. h.0.0))
            λ _.
              Safe-bind (λ _. Valid) (Safe-look _ (λ d h. h) valid_sound)
                λ found.
                  Safe-bind (λ _. Valid) (Safe-lift _ (λ _ _ c f j h. h) valid_sound)
                    λ _.
                      Safe-set_pointer valid_sound (back last) last.from_version
                        (λ c f j h. restored last opened h.1 h.0))

  Safe-restore_pointer : Safe {H = H} (SoundAt last) (restore_pointer last) (λ _. Back last) Sound
  unfolding restore_pointer
  Safe-restore_pointer =
      Safe-if (is_empty last.from_version)
        (λ e.
          Safe-remove_pointer (sound last) (back last)
            (λ c f j h. restored last opened (absent_at _ e) h))
        (λ _. Safe-bind (Targets (SoundAt last)) (Safe-pointer_target (sound last)) Safe-move_back)

  Safe-undo_migration :
      (m : Option (Migrator H)) → Safe (Back last) (undo_migration m last) (λ _. Back last) Sound
  unfolding undo_migration
  Safe-undo_migration none = Safe-pure tt (λ c f j h. h)
  Safe-undo_migration (some m) = Safe-run_hook (back last) _

  Safe-remove_target :
      last.state ≢ deferred → Safe {H = H} (Back last) (remove_target last) (λ _. Back last) Sound
  unfolding remove_target remove_version
  Safe-remove_target active =
      Safe-if (same last.to_version last.from_version) (λ _. Safe-pure tt (λ c f j h. h))
        λ apart.
          Safe-bind (λ _. Back last) (Safe-lift _ (λ _ _ c f j h. h) (back last))
            λ _.
              Safe-effect _ _ (λ d h. (SoundAt-removed last _ active apart h.1 h.0, h.1))
                (λ d h. (SoundAt-removed last _ active apart h.1 h.0).0) (back last)

  pub Safe-undo_transaction :
      (m : Option (Migrator H)) (records : List Record)
      → last.state ≢ deferred
      → Safe (SoundAt last) (undo_transaction m records last) (λ _. Sound) Sound
  unfolding undo_transaction
  Safe-undo_transaction m records active =
      Safe-bind (λ _. Back last) Safe-restore_pointer
        λ _.
          Safe-bind (λ _. Back last) (Safe-undo_migration m)
            λ _.
              Safe-bind (λ _. Back last) (Safe-remove_target active)
                λ _.
                  Safe-bind (λ _. Sound)
                    (Safe-append (back last) (λ c f j h. h) records _
                      (λ c f j j' h e.
                        (SoundAt-closed (next_record last rolled_back rollback) h.0.0 e refl).0))
                    λ _. Safe-clean_orphans (λ c f j h. h)

module _ {H : Type 0} (m : Option (Migrator H)) (records : List Record) (last : Record) where
  Safe-recover_migrated :
      last.state ≡ migrated
      → Safe (SoundAt last) (recover_migrated m records last) (λ _. Sound) Sound
  unfolding recover_migrated
  Safe-recover_migrated e =
      Safe-bind (Targets (SoundAt last)) (Safe-pointer_target (sound last)) λ live.
        Safe-weaken
          (Safe-if (same live last.to_version)
            (λ _.
              Safe-bind (λ _. Sound)
                (Safe-complete last (ap is_open e) records (ap is_past_migration e))
                λ _. Safe-pure _ (λ c f j h. h))
            (λ _.
              Safe-bind (λ _. Sound)
                (Safe-undo_transaction last (ap is_open e) m records (λ d. cc (sym e ∙ d)))
                λ _. Safe-pure _ (λ c f j h. h)))
          (λ c f j h. h.0) (λ _ c f j h. h) (λ c f j h. h)

  Safe-recover_from :
      (s : State)
      → last.state ≡ s
      → Safe (SoundAt last) (recover_from m records last s) (λ _. Sound) Sound
  unfolding recover_from
  Safe-recover_from committed e =
      Safe-bind (λ _. Sound)
        (Safe-weaken (Safe-settle_committed (λ c f j h. h) last) (sound last) (λ _ c f j h. h)
          (λ c f j h. h))
        λ _. Safe-pure _ (λ c f j h. h)
  Safe-recover_from rolled_back e =
      Safe-bind (λ _. Sound)
        (Safe-weaken (Safe-clean_orphans (λ c f j h. h)) (sound last) (λ _ c f j h. h)
          (λ c f j h. h))
        λ _. Safe-pure _ (λ c f j h. h)
  Safe-recover_from uninstalling e = Safe-raise _ (sound last)
  Safe-recover_from deferred e = Safe-pure _ (sound last)
  Safe-recover_from swapped e =
      Safe-bind (λ _. Sound) (Safe-complete last (ap is_open e) records (ap is_past_migration e))
        λ _. Safe-pure _ (λ c f j h. h)
  Safe-recover_from migrated e = Safe-recover_migrated e
  Safe-recover_from begin e =
      Safe-bind (λ _. Sound)
        (Safe-undo_transaction last (ap is_open e) none records (λ d. cc (sym e ∙ d)))
        λ _. Safe-pure _ (λ c f j h. h)
  Safe-recover_from staged e =
      Safe-bind (λ _. Sound)
        (Safe-undo_transaction last (ap is_open e) m records (λ d. cc (sym e ∙ d)))
        λ _. Safe-pure _ (λ c f j h. h)
  Safe-recover_from (other s) e = Safe-raise _ (sound last)

module _ {H : Type 0} (m : Option (Migrator H)) where
  Safe-recover_last :
      (records : List Record) (o : Option Record)
      → Safe (λ c f j. Sound c f j × (o ≡ last_of j)) (recover_last m records o) (λ _. Sound) Sound
  unfolding recover_last
  Safe-recover_last records none =
      Safe-bind (λ _. Sound)
        (Safe-weaken (Safe-clean_orphans (λ c f j h. h)) (λ c f j h. h.0) (λ _ c f j h. h)
          (λ c f j h. h))
        λ _. Safe-pure _ (λ c f j h. h)
  Safe-recover_last records (some last) =
      Safe-weaken (Safe-recover_from m records last last.state refl) (λ c f j h. (h.0, sym h.1))
        (λ _ c f j h. h) (λ c f j h. h)

  pub Safe-recover : Safe Sound (recover m) (λ _. Sound) Sound
  unfolding recover
  Safe-recover = Safe-bind (Holds Sound) (Safe-open_journal (λ c f j h. h)) λ records.
      Safe-weaken (Safe-recover_last records (last? records)) (λ c f j h. (h.0, h.1))
        (λ _ c f j h. h) (λ c f j h. h)
