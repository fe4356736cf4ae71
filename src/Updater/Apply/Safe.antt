-- ===== src/Updater/Apply/Safe.antt =====
-- The installation of a release, with the rollback of a failure, keeps the invariant of the install
-- root.
use idunn.Prelude.{◌≡◌, ◌≢◌, refl, ap, ◌∙◌, Option, none, some, List, Result, ok, err}
use idunn.Txn.Journal.{
  check, quiesce, stage as phase_stage, migrate, apply, commit, begin, staged, migrated, swapped,
  committed, deferred, Record, Error,
}
use idunn.Txn.Log.Region.{Safe-append}
use idunn.Txn.Recover.Safe.{Safe-run_hook}
use idunn.Txn.Undo.Safe.{SoundActive, Safe-roll_back}
use idunn.Txn.Recover.{Migrator}
use idunn.Txn.Invariant.{is_open, Sound, SoundAt}
use idunn.Txn.Invariant.Steps.{
  SoundAt-begun, SoundAt-advance, SoundAt-swapped, SoundAt-closed, SoundAt-Settled, Settled,
  some_eq,
}
use idunn.Layout.Disk.{whole}
use idunn.Layout.Effects.{World}
use idunn.Layout.Effects.Triple.{Post, Triple-always}
use idunn.Layout.Effects.Region.{
  Region, Over, ◌⊑◌, Safe, Safe-pure, Safe-raise, Safe-if, Safe-bind, Safe-quiet, Safe-unseen,
  Safe-attempt,
}
use idunn.Layout.Pointer.Region.{Targets, Safe-write_install, Safe-promote_launcher}
use idunn.Stage.Staging.Safe.{AtBase, Staged, Safe-stage}
use idunn.Stage.Swap.Safe.{Safe-swap}
use idunn.Stage.Collect.Safe.{Safe-collect}
use idunn.Updater.Apply.{
  Quiesced, quiet_now, wait_for_restart, give_up, Applied, Plan, plan_record, migrate_host,
  promote_or_tidy, finish, after_quiesce, transact, undo_failed, apply_release,
}

active : (r : Record) → r.state ≢ deferred → SoundAt r ⊑ SoundActive
active r n c f j (h, e) = (h, λ r' e' d. n (ap (λ x. x.state) (some_eq e e') ∙ d))

settled_active : Settled ⊑ SoundActive
settled_active c f j (h, shut) = (h, λ r e d. cc (shut r e, ap is_open d))

module _ {H : Type 0} (p : Plan H) where
  abbrev begun : Record
  begun = plan_record p begin check

  abbrev ready : Record
  ready = plan_record p staged phase_stage

  abbrev moved : Record
  moved = plan_record p migrated migrate

  abbrev live : Record
  live = plan_record p swapped apply

  Ready : Record → Region
  Ready r c f j = SoundAt r c f j × (f p.to_version ≡ whole)

  Safe-migrate_host :
      {q e : Region} → q ⊑ e → (m : Option (Migrator H)) → Safe q (migrate_host m p) (λ _. q) e
  unfolding migrate_host
  Safe-migrate_host bad none = Safe-pure tt (λ c f j h. h)
  Safe-migrate_host bad (some m) = Safe-run_hook bad _

  Safe-promote_or_tidy : {q e : Region} → Safe q (promote_or_tidy p) (λ _. q) e
  unfolding promote_or_tidy
  Safe-promote_or_tidy {q} = Safe-attempt (
      Safe-bind (λ _. q) (Safe-promote_launcher (λ c f j h. h) p.to_version)
        λ _. Safe-unseen _ (λ d h. h) (λ c f j h. h))

  Safe-finish :
      (records : List Record) → Safe (Ready ready) (finish p records) (λ _. Sound) SoundActive
  unfolding finish Ready
  Safe-finish records =
      let at_ready : SoundAt ready ⊑ SoundActive = active ready (λ d. cc) in
      let at_moved : SoundAt moved ⊑ SoundActive = active moved (λ d. cc) in
      let at_live : SoundAt live ⊑ SoundActive = active live (λ d. cc) in
      Safe-bind (λ _. Ready ready) (Safe-migrate_host (λ c f j h. at_ready c f j h.0) p.hooks)
        λ _.
          Safe-bind (λ _. Ready moved)
            (Safe-append (λ c f j h. at_ready c f j h.0) (λ c f j h. at_moved c f j h.0) records
              moved
              (λ c f j j' h e.
                (SoundAt-advance ready migrated migrate refl (λ d. cc) (λ _. refl) h.0 e, h.1)))
            λ records'.
              Safe-bind (λ _. SoundAt moved)
                (Safe-swap (λ c f j h. at_moved c f j h.0) at_moved p.to_version
                  (λ c f j h. SoundAt-swapped moved refl h.1 h.0))
                λ _.
                  Safe-bind (λ _. SoundAt live)
                    (Safe-append at_moved at_live records' live (λ c f j j' h e.
                      SoundAt-advance moved swapped apply refl (λ d. cc) (λ _. refl) h e))
                    λ records''.
                      Safe-bind (λ _. SoundAt live)
                        (Safe-if p.verify_after_apply (λ _. Safe-quiet at_live)
                          (λ _. Safe-pure tt (λ c f j h. h)))
                        λ _.
                          Safe-bind (λ _. SoundAt live) (Safe-write_install at_live _)
                            λ _.
                              Safe-bind (λ _. Settled)
                                (Safe-append at_live settled_active records'' _ (λ c f j j' h e.
                                  SoundAt-Settled (plan_record p committed commit) refl
                                    (SoundAt-closed (plan_record p committed commit) h.0 e refl)))
                                λ _.
                                  Safe-bind (λ _. Settled) Safe-promote_or_tidy
                                    λ _.
                                      Safe-bind (λ _. Settled)
                                        (Safe-collect settled_active p.listing p.pinned p.retain)
                                        λ _. Safe-pure _ (λ c f j h. h.0)

  Safe-after_quiesce :
      (records : List Record) (q : Quiesced)
      → Safe (Ready ready) (after_quiesce p records q) (λ _. Sound) SoundActive
  unfolding after_quiesce Ready
  Safe-after_quiesce records quiet_now = Safe-finish records
  Safe-after_quiesce records wait_for_restart =
      Safe-bind (λ _. Sound)
        (Safe-attempt (
          Safe-append (λ c f j h. h.0.0) (λ c f j h. h) records _
            (λ c f j j' h e.
              (SoundAt-advance ready deferred quiesce refl (λ _. h.1) (λ d. cc) h.0 e).0)))
        λ _. Safe-pure _ (λ c f j h. h)
  Safe-after_quiesce records (give_up x) =
      Safe-raise x (λ c f j h. active ready (λ d. cc) c f j h.0)

  Safe-transact :
      (records : List Record) → Safe (AtBase begun) (transact p records) (λ _. Sound) SoundActive
  unfolding transact Ready
  Safe-transact records =
      let at_begun : AtBase begun ⊑ SoundActive = λ c f j h. active begun (λ d. cc) c f j h.0 in
      let at_ready : Ready ready ⊑ SoundActive = λ c f j h. active ready (λ d. cc) c f j h.0 in
      Safe-bind (λ _. Staged begun) (Safe-stage begun (λ d. cc) at_begun p.launcher p.files)
        λ _.
          Safe-bind (λ _. Ready ready)
            (Safe-append (λ c f j h. at_begun c f j h.0) at_ready records ready
              (λ c f j j' h e.
                (SoundAt-advance begun staged phase_stage refl (λ d. cc) (λ d. cc) h.0.0 e, h.1)))
            λ records'. Safe-after_quiesce records' p.quiesced

  undo_failed-Sound :
      (r : Result Error Applied) (w : World H)
      → Post {A = Applied} (λ _. Over Sound) (Over SoundActive) r w.disk
      → Post {A = Applied}
          (λ _. Over Sound)
          (Over Sound)
          (undo_failed r p.hooks w).0
          (undo_failed r p.hooks w).1.disk
  unfolding undo_failed
  undo_failed-Sound (ok a) w h = h
  undo_failed-Sound (err x) w h = Triple-always (Safe-roll_back p.hooks).triple w h

  Safe-undone :
      (records : List Record)
      → Safe
          (AtBase begun)
          (λ w. let (r, w') = transact p records w in undo_failed r p.hooks w')
          (λ _. Sound)
          Sound
  Safe-undone records = record {
    triple = record {
      at = λ w h.
          undo_failed-Sound (transact p records w).0 (transact p records w).1
            ((Safe-transact records).triple.at w h);
    };
  }

  -- From a sound root, by a transaction from the version that `current` names.
  pub Safe-apply_release :
      (records : List Record)
      → Safe (Targets Sound p.from_version) (apply_release p records) (λ _. Sound) Sound
  unfolding apply_release
  Safe-apply_release records =
      Safe-bind (λ _. AtBase begun)
        (Safe-append (λ c f j h. h.0) (λ c f j h. h.0.0) records begun
          (λ c f j j' h e. (SoundAt-begun begun h.0 h.1 refl e, h.1)))
        λ records'. Safe-undone records'
