-- ===== src/Updater/Install/Loop.antt =====
-- Apply keeps the invariant of the install root, whatever of its calls fail, and begins no
-- transaction that it should not.
use idunn.Prelude.{Result, ◌≡◌, ℕ, List, [], ◌∷◌, Bytes, ok, ◌&&◌, same}
use mathlib.Core.Path.{subst}
use idunn.Timefloor
use idunn.Txn.Journal.{Record}
use idunn.Txn.Recover.Safe.{Safe-recover}
use idunn.Txn.Invariant.{Sound}
use idunn.Layout.Effects.{World, Action}
use idunn.Layout.Effects.Triple.{Post, Triple-always}
use idunn.Layout.Effects.Region.{
  Over, Safe, Safe-pure, Safe-lift, Safe-if, Safe-bind, Safe-weaken, Safe-given,
}
use idunn.Layout.Pointer.Region.{Targets, Safe-pointer_target}
use idunn.Release.Descriptor.{Descriptor}
use idunn.Probation.Files.{Files}
use idunn.Updater.Apply.{Applied, installed_now, waits_for_restart}
use idunn.Updater.Apply.Safe.{Safe-apply_release}
use idunn.Updater.Install.{
  Updater, Answers, Verdict, waits, ready, hooks_of, pre_flight, plan_of, install_ready,
  install_release, go_on, install_all, otherwise, plan_walk, install,
}
use idunn.Layout.Disk.{Disk}
use idunn.Layout.Pointer.Region.{pointer_at}
use idunn.Probation.Allowance.{probation_for}
use idunn.Txn.Journal.{Error}
use idunn.Updater.Install.Reads.{IsUnblocked}
use idunn.Updater.Install.Blocked.{Arms, Guarded, Triple-pre_flight}
use idunn.Updater.Install.Safe.{IsAsked, Judged, Safe-ask, check_clock-ok}

-- What is true where a transaction may begin, of what was asked and of the disk.
pub record IsReady {H : Type 0} (u : Updater H) (a : Answers) (d : Descriptor)
    (from installed : Bytes) (disk : Disk (Files H)) : Type 0 where
  pub asked : IsAsked u a d from installed
  pub sound : Over Sound disk
  pub at_installed : disk.current ≡ pointer_at installed
  pub unblocked : IsUnblocked d.version disk.host.probation
  pub armed :
      Arms installed
        (probation_for u.host_policy u.resolver u.client.goos u.client.goarch d.version)
        d.version
        disk.host.probation

at_ok :
    {H A : Type 0} (Q : A → Disk H → Type 0) (E : Disk H → Type 0) (r : Result Error A) (d : Disk H)
    (v : A)
    → r ≡ ok v
    → Post Q E r d
    → Q v d
at_ok Q E r d v e h = subst (λ r. Post Q E r d) e h

module _ {H : Type 0} (u : Updater H) where
  module _ (a : Answers) (d : Descriptor) (from : Bytes) where
    Safe-pre_flight : Safe {H = Files H} Sound (pre_flight u a d from) (Judged u a d from) Sound
    unfolding pre_flight
    Safe-pre_flight =
        Safe-bind (λ _ c f j. Sound c f j × (Timefloor.check u.floor a.now ≡ ok tt))
          (Safe-lift _ (λ t x c f j h. (h, check_clock-ok _ t x)) (λ c f j h. h))
          λ _. Safe-given (Timefloor.check u.floor a.now ≡ ok tt) λ clock.
            Safe-bind (λ _. Sound) (Safe-recover (hooks_of u.hooks))
              λ rec.
                Safe-if (rec.was_deferred && same rec.to_version d.version)
                  (λ _. Safe-pure waits (λ c f j h. h)) (λ _. Safe-ask u a d from clock)

    Safe-install_ready :
        (v : Verdict)
        → Safe {H = Files H} (Judged u a d from v) (install_ready u a d v) (λ _. Sound) Sound
    unfolding install_ready
    Safe-install_ready waits = Safe-pure waits_for_restart (λ c f j h. h)
    Safe-install_ready (ready installed records) =
        Safe-weaken (Safe-apply_release (plan_of u a d installed) records) (λ c f j h. h.0)
          (λ _ c f j h. h) (λ c f j h. h)

    Safe-install_release : Safe {H = Files H} Sound (install_release u a d from) (λ _. Sound) Sound
    unfolding install_release
    Safe-install_release = Safe-bind (Judged u a d from) Safe-pre_flight Safe-install_ready

    -- From a sound root, and whatever of the calls fail, a transaction begins only on a disk where
    -- everything that is asked before it holds: the clock is not behind the known-good time; `current` names the version
    -- that the update was found from, and the root is still sound; that version is not the release itself,
    -- and the release may be installed over it; the record of probation does not block the
    -- release, and is on, with all its starts to come, where there is a version to return to and
    -- the policy of the host and of the release asks for it; the self-check of the application and
    -- the user agree.
    pub ready-IsReady :
        (w : World (Files H)) (installed : Bytes) (records : List Record)
        → Over Sound w.disk
        → (pre_flight u a d from w).0 ≡ ok (ready installed records)
        → IsReady u a d from installed (pre_flight u a d from w).1.disk
    ready-IsReady w installed records s e =
        let (placed, asked) =
          at_ok (λ v. Over (Judged u a d from v)) (Over Sound) _ _ _ e
            (Safe-pre_flight.triple.at w s) in
        let guarded =
          at_ok (λ v w'. Guarded u a d from v w'.host.probation) (λ _. Unit {0}) _ _ _ e
            ((Triple-pre_flight u a d from).at w tt) in
        record {
          asked = asked;
          sound = placed.0;
          at_installed = placed.1;
          unblocked = guarded.0;
          armed = guarded.1;
        }

  Safe-go_on :
      (r : Applied) {m : Action (Files H) Applied}
      → Safe Sound m (λ _. Sound) Sound
      → Safe Sound (go_on r m) (λ _. Sound) Sound
  unfolding go_on
  Safe-go_on installed_now s = s
  Safe-go_on waits_for_restart s = Safe-pure waits_for_restart (λ c f j h. h)

  Safe-install_all :
      (answers : Descriptor → Answers) (ds : List Descriptor) (from : Bytes)
      → Safe {H = Files H} Sound (install_all u answers ds from) (λ _. Sound) Sound
  unfolding install_all
  Safe-install_all answers [] from = Safe-pure installed_now (λ c f j h. h)
  Safe-install_all answers (d ∷ ds) from =
      Safe-bind (λ _. Sound) (Safe-install_release (answers d) d from)
        λ r. Safe-go_on r (Safe-install_all answers ds d.version)

  Safe-otherwise :
      {A : Type 0} (x : A) {m : Action (Files H) A}
      → Safe Sound m (λ _. Sound) Sound
      → Safe Sound (otherwise x m) (λ _. Sound) Sound
  unfolding otherwise
  Safe-otherwise x s = record { triple = record { at = λ w h. Triple-always s.triple w h } }

  Safe-plan_walk :
      (now : ℕ) (d : Descriptor) (from : Bytes)
      → Safe {H = Files H} Sound (plan_walk u now d from) (λ _. Sound) Sound
  unfolding plan_walk
  Safe-plan_walk now d from = Safe-otherwise (d ∷ []) (
      Safe-bind (λ _. Sound) (Safe-lift _ (λ t x c f j h. h) (λ c f j h. h))
        λ _.
          Safe-bind (λ _. Sound) (Safe-recover (hooks_of u.hooks))
            λ rec.
              Safe-bind (Targets Sound) (Safe-pointer_target (λ c f j h. h))
                λ installed. Safe-pure _ (λ c f j h. h.0))

  -- Apply keeps the invariant of the install root: over every walk it plans, whatever the clock,
  -- the host and the hooks answer, and whatever of its calls fail, the root it leaves is one where
  -- `current` names a whole version or none and the journal agrees with it.
  pub install-Sound :
      (now : ℕ) (answers : Descriptor → Answers) (d : Descriptor) (from : Bytes)
      (w : World (Files H))
      → Over Sound w.disk
      → Over Sound (install u now answers d from w).1.disk
  unfolding install
  install-Sound now answers d from w s =
      Triple-always
        (Safe-bind (λ _. Sound) (Safe-plan_walk now d from)
          (λ ds. Safe-install_all answers ds from)).triple
        w s
