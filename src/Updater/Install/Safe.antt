-- ===== src/Updater/Install/Safe.antt =====
-- What core/updater/apply.go asks before the BEGIN record, on the part of the disk that decides
-- which version runs.
use idunn.Prelude.{
  ◌≡◌, refl, true, false, Option, none, some, [], ◌∷◌, Bytes, Result, ok, err, refuse_if-false,
  same, same_iff,
}
use idunn.Prelude.Options.{not-false}
use idunn.Timefloor
use idunn.Timefloor.{FloorError}
use idunn.Txn.Log.Region.{Safe-open_journal}
use idunn.Txn.Invariant.{Sound}
use idunn.Layout.Disk.{at_meta, exists}
use idunn.Layout.Effects.Region.{
  Region, ◌⊑◌, Safe, Safe-pure, Safe-raise, Safe-lift, Safe-look, Safe-look_or, Safe-if, Safe-bind,
  Safe-quiet, Safe-weaken, Safe-write_file_atomic,
}
use idunn.Layout.Pointer.Region.{Targets, Safe-pointer_target}
use idunn.Release.Descriptor.{Descriptor}
use idunn.Probation.Record.{Probation, Stored, absent, unreadable, stored}
use idunn.Probation.Files.{Files, decode, read_probation, store, write_probation}
use idunn.Probation.Allowance.{HostPolicy, Resolver, Allowance}
use idunn.Probation.Arming.{
  may_fall_back, count, falls_back, refuse_unfinished, arm, arm_probation, blocked_reason,
}
use idunn.Prelude.Integers.{ℤ, pos, negsuc, is_int}
use idunn.Updater.Policy.{Refusal, applicable}
use idunn.Updater.Install.{
  Updater, Answers, Verdict, waits, ready, check_clock, check_applicable, ask,
}

-- The files of probation are outside every region.
module _ {H : Type 0} (p : Region) (e : Region) (bad : p ⊑ e) where
  Safe-decode : (s : Stored) → Safe {H = Files H} p (decode s) (λ _. p) e
  unfolding decode
  Safe-decode absent = Safe-pure none (λ c f j h. h)
  Safe-decode unreadable = Safe-raise _ bad
  Safe-decode (stored r) =
      Safe-bind (λ _. p) (Safe-lift _ (λ a x c f j h. h) bad)
        λ _.
          Safe-bind (λ _. p) (Safe-lift _ (λ a x c f j h. h) bad)
            λ _. Safe-pure (some r) (λ c f j h. h)

  Safe-read_probation : Safe {H = Files H} p read_probation (λ _. p) e
  unfolding read_probation
  Safe-read_probation = Safe-bind (λ _. p) (Safe-look _ (λ d h. h) bad) λ s. Safe-decode s

  Safe-write_probation : (r : Probation) → Safe {H = Files H} p (write_probation r) (λ _. p) e
  unfolding write_probation store
  Safe-write_probation r =
      Safe-bind (λ _. p) (Safe-lift _ (λ a x c f j h. h) bad)
        λ _.
          Safe-bind (λ _. p) (Safe-quiet bad)
            λ _. Safe-write_file_atomic at_meta _ (λ d h. h) bad bad

  Safe-blocked_reason : (v : Bytes) → Safe {H = Files H} p (blocked_reason v) (λ _. p) e
  unfolding blocked_reason
  Safe-blocked_reason v = Safe-bind (λ _. p) Safe-read_probation λ r. Safe-pure _ (λ c f j h. h)

  Safe-count : (n : ℤ) → Safe {H = Files H} p (count n) (λ _. p) e
  unfolding count
  Safe-count (pos n) = Safe-pure n (λ c f j h. h)
  Safe-count (negsuc n) = Safe-raise _ bad

  Safe-falls_back :
      (installed version : Bytes) (r : Option Probation)
      → Safe {H = Files H} p (falls_back installed version r) (λ _. p) e
  unfolding falls_back
  Safe-falls_back installed version none = Safe-pure false (λ c f j h. h)
  Safe-falls_back installed version (some r) =
      Safe-if (may_fall_back installed version r)
        (λ _. Safe-look_or false (λ d. exists (d.dirs r.previous)) (λ a c f j h. h))
        (λ _. Safe-pure false (λ c f j h. h))

  Safe-refuse_unfinished :
      (r : Option Probation) → Safe {H = Files H} p (refuse_unfinished r) (λ _. p) e
  unfolding refuse_unfinished
  Safe-refuse_unfinished none = Safe-pure tt (λ c f j h. h)
  Safe-refuse_unfinished (some r) = Safe-lift _ (λ a x c f j h. h) bad

  Safe-arm :
      (installed version : Bytes) (a : Allowance)
      → Safe {H = Files H} p (arm installed version a) (λ _. p) e
  unfolding arm
  Safe-arm installed version a =
      Safe-bind (λ _. p) Safe-read_probation
        λ r.
          Safe-bind (λ _. p) (Safe-refuse_unfinished r)
            λ _.
              Safe-bind (λ _. p) (Safe-falls_back installed version r)
                λ b.
                  Safe-bind (λ _. p) (Safe-count a.attempts)
                    λ n. Safe-bind (λ _. p) (Safe-count a.restarts) λ m. Safe-write_probation _

  Safe-arm_probation :
      (pol : HostPolicy) (resolver : Option Resolver) (goos goarch installed version : Bytes)
      → Safe {H = Files H} p (arm_probation pol resolver goos goarch installed version) (λ _. p) e
  unfolding arm_probation
  Safe-arm_probation pol resolver goos goarch [] version = Safe-pure tt (λ c f j h. h)
  Safe-arm_probation pol resolver goos goarch (x ∷ installed) version =
      Safe-bind (λ _. p) (Safe-lift _ (λ a x c f j h. h) bad)
        λ a.
          Safe-if (is_int a.attempts 0) (λ _. Safe-pure tt (λ c f j h. h))
            (λ _. Safe-arm (x ∷ installed) version a)

-- What was asked and not refused.
pub record IsAsked {H : Type 0} (u : Updater H) (a : Answers) (d : Descriptor)
    (from installed : Bytes) : Type 0 where
  pub clock_fine : Timefloor.check u.floor a.now ≡ ok tt
  pub still_there : installed ≡ from
  pub is_new : same installed d.version ≡ false
  pub fits : applicable u.client d installed ≡ ok tt
  pub passes : a.check_passes ≡ true
  pub agreed : a.confirmed ≡ true

pub check_clock-ok :
    (r : Result FloorError (Unit {0})) (t : Unit {0}) → check_clock r ≡ ok t → r ≡ ok tt
check_clock-ok (ok t) s h = refl
check_clock-ok (err e) s h = cc

check_applicable-ok :
    (r : Result Refusal (Unit {0})) (t : Unit {0}) → check_applicable r ≡ ok t → r ≡ ok tt
check_applicable-ok (ok t) s h = refl
check_applicable-ok (err e) s h = cc

module _ {H : Type 0} (u : Updater H) (a : Answers) (d : Descriptor) (from : Bytes) where
  -- The region in which a verdict leaves the disk.
  abbrev pub Judged : Verdict → Region
  Judged waits = Sound
  Judged (ready installed records) =
      λ c f j. Targets Sound installed c f j × IsAsked u a d from installed

  pub Safe-ask :
      Timefloor.check u.floor a.now ≡ ok tt → Safe {H = Files H} Sound (ask u a d from) Judged Sound
  unfolding ask
  Safe-ask clock = Safe-bind (Targets Sound) (Safe-pointer_target (λ c f j h. h)) λ installed.
      let At : Region = Targets Sound installed in
      let A1 : Region = λ c f j. At c f j × (installed ≡ from) in
      let A2 : Region = λ c f j. A1 c f j × (same installed d.version ≡ false) in
      let A3 : Region = λ c f j. A2 c f j × (applicable u.client d installed ≡ ok tt) in
      let A4 : Region = λ c f j. A3 c f j × (a.check_passes ≡ true) in
      let A5 : Region = λ c f j. A4 c f j × (a.confirmed ≡ true) in
      Safe-bind (λ _. A1)
        (Safe-lift _
          (λ t x c f j h. (h, (same_iff installed from).0 (not-false _ (refuse_if-false _ _ x))))
          (λ c f j h. h.0))
        λ _.
          Safe-bind (λ _. A2)
            (Safe-lift _ (λ t x c f j h. (h, refuse_if-false _ _ x)) (λ c f j h. h.0.0))
            λ _.
              Safe-bind (λ _. A3)
                (Safe-lift _ (λ t x c f j h. (h, check_applicable-ok _ t x)) (λ c f j h. h.0.0.0))
                λ _.
                  Safe-bind (λ _. A3)
                    (Safe-blocked_reason A3 Sound (λ c f j h. h.0.0.0.0) d.version)
                    λ reason.
                      Safe-bind (λ _. A3) (Safe-lift _ (λ t x c f j h. h) (λ c f j h. h.0.0.0.0))
                        λ _.
                          Safe-bind (λ _. A4)
                            (Safe-lift _ (λ t x c f j h. (h, not-false _ (refuse_if-false _ _ x)))
                              (λ c f j h. h.0.0.0.0))
                            λ _.
                              Safe-bind (λ _. A5)
                                (Safe-lift _
                                  (λ t x c f j h. (h, not-false _ (refuse_if-false _ _ x)))
                                  (λ c f j h. h.0.0.0.0.0))
                                λ _.
                                  Safe-bind (λ _. A5)
                                    (Safe-weaken
                                      (Safe-open_journal {p = A5} {e = Sound}
                                        (λ c f j h. h.0.0.0.0.0.0))
                                      (λ c f j h. h) (λ r c f j h. h.0) (λ c f j h. h))
                                    λ records.
                                      Safe-bind (λ _. A5)
                                        (Safe-arm_probation A5 Sound (λ c f j h. h.0.0.0.0.0.0)
                                          u.host_policy u.resolver u.client.goos u.client.goarch
                                          installed d.version)
                                        λ _. Safe-pure (ready installed records) λ c f j h. (
                                          h.0.0.0.0.0,
                                          record {
                                            clock_fine = clock;
                                            still_there = h.0.0.0.0.1;
                                            is_new = h.0.0.0.1;
                                            fits = h.0.0.1;
                                            passes = h.0.1;
                                            agreed = h.1;
                                          },
                                        )
