-- ===== src/Updater/Install/Blocked.antt =====
-- What core/updater/apply.go asks of the record of probation before the BEGIN record, and that it
-- still holds there after the record was written anew.
use idunn.Prelude.{
  ℕ, ◌≡◌, inl, inr, same_iff, Bool-cases, refl, sym, ap, ◌∙◌, Bool, true, false, ◌&&◌, Option, none,
  some, [], ◌∷◌, Bytes, Result, ok, err, same, refuse_if-false, if◌then◌else◌,
}
use mathlib.Core.Path.{subst}
use idunn.Prelude.Integers.{ℤ, pos, negsuc, is_int}
use idunn.Txn.Journal.{Error}
use idunn.Layout.Disk.{Disk, at_meta, set_scratch}
use idunn.Layout.Effects.{pure, quiet}
use idunn.Layout.Effects.Triple.{
  Triple, Triple-pure, Triple-raise, Triple-lift, Triple-look, Triple-look_or, Triple-bind,
  Triple-if, Triple-weaken,
}
use idunn.Release.Descriptor.{Descriptor}
use idunn.Probation.Reason.{Runes}
use idunn.Probation.Record.{
  Probation, Status, probation_schema, BlockedVersion, Stored, absent, unreadable, stored,
}
use idunn.Probation.Files.{Files, store, write_probation}
use idunn.Probation.Allowance.{HostPolicy, Resolver, Allowance, probation_for}
use idunn.Probation.Arming.{
  blocking, next_probation, may_fall_back, count, falls_back, refuse_unfinished, arm, arm_probation,
  blocked_reason,
}
use idunn.Updater.Install.{Updater, Answers, Verdict, waits, ready, is_blocked, ask, pre_flight}
use idunn.Updater.Install.Reads.{
  Top, Allows, IsUnblocked, blocked_of, Reads, Triple-run, Triple-kept, Triple-write_file_atomic,
  Triple-read_probation, Triple-open_journal, Triple-given,
}

-- The first start of `v` is still to come, in a record that is on.
abbrev pub IsArmed : Bytes → Stored → Type 0
IsArmed v absent = ⊥
IsArmed v unreadable = ⊥
IsArmed v (stored p) = (p.version ≡ v) × (p.status ≡ Status.active) × (p.attempts ≡ 0)

-- What the disk holds of probation.
abbrev On : {H : Type 0} → (Stored → Type 0) → Disk (Files H) → Type 0
On P d = P d.host.probation

module _ {H : Type 0} (P Q : Stored → Type 0) where
  Triple-write_probation :
      (p : Probation)
      → Q (stored (record p { schema_version = probation_schema }))
      → Triple {H = Files H} (On P) (write_probation p) (λ _. On Q) Top
  unfolding write_probation quiet store set_scratch
  Triple-write_probation p h = Triple-bind {R = λ _. On P} (Triple-kept _) λ _.
      Triple-bind {R = λ _. On P} (Triple-look _ (λ d k. k) (λ d k. tt))
        λ _. Triple-write_file_atomic at_meta _ (λ b d k. k) (λ d k. h)

module _ {H : Type 0} (P : Stored → Type 0) where
  Triple-falls_back :
      (installed version : Bytes) (o : Option Probation)
      → Triple {H = Files H} (On P) (falls_back installed version o) (λ _. On P) Top
  unfolding falls_back
  Triple-falls_back installed version none = Triple-pure false (λ d h. h)
  Triple-falls_back installed version (some p) =
      Triple-if (may_fall_back installed version p)
        (λ _. Triple-look_or false _ (λ d h. h) (λ d h. h)) (λ _. Triple-pure false (λ d h. h))

  Triple-refuse_unfinished :
      (o : Option Probation) → Triple {H = Files H} (On P) (refuse_unfinished o) (λ _. On P) Top
  unfolding refuse_unfinished
  Triple-refuse_unfinished none = Triple-pure tt (λ d h. h)
  Triple-refuse_unfinished (some p) = Triple-kept _

  Triple-count : (n : ℤ) → Triple {H = Files H} (On P) (count n) (λ _. On P) Top
  unfolding count
  Triple-count (pos n) = Triple-pure n (λ d h. h)
  Triple-count (negsuc n) = Triple-raise _ (λ d h. tt)

abbrev ArmsIf : Bool → Bytes → Stored → Type 0
ArmsIf true v s = Unit {0}
ArmsIf false v s = IsArmed v s

-- The record is on, where a version was installed before and the policy asks for any attempts.
abbrev pub Arms : Bytes → Result Error Allowance → Bytes → Stored → Type 0
Arms [] r v s = Unit {0}
Arms (x ∷ installed) (err e) v s = ⊥
Arms (x ∷ installed) (ok a) v s = ArmsIf (is_int a.attempts 0) v s

is_blocked-nil : (r : Runes) → is_blocked r ≡ false → r ≡ []
is_blocked-nil [] h = refl
is_blocked-nil (c ∷ r) h = cc

module _ (v : Bytes) where
  Reads-Allows :
      (o : Option Probation) (s : Stored) → Reads o s → IsUnblocked v s → Allows v (blocked_of o)
  Reads-Allows none s e h = tt
  Reads-Allows (some p) s e h = subst (IsUnblocked v) e h

  -- A record that arm writes.
  next-IsArmed :
      (installed : Bytes) (n m : ℕ) (b : Bool) (o : Option Probation)
      → Allows v (blocked_of o)
      → IsUnblocked v (
          stored
            (record (next_probation installed v n m b o) { schema_version = probation_schema }))
        × IsArmed v (
            stored
              (record (next_probation installed v n m b o) { schema_version = probation_schema }))
  unfolding next_probation
  next-IsArmed installed n m b none h = (h, (refl, refl, refl))
  next-IsArmed installed n m b (some p) h = (h, (refl, refl, refl))

  module _ {H : Type 0} where
    Triple-arm :
        (installed : Bytes) (a : Allowance)
        → Triple {H = Files H}
            (On (IsUnblocked v))
            (arm installed v a)
            (λ _. On (λ s. IsUnblocked v s × IsArmed v s))
            Top
    unfolding arm
    Triple-arm installed a =
        let U : Disk (Files H) → Type 0 = On (IsUnblocked v) in
        Triple-bind {R = λ o d. U d × Reads o d.host.probation} Triple-read_probation λ o.
          Triple-weaken {P' = λ d. U d × Allows v (blocked_of o)}
            (Triple-given (Allows v (blocked_of o)) λ k.
              Triple-bind {R = λ _. U} (Triple-refuse_unfinished (IsUnblocked v) o) λ _.
                Triple-bind {R = λ _. U} (Triple-falls_back (IsUnblocked v) installed v o) λ b.
                  Triple-bind {R = λ _. U} (Triple-count (IsUnblocked v) a.attempts) λ n.
                    Triple-bind {R = λ _. U} (Triple-count (IsUnblocked v) a.restarts) λ m.
                      Triple-write_probation (IsUnblocked v) (λ s. IsUnblocked v s × IsArmed v s) _
                        (next-IsArmed installed n m b o k))
            (λ d h. (h.0, Reads-Allows o _ h.1 h.0)) (λ u d h. h) (λ d h. h)

    Triple-arm_if :
        (b : Bool) (installed : Bytes) (a : Allowance)
        → Triple {H = Files H}
            (On (IsUnblocked v))
            (if b then pure tt else arm installed v a)
            (λ _. On (λ s. IsUnblocked v s × ArmsIf b v s))
            Top
    Triple-arm_if true installed a = Triple-pure tt (λ d h. (h, tt))
    Triple-arm_if false installed a = Triple-arm installed a

    Triple-arm_probation :
        (pol : HostPolicy) (resolver : Option Resolver) (goos goarch installed : Bytes)
        → Triple {H = Files H}
            (On (IsUnblocked v))
            (arm_probation pol resolver goos goarch installed v)
            (λ _. On (λ s.
              IsUnblocked v s × Arms installed (probation_for pol resolver goos goarch v) v s))
            Top
    unfolding arm_probation
    Triple-arm_probation pol resolver goos goarch [] = Triple-pure tt (λ d h. (h, tt))
    Triple-arm_probation pol resolver goos goarch (x ∷ installed) =
        Triple-bind
          {R = λ a d. On (IsUnblocked v) d × (probation_for pol resolver goos goarch v ≡ ok a)}
          (Triple-lift _ (λ a e d h. (h, e)) (λ d h. tt))
          λ a. Triple-given (probation_for pol resolver goos goarch v ≡ ok a) λ e.
            subst
              (λ r.
                Triple {H = Files H} (On (IsUnblocked v))
                  (if is_int a.attempts 0 then pure tt else arm (x ∷ installed) v a)
                  (λ _. On (λ s. IsUnblocked v s × Arms (x ∷ installed) r v s)) Top)
              (sym e) (Triple-arm_if (is_int a.attempts 0) (x ∷ installed) a)

  -- What blocked answers, by the record.
  abbrev Finds : Runes → Stored → Type 0
  Finds reason absent = Unit {0}
  Finds reason unreadable = ⊥
  Finds reason (stored p) = reason ≡ blocking v p.blocked

  Reads-Finds :
      (o : Option Probation) (s : Stored)
      → Reads o s
      → Finds (elim o [ none ↦ [] | some q ↦ blocking v q.blocked ]) s
  Reads-Finds none s e = subst (Finds []) (sym e) tt
  Reads-Finds (some p) s e = subst (Finds (blocking v p.blocked)) (sym e) refl

  Triple-blocked_reason :
      {H : Type 0} {P : Disk (Files H) → Type 0}
      → Triple {H = Files H} P (blocked_reason v) (λ reason. On (Finds reason)) Top
  unfolding blocked_reason
  Triple-blocked_reason {P} =
      Triple-bind {R = λ o d. P d × Reads o d.host.probation} Triple-read_probation
        λ o. Triple-pure _ (λ d h. Reads-Finds o _ h.1)

  blocking-Allows : (o : Option BlockedVersion) → is_blocked (blocking v o) ≡ false → Allows v o
  unfolding blocking
  blocking-Allows none h = tt
  blocking-Allows (some b) h = elim (Bool-cases (same b.version v)) [
    | inl e ↦ inr (is_blocked-nil b.reason (rw (e) at h))
    | inr e ↦ inl (λ k. cc (e, (same_iff b.version v).1 k))
  ]

  Finds-IsUnblocked :
      (reason : Runes) (s : Stored) → is_blocked reason ≡ false → Finds reason s → IsUnblocked v s
  Finds-IsUnblocked reason absent e h = tt
  Finds-IsUnblocked reason unreadable e h = h
  Finds-IsUnblocked reason (stored p) e h = blocking-Allows p.blocked (ap is_blocked (sym h) ∙ e)

module _ {H : Type 0} (u : Updater H) (a : Answers) (d : Descriptor) (from : Bytes) where
  -- What the record of probation says where a transaction may begin.
  abbrev pub Guarded : Verdict → Stored → Type 0
  Guarded waits s = Unit {0}
  Guarded (ready installed records) s =
      IsUnblocked d.version s
      × Arms installed
          (probation_for u.host_policy u.resolver u.client.goos u.client.goarch d.version) d.version
          s

  Triple-ask : Triple {H = Files H} Top (ask u a d from) (λ v. On (Guarded v)) Top
  unfolding ask
  Triple-ask = Triple-bind {R = λ _. Top} (Triple-run _) λ installed.
      Triple-bind {R = λ _. Top} (Triple-run _) λ _. Triple-bind {R = λ _. Top} (Triple-run _) λ _.
        Triple-bind {R = λ _. Top} (Triple-run _) λ _.
          Triple-bind {R = λ reason. On (Finds d.version reason)} (Triple-blocked_reason d.version)
            λ reason.
              let U : Disk (Files H) → Type 0 = On (IsUnblocked d.version) in
              Triple-bind {R = λ _. U}
                (Triple-lift _
                  (λ _ x w h. Finds-IsUnblocked d.version reason _ (refuse_if-false _ _ x) h)
                  (λ w h. tt))
                λ _. Triple-bind {R = λ _. U} (Triple-kept _) λ _.
                  Triple-bind {R = λ _. U} (Triple-kept _) λ _.
                    Triple-bind {R = λ _. U} Triple-open_journal λ records.
                      Triple-bind {R = λ _. On (Guarded (ready installed records))}
                        (Triple-arm_probation d.version u.host_policy u.resolver u.client.goos
                          u.client.goarch installed)
                        λ _. Triple-pure (ready installed records) (λ w h. h)

  pub Triple-pre_flight : Triple {H = Files H} Top (pre_flight u a d from) (λ v. On (Guarded v)) Top
  unfolding pre_flight
  Triple-pre_flight = Triple-bind {R = λ _. Top} (Triple-run _) λ _.
      Triple-bind {R = λ _. Top} (Triple-run _) λ rec.
        Triple-if (rec.was_deferred && same rec.to_version d.version)
          (λ _. Triple-pure waits (λ w h. tt)) (λ _. Triple-ask)
