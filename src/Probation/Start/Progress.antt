-- ===== src/Probation/Start/Progress.antt =====
-- A version on probation that never confirms is rolled back, where no call fails.
use mathlib.Core.Path.{subst}
use idunn.Prelude.{
  ℕ, zero, suc, ◌+◌, ◌<◌, ◌≡◌, refl, sym, ap, true, false, Option, some, Bytes, ok, same, same_refl,
  leb, arith,
}
use idunn.Layout.Disk.{Disk, names, Dir, Install, exists}
use idunn.Layout.Effects.{Action, ◌>>◌}
use idunn.Layout.Effects.Progress.{Goes, Goes-pure, Goes-bind, Goes-given, Goes-if, Goes-strengthen}
use idunn.Layout.Pointer.{is_empty}
use idunn.Txn.Recover.{Migrator}
use idunn.Probation.Record.{active, Probation, Stored, stored, validate}
use idunn.Probation.Record.Valid.{IsValid, IsValid-validate, IsValid-counted}
use idunn.Probation.Files.{Files}
use idunn.Probation.Changes.{is_reverting, sanitize, not_confirmed}
use idunn.Probation.Outcomes.{class_unconfirmed}
use idunn.Probation.Start.{
  Platform, ProbationResult, no_result, Lock, record_start, settle_attempt, settle_live, settle,
  probation,
}
use idunn.Probation.Start.Rules.{Standing, Goes-write_probation, Goes-pointer_target}
use idunn.Probation.Start.Revert.{Willing, IsBack}
use idunn.Probation.Start.Finish.{IsFree, Goes-recording, Goes-revert, Goes-probation}

module _ {H : Type 0} (f : Bytes → Dir) (i : Install) (o : Platform) (m : Option (Migrator H))
    (l : Lock) where
  -- What a start finds: the version on probation live, and its record.
  abbrev OnProbation : Probation → Disk (Files H) → Type 0
  OnProbation p = Standing (names p.version) f (some i) (stored p)

  counted : Probation → Probation
  counted p = record p { attempts = p.attempts + 1 }

  settle_active :
      (p : Probation) {Q : ProbationResult → Disk (Files H) → Type 0}
      → IsValid p
      → p.schema_version ≡ 1
      → p.status ≡ active
      → p.restart_pending ≡ false
      → Goes {H = Files H} (OnProbation p) (settle_attempt o m l p) Q
      → Goes {H = Files H} (OnProbation p) (probation o m l) Q
  unfolding settle settle_live
  settle_active p {Q} v n e r g = Goes-probation o m l p v n (
      rw (ap is_reverting e) (
        Goes-bind (λ live d. OnProbation p d × (live ≡ p.version))
          (Goes-pointer_target p.version (stored p) (v.version_valid))
          λ live. Goes-given (live ≡ p.version) λ s.
            Goes-if (same live p.version)
              (λ _.
                subst (λ t. Goes {H = Files H} (OnProbation p) (settle_live o m l p t) Q) (sym e)
                  (Goes-if p.restart_pending (λ t. cc) (λ _. g)))
              (λ t. cc (t, s, same_refl p.version))))

  Goes-record_start :
      (p : Probation) (pr : ProbationResult) (s : Stored)
      → validate p ≡ ok tt
      → p.schema_version ≡ 1
      → Goes {H = Files H}
          (Standing (names p.version) f (some i) s)
          (record_start pr p)
          (λ r d. OnProbation p d × (r ≡ pr))
  unfolding record_start
  Goes-record_start p pr s v n = Goes-recording pr (
      Goes-bind (λ _. OnProbation p) (Goes-write_probation p v n)
        λ _. Goes-pure pr (λ d h. (h, refl)))

  -- A start within the allowance is counted.
  Goes-count :
      (p : Probation)
      → IsValid p
      → p.schema_version ≡ 1
      → p.attempts < p.attempts_allowed
      → Goes {H = Files H}
          (OnProbation p)
          (settle_attempt o m l p)
          (λ r d. OnProbation (counted p) d × (r.attempt ≡ p.attempts + 1))
  unfolding settle_attempt counted
  Goes-count p v n h =
      let pr = record no_result { version = p.version; attempt = p.attempts + 1 } in
      let q = counted p in
      let fine = IsValid-validate q (
        IsValid-counted p (p.attempts + 1) p.restarts p.restart_pending v (omega (arith, h))
          (v.restarts_bound)) in
      Goes-if (leb p.attempts_allowed p.attempts) (λ t. ground (arith, h))
        (λ _.
          Goes-strengthen (λ r d k. (k.0, ap (λ x. x.attempt) k.1))
            (Goes-record_start q pr (stored p) fine n))

  -- The start after the last that is allowed.
  Goes-spent :
      (p : Probation)
      → IsFree l
      → IsValid p
      → p.schema_version ≡ 1
      → exists (f p.previous) ≡ true
      → is_empty i.name ≡ false
      → Willing m
      → p.attempts ≡ p.attempts_allowed
      → Goes {H = Files H}
          (OnProbation p)
          (settle_attempt o m l p)
          (IsBack p (sanitize (not_confirmed p)))
  unfolding settle_attempt
  Goes-spent p free v n there named w h =
      Goes-if (leb p.attempts_allowed p.attempts)
        (λ _. Goes-revert o m l p (not_confirmed p) class_unconfirmed i free v n there named w)
        (λ t. ground (arith, h))

-- `n` starts of the launcher, and one more.
unfoldable pub starts :
    {H : Type 0} → ℕ → Platform → Option (Migrator H) → Lock → Action (Files H) ProbationResult
starts zero o m l = probation o m l
starts (suc n) o m l = do probation o m l; starts n o m l

-- The record of a version that has used up its attempts.
abbrev pub spent : Probation → Probation
spent p = record p { attempts = p.attempts_allowed }

-- A version on probation that never confirms and never asks for a restart is rolled back by the
-- start after the last that its allowance counts: then the version it replaced is live and in the
-- install state, and it is blocked. The previous version is there, the host's rollback hook
-- succeeds, the lock is free, and no call fails.
pub probation_returns :
    {H : Type 0} (f : Bytes → Dir) (i : Install) (o : Platform) (m : Option (Migrator H)) (l : Lock)
    (n : ℕ) (p : Probation)
    → IsFree l
    → IsValid p
    → p.schema_version ≡ 1
    → p.status ≡ active
    → p.restart_pending ≡ false
    → exists (f p.previous) ≡ true
    → is_empty i.name ≡ false
    → Willing m
    → p.attempts + n ≡ p.attempts_allowed
    → Goes {H = Files H}
        (Standing (names p.version) f (some i) (stored p))
        (starts n o m l)
        (IsBack (spent p) (sanitize (not_confirmed p)))
unfolding starts counted not_confirmed
probation_returns {H} f i o m l zero p free v s e r there named w h =
    let used : p.attempts ≡ p.attempts_allowed = omega (arith, h) in
    let same_record : p ≡ spent p = ap (λ a. record p { attempts = a }) used in
    subst
      (λ q.
        Goes {H = Files H} (Standing (names p.version) f (some i) (stored p)) (probation o m l)
          (IsBack q (sanitize (not_confirmed p))))
      same_record
      (settle_active f i o m l p v s e r (Goes-spent f i o m l p free v s there named w used))
probation_returns {H} f i o m l (suc n) p free v s e r there named w h =
    let q = record p { attempts = p.attempts + 1 } in
    let v' =
      IsValid-counted p (p.attempts + 1) p.restarts p.restart_pending v (omega (arith, h))
        (v.restarts_bound) in
    Goes-bind (λ _. Standing (names p.version) f (some i) (stored q))
      (Goes-strengthen (λ x d k. k.0)
        (settle_active f i o m l p v s e r (Goes-count f i o m l p v s (omega (arith, h)))))
      λ _. probation_returns f i o m l n q free v' s e r there named w (omega (arith, h))
