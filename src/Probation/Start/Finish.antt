-- ===== src/Probation/Start/Finish.antt =====
-- A rollback that was begun is finished by the next start, where no call fails.
use mathlib.Core.Path.{subst}
use idunn.Prelude.{◌≡◌, sym, ap, true, false, Option, some, [], Bytes, Result, ok, err}
use idunn.Txn.Journal.{Error}
use idunn.Layout.Disk.{Disk, Pointer, Dir, Install, exists}
use idunn.Layout.Effects.{World, Action}
use idunn.Layout.Effects.Progress.{Ends, ends, Goes, Goes-bind, Goes-given}
use idunn.Layout.Pointer.{is_empty}
use idunn.Txn.Recover.{Migrator}
use idunn.Probation.Reason.{Runes}
use idunn.Probation.Record.{reverting, Probation, stored}
use idunn.Probation.Record.Valid.{IsValid, IsValid-validate, is_sanitized-sanitize_reason}
use idunn.Probation.Files.{Files}
use idunn.Probation.Changes.{is_reverting, sanitize}
use idunn.Probation.Start.{
  Platform, ProbationResult, no_result, recording, revert, Lock, not_needed, granted, busy, failing,
  settle, probation,
}
use idunn.Probation.Start.Rules.{Standing, Goes-read_probation}
use idunn.Probation.Start.Revert.{Willing, IsBack, Goes-revert_locked}

-- The lock, where a rollback gets it.
unfoldable pub IsFree : Lock → Type 0
IsFree not_needed = Unit
IsFree granted = Unit
IsFree _ = ⊥

module _ {H : Type 0} {Q : ProbationResult → Disk (Files H) → Type 0} where
  Ends-recording :
      (pr : ProbationResult) (x : Result Error ProbationResult × World (Files H))
      → Ends Q x
      → Ends Q (ok (elim x.0 [ ok a ↦ a | err e ↦ record pr { failure = some e } ]), x.1)
  Ends-recording pr _ (ends a d h) = ends a d h

  pub Goes-recording :
      {P : Disk (Files H) → Type 0} (pr : ProbationResult) {m : Action (Files H) ProbationResult}
      → Goes P m Q
      → Goes P (recording pr m) Q
  unfolding recording
  Goes-recording {P} pr {m} g = record { at = λ d h. Ends-recording pr _ (g.at d h) }

module _ {H : Type 0} {c : Pointer} {f : Bytes → Dir} where
  pub Goes-revert :
      (o : Platform) (m : Option (Migrator H)) (l : Lock) (p : Probation) (reason : Runes)
      (class : Bytes) (i : Install)
      → IsFree l
      → IsValid p
      → p.schema_version ≡ 1
      → exists (f p.previous) ≡ true
      → is_empty i.name ≡ false
      → Willing m
      → Goes {H = Files H}
          (Standing c f (some i) (stored p))
          (revert o m l p reason class)
          (IsBack p (sanitize reason))
  unfolding revert IsFree
  Goes-revert o m not_needed p reason class i l v n there named w =
      Goes-recording (record no_result { version = p.version })
        (Goes-revert_locked o p (sanitize reason) class v n (is_sanitized-sanitize_reason reason) m
          (record no_result { version = p.version }) i there named w)
  Goes-revert o m granted p reason class i l v n there named w =
      Goes-recording (record no_result { version = p.version })
        (Goes-revert_locked o p (sanitize reason) class v n (is_sanitized-sanitize_reason reason) m
          (record no_result { version = p.version }) i there named w)
  Goes-revert o m busy p reason class i l v n there named w = elim l [ ]
  Goes-revert o m failing p reason class i l v n there named w = elim l [ ]

-- A start reads the record and settles it.
module _ {H : Type 0} {c : Pointer} {f : Bytes → Dir} {i : Option Install}
    {Q : ProbationResult → Disk (Files H) → Type 0} where
  pub Goes-probation :
      (o : Platform) (m : Option (Migrator H)) (l : Lock) (p : Probation)
      → IsValid p
      → p.schema_version ≡ 1
      → Goes {H = Files H} (Standing c f i (stored p)) (settle o m l (some p)) Q
      → Goes {H = Files H} (Standing c f i (stored p)) (probation o m l) Q
  unfolding probation
  Goes-probation o m l p v n g = Goes-recording no_result (
      Goes-bind (λ r d. Standing c f i (stored p) d × (r ≡ some p))
        (Goes-read_probation c p (IsValid-validate p v) n)
        λ r. Goes-given (r ≡ some p) λ e.
          subst (λ q. Goes {H = Files H} (Standing c f i (stored p)) (settle o m l q) Q) (sym e) g)

-- A rollback that was begun is finished by the next start that gets the lock, wherever `current`
-- points: the previous version, which is there, is live and in the install state, and the
-- other one is blocked. The record is valid, the host's rollback hook succeeds, and no call fails.
pub probation_finishes :
    {H : Type 0} (c : Pointer) (f : Bytes → Dir) (i : Install) (o : Platform)
    (m : Option (Migrator H)) (l : Lock) (p : Probation)
    → IsValid p
    → p.schema_version ≡ 1
    → p.status ≡ reverting
    → exists (f p.previous) ≡ true
    → is_empty i.name ≡ false
    → Willing m
    → IsFree l
    → Goes {H = Files H}
        (Standing c f (some i) (stored p))
        (probation o m l)
        (IsBack p (sanitize p.reason))
unfolding settle
probation_finishes c f i o m l p v n e there named w free =
    Goes-probation o m l p v n
      (rw (ap is_reverting e) (Goes-revert o m l p p.reason [] i free v n there named w))
