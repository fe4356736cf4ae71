-- ===== src/Probation/Start/Revert.antt =====
-- A rollback of a version on probation where no call fails: it ends with the previous version live
-- and the other one blocked, wherever the pointer stood.
use mathlib.Core.Path.{subst}
use idunn.Prelude.{
  ◌≡◌, refl, sym, ap, ◌∙◌, true, false, Option, none, some, [], ◌∷◌, Bytes, ok, same, same_iff,
  if◌then◌else◌, Bool-cases, inl, inr,
}
use idunn.Layout.Disk.{Disk, Pointer, names, Dir, Install, exists}
use idunn.Layout.Effects.{lift, attempt, ◌>>◌}
use idunn.Layout.Effects.Progress.{
  ends, Goes, Goes-pure, Goes-lift, Goes-look, Goes-bind, Goes-quiet, Goes-effect, Goes-given,
  Goes-weaken,
}
use idunn.Layout.Pointer.{is_empty, validate_version}
use idunn.Txn.Recover.{Migrator, run_hook, remove_version}
use idunn.Probation.Reason.{Runes}
use idunn.Probation.Record.{
  reverting, reverted, Probation, Stored, stored, validate, validate_blocked, is_sanitized,
}
use idunn.Probation.Record.Valid.{IsValid, IsValid-validate, IsValid-decided}
use idunn.Probation.Files.{Files}
use idunn.Probation.Changes.{is_reverting, to_reverting, to_reverted}
use idunn.Probation.Outcomes.{rolled_back}
use idunn.Probation.Reports.{write_probation_outcome}
use idunn.Probation.Start.{
  Platform, ProbationResult, record_outcome, undo_migration, begin_revert, settle_install,
  move_back, layout_schema, revert_locked,
}
use idunn.Probation.Start.Rules.{
  Standing, Goes-write, Goes-write_probation, Goes-swap, Goes-write_install, Stays-goes, Stays-lift,
  Stays-bind, Goes-attempt,
}

-- A host whose rollback hook succeeds.
unfoldable pub Willing : {H : Type 0} → Option (Migrator H) → Type 0
Willing none = Unit
Willing {H} (some m) = (from to : Bytes) (h : H) → (m.undo from to h).0 ≡ true

module _ {H : Type 0} {c : Pointer} {f : Bytes → Dir} {i : Option Install} {s : Stored} where
  Goes-record_outcome :
      (o : Platform) (p : Probation) (result class : Bytes)
      → Goes {H = Files H}
          (Standing c f i s)
          (record_outcome o p result class)
          (λ _. Standing c f i s)
  unfolding record_outcome write_probation_outcome
  Goes-record_outcome o p result [] = Goes-pure tt (λ d h. h)
  Goes-record_outcome o p result (x ∷ class) = Goes-attempt (
      Stays-bind (Stays-lift _) λ _.
        Stays-bind (Stays-goes (Goes-look {Q = λ _. Standing c f i s} _ (λ d h. h))) λ pending.
          Stays-bind (Stays-lift _) λ _.
            Stays-bind (Stays-goes Goes-quiet)
              λ _. Stays-goes (Goes-write {c = c} {f = f} {i = i} {s = s} _ _ (λ d h. h)))

  Goes-undo_migration :
      (m : Option (Migrator H)) (p : Probation)
      → Willing m
      → Goes {H = Files H} (Standing c f i s) (undo_migration m p) (λ _. Standing c f i s)
  unfolding undo_migration Willing run_hook
  Goes-undo_migration none p k = Goes-pure tt (λ d h. h)
  Goes-undo_migration (some m) p k = record {
    at = λ d h. rw (k p.previous p.version d.host.app) (ends tt _ h);
  }

-- The install state after a rollback to `previous`.
settled : Bytes → Install → Install
settled previous i =
    if same i.version previous
    then i
    else record { name = i.name; version = previous; layout_schema = layout_schema }

settled-version : (previous : Bytes) (i : Install) → (settled previous i).version ≡ previous
unfolding settled
settled-version previous i = elim (Bool-cases (same i.version previous)) [
  | inl e ↦ rw (e) ((same_iff i.version previous).0 e)
  | inr e ↦ rw (e) refl
]

module _ {H : Type 0} {c : Pointer} {f : Bytes → Dir} {s : Stored} where
  Goes-settle_install :
      (previous : Bytes) (i : Install)
      → validate_version previous ≡ ok tt
      → is_empty i.name ≡ false
      → Goes {H = Files H}
          (Standing c f (some i) s)
          (settle_install previous (some i))
          (λ _. Standing c f (some (settled previous i)) s)
  unfolding settle_install settled
  Goes-settle_install previous i v n = elim (Bool-cases (same i.version previous)) [
    | inl e ↦ rw (e) (Goes-pure tt (λ d h. h))
    | inr e ↦ rw (e) (Goes-write_install _ n v (refl))
  ]

-- The record as a rollback to come finds it.
begun : Runes → Probation → Probation
begun reason p = if is_reverting p.status then p else to_reverting reason p

reverted-schema :
    (p : Probation) (reason : Runes)
    → p.schema_version ≡ 1
    → (to_reverted reason p).schema_version ≡ 1
unfolding to_reverted
reverted-schema p reason n = n

-- What a finished rollback of `p` leaves: the previous version live and in the install state, and
-- the version of the record blocked, for a reason.
pub record IsBack {H : Type 0} (p : Probation) (reason : Runes) (r : ProbationResult)
    (d : Disk (Files H)) : Type 0 where
  pub live : d.current ≡ names p.previous
  pub installed : (j : Install) × (d.install ≡ some j) × (j.version ≡ p.previous)
  pub blocks : d.host.probation ≡ stored (to_reverted reason p)
  pub told : r.is_reverted ≡ true

reverted-valid :
    (p : Probation) (reason : Runes)
    → IsValid p
    → is_sanitized reason ≡ true
    → validate (to_reverted reason p) ≡ ok tt
unfolding to_reverted validate_blocked
reverted-valid p reason v clean = IsValid-validate (to_reverted reason p) (
    IsValid-decided p reverted reason false (some (record { version = p.version; reason = reason }))
      v refl clean (rw (v.version_valid, clean) refl))

-- The removal of the version that was rolled back, on a best-effort basis.
Goes-tidy :
    {H : Type 0} (v : Bytes) (c : Pointer) (i : Option Install) (s : Stored)
    → Goes {H = Files H}
        (λ d. (d.current ≡ c) × (d.install ≡ i) × (d.host.probation ≡ s))
        (attempt (lift (validate_version v) >> remove_version v))
        (λ _ d. (d.current ≡ c) × (d.install ≡ i) × (d.host.probation ≡ s))
unfolding remove_version
Goes-tidy v c i s = Goes-attempt (
    Stays-bind (Stays-lift _) λ _. Stays-goes (
      Goes-effect {Q = λ _ d. (d.current ≡ c) × (d.install ≡ i) × (d.host.probation ≡ s)} _ _
        (λ d h. h)))

module _ {H : Type 0} {c : Pointer} {f : Bytes → Dir} (o : Platform) (p : Probation)
    (reason : Runes) (class : Bytes) (v : IsValid p) (n : p.schema_version ≡ 1)
    (clean : is_sanitized reason ≡ true) where
  Goes-begin_revert :
      (i : Option Install)
      → Goes {H = Files H}
          (Standing c f i (stored p))
          (begin_revert o p reason class)
          (λ _. Standing c f i (stored (begun reason p)))
  unfolding begin_revert to_reverting begun
  Goes-begin_revert i = elim (Bool-cases (is_reverting p.status)) [
    | inl e ↦ rw (e) (Goes-pure tt (λ d h. h))
    | inr e ↦
        let q = to_reverting reason p in
        let ok_q : validate q ≡ ok tt = IsValid-validate q (
          IsValid-decided p reverting reason p.restart_pending p.blocked v refl clean
            (v.blocked_valid)) in
        rw (e) (
          Goes-bind (λ _. Standing c f i (stored q)) (Goes-write_probation q ok_q n)
            λ _. Goes-record_outcome o q rolled_back class)
  ]

  pub Goes-move_back :
      (m : Option (Migrator H)) (pr : ProbationResult) (i : Install)
      → exists (f p.previous) ≡ true
      → is_empty i.name ≡ false
      → Willing m
      → Goes {H = Files H}
          (Standing c f (some i) (stored p))
          (move_back o m pr p reason class)
          (IsBack p reason)
  unfolding move_back
  Goes-move_back m pr i there named w =
      let s = stored (begun reason p) in
      let back = names p.previous in
      let j = settled p.previous i in
      let End : Disk (Files H) → Type 0 = λ d.
        (d.current ≡ back)
        × (d.install ≡ some j)
        × (d.host.probation ≡ stored (to_reverted reason p)) in
      Goes-bind (λ _. Standing c f (some i) s) (Goes-begin_revert (some i))
        λ _.
          Goes-bind (λ _. Standing back f (some i) s)
            (Goes-swap p.previous (v.previous_valid) there)
            λ _.
              Goes-bind (λ _. Standing back f (some i) s) (Goes-undo_migration m p w)
                λ _.
                  Goes-bind (λ r d. Standing back f (some i) s d × (r ≡ some i))
                    (Goes-look _ (λ d h. (h, h.2)))
                    λ r.
                      Goes-bind (λ _. Standing back f (some j) s)
                        (Goes-given (r ≡ some i) λ e.
                          subst
                            (λ q.
                              Goes {H = Files H} (Standing back f (some i) s)
                                (settle_install p.previous q) (λ _. Standing back f (some j) s))
                            (sym e) (Goes-settle_install p.previous i (v.previous_valid) named))
                        λ _.
                          Goes-bind (λ _. Standing back f (some j) (stored (to_reverted reason p)))
                            (Goes-write_probation (to_reverted reason p)
                              (reverted-valid p reason v clean) (reverted-schema p reason n))
                            λ _.
                              Goes-bind (λ _. End)
                                (Goes-weaken
                                  (Goes-tidy p.version back (some j)
                                    (stored (to_reverted reason p)))
                                  (λ d h. (h.0, h.2, h.3)))
                                λ _. Goes-pure _ λ d h. record {
                                  live = h.0;
                                  installed = (j, h.1, settled-version p.previous i);
                                  blocks = h.2;
                                  told = refl;
                                }

  pub Goes-revert_locked :
      (m : Option (Migrator H)) (pr : ProbationResult) (i : Install)
      → exists (f p.previous) ≡ true
      → is_empty i.name ≡ false
      → Willing m
      → Goes {H = Files H}
          (Standing c f (some i) (stored p))
          (revert_locked o m pr p reason class)
          (IsBack p reason)
  unfolding revert_locked
  Goes-revert_locked m pr i there named w =
      let s = Standing c f (some i) (stored p) in
      Goes-bind (λ _. s) (Goes-lift _ tt (v.previous_valid) (λ d h. h))
        λ _.
          Goes-bind (λ r d. s d × (r ≡ true))
            (Goes-look _ (λ d h. (h, ap (λ g. exists (g p.previous)) h.1 ∙ there)))
            λ r. Goes-given (r ≡ true) λ e. rw (e) (Goes-move_back m pr i there named w)
