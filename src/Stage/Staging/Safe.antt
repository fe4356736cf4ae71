-- ===== src/Stage/Staging/Safe.antt =====
-- Stage makes the version directory in full, beside the one that `current` names, or none.
use idunn.Prelude.{◌≡◌, ◌≢◌, Bool, true, false, List, [], ◌∷◌, Bytes, same, Option, refuse_if-false}
use idunn.Txn.Journal.{Record, deferred, Document}
use idunn.Txn.Invariant.{SoundAt}
use idunn.Txn.Invariant.Steps.{SoundAt-removed, Elsewhere-not_same, update-at}
use idunn.Txn.Recover.{remove_version}
use idunn.Layout.Disk.{whole, Dir, Pointer, update}
use idunn.Layout.Effects.Region.{
  Region, ◌⊑◌, Safe, Safe-pure, Safe-lift, Safe-look, Safe-bind, Safe-effect, Safe-io,
  Safe-on_error, Safe-quiet, Safe-unseen, Safe-given,
}
use idunn.Layout.Pointer.Region.{pointer_at, Targets, Safe-pointer_target}
use idunn.Stage.Staging.{promote_staging, keep_launcher, stage_files, stage}

module _ {H : Type 0} {p e : Region} (bad : p ⊑ e) where
  Safe-keep_launcher :
      (v name : Bytes) (b : Bool) → Safe {H = H} p (keep_launcher v name b) (λ _. p) e
  unfolding keep_launcher
  Safe-keep_launcher v name false = Safe-pure tt (λ c f j h. h)
  Safe-keep_launcher v name true =
      Safe-bind (λ _. p) (Safe-unseen _ (λ d h. h) bad)
        λ _. Safe-bind (λ _. p) (Safe-quiet bad) λ _. Safe-unseen _ (λ d h. h) bad

  Safe-stage_files :
      (v name : Bytes) (files : List Bool) → Safe {H = H} p (stage_files v name files) (λ _. p) e
  unfolding stage_files
  Safe-stage_files v name [] = Safe-pure tt (λ c f j h. h)
  Safe-stage_files v name (b ∷ rest) =
      Safe-bind (λ _. p) (Safe-quiet bad)
        λ _. Safe-bind (λ _. p) (Safe-keep_launcher v name b) λ _. Safe-stage_files v name rest

-- `last` is the record of a transaction, and `current` names the version that it came from.
abbrev pub AtBase : Record → Region
AtBase last c f j = SoundAt last c f j × (c ≡ pointer_at last.from_version)

-- Its new version is there in full.
abbrev pub Staged : Record → Region
Staged last c f j = AtBase last c f j × (f last.to_version ≡ whole)

module _ {H : Type 0} {e : Region} (last : Record) (active : last.state ≢ deferred)
    (bad : AtBase last ⊑ e) where
  Safe-promote :
      same last.to_version last.from_version ≡ false
      → Safe {H = H} (AtBase last) (promote_staging last.to_version) (λ _. Staged last) e
  unfolding promote_staging remove_version
  Safe-promote apart =
      let change : (x : Dir) (c : Pointer) (f : Bytes → Dir) (j : Option Document)
          → AtBase last c f j
          → AtBase last c (update f last.to_version x) j =
        λ x c f j h. (SoundAt-removed last x active apart h.1 h.0, h.1) in
      Safe-bind (λ _. AtBase last) (Safe-look _ (λ d h. h) bad)
        λ found.
          Safe-bind (λ _. AtBase last) (Safe-lift _ (λ _ _ c f j h. h) bad)
            λ _.
              Safe-bind (λ _. AtBase last) (Safe-quiet bad)
                λ _.
                  Safe-bind (λ _. Staged last)
                    (Safe-io _ (λ d h. (change whole _ _ _ h, update-at _ _ _)) bad
                      (λ c f j h. bad c f j h.0))
                    λ _. Safe-on_error (Safe-quiet (λ c f j h. h.0)) (
                      Safe-effect _ _ (λ d h. bad _ _ _ (change _ _ _ _ h))
                        (λ d h. bad _ _ _ (change _ _ _ _ h)) bad)

  pub Safe-stage :
      (name : Bytes) (files : List Bool)
      → Safe {H = H} (AtBase last) (stage last.to_version name files) (λ _. Staged last) e
  unfolding stage
  Safe-stage name files =
      Safe-bind (λ _. AtBase last) (Safe-lift _ (λ _ _ c f j h. h) bad)
        λ _. Safe-bind (Targets (AtBase last)) (Safe-pointer_target bad) λ live.
          Safe-bind
            (λ _ c f j. AtBase last c f j × (same last.to_version last.from_version ≡ false))
            (Safe-lift _
              (λ _ other c f j h. (
                h.0,
                Elsewhere-not_same live last.from_version last.to_version h.1 h.0.1
                    (refuse_if-false _ _ other),
              ))
              (λ c f j h. bad c f j h.0))
            λ _. Safe-given _ λ apart.
              Safe-bind (λ _. AtBase last) (Safe-unseen _ (λ d h. h) bad)
                λ _.
                  Safe-bind (λ _. AtBase last) (Safe-unseen _ (λ d h. h) bad)
                    λ _.
                      Safe-bind (λ _. AtBase last) (Safe-unseen _ (λ d h. h) bad)
                        λ _.
                          Safe-bind (λ _. AtBase last) (Safe-quiet bad)
                            λ _.
                              Safe-bind (λ _. AtBase last)
                                (Safe-stage_files bad last.to_version name files)
                                λ _. Safe-promote apart
