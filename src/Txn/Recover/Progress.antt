-- ===== src/Txn/Recover/Progress.antt =====
-- Recovery where no call fails: it settles the transaction.

use idunn.Prelude.{
  ◌≡◌, ◌≢◌, inl, inr, refl, sym, ap, ◌∙◌, true, false, Option, none, some, List, [], ◌∷◌, ◌++◌,
  Bytes, ok, same, same_iff, if◌then◌else◌,
}
use idunn.Txn.Journal.{rollback, rolled_back, Record, Document, document, next_records}
use idunn.Txn.Log.Progress.{Goes-append}
use idunn.Txn.Recover.{
  Migrator, next_record, run_hook, remove_scratch, clean_orphans, settle_pending, settle_committed,
  move_back, restore_pointer, undo_migration, remove_version, remove_target, undo_transaction,
  is_empty,
}
use idunn.Layout.Disk.{
  Pointer, absent, Dir, missing, whole, exists, at_root, at_meta, at_versions, Place, set_scratch,
  update,
}
use idunn.Layout.Effects.Progress.{
  ends, Goes, Holding, Goes-pure, Goes-lift, Goes-look, Goes-look_or, Goes-bind, Goes-io,
  Goes-effect, Goes-quiet, Goes-given, Goes-weaken, Goes-if,
}
use idunn.Layout.Pointer.{validate_version}
use idunn.Layout.Pointer.Region.{pointer_at, validate_version-names}
use idunn.Layout.Pointer.Progress.{
  IsNamed, Goes-pointer_target, Goes-set_pointer, Goes-remove_pointer, Goes-promote_launcher,
}

module _ {H : Type 0} {c : Pointer} {f : Bytes → Dir} {j : Option Document} where
  Goes-remove_scratch :
      (p : Place) → Goes {H = H} (Holding c f j) (remove_scratch p) (λ _. Holding c f j)
  unfolding remove_scratch set_scratch
  Goes-remove_scratch p = Goes-bind (λ _. Holding c f j) Goes-quiet λ _. Goes-io _ (λ d h. h)

  pub Goes-clean_orphans : Goes {H = H} (Holding c f j) clean_orphans (λ _. Holding c f j)
  unfolding clean_orphans
  Goes-clean_orphans =
      Goes-bind (λ _. Holding c f j) (Goes-io _ (λ d h. h))
        λ _.
          Goes-bind (λ _. Holding c f j) (Goes-remove_scratch at_root)
            λ _.
              Goes-bind (λ _. Holding c f j) (Goes-remove_scratch at_meta)
                λ _. Goes-remove_scratch at_versions

module _ {H : Type 0} {f : Bytes → Dir} {j : Option Document} (v : Bytes) (n : IsNamed v) where
  Goes-settle_pending :
      (to : Bytes) (waiting : Option Bytes)
      → validate_version to ≡ ok tt
      → Goes {H = H}
          (Holding (pointer_at v) f j)
          (settle_pending to waiting)
          (λ _. Holding (pointer_at v) f j)
  unfolding settle_pending
  Goes-settle_pending to none valid = Goes-clean_orphans
  Goes-settle_pending to (some name) valid =
      Goes-bind (λ r d. Holding (pointer_at v) f j d × (r ≡ v)) (Goes-pointer_target v n)
        λ live. Goes-given _ λ is_v.
          Goes-bind (λ _. Holding (pointer_at v) f j)
            (Goes-if (same live to) (λ _. Goes-promote_launcher to valid)
              (λ _. Goes-pure tt (λ d h. h)))
            λ _. Goes-clean_orphans

  pub Goes-settle_committed :
      (last : Record)
      → validate_version last.to_version ≡ ok tt
      → Goes {H = H}
          (Holding (pointer_at v) f j)
          (settle_committed last)
          (λ _. Holding (pointer_at v) f j)
  unfolding settle_committed
  Goes-settle_committed last valid =
      Goes-bind (λ _. Holding (pointer_at v) f j) (Goes-lift _ tt valid (λ d h. h))
        λ _.
          Goes-bind (λ _. Holding (pointer_at v) f j) (Goes-look_or _ _ (λ d h. h))
            λ waiting. Goes-settle_pending last.to_version waiting valid

absent_at : (v : Bytes) → is_empty v ≡ true → absent ≡ pointer_at v
absent_at [] h = refl
absent_at (x ∷ v) h = cc

full : (v : Bytes) → is_empty v ≡ false → v ≢ []
full [] h e = cc
full (x ∷ v) h e = cc

named_full : (v : Bytes) → is_empty v ≡ false → IsNamed v → validate_version v ≡ ok tt
named_full v h (inl e) = absurd (full v h e)
named_full v h (inr e) = e

-- The pointer goes back to the version that the transaction came from.
module _ {H : Type 0} {f : Bytes → Dir} {j : Option Document} (v : Bytes) (n : IsNamed v)
    (last : Record) where
  Goes-move_back :
      (live : Bytes)
      → live ≡ v
      → validate_version last.from_version ≡ ok tt
      → f last.from_version ≡ whole
      → Goes {H = H}
          (Holding (pointer_at v) f j)
          (move_back live last.from_version)
          (λ _. Holding (pointer_at last.from_version) f j)
  unfolding move_back
  Goes-move_back live is_v valid there =
      Goes-if (same live last.from_version)
        (λ e. Goes-pure tt (λ d h. (h.0 ∙ ap pointer_at (sym is_v ∙ (same_iff _ _).0 e), h.1, h.2)))
        (λ _.
          Goes-bind (λ _. Holding (pointer_at v) f j) (Goes-lift _ tt valid (λ d h. h))
            λ _.
              Goes-bind (λ b d. Holding (pointer_at v) f j d × (b ≡ true))
                (Goes-look _
                  (λ d h. (h, ap (λ g. exists (g last.from_version)) h.1 ∙ ap exists there)))
                λ found. Goes-given _ λ is_found.
                  Goes-bind (λ _. Holding (pointer_at v) f j)
                    (Goes-lift _ tt (rw is_found refl) (λ d h. h))
                    λ _.
                      Goes-set_pointer last.from_version valid
                        (validate_version-names last.from_version valid))

  Goes-restore_pointer :
      IsNamed last.from_version
      → (last.from_version ≢ [] → f last.from_version ≡ whole)
      → Goes {H = H}
          (Holding (pointer_at v) f j)
          (restore_pointer last)
          (λ _. Holding (pointer_at last.from_version) f j)
  unfolding restore_pointer
  Goes-restore_pointer from there =
      Goes-if (is_empty last.from_version) (λ e. Goes-remove_pointer (absent_at _ e))
        (λ e.
          Goes-bind (λ r d. Holding (pointer_at v) f j d × (r ≡ v)) (Goes-pointer_target v n)
            λ live. Goes-given _ λ is_v.
              Goes-move_back live is_v (named_full last.from_version e from) (there (full _ e)))

-- The hook that undoes a migration does not fail.
abbrev pub Undoes : {H : Type 0} → Option (Migrator H) → Record → Type 0
Undoes none last = Unit {0}
Undoes {H} (some m) last = (h : H) → (m.undo last.from_version last.to_version h).0 ≡ true

module _ {H : Type 0} {c : Pointer} {f : Bytes → Dir} {j : Option Document} where
  Goes-undo_migration :
      (m : Option (Migrator H)) (last : Record)
      → Undoes m last
      → Goes (Holding c f j) (undo_migration m last) (λ _. Holding c f j)
  unfolding undo_migration run_hook
  Goes-undo_migration none last u = Goes-pure tt (λ d h. h)
  Goes-undo_migration (some m) last u = record { at = λ d h. rw (u d.host) (ends tt _ h) }

-- The version directories after a rollback.
abbrev pub undone : (Bytes → Dir) → Record → Bytes → Dir
undone f last =
    if same last.to_version last.from_version then f else update f last.to_version missing

undone-same :
    (f : Bytes → Dir) (last : Record)
    → same last.to_version last.from_version ≡ true
    → undone f last ≡ f
undone-same f last e = rw e

undone-other :
    (f : Bytes → Dir) (last : Record)
    → same last.to_version last.from_version ≡ false
    → undone f last ≡ update f last.to_version missing
undone-other f last e = rw e

module _ {H : Type 0} {c : Pointer} {f : Bytes → Dir} {j : Option Document} where
  Goes-remove_target :
      (last : Record)
      → validate_version last.to_version ≡ ok tt
      → Goes {H = H} (Holding c f j) (remove_target last) (λ _. Holding c (undone f last) j)
  unfolding remove_target remove_version
  Goes-remove_target last valid =
      Goes-if (same last.to_version last.from_version)
        (λ e. Goes-pure tt (λ d h. (h.0, h.1 ∙ sym (undone-same f last e), h.2)))
        (λ e.
          Goes-bind (λ _. Holding c f j) (Goes-lift _ tt valid (λ d h. h))
            λ _. Goes-effect _ _ (λ d h. (
              h.0,
              ap (λ g. update g last.to_version missing) h.1 ∙ sym (undone-other f last e),
              h.2,
            )))

-- What a rollback needs beside a sound root: names that are versions, a hook that does not fail,
-- and a journal that takes the record of the rollback.
pub record Undoable {H : Type 0} (m : Option (Migrator H)) (f : Bytes → Dir) (records : List Record)
    (last : Record) : Type 0 where
  pub from : IsNamed last.from_version
  pub to : validate_version last.to_version ≡ ok tt
  pub there : last.from_version ≢ [] → f last.from_version ≡ whole
  pub hook : Undoes m last
  pub room :
      next_records records (next_record last rolled_back rollback)
      ≡ ok (records ++ next_record last rolled_back rollback ∷ [])

-- The journal after a rollback.
abbrev pub undone_journal : List Record → Record → Option Document
undone_journal records last =
    some (document (records ++ next_record last rolled_back rollback ∷ []))

module _ {H : Type 0} {f : Bytes → Dir} {j : Option Document} (v : Bytes) (n : IsNamed v)
    (m : Option (Migrator H)) (records : List Record) (last : Record) where
  pub Goes-undo_transaction :
      Undoable m f records last
      → Goes (Holding (pointer_at v) f j) (undo_transaction m records last) (λ _.
        Holding (pointer_at last.from_version) (undone f last) (undone_journal records last))
  unfolding undo_transaction
  Goes-undo_transaction u =
      Goes-bind (λ _. Holding (pointer_at last.from_version) f j)
        (Goes-restore_pointer v n last u.from u.there)
        λ _.
          Goes-bind (λ _. Holding (pointer_at last.from_version) f j)
            (Goes-undo_migration m last u.hook)
            λ _.
              Goes-bind (λ _. Holding (pointer_at last.from_version) (undone f last) j)
                (Goes-remove_target last u.to)
                λ _.
                  Goes-bind
                    (λ r d.
                      Holding (pointer_at last.from_version) (undone f last)
                        (undone_journal records last) d
                      × (r ≡ _))
                    (Goes-append records _ _ u.room)
                    λ r. Goes-weaken Goes-clean_orphans (λ d h. h.0)
