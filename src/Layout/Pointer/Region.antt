-- ===== src/Layout/Pointer/Region.antt =====
-- What the operations of the pointer, the install state and the launcher do to a region.
use idunn.Prelude.{◌≡◌, refl, ◌∙◌, true, false, Option, none, some, [], ◌∷◌, Bytes, ok, arith}
use idunn.Release.Version.{valid_version}
use idunn.Txn.Journal.{Document}
use idunn.Layout.Disk.{Pointer, Dir, absent, names, foreign, Install, at_meta, set_scratch}
use idunn.Layout.Effects.Region.{
  Region, ◌⊑◌, Safe, Safe-pure, Safe-raise, Safe-lift, Safe-look, Safe-bind, Safe-io, Safe-on_error,
  Safe-quiet, Safe-unseen, Safe-write_file_atomic,
}
use idunn.Layout.Pointer.{
  is_empty, validate_version, read_pointer, pointer_target, set_pointer, remove_pointer,
  write_install, promote_pending, promote_launcher,
}

-- The pointer to a version, where the empty text stands for no installation.
abbrev pub pointer_at : Bytes → Pointer
pointer_at [] = absent
pointer_at (c ∷ s) = names (c ∷ s)

pub validate_version-eq-ok :
    (v : Bytes) → validate_version v ≡ ok tt → (is_empty v ≡ false) × (valid_version v ≡ true)
unfolding validate_version
validate_version-eq-ok v h = ground arith

pub validate_version-names : (v : Bytes) → validate_version v ≡ ok tt → names v ≡ pointer_at v
unfolding validate_version
validate_version-names [] h = ground arith
validate_version-names (c ∷ s) h = refl

abbrev pub Targets : Region → Bytes → Region
Targets p v c f j = p c f j × (c ≡ pointer_at v)

module _ {H : Type 0} {p e : Region} (bad : p ⊑ e) where
  Safe-read_pointer :
      (t : Pointer) → Safe {H = H} (λ c f j. p c f j × (c ≡ t)) (read_pointer t) (Targets p) e
  unfolding read_pointer
  Safe-read_pointer absent = Safe-pure [] (λ c f j h. h)
  Safe-read_pointer foreign = Safe-raise _ (λ c f j h. bad c f j h.0)
  Safe-read_pointer (names v) =
      Safe-bind (λ _. Targets p v)
        (Safe-lift _ (λ u valid c f j h. (h.0, h.1 ∙ validate_version-names v valid))
          (λ c f j h. bad c f j h.0))
        (λ _. Safe-pure v (λ c f j h. h))

  pub Safe-pointer_target : Safe {H = H} p pointer_target (Targets p) e
  unfolding pointer_target
  Safe-pointer_target =
      Safe-bind (λ t c f j. p c f j × (c ≡ t)) (Safe-look _ (λ d h. (h, refl)) bad)
        Safe-read_pointer

  pub Safe-write_install : (i : Install) → Safe {H = H} p (write_install i) (λ _. p) e
  unfolding write_install
  Safe-write_install i =
      Safe-bind (λ _. p) (Safe-lift _ (λ _ _ c f j h. h) bad)
        λ _.
          Safe-bind (λ _. p) (Safe-lift _ (λ _ _ c f j h. h) bad)
            λ _.
              Safe-bind (λ _. p) (Safe-lift _ (λ _ _ c f j h. h) bad)
                λ _.
                  Safe-bind (λ _. p) (Safe-quiet bad)
                    λ _. Safe-write_file_atomic at_meta _ (λ d h. h) bad bad

  Safe-promote_pending :
      (v : Bytes) (waiting : Option Bytes) → Safe {H = H} p (promote_pending v waiting) (λ _. p) e
  unfolding promote_pending
  Safe-promote_pending v none = Safe-pure tt (λ c f j h. h)
  Safe-promote_pending v (some name) =
      Safe-bind (λ _. p) (Safe-quiet bad)
        λ _.
          Safe-bind (λ _. p) (Safe-quiet bad)
            λ _.
              Safe-bind (λ _. p) (Safe-quiet bad)
                λ _.
                  Safe-bind (λ _. p) (Safe-unseen _ (λ d h. h) bad)
                    λ _.
                      Safe-bind (λ _. p) (Safe-unseen _ (λ d h. h) bad)
                        λ _. Safe-bind (λ _. p) (Safe-quiet bad) λ _. Safe-quiet bad

  pub Safe-promote_launcher : (v : Bytes) → Safe {H = H} p (promote_launcher v) (λ _. p) e
  unfolding promote_launcher
  Safe-promote_launcher v =
      Safe-bind (λ _. p) (Safe-lift _ (λ _ _ c f j h. h) bad)
        λ _.
          Safe-bind (λ _. p) (Safe-look _ (λ d h. h) bad) λ waiting. Safe-promote_pending v waiting

module _ {H : Type 0} {p q e : Region} (bad : p ⊑ e) (bad' : q ⊑ e) where
  pub Safe-set_pointer :
      (v : Bytes)
      → ((c : Pointer) (f : Bytes → Dir) (j : Option Document) → p c f j → q (names v) f j)
      → Safe {H = H} p (set_pointer v) (λ _. q) e
  unfolding set_pointer set_scratch
  Safe-set_pointer v g =
      Safe-bind (λ _. p) (Safe-lift _ (λ _ _ c f j h. h) bad)
        λ _.
          Safe-bind (λ _. p) (Safe-unseen _ (λ d h. h) bad)
            λ _.
              Safe-bind (λ _. q)
                (Safe-on_error (Safe-io _ (λ d h. g _ _ _ h) bad bad')
                  (Safe-unseen _ (λ d h. h) (λ c f j h. h)))
                λ _. Safe-quiet bad'

  pub Safe-remove_pointer :
      ((c : Pointer) (f : Bytes → Dir) (j : Option Document) → p c f j → q absent f j)
      → Safe {H = H} p remove_pointer (λ _. q) e
  unfolding remove_pointer
  Safe-remove_pointer g = Safe-io _ (λ d h. g _ _ _ h) bad bad'
