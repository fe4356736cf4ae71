-- ===== src/Layout/Pointer/Progress.antt =====
-- The operations on the pointer, the install state and the launcher where no call fails.
use mathlib.Core.Path.{subst}
use idunn.Prelude.{
  ◌≡◌, ◌⊎◌, inl, inr, refl, sym, false, Option, none, some, [], ◌∷◌, Bytes, ok, ◌==◌,
}
use idunn.Txn.Journal.{Document}
use idunn.Layout.Disk.{Pointer, absent, names, Dir, Install, set_scratch}
use idunn.Layout.Effects.Progress.{
  Goes, Holding, Goes-pure, Goes-lift, Goes-look, Goes-bind, Goes-io, Goes-on_error, Goes-quiet,
  Goes-given, Goes-write_file_atomic,
}
use idunn.Layout.Pointer.{
  validate_version, is_empty, read_pointer, pointer_target, set_pointer, remove_pointer,
  write_install, promote_pending, promote_launcher,
}
use idunn.Layout.Pointer.Region.{pointer_at}

-- A version that a pointer may name, or none.
abbrev pub IsNamed : Bytes → Type 0
IsNamed v = (v ≡ []) ⊎ (validate_version v ≡ ok tt)

module _ {H : Type 0} {f : Bytes → Dir} {j : Option Document} where
  Goes-read_pointer :
      (v : Bytes)
      → IsNamed v
      → Goes {H = H}
          (Holding (pointer_at v) f j)
          (read_pointer (pointer_at v))
          (λ r d. Holding (pointer_at v) f j d × (r ≡ v))
  unfolding read_pointer
  Goes-read_pointer [] n = Goes-pure [] (λ d h. (h, refl))
  Goes-read_pointer (x ∷ v) (inl e) = cc
  Goes-read_pointer (x ∷ v) (inr e) =
      Goes-bind (λ _. Holding (names (x ∷ v)) f j) (Goes-lift _ tt e (λ d h. h))
        λ _. Goes-pure (x ∷ v) (λ d h. (h, refl))

  pub Goes-pointer_target :
      (v : Bytes)
      → IsNamed v
      → Goes {H = H}
          (Holding (pointer_at v) f j)
          pointer_target
          (λ r d. Holding (pointer_at v) f j d × (r ≡ v))
  unfolding pointer_target
  Goes-pointer_target v n =
      Goes-bind (λ p d. Holding (pointer_at v) f j d × (p ≡ pointer_at v))
        (Goes-look _ (λ d h. (h, h.0)))
        λ p. Goes-given _ λ e.
          subst
            (λ q.
              Goes {H = H} (Holding (pointer_at v) f j) (read_pointer q)
                (λ r d. Holding (pointer_at v) f j d × (r ≡ v)))
            (sym e) (Goes-read_pointer v n)

  pub Goes-set_pointer :
      {c c' : Pointer} (v : Bytes)
      → validate_version v ≡ ok tt
      → names v ≡ c'
      → Goes {H = H} (Holding c f j) (set_pointer v) (λ _. Holding c' f j)
  unfolding set_pointer set_scratch
  Goes-set_pointer {c} {c'} v e is_c' =
      Goes-bind (λ _. Holding c f j) (Goes-lift _ tt e (λ d h. h))
        λ _.
          Goes-bind (λ _. Holding c f j) (Goes-io _ (λ d h. h))
            λ _.
              Goes-bind (λ _. Holding c' f j)
                (Goes-on_error _ (Goes-io _ (λ d h. (is_c', h.1, h.2)))) λ _. Goes-quiet

  pub Goes-remove_pointer :
      {c c' : Pointer}
      → absent ≡ c'
      → Goes {H = H} (Holding c f j) remove_pointer (λ _. Holding c' f j)
  unfolding remove_pointer
  Goes-remove_pointer is_c' = Goes-io _ (λ d h. (is_c', h.1, h.2))

module _ {H : Type 0} {c : Pointer} {f : Bytes → Dir} {j : Option Document} where
  pub Goes-write_install :
      (i : Install)
      → is_empty i.name ≡ false
      → validate_version i.version ≡ ok tt
      → (i.layout_schema == 0) ≡ false
      → Goes {H = H} (Holding c f j) (write_install i) (λ _. Holding c f j)
  unfolding write_install
  Goes-write_install i named valid layout =
      Goes-bind (λ _. Holding c f j) (Goes-lift _ tt (rw named refl) (λ d h. h))
        λ _.
          Goes-bind (λ _. Holding c f j) (Goes-lift _ tt valid (λ d h. h))
            λ _.
              Goes-bind (λ _. Holding c f j) (Goes-lift _ tt (rw layout refl) (λ d h. h))
                λ _.
                  Goes-bind (λ _. Holding c f j) Goes-quiet
                    λ _. Goes-write_file_atomic _ _ (λ d h. h)

  Goes-promote_pending :
      (v : Bytes) (waiting : Option Bytes)
      → Goes {H = H} (Holding c f j) (promote_pending v waiting) (λ _. Holding c f j)
  unfolding promote_pending
  Goes-promote_pending v none = Goes-pure tt (λ d h. h)
  Goes-promote_pending v (some name) =
      Goes-bind (λ _. Holding c f j) Goes-quiet
        λ _.
          Goes-bind (λ _. Holding c f j) Goes-quiet
            λ _.
              Goes-bind (λ _. Holding c f j) Goes-quiet
                λ _.
                  Goes-bind (λ _. Holding c f j) (Goes-io _ (λ d h. h))
                    λ _.
                      Goes-bind (λ _. Holding c f j) (Goes-io _ (λ d h. h))
                        λ _. Goes-bind (λ _. Holding c f j) Goes-quiet λ _. Goes-quiet

  pub Goes-promote_launcher :
      (v : Bytes)
      → validate_version v ≡ ok tt
      → Goes {H = H} (Holding c f j) (promote_launcher v) (λ _. Holding c f j)
  unfolding promote_launcher
  Goes-promote_launcher v valid =
      Goes-bind (λ _. Holding c f j) (Goes-lift _ tt valid (λ d h. h))
        λ _.
          Goes-bind (λ _. Holding c f j) (Goes-look _ (λ d h. h))
            λ waiting. Goes-promote_pending v waiting
