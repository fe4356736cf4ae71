-- ===== src/Probation/Start/Rules.antt =====
-- The calls of a start on the probation record, the pointer and the install state, where no call
-- of the filesystem fails.
use mathlib.Core.Path.{subst}
use idunn.Prelude.{
  ◌≡◌, refl, sym, ap, ◌∙◌, true, false, Option, some, [], Bytes, Result, ok, err, ◌==◌,
}
use idunn.Txn.Journal.{Error}
use idunn.Layout.Disk.{Disk, Pointer, names, Dir, Place, Install, set_scratch, exists}
use idunn.Layout.Effects.{World, Action, lift, attempt, write_file_atomic, ◌>>=◌, continue}
use idunn.Layout.Effects.Progress.{
  Ends, ends, Goes, Goes-pure, Goes-lift, Goes-look, Goes-bind, Goes-io, Goes-on_error, Goes-quiet,
  Goes-given,
}
use idunn.Layout.Pointer.{
  is_empty, validate_version, read_pointer, pointer_target, set_pointer, write_install,
}
use idunn.Stage.Swap.{swap}
use idunn.Probation.Record.{Probation, Stored, stored, probation_schema, validate}
use idunn.Probation.Files.{Files, decode, read_probation, store, write_probation}

-- A disk with this pointer, these version directories, this install state and this record.
abbrev pub Standing :
    {H : Type 0} → Pointer → (Bytes → Dir) → Option Install → Stored → Disk (Files H) → Type 0
Standing c f i s d = (d.current ≡ c) × (d.dirs ≡ f) × (d.install ≡ i) × (d.host.probation ≡ s)

module _ {H : Type 0} {c : Pointer} {f : Bytes → Dir} {i : Option Install} {s : Stored} where
  pub Goes-write :
      {c' : Pointer} {f' : Bytes → Dir} {i' : Option Install} {s' : Stored} (p : Place)
      (g : Disk (Files H) → Disk (Files H))
      → ((d : Disk (Files H)) → Standing c f i s d → Standing c' f' i' s' (g d))
      → Goes (Standing c f i s) (write_file_atomic p g) (λ _. Standing c' f' i' s')
  unfolding write_file_atomic set_scratch
  Goes-write {c'} {f'} {i'} {s'} p g k =
      Goes-bind (λ _. Standing c f i s) (Goes-io _ (λ d h. h))
        λ _.
          Goes-bind (λ _. Standing c f i s) (Goes-on_error _ Goes-quiet)
            λ _.
              Goes-bind (λ _. Standing c f i s) (Goes-on_error _ Goes-quiet)
                λ _.
                  Goes-bind (λ _. Standing c f i s) (Goes-on_error _ Goes-quiet)
                    λ _.
                      Goes-bind (λ _. Standing c' f' i' s') (Goes-on_error _ (Goes-io _ k))
                        λ _. Goes-quiet

  pub Goes-write_probation :
      (p : Probation)
      → validate p ≡ ok tt
      → p.schema_version ≡ 1
      → Goes {H = Files H} (Standing c f i s) (write_probation p) (λ _. Standing c f i (stored p))
  unfolding write_probation store
  Goes-write_probation p v n =
      let same_record : record p { schema_version = probation_schema } ≡ p =
        ap (λ m. record p { schema_version = m }) (sym n) in
      Goes-bind (λ _. Standing c f i s) (Goes-lift _ tt (ap validate same_record ∙ v) (λ d h. h))
        λ _.
          Goes-bind (λ _. Standing c f i s) Goes-quiet
            λ _. Goes-write _ _ (λ d h. (h.0, h.1, h.2, ap stored same_record))

  pub Goes-swap :
      (v : Bytes)
      → validate_version v ≡ ok tt
      → exists (f v) ≡ true
      → Goes {H = Files H} (Standing c f i s) (swap v) (λ _. Standing (names v) f i s)
  unfolding swap set_pointer set_scratch
  Goes-swap v h e =
      Goes-bind (λ _. Standing c f i s) (Goes-lift _ tt h (λ d k. k))
        λ _.
          Goes-bind (λ r d. Standing c f i s d × (r ≡ true))
            (Goes-look _ (λ d k. (k, ap (λ g. exists (g v)) k.1 ∙ e)))
            λ r.
              Goes-bind (λ _. Standing c f i s)
                (Goes-given (r ≡ true) λ t. Goes-lift _ tt (rw (t) refl) (λ d k. k))
                λ _.
                  Goes-bind (λ _. Standing c f i s) (Goes-lift _ tt h (λ d k. k))
                    λ _.
                      Goes-bind (λ _. Standing c f i s) (Goes-io _ (λ d k. k))
                        λ _.
                          Goes-bind (λ _. Standing (names v) f i s)
                            (Goes-on_error _ (Goes-io _ (λ d k. (refl, k.1, k.2, k.3))))
                            λ _. Goes-quiet

  pub Goes-write_install :
      (j : Install)
      → is_empty j.name ≡ false
      → validate_version j.version ≡ ok tt
      → (j.layout_schema == 0) ≡ false
      → Goes {H = Files H} (Standing c f i s) (write_install j) (λ _. Standing c f (some j) s)
  unfolding write_install
  Goes-write_install j n v l =
      Goes-bind (λ _. Standing c f i s) (Goes-lift _ tt (rw (n) refl) (λ d k. k))
        λ _.
          Goes-bind (λ _. Standing c f i s) (Goes-lift _ tt v (λ d k. k))
            λ _.
              Goes-bind (λ _. Standing c f i s) (Goes-lift _ tt (rw (l) refl) (λ d k. k))
                λ _.
                  Goes-bind (λ _. Standing c f i s) Goes-quiet
                    λ _. Goes-write _ _ (λ d k. (k.0, k.1, refl, k.3))

-- The pointer and the record, read where they stand.
module _ {H : Type 0} {f : Bytes → Dir} {i : Option Install} where
  pub Goes-pointer_target :
      (v : Bytes) (s : Stored)
      → validate_version v ≡ ok tt
      → Goes {H = Files H}
          (Standing (names v) f i s)
          pointer_target
          (λ r d. Standing (names v) f i s d × (r ≡ v))
  unfolding pointer_target read_pointer
  Goes-pointer_target v s h =
      Goes-bind (λ r d. Standing (names v) f i s d × (r ≡ names v)) (Goes-look _ (λ d k. (k, k.0)))
        λ r. Goes-given (r ≡ names v) λ e.
          subst
            (λ q.
              Goes {H = Files H} (Standing (names v) f i s) (read_pointer q)
                (λ u d. Standing (names v) f i s d × (u ≡ v)))
            (sym e)
            (Goes-bind (λ _. Standing (names v) f i s) (Goes-lift _ tt h (λ d k. k))
              λ _. Goes-pure v (λ d k. (k, refl)))

  pub Goes-read_probation :
      (c : Pointer) (p : Probation)
      → validate p ≡ ok tt
      → p.schema_version ≡ 1
      → Goes {H = Files H}
          (Standing c f i (stored p))
          read_probation
          (λ r d. Standing c f i (stored p) d × (r ≡ some p))
  unfolding read_probation decode
  Goes-read_probation c p v n =
      Goes-bind (λ r d. Standing c f i (stored p) d × (r ≡ stored p))
        (Goes-look _ (λ d k. (k, k.3)))
        λ r. Goes-given (r ≡ stored p) λ e.
          subst
            (λ q.
              Goes {H = Files H} (Standing c f i (stored p)) (decode q)
                (λ u d. Standing c f i (stored p) d × (u ≡ some p)))
            (sym e)
            (Goes-bind (λ _. Standing c f i (stored p)) (Goes-lift _ tt (rw (n) refl) (λ d k. k))
              λ _.
                Goes-bind (λ _. Standing c f i (stored p)) (Goes-lift _ tt v (λ d k. k))
                  λ _. Goes-pure (some p) (λ d k. (k, refl)))

-- A run in which no call fails, on whatever it answers, leaves the disk with `P`.
pub data Leaves {H A : Type 0} (P : Disk H → Type 0) : Result Error A × World H → Type 0 where
  leaves :
      (r : Result Error A) (d : Disk H) → P d → Leaves P (r, record { disk = d; outcomes = [] })

pub record Stays {H A : Type 0} (P : Disk H → Type 0) (m : Action H A) : Type 0 where
  pub at : (d : Disk H) → P d → Leaves P (m (record { disk = d; outcomes = [] }))

module _ {H : Type 0} {P : Disk H → Type 0} where
  Goes-Leaves : {A : Type 0} (x : Result Error A × World H) → Ends (λ _. P) x → Leaves P x
  Goes-Leaves _ (ends a d h) = leaves (ok a) d h

  pub Stays-goes : {A : Type 0} {m : Action H A} → Goes P m (λ _. P) → Stays P m
  Stays-goes g = record { at = λ d h. Goes-Leaves _ (g.at d h) }

  pub Stays-lift : {A : Type 0} (r : Result Error A) → Stays P (lift r)
  unfolding lift
  Stays-lift r = record { at = λ d h. leaves r d h }

  Leaves-continue :
      {A B : Type 0} (f : A → Action H B) (x : Result Error A × World H)
      → Leaves P x
      → ((a : A) → Stays P (f a))
      → Leaves P (continue x.0 f x.1)
  unfolding continue
  Leaves-continue f _ (leaves (ok a) d h) k = (k a).at d h
  Leaves-continue f _ (leaves (err e) d h) k = leaves (err e) d h

  pub Stays-bind :
      {A B : Type 0} {m : Action H A} {f : A → Action H B}
      → Stays P m
      → ((a : A) → Stays P (f a))
      → Stays P (m >>= f)
  unfolding ◌>>=◌
  Stays-bind {A} {B} {m} {f} s k = record { at = λ d h. Leaves-continue f _ (s.at d h) k }

  Leaves-Ends :
      {A : Type 0} (x : Result Error A × World H) → Leaves P x → Ends (λ _. P) (ok tt, x.1)
  Leaves-Ends _ (leaves r d h) = ends tt d h

  pub Goes-attempt : {A : Type 0} {m : Action H A} → Stays P m → Goes P (attempt m) (λ _. P)
  unfolding attempt
  Goes-attempt s = record { at = λ d h. Leaves-Ends _ (s.at d h) }
