-- ===== src/Layout/Effects/Progress.antt =====
-- What an action does when every call takes effect.

use idunn.Prelude.{◌≡◌, refl, Bool, true, false, [], Option, Bytes, Result, ok, if◌then◌else◌}
use idunn.Txn.Journal.{Error, Document}
use idunn.Layout.Disk.{Disk, Pointer, Dir, Place, set_scratch}
use idunn.Layout.Effects.{
  World, Action, pure, lift, look, look_or, effect, io, quiet, on_error, write_file_atomic, ◌>>=◌,
  continue, handle,
}

-- The run returns `a`, every call took effect, and the disk it leaves satisfies `Q`.
pub data Ends {H A : Type 0} (Q : A → Disk H → Type 0) : Result Error A × World H → Type 0 where
  ends : (a : A) (d : Disk H) → Q a d → Ends Q (ok a, record { disk = d; outcomes = [] })

-- From a disk with `P`, where no call fails, the action returns a value.
pub record Goes {H A : Type 0} (P : Disk H → Type 0) (m : Action H A) (Q : A → Disk H → Type 0)
    : Type 0 where
  pub at : (d : Disk H) → P d → Ends Q (m (record { disk = d; outcomes = [] }))

module _ {H A : Type 0} {P : Disk H → Type 0} {Q : A → Disk H → Type 0} where
  pub Goes-pure : (a : A) → ((d : Disk H) → P d → Q a d) → Goes P (pure a) Q
  unfolding pure
  Goes-pure a f = record { at = λ d h. ends a d (f d h) }

  pub Goes-lift :
      (r : Result Error A) (a : A) → r ≡ ok a → ((d : Disk H) → P d → Q a d) → Goes P (lift r) Q
  unfolding lift
  Goes-lift r a e f = record { at = λ d h. rw e (ends a d (f d h)) }

  pub Goes-look : (g : Disk H → A) → ((d : Disk H) → P d → Q (g d) d) → Goes P (look g) Q
  unfolding look
  Goes-look g f = record { at = λ d h. ends (g d) d (f d h) }

  pub Goes-look_or :
      (x : A) (g : Disk H → A) → ((d : Disk H) → P d → Q (g d) d) → Goes P (look_or x g) Q
  unfolding look_or look
  Goes-look_or x g f = record { at = λ d h. ends (g d) d (f d h) }

  pub Goes-weaken :
      {P' : Disk H → Type 0} {m : Action H A}
      → Goes P' m Q
      → ((d : Disk H) → P d → P' d)
      → Goes P m Q
  Goes-weaken g f = record { at = λ d h. g.at d (f d h) }

  pub Goes-if :
      (b : Bool) {m n : Action H A}
      → (b ≡ true → Goes P m Q)
      → (b ≡ false → Goes P n Q)
      → Goes P (if b then m else n) Q
  Goes-if true f g = f refl
  Goes-if false f g = g refl

  pub Goes-given : {m : Action H A} (K : Type 0) → (K → Goes P m Q) → Goes (λ d. P d × K) m Q
  Goes-given K g = record { at = λ d h. (g h.1).at d h.0 }

module _ {H A : Type 0} {Q R : A → Disk H → Type 0} (k : (a : A) (d : Disk H) → R a d → Q a d) where
  Ends-map : (x : Result Error A × World H) → Ends R x → Ends Q x
  Ends-map _ (ends a d h) = ends a d (k a d h)

  pub Goes-strengthen : {P : Disk H → Type 0} {m : Action H A} → Goes P m R → Goes P m Q
  Goes-strengthen g = record { at = λ d h. Ends-map _ (g.at d h) }

module _ {H A B : Type 0} {Q : B → Disk H → Type 0} where
  Ends-continue :
      (R : A → Disk H → Type 0) (f : A → Action H B) (x : Result Error A × World H)
      → Ends R x
      → ((a : A) → Goes (R a) (f a) Q)
      → Ends Q (continue x.0 f x.1)
  unfolding continue
  Ends-continue R f _ (ends a d h) k = (k a).at d h

module _ {H A B : Type 0} {P : Disk H → Type 0} {Q : B → Disk H → Type 0} where
  pub Goes-bind :
      (R : A → Disk H → Type 0) {m : Action H A} {f : A → Action H B}
      → Goes P m R
      → ((a : A) → Goes (R a) (f a) Q)
      → Goes P (m >>= f) Q
  unfolding ◌>>=◌
  Goes-bind R {m} {f} g k = record { at = λ d h. Ends-continue R f _ (g.at d h) k }

module _ {H : Type 0} {Q : Unit {0} → Disk H → Type 0} where
  Ends-handle :
      (cleanup : Action H (Unit {0})) (x : Result Error (Unit {0}) × World H)
      → Ends Q x
      → Ends Q (handle x.0 cleanup x.1)
  unfolding handle
  Ends-handle cleanup _ (ends a d h) = ends a d h

module _ {H : Type 0} {P : Disk H → Type 0} {Q : Unit {0} → Disk H → Type 0} where
  pub Goes-effect :
      (f part : Disk H → Disk H) → ((d : Disk H) → P d → Q tt (f d)) → Goes P (effect f part) Q
  unfolding effect
  Goes-effect f part g = record { at = λ d h. ends tt (f d) (g d h) }

  pub Goes-io : (f : Disk H → Disk H) → ((d : Disk H) → P d → Q tt (f d)) → Goes P (io f) Q
  unfolding io
  Goes-io f g = Goes-effect f f g

  pub Goes-on_error :
      {m : Action H (Unit {0})} (cleanup : Action H (Unit {0}))
      → Goes P m Q
      → Goes P (on_error m cleanup) Q
  unfolding on_error
  Goes-on_error {m} cleanup g = record { at = λ d h. Ends-handle cleanup _ (g.at d h) }

module _ {H : Type 0} {P : Disk H → Type 0} where
  pub Goes-quiet : Goes {H = H} P quiet (λ _. P)
  unfolding quiet
  Goes-quiet = Goes-look (λ d. tt) (λ d h. h)

-- A disk with this pointer, these version directories and this journal.
abbrev pub Holding : {H : Type 0} → Pointer → (Bytes → Dir) → Option Document → Disk H → Type 0
Holding c f j d = (d.current ≡ c) × (d.dirs ≡ f) × (d.journal ≡ j)

module _ {H : Type 0} {c : Pointer} {f : Bytes → Dir} {j : Option Document} where
  -- An effect on what a transaction does not depend on.
  pub Goes-aside :
      (g : Disk H → Disk H)
      → ((d : Disk H) → Holding c f j d → Holding c f j (g d))
      → Goes (Holding c f j) (io g) (λ _. Holding c f j)
  Goes-aside g k = Goes-io g k

  pub Goes-write_file_atomic :
      {c' : Pointer} {f' : Bytes → Dir} {j' : Option Document} (p : Place) (g : Disk H → Disk H)
      → ((d : Disk H) → Holding c f j d → Holding c' f' j' (g d))
      → Goes (Holding c f j) (write_file_atomic p g) (λ _. Holding c' f' j')
  unfolding write_file_atomic set_scratch
  Goes-write_file_atomic {c'} {f'} {j'} p g k =
      Goes-bind (λ _. Holding c f j) (Goes-io _ (λ d h. h))
        λ _.
          Goes-bind (λ _. Holding c f j) (Goes-on_error _ Goes-quiet)
            λ _.
              Goes-bind (λ _. Holding c f j) (Goes-on_error _ Goes-quiet)
                λ _.
                  Goes-bind (λ _. Holding c f j) (Goes-on_error _ Goes-quiet)
                    λ _.
                      Goes-bind (λ _. Holding c' f' j') (Goes-on_error _ (Goes-io _ k))
                        λ _. Goes-quiet
