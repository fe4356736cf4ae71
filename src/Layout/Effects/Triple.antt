-- ===== src/Layout/Effects/Triple.antt =====
-- What holds of the disk after an action, for every outcome of its calls: on a returned value, and
-- on an error. One rule for each way to build an action.
use idunn.Prelude.{Bool, true, false, ◌≡◌, refl, Result, ok, err, if◌then◌else◌}
use idunn.Txn.Journal.{Error}
use idunn.Layout.Disk.{Disk}
use idunn.Layout.Effects.{
  Outcome, done, refused, unsure, World, Action, pure, raise, lift, look, look_or, ok_or, attempt,
  effect, ◌>>=◌, on_error, effect_as, look_as, handle, continue,
}

abbrev pub Post :
    {H A : Type 0} → (A → Disk H → Type 0) → (Disk H → Type 0) → Result Error A → Disk H → Type 0
Post Q E (ok a) d = Q a d
Post Q E (err e) d = E d

-- From a disk with `P`, the action returns `a` on a disk with `Q a`, or an error on one with `E`.
pub record Triple {H A : Type 0} (P : Disk H → Type 0) (m : Action H A) (Q : A → Disk H → Type 0)
    (E : Disk H → Type 0) : Type 0 where
  pub at : (w : World H) → P w.disk → Post Q E (m w).0 (m w).1.disk

module _ {H A : Type 0} (Q : A → Disk H → Type 0) (E : Disk H → Type 0) where
  lift-Post : (r : Result Error A) (d : Disk H) → ((a : A) → r ≡ ok a → Q a d) → E d → Post Q E r d
  lift-Post (ok a) d f g = f a refl
  lift-Post (err e) d f g = g

  look-Post :
      (o : Outcome) (f : Disk H → A) (d : Disk H) → Q (f d) d → E d → Post Q E (look_as o f d) d
  unfolding look_as
  look-Post done f d h k = h
  look-Post refused f d h k = k
  look-Post unsure f d h k = k

  Post-map :
      (Q' : A → Disk H → Type 0) (E' : Disk H → Type 0) (r : Result Error A) (d : Disk H)
      → ((a : A) (d : Disk H) → Q' a d → Q a d)
      → ((d : Disk H) → E' d → E d)
      → Post Q' E' r d
      → Post Q E r d
  Post-map Q' E' (ok a) d f g h = f a d h
  Post-map Q' E' (err e) d f g h = g d h

module _ {H A : Type 0} (Q : A → Disk H → Type 0) where
  ok_or-Post :
      (x : A) (o : Outcome) (f : Disk H → A) (d : Disk H)
      → Q (f d) d
      → Q x d
      → Q (ok_or x (look_as o f d)) d
  unfolding look_as ok_or
  ok_or-Post x done f d h k = h
  ok_or-Post x refused f d h k = k
  ok_or-Post x unsure f d h k = k

module _ {H A : Type 0} (E : Disk H → Type 0) where
  drop-Post : (r : Result Error A) (d : Disk H) → Post (λ _. E) E r d → E d
  drop-Post (ok a) d h = h
  drop-Post (err e) d h = h

module _ {H A B : Type 0} (R : A → Disk H → Type 0) (Q : B → Disk H → Type 0)
    (E : Disk H → Type 0) where
  continue-Post :
      (r : Result Error A) (f : A → Action H B) (w : World H)
      → ((a : A) → Triple (R a) (f a) Q E)
      → Post R E r w.disk
      → Post Q E (continue r f w).0 (continue r f w).1.disk
  unfolding continue
  continue-Post (ok a) f w k h = (k a).at w h
  continue-Post (err e) f w k h = h

module _ {H : Type 0} (Q : Unit {0} → Disk H → Type 0) (E : Disk H → Type 0) where
  effect-Post :
      (o : Outcome) (f part : Disk H → Disk H) (d : Disk H)
      → Q tt (f d)
      → E d
      → E (part d)
      → Post Q E (effect_as o f part d).0 (effect_as o f part d).1
  unfolding effect_as
  effect-Post done f part d h k l = h
  effect-Post refused f part d h k l = k
  effect-Post unsure f part d h k l = l

  handle-Post :
      (F : Disk H → Type 0) (r : Result Error (Unit {0})) (cleanup : Action H (Unit {0}))
      (w : World H)
      → Triple F cleanup (λ _. E) E
      → Post Q F r w.disk
      → Post Q E (handle r cleanup w).0 (handle r cleanup w).1.disk
  unfolding handle
  handle-Post F (ok u) cleanup w t h = h
  handle-Post F (err e) cleanup w t h =
      drop-Post {A = Unit {0}} E (cleanup w).0 (cleanup w).1.disk (t.at w h)

module _ {H A : Type 0} {P : Disk H → Type 0} {Q : A → Disk H → Type 0} {E : Disk H → Type 0} where
  pub Triple-pure : (a : A) → ((d : Disk H) → P d → Q a d) → Triple P (pure a) Q E
  unfolding pure
  Triple-pure a f = record { at = λ w h. f w.disk h }

  pub Triple-raise : (e : Error) → ((d : Disk H) → P d → E d) → Triple P (raise {A = A} e) Q E
  unfolding raise
  Triple-raise e f = record { at = λ w h. f w.disk h }

  pub Triple-lift :
      (r : Result Error A)
      → ((a : A) → r ≡ ok a → (d : Disk H) → P d → Q a d)
      → ((d : Disk H) → P d → E d)
      → Triple P (lift r) Q E
  unfolding lift
  Triple-lift r f g = record {
    at = λ w h. lift-Post Q E r w.disk (λ a e. f a e w.disk h) (g w.disk h);
  }

  pub Triple-look :
      (f : Disk H → A)
      → ((d : Disk H) → P d → Q (f d) d)
      → ((d : Disk H) → P d → E d)
      → Triple P (look f) Q E
  unfolding look
  Triple-look f g k = record { at = λ w h. look-Post Q E _ f w.disk (g w.disk h) (k w.disk h) }

  pub Triple-look_or :
      (x : A) (f : Disk H → A)
      → ((d : Disk H) → P d → Q (f d) d)
      → ((d : Disk H) → P d → Q x d)
      → Triple P (look_or x f) Q E
  unfolding look_or
  Triple-look_or x f g k = record {
    at = λ w h. ok_or-Post Q x _ f w.disk (g w.disk h) (k w.disk h);
  }

  pub Triple-weaken :
      {P' : Disk H → Type 0} {Q' : A → Disk H → Type 0} {E' : Disk H → Type 0} {m : Action H A}
      → Triple P' m Q' E'
      → ((d : Disk H) → P d → P' d)
      → ((a : A) (d : Disk H) → Q' a d → Q a d)
      → ((d : Disk H) → E' d → E d)
      → Triple P m Q E
  Triple-weaken {Q'} {E'} {m} t p q e = record {
    at = λ w h. Post-map Q E Q' E' (m w).0 (m w).1.disk q e (t.at w (p w.disk h));
  }

  pub Triple-if :
      (b : Bool) {m n : Action H A}
      → (b ≡ true → Triple P m Q E)
      → (b ≡ false → Triple P n Q E)
      → Triple P (if b then m else n) Q E
  Triple-if true f g = f refl
  Triple-if false f g = g refl

module _ {H A B : Type 0} {P E : Disk H → Type 0} {R : A → Disk H → Type 0}
    {Q : B → Disk H → Type 0} where
  pub Triple-bind :
      {m : Action H A} {f : A → Action H B}
      → Triple P m R E
      → ((a : A) → Triple (R a) (f a) Q E)
      → Triple P (m >>= f) Q E
  unfolding ◌>>=◌
  Triple-bind {m} {f} t k = record {
    at = λ w h. continue-Post R Q E (m w).0 f (m w).1 k (t.at w h);
  }

module _ {H : Type 0} {P E : Disk H → Type 0} {Q : Unit {0} → Disk H → Type 0} where
  pub Triple-effect :
      (f part : Disk H → Disk H)
      → ((d : Disk H) → P d → Q tt (f d))
      → ((d : Disk H) → P d → E d)
      → ((d : Disk H) → P d → E (part d))
      → Triple P (effect f part) Q E
  unfolding effect
  Triple-effect f part g k l = record {
    at = λ w h. effect-Post Q E _ f part w.disk (g w.disk h) (k w.disk h) (l w.disk h);
  }

  pub Triple-on_error :
      {F : Disk H → Type 0} {m cleanup : Action H (Unit {0})}
      → Triple P m Q F
      → Triple F cleanup (λ _. E) E
      → Triple P (on_error m cleanup) Q E
  unfolding on_error
  Triple-on_error {F} {m} {cleanup} t c = record {
    at = λ w h. handle-Post Q E F (m w).0 cleanup (m w).1 c (t.at w h);
  }

module _ {H A : Type 0} {P E : Disk H → Type 0} where
  pub Triple-attempt :
      {m : Action H A} {F : Disk H → Type 0}
      → Triple P m (λ _. E) E
      → Triple P (attempt m) (λ _. E) F
  unfolding attempt
  Triple-attempt {m} t = record { at = λ w h. drop-Post E (m w).0 (m w).1.disk (t.at w h) }

  -- The disk that an action leaves, whichever way it ends.
  pub Triple-always :
      {m : Action H A} → Triple P m (λ _. E) E → (w : World H) → P w.disk → E (m w).1.disk
  Triple-always {m} t w h = drop-Post E (m w).0 (m w).1.disk (t.at w h)
