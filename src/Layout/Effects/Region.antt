-- ===== src/Layout/Effects/Region.antt =====
-- Predicates on the part of the disk that decides which version runs: the pointer, the version
-- directories and the journal. Scratch files do not touch it.
use idunn.Prelude.{Bool, true, false, Bytes, Option, Result, ok, ◌≡◌, refl, if◌then◌else◌}
use idunn.Txn.Journal.{Document, Error}
use idunn.Layout.Disk.{Disk, Pointer, Dir, Place, set_scratch}
use idunn.Layout.Effects.{
  Action, pure, raise, lift, attempt, effect, io, quiet, look, look_or, on_error, write_file_atomic,
  ◌>>=◌,
}
use idunn.Layout.Effects.Triple.{
  Triple, Triple-pure, Triple-raise, Triple-lift, Triple-effect, Triple-look, Triple-look_or,
  Triple-bind, Triple-on_error, Triple-weaken, Triple-attempt,
}

abbrev pub Region : Type 1
Region = Pointer → (Bytes → Dir) → Option Document → Type 0

abbrev pub Over : {H : Type 0} → Region → Disk H → Type 0
Over p d = p d.current d.dirs d.journal

-- One region inside another.
infix 4 ◌⊑◌
abbrev pub ◌⊑◌ : Region → Region → Type 0
p ⊑ q = (c : Pointer) (f : Bytes → Dir) (j : Option Document) → p c f j → q c f j

-- From a disk in `p`, for every outcome of the calls, the action returns `a` in `q a`, or an error
-- in `e`.
pub record Safe {H A : Type 0} (p : Region) (m : Action H A) (q : A → Region) (e : Region)
    : Type 0 where
  pub triple : Triple (Over {H = H} p) m (λ a. Over (q a)) (Over e)

module _ {H A : Type 0} {p e : Region} {q : A → Region} where
  pub Safe-pure : (a : A) → p ⊑ q a → Safe {H = H} p (pure a) q e
  Safe-pure a f = record { triple = Triple-pure a (λ d h. f _ _ _ h) }

  pub Safe-raise : (x : Error) → p ⊑ e → Safe {H = H} p (raise {A = A} x) q e
  Safe-raise x f = record { triple = Triple-raise x (λ d h. f _ _ _ h) }

  pub Safe-lift :
      (r : Result Error A) → ((a : A) → r ≡ ok a → p ⊑ q a) → p ⊑ e → Safe {H = H} p (lift r) q e
  Safe-lift r f g = record { triple = Triple-lift r (λ a x d h. f a x _ _ _ h) (λ d h. g _ _ _ h) }

  pub Safe-look :
      (f : Disk H → A) → ((d : Disk H) → Over p d → Over (q (f d)) d) → p ⊑ e → Safe p (look f) q e
  Safe-look f g k = record { triple = Triple-look f g (λ d h. k _ _ _ h) }

  pub Safe-look_or :
      (x : A) (f : Disk H → A) → ((a : A) → p ⊑ q a) → Safe {H = H} p (look_or x f) q e
  Safe-look_or x f g = record {
    triple = Triple-look_or x f (λ d h. g (f d) _ _ _ h) (λ d h. g x _ _ _ h);
  }

  pub Safe-weaken :
      {p' e' : Region} {q' : A → Region} {m : Action H A}
      → Safe p' m q' e'
      → p ⊑ p'
      → ((a : A) → q' a ⊑ q a)
      → e' ⊑ e
      → Safe p m q e
  Safe-weaken s f g h = record {
    triple = Triple-weaken s.triple (λ d x. f _ _ _ x) (λ a d x. g a _ _ _ x) (λ d x. h _ _ _ x);
  }

  -- What a region says that is not about the disk may be assumed.
  pub Safe-given :
      {m : Action H A} (K : Type 0) → (K → Safe p m q e) → Safe (λ c f j. p c f j × K) m q e
  Safe-given K s = record { triple = record { at = λ w h. (s h.1).triple.at w h.0 } }

  pub Safe-if :
      (b : Bool) {m n : Action H A}
      → (b ≡ true → Safe p m q e)
      → (b ≡ false → Safe p n q e)
      → Safe p (if b then m else n) q e
  Safe-if true f g = f refl
  Safe-if false f g = g refl

module _ {H A B : Type 0} {p e : Region} {q : B → Region} where
  pub Safe-bind :
      (r : A → Region) {m : Action H A} {f : A → Action H B}
      → Safe p m r e
      → ((a : A) → Safe (r a) (f a) q e)
      → Safe p (m >>= f) q e
  Safe-bind r s k = record { triple = Triple-bind s.triple (λ a. (k a).triple) }

module _ {H : Type 0} {p e : Region} {q : Region} where
  pub Safe-effect :
      (f part : Disk H → Disk H)
      → ((d : Disk H) → Over p d → Over q (f d))
      → ((d : Disk H) → Over p d → Over e (part d))
      → p ⊑ e
      → Safe p (effect f part) (λ _. q) e
  Safe-effect f part g k l = record { triple = Triple-effect f part g (λ d h. l _ _ _ h) k }

  pub Safe-io :
      (f : Disk H → Disk H)
      → ((d : Disk H) → Over p d → Over q (f d))
      → p ⊑ e
      → q ⊑ e
      → Safe p (io f) (λ _. q) e
  unfolding io
  Safe-io f g k l = Safe-effect f f g (λ d h. l _ _ _ (g d h)) k

  pub Safe-on_error :
      {g : Region} {m cleanup : Action H (Unit {0})}
      → Safe p m (λ _. q) g
      → Safe g cleanup (λ _. e) e
      → Safe p (on_error m cleanup) (λ _. q) e
  Safe-on_error s t = record { triple = Triple-on_error s.triple t.triple }

module _ {H : Type 0} {p e : Region} where
  pub Safe-quiet : p ⊑ e → Safe {H = H} p quiet (λ _. p) e
  unfolding quiet
  Safe-quiet f = Safe-look (λ d. tt) (λ d h. h) f

  pub Safe-attempt :
      {A : Type 0} {q : Region} {m : Action H A}
      → Safe p m (λ _. q) q
      → Safe p (attempt m) (λ _. q) e
  Safe-attempt s = record { triple = Triple-attempt s.triple }

  -- An effect that no region sees.
  pub Safe-unseen :
      (f : Disk H → Disk H)
      → ((d : Disk H) → Over p d → Over p (f d))
      → p ⊑ e
      → Safe p (io f) (λ _. p) e
  Safe-unseen f g h = Safe-io f g h h

  pub Safe-scratch :
      (pl : Place) (b : Bool) → p ⊑ e → Safe {H = H} p (io (set_scratch pl b)) (λ _. p) e
  unfolding set_scratch
  Safe-scratch pl b f = Safe-unseen _ (λ d h. h) f

-- WriteFileAtomic leaves the old content or the new one.
module _ {H : Type 0} {p q e : Region} where
  pub Safe-write_file_atomic :
      (pl : Place) (f : Disk H → Disk H)
      → ((d : Disk H) → Over p d → Over q (f d))
      → p ⊑ e
      → q ⊑ e
      → Safe p (write_file_atomic pl f) (λ _. q) e
  unfolding write_file_atomic set_scratch
  Safe-write_file_atomic pl f g k l =
      let tidy : Safe {H = H} e (io (set_scratch pl false)) (λ _. e) e =
        Safe-unseen _ (λ d h. h) (λ c d j h. h) in
      Safe-bind (λ _. p) (Safe-unseen _ (λ d h. h) k)
        λ _.
          Safe-bind (λ _. p) (Safe-on_error (Safe-quiet k) tidy)
            λ _.
              Safe-bind (λ _. p) (Safe-on_error (Safe-quiet k) tidy)
                λ _.
                  Safe-bind (λ _. p) (Safe-on_error (Safe-quiet k) tidy)
                    λ _. Safe-bind (λ _. q) (Safe-on_error (Safe-io _ g k l) tidy) λ _. Safe-quiet l
