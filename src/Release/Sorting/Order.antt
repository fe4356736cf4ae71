-- ===== src/Release/Sorting/Order.antt =====
-- What the sort does to the order and the members of a list.

use Prim.Native.Nat.{Ordering}
use idunn.Prelude.{
  ◌≡◌, refl, Bool, true, false, ◌||◌, List, [], ◌∷◌, Bytes, ok, same, member, All, Bool-cases, inl,
  inr, arith,
}
use idunn.Release.Version.{compare_versions}
use idunn.Release.Version.Order.{flip, compare_versions-flip}
use idunn.Release.Sorting.{sort_by, insert_by, older}

module _ {ℓ} {A : Type ℓ} (less : A → A → Bool) where
  -- Neighbours in the order of `less`.
  unfoldable pub Sorted : List A → Type 0
  Sorted [] = Unit {0}
  Sorted (x ∷ []) = Unit {0}
  Sorted (x ∷ y ∷ ys) = (less y x ≡ false) × Sorted (y ∷ ys)

  module _ (asymmetric : (a b : A) → less a b ≡ true → less b a ≡ false) where
    insert_by-Sorted : (x : A) (xs : List A) → Sorted xs → Sorted (insert_by less x xs)
    unfolding insert_by Sorted
    insert_by-Sorted x [] s = tt
    insert_by-Sorted x (y ∷ []) s = ground (arith, asymmetric y x)
    insert_by-Sorted x (y ∷ z ∷ zs) s =
        ground (arith, asymmetric y x, insert_by-Sorted x (z ∷ zs) s.1)

    pub sort_by-Sorted : (xs : List A) → Sorted (sort_by less xs)
    unfolding sort_by Sorted
    sort_by-Sorted [] = tt
    sort_by-Sorted (x ∷ xs) = insert_by-Sorted x (sort_by less xs) (sort_by-Sorted xs)

module _ (less : Bytes → Bytes → Bool) (v : Bytes) where
  member-insert_by :
      (x : Bytes) (xs : List Bytes) → member v (insert_by less x xs) ≡ (same x v || member v xs)
  unfolding insert_by member
  member-insert_by x [] = refl
  member-insert_by x (y ∷ ys) = ground (arith, member-insert_by x ys)

  pub member-sort_by : (xs : List Bytes) → member v (sort_by less xs) ≡ member v xs
  unfolding sort_by member
  member-sort_by [] = refl
  member-sort_by (x ∷ xs) = ground (arith, member-sort_by xs, member-insert_by x (sort_by less xs))

pub older-lt : (a b : Bytes) → older a b ≡ true → compare_versions a b ≡ ok Ordering.lt
unfolding older
older-lt a b h = ground arith

pub older-gt : (a b : Bytes) → compare_versions a b ≡ ok Ordering.gt → older a b ≡ false
unfolding older
older-gt a b h = ground arith

pub lt-older : (a b : Bytes) → compare_versions a b ≡ ok Ordering.lt → older a b ≡ true
unfolding older
lt-older a b h = ground arith

pub older-asymmetric : (a b : Bytes) → older a b ≡ true → older b a ≡ false
unfolding flip
older-asymmetric a b h = older-gt b a (compare_versions-flip a b Ordering.lt (older-lt a b h))

All-insert_by :
    (P : Bytes → Type 0) (less : Bytes → Bytes → Bool) (x : Bytes) (xs : List Bytes)
    → P x
    → All P xs
    → All P (insert_by less x xs)
unfolding insert_by
All-insert_by P less x [] p a = (p, tt)
All-insert_by P less x (y ∷ ys) p a = elim (Bool-cases (less y x)) [
  | inl e ↦ rw e (a.0, All-insert_by P less x ys p a.1)
  | inr e ↦ rw e (p, a)
]

pub All-sort_by :
    (P : Bytes → Type 0) (less : Bytes → Bytes → Bool) (xs : List Bytes)
    → All P xs
    → All P (sort_by less xs)
unfolding sort_by
All-sort_by P less [] a = tt
All-sort_by P less (x ∷ xs) a =
    All-insert_by P less x (sort_by less xs) a.0 (All-sort_by P less xs a.1)
