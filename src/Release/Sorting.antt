-- ===== src/Release/Sorting.antt =====
-- sort.Slice and sort.SliceStable, as a stable insertion sort, and the order that the versions of
-- one list are sorted by.
pub mod Order
use Prim.Native.Nat.{Ordering}
use idunn.Prelude.{Bool, true, false, List, [], ◌∷◌, Bytes, ok, err, if◌then◌else◌}
use idunn.Release.Version.{compare_versions}

module _ {ℓ} {A : Type ℓ} (less : A → A → Bool) where
  unfoldable pub insert_by : A → List A → List A
  insert_by x [] = x ∷ []
  insert_by x (y ∷ ys) = let rest = insert_by x ys in if less y x then y ∷ rest else x ∷ y ∷ ys

  unfoldable pub sort_by : List A → List A
  unfolding insert_by
  sort_by [] = []
  sort_by (x ∷ xs) = insert_by x (sort_by xs)

abbrev is_lt : Ordering → Bool
is_lt Ordering.lt = true
is_lt _ = false

-- `c < 0`, where an error leaves c at 0.
unfoldable pub older : Bytes → Bytes → Bool
older a b = elim (compare_versions a b) [ ok c ↦ is_lt c | err e ↦ false ]
