-- ===== src/Release/Tests.antt =====
-- Versions that compare as semver_test.go expects.
use Prim.Native.Nat.{Ordering}
use idunn.Release.Version.Order.{flip, Chains, compare_versions-flip, compare_versions-Chains}
use idunn.Release.Chain.{between, candidates, add_candidate, ordered, check_walk, ends_at}
use idunn.Release.Chain.Loop.{InBetween}
use idunn.Release.Chain.Walk.{Ascending, between-Ascending, between_complete}
use idunn.Release.Sorting.{sort_by, older}
use idunn.Prelude.{
  List, [], ◌∷◌, some, true, last?, All, member, same, codes, Bytes, ok, ◌≡◌, refl, false,
}
use idunn.Release.Version.{valid_version, compare_versions}

order_by_number : compare_versions (codes "1.10.0") (codes "1.9.0") ≡ ok Ordering.gt
unfolding compare_versions
order_by_number = refl

release_above_candidate : compare_versions (codes "1.3.0-rc.1") (codes "1.3.0+b1") ≡ ok Ordering.lt
unfolding compare_versions
release_above_candidate = refl

numbers_below_words : compare_versions (codes "1.0.0-2") (codes "1.0.0-alpha") ≡ ok Ordering.lt
unfolding compare_versions
numbers_below_words = refl

not_a_version : valid_version (codes "1.0") ≡ false
unfolding valid_version
not_a_version = refl

abbrev earlier : Bytes
earlier = codes "1.0.0-rc.1"

abbrev later : Bytes
later = codes "1.0.0"

abbrev latest : Bytes
latest = codes "1.10.0"

earlier-later : compare_versions earlier later ≡ ok Ordering.lt
unfolding compare_versions
earlier-later = refl

later-latest : compare_versions later latest ≡ ok Ordering.lt
unfolding compare_versions
later-latest = refl

compare_versions-flip_example : compare_versions later earlier ≡ ok (flip Ordering.lt)
compare_versions-flip_example = compare_versions-flip earlier later Ordering.lt earlier-later

compare_versions-Chains_example :
    (z : Ordering) × (compare_versions earlier latest ≡ ok z) × Chains Ordering.lt Ordering.lt z
compare_versions-Chains_example =
    compare_versions-Chains earlier later latest Ordering.lt Ordering.lt earlier-later later-latest

abbrev middle : Bytes
middle = codes "1.2.0"

abbrev published : List Bytes
published = latest ∷ later ∷ codes "stray" ∷ middle ∷ middle ∷ []

walk_from_later : between published later latest ≡ ok (middle ∷ latest ∷ [])
unfolding between candidates add_candidate ordered sort_by older check_walk ends_at compare_versions
    valid_version member same last?
walk_from_later = refl

between-Ascending_example :
    Ascending later (middle ∷ latest ∷ [])
    × (last? (middle ∷ latest ∷ []) ≡ some latest)
    × All (λ v. member v published ≡ true) (middle ∷ latest ∷ [])
between-Ascending_example =
    between-Ascending published later latest (middle ∷ latest ∷ []) walk_from_later

valid_middle : valid_version middle ≡ true
unfolding valid_version
valid_middle = refl

middle-InBetween : InBetween later latest middle
unfolding compare_versions
middle-InBetween = (refl, (Ordering.lt, refl, refl))

middle-published : member middle published ≡ true
unfolding member same
middle-published = refl

between_complete_example : member middle (middle ∷ latest ∷ []) ≡ true
between_complete_example =
    between_complete middle published later latest (middle ∷ latest ∷ []) walk_from_later
      valid_middle middle-InBetween middle-published
