-- ===== src/Release/Chain.antt =====
-- core/release/chain.go: the published releases between two versions, in the order to walk them.
pub mod Loop
pub mod Walk
use Prim.Native.Nat.{Ordering}
use idunn.Prelude.{
  Bool, true, false, not, ◌&&◌, ◌||◌, List, [], ◌∷◌, Option, none, some, Bytes, Result, ok, err,
  ◌>>=◌, ◌>>◌, refuse_if, same, member, last?, if◌then◌else◌,
}
use idunn.Release.Version.{
  Invalid, not_upgrade, ambiguous_order, not_published, valid_version, compare_versions,
}
use idunn.Release.Sorting.{sort_by, older}

abbrev is_up : Ordering → Bool
is_up Ordering.lt = true
is_up _ = false

abbrev is_above : Ordering → Bool
is_above Ordering.gt = true
is_above _ = false

abbrev is_level : Ordering → Bool
is_level Ordering.eq = true
is_level _ = false

-- One version of the loop, by its two comparisons, in front of what the rest of the loop collects.
unfoldable pub add_candidate :
    Bytes
    → Result Invalid Ordering
    → Result Invalid Ordering
    → Result Invalid (List Bytes)
    → Result Invalid (List Bytes)
add_candidate v above below others = do
  lo ← above
  hi ← below
  walk ← others
  ok (if is_above lo && not (is_above hi) then v ∷ walk else walk)

-- The loop over what is published; `seen` holds the keys of the map of that name.
unfoldable pub candidates : Bytes → Bytes → List Bytes → List Bytes → Result Invalid (List Bytes)
candidates after to seen [] = ok []
candidates after to seen (v ∷ vs) =
    let skip = not (valid_version v) || member v seen in
    let rest = candidates after to (if skip then seen else v ∷ seen) vs in
    if skip then rest else add_candidate v (compare_versions v after) (compare_versions v to) rest

-- The loop over neighbours: two of equal precedence give no order.
unfoldable pub check_order : Bytes → List Bytes → Result Invalid (Unit {0})
check_order v [] = ok tt
check_order v (w ∷ rest) =
    let following = check_order w rest in
    do c ← compare_versions v w; refuse_if (is_level c) ambiguous_order; following

unfoldable pub check_walk : List Bytes → Result Invalid (Unit {0})
unfolding check_order
check_walk [] = ok tt
check_walk (v ∷ rest) = check_order v rest

unfoldable pub ends_at : List Bytes → Bytes → Bool
ends_at walk to = elim (last? walk) [ none ↦ false | some v ↦ same v to ]

-- What stands behind the loop over what is published. Every candidate is a version, so no
-- comparison of the sort fails.
unfoldable pub ordered : Bytes → List Bytes → Result Invalid (List Bytes)
ordered to found =
    let walk = sort_by older found in
    do check_walk walk; refuse_if (not (ends_at walk to)) not_published; ok walk

unfoldable pub between : List Bytes → Bytes → Bytes → Result Invalid (List Bytes)
between available after to = do
  up ← compare_versions after to
  refuse_if (not (is_up up)) not_upgrade
  found ← candidates after to [] available
  ordered to found

unfoldable pub chain : List Bytes → Bytes → Bytes → Result Invalid (List Bytes)
chain available from to = do
  walk ← between available from to
  refuse_if (not (member from available)) not_published
  ok (from ∷ walk)
