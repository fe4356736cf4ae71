-- ===== src/Stage/Route/Tests.antt =====
-- A lineage of three payloads, where the direct patch costs more than the two on the way.
use idunn.Prelude.{
  arith, ◌≡◌, ◌≤◌, refl, ℕ, Bool, true, false, Bytes, codes, Option, none, some, [], ◌∷◌, same,
  if◌then◌else◌,
}
use idunn.Prelude.Integers.{pos, exceeds}
use idunn.Release.Paths.{patch_path}
use idunn.Stage.Route.{
  Lengths, positive, length_of, edge, cheapest, collapse, settle, visit, relax, relax_all,
  add_int64, wrapped, outcome, back, other_targets,
}
use idunn.Stage.Route.Found.{IsRoute, cheapest-IsRoute}
use idunn.Stage.Route.Cheapest.{Walk, hop, arrived, FoundWithin, cheapest-least}

abbrev oldest : Bytes
oldest = codes "payloads/v1/aaaaaaaaaaaaaaaaaaaaaaaaaaaaaaaaaaaaaaaaaaaaaaaaaaaaaaaaaaaaaaaa"

abbrev middle : Bytes
middle = codes "payloads/v1/bbbbbbbbbbbbbbbbbbbbbbbbbbbbbbbbbbbbbbbbbbbbbbbbbbbbbbbbbbbbbbbb"

abbrev newest : Bytes
newest = codes "payloads/v1/cccccccccccccccccccccccccccccccccccccccccccccccccccccccccccccccc"

abbrev direct : Bytes
direct =
    codes
      "patches/v1/aaaaaaaaaaaaaaaaaaaaaaaaaaaaaaaaaaaaaaaaaaaaaaaaaaaaaaaaaaaaaaaa-cccccccccccccccccccccccccccccccccccccccccccccccccccccccccccccccc"

abbrev published : Lengths
published p = if same p direct then some (pos 20) else some (pos 5)

unrepeated :
    collapse (oldest ∷ oldest ∷ middle ∷ newest ∷ newest ∷ []) ≡ oldest ∷ middle ∷ newest ∷ []
unfolding collapse other_targets same
unrepeated = refl

two_patches :
    cheapest published oldest (middle ∷ newest ∷ [])
    ≡ some (
      (record {
        patch =
            codes
              "patches/v1/aaaaaaaaaaaaaaaaaaaaaaaaaaaaaaaaaaaaaaaaaaaaaaaaaaaaaaaaaaaaaaaa-bbbbbbbbbbbbbbbbbbbbbbbbbbbbbbbbbbbbbbbbbbbbbbbbbbbbbbbbbbbbbbbb";
        to = middle;
      }
          ∷ record {
            patch =
                codes
                  "patches/v1/bbbbbbbbbbbbbbbbbbbbbbbbbbbbbbbbbbbbbbbbbbbbbbbbbbbbbbbbbbbbbbbb-cccccccccccccccccccccccccccccccccccccccccccccccccccccccccccccccc";
            to = newest;
          }
          ∷ []),
      pos 10,
    )
unfolding cheapest settle visit relax_all relax edge length_of positive patch_path same exceeds
    add_int64 wrapped outcome back
two_patches = refl

bounded_if :
    (b : Bool) (s : ℕ) → positive (if b then some (pos 20) else some (pos 5)) ≡ some s → s ≤ 20
unfolding positive
bounded_if true s h = ground arith
bounded_if false s h = ground arith

bounded_of : (o : Option Bytes) (s : ℕ) → length_of published o ≡ some s → s ≤ 20
unfolding length_of
bounded_of none s h = cc
bounded_of (some p) s h = bounded_if (same p direct) s h

bounded : (t u : Bytes) (s : ℕ) → edge published t u ≡ some s → s ≤ 20
unfolding edge
bounded t u s h = bounded_of (patch_path t u) s h

by_middle : Walk published oldest (middle ∷ newest ∷ []) 10
unfolding edge length_of positive patch_path same
by_middle = hop middle {s = 5} {c = 5} refl (hop newest {s = 5} {c = 0} refl arrived)

cheapest-least_example : FoundWithin (cheapest published oldest (middle ∷ newest ∷ [])) 10
cheapest-least_example =
    cheapest-least published 20 oldest (middle ∷ newest ∷ []) 10 bounded (omega arith) by_middle

cheapest-IsRoute_example :
    IsRoute published oldest newest (cheapest published oldest (middle ∷ newest ∷ []))
cheapest-IsRoute_example =
    cheapest-IsRoute published 20 oldest (middle ∷ newest ∷ []) bounded (omega arith)
