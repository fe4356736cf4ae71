-- ===== src/Updater/Steps.antt =====
-- core/updater/apply.go: which releases are installed on the way to one that a migration floor
-- keeps out of reach. What the trust client knows of the published releases is a parameter.
pub mod Leads
mod Tests
use idunn.Prelude.{
  ℕ, zero, suc, Bool, true, false, not, ◌&&◌, Option, none, some, List, [], ◌∷◌, ◌++◌, Bytes,
  Result, ok, err, ◌>>=◌, ◌>>◌, same, if◌then◌else◌,
}
use idunn.Release.Version.{newer}
use idunn.Release.Chain.{between}
use idunn.Release.Descriptor.{Descriptor}
use idunn.Updater.Policy.{Client, Refusal, migration_floor, applicable}

-- History, for the platform of the release.
pub record History : Type 0 where
  pub versions : List Bytes
  pub release_version : Bytes → Option Descriptor

abbrev pub max_walk : ℕ
max_walk = 32

-- A release that may be installed on top of `at`, and is newer.
unfoldable pub is_step : Client → Descriptor → Bytes → Bool
is_step u c at =
    elim (newer c.version at) [ err e ↦ false | ok up ↦ up ]
    && elim (applicable u c at) [ err e ↦ false | ok t ↦ true ]

-- The loop of furthestReachable: the last candidate that is a step.
unfoldable pub furthest_from :
    Client → List Descriptor → Bytes → Option Descriptor → Option Descriptor
furthest_from u [] at pick = pick
furthest_from u (c ∷ cs) at pick = furthest_from u cs at (if is_step u c at then some c else pick)

unfoldable pub furthest_reachable : Client → List Descriptor → Bytes → Option Descriptor
furthest_reachable u candidates at = furthest_from u candidates at none

-- The loop over all of the walk but its end, which is the release itself.
unfoldable pub resolve : (Bytes → Option Descriptor) → Bytes → List Bytes → List Descriptor
resolve known channel [] = []
resolve known channel (v ∷ []) = []
resolve known channel (v ∷ w ∷ vs) =
    let rest = resolve known channel (w ∷ vs) in
    elim (known v) [ none ↦ rest | some c ↦ if same c.channel channel then c ∷ rest else rest ]

-- One more release in front of the rest of a walk.
unfoldable pub add_step :
    Descriptor → Result Refusal (List Descriptor) → Result Refusal (List Descriptor)
add_step next (ok rest) = ok (next ∷ rest)
add_step next (err e) = err e

-- The loop of steps, where `n` releases may still be added before the walk is too long.
unfoldable pub walk_on :
    Client → List Descriptor → Bytes → ℕ → Bytes → Result Refusal (List Descriptor)
unfolding add_step
walk_on u candidates to zero at = if same at to then ok [] else err migration_floor
walk_on u candidates to (suc n) at =
    if same at to then ok [] else elim (furthest_reachable u candidates at) [
      | none ↦ err migration_floor
      | some next ↦ add_step next (walk_on u candidates to n next.version)
    ]

-- The walk, where Between found one.
unfoldable pub walk_along :
    Client → History → Descriptor → Bytes → Option (List Bytes) → Result Refusal (List Descriptor)
walk_along u known d installed none = err migration_floor
walk_along u known d installed (some walk) =
    walk_on u (resolve known.release_version d.channel walk ++ d ∷ []) d.version max_walk installed

abbrev to_option {ℓ} : {E : Type 0} {A : Type ℓ} → Result E A → Option A
to_option (ok a) = some a
to_option (err e) = none

-- What is left to try where `d` may not be installed at once; a trust client without a history has
-- nothing to offer.
unfoldable pub steps_after :
    Client
    → Option History
    → Descriptor
    → Bytes
    → Result Refusal (Unit {0})
    → Result Refusal (List Descriptor)
unfolding walk_along
steps_after u known d installed (ok t) = ok (d ∷ [])
steps_after u none d installed (err migration_floor) = err migration_floor
steps_after u (some known) d installed (err migration_floor) =
    walk_along u known d installed (to_option (between known.versions installed d.version))
steps_after u known d installed (err e) = err e

unfoldable pub steps :
    Client → Option History → Descriptor → Bytes → Result Refusal (List Descriptor)
steps u known d installed = steps_after u known d installed (applicable u d installed)
