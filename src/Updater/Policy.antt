-- ===== src/Updater/Policy.antt =====
-- core/updater/updater.go: applicable, and the fields of Updater that it reads.
use Prim.Native.Nat.{Ordering}
use idunn.Prelude.{
  Bool, true, false, not, ◌&&◌, [], ◌∷◌, Bytes, Result, ok, err, ◌>>=◌, ◌>>◌, refuse_if, same,
}
use idunn.Release.Descriptor.{Descriptor}
use idunn.Release.Version.{Invalid, compare_versions, newer}

-- The part of Updater that a release is judged by.
pub record Client : Type 0 where
  pub channel : Bytes
  pub goos : Bytes
  pub goarch : Bytes
  pub client_version : Bytes
  pub allow_downgrade : Bool

-- ErrPolicy by cause; migration_floor is the one that is ErrMigrationFloor too.
pub data Refusal : Type 0 where
  wrong_channel wrong_platform unknown_client old_client bad_release not_newer migration_floor :
      Refusal

abbrev is_empty : Bytes → Bool
is_empty [] = true
is_empty (c ∷ s) = false

abbrev is_below : Ordering → Bool
is_below Ordering.lt = true
is_below _ = false

unfoldable pub policy {ℓ} : {A : Type ℓ} → Result Invalid A → Result Refusal A
policy (ok a) = ok a
policy (err e) = err bad_release

unfoldable pub check_client : Client → Bytes → Result Refusal (Unit {0})
unfolding policy
check_client u [] = ok tt
check_client u (c ∷ req) = do
  refuse_if (is_empty u.client_version) unknown_client
  order ← policy (compare_versions u.client_version (c ∷ req))
  refuse_if (is_below order) old_client

unfoldable pub check_floor : Bytes → Bytes → Result Refusal (Unit {0})
unfolding policy
check_floor installed [] = ok tt
check_floor installed (c ∷ req) = do
  order ← policy (compare_versions installed (c ∷ req))
  refuse_if (is_below order) migration_floor

-- A first install has no version to jump from.
unfoldable pub check_jump : Client → Descriptor → Bytes → Result Refusal (Unit {0})
unfolding policy
check_jump u d [] = ok tt
check_jump u d (c ∷ installed) = do
  up ← policy (newer d.version (c ∷ installed))
  refuse_if (not up && not u.allow_downgrade) not_newer
  check_floor (c ∷ installed) d.requirements.min_from_version

unfoldable pub applicable : Client → Descriptor → Bytes → Result Refusal (Unit {0})
applicable u d installed = do
  refuse_if (not (same d.channel u.channel)) wrong_channel
  refuse_if (not (same d.os u.goos && same d.arch u.goarch)) wrong_platform
  check_client u d.requirements.min_client_version
  check_jump u d installed
