-- ===== src/Stage/Swap.antt =====
-- Swap of core/stage/stage.go, over a version directory that VersionDir has named.
pub mod Safe
use idunn.Prelude.{not, Bytes, refuse_if}
use idunn.Txn.Journal.{missing_version}
use idunn.Layout.Disk.{exists}
use idunn.Layout.Effects.{Action, lift, look, ◌>>=◌, ◌>>◌}
use idunn.Layout.Pointer.{validate_version, set_pointer}

unfoldable pub swap : {H : Type 0} → Bytes → Action H (Unit {0})
swap v = do
  lift (validate_version v)
  found ← look (λ d. exists (d.dirs v))
  lift (refuse_if (not found) missing_version)
  set_pointer v
