-- ===== src/Txn/Invariant.antt =====
-- What holds of an install root between two calls of the filesystem, in every run.
pub mod Steps
use idunn.Prelude.{◌≡◌, ◌≢◌, ◌⊎◌, Bool, true, false, Option, none, some, [], ◌∷◌, Bytes, last?}
use idunn.Txn.Journal.{State, begin, staged, migrated, swapped, deferred, Record, Document}
use idunn.Layout.Disk.{Pointer, Dir, whole, names}
use idunn.Layout.Effects.Region.{Region}
use idunn.Layout.Pointer.Region.{pointer_at}

abbrev pub last_of : Option Document → Option Record
last_of none = none
last_of (some doc) = last? doc.records

-- A transaction that has neither committed nor been rolled back.
abbrev pub is_open : State → Bool
is_open begin = true
is_open staged = true
is_open deferred = true
is_open migrated = true
is_open swapped = true
is_open _ = false

-- From here on `current` may already name the new version.
abbrev pub is_past_migration : State → Bool
is_past_migration migrated = true
is_past_migration swapped = true
is_past_migration _ = false

-- `current` names no version that is not there in full; while a transaction is open, the version it
-- came from is there in full, and `current` names that one, or, from MIGRATED on, that one or the
-- new one; and a transaction that waits for a restart has its version there in full.
pub record Sound (c : Pointer) (f : Bytes → Dir) (j : Option Document) : Type 0 where
  pub live_whole : (v : Bytes) → c ≡ names v → f v ≡ whole
  pub base_whole :
      (r : Record)
      → last_of j ≡ some r
      → is_open r.state ≡ true
      → r.from_version ≢ []
      → f r.from_version ≡ whole
  pub waiting_whole :
      (r : Record) → last_of j ≡ some r → r.state ≡ deferred → f r.to_version ≡ whole
  pub placed :
      (r : Record)
      → last_of j ≡ some r
      → is_open r.state ≡ true
      → (c ≡ pointer_at r.from_version)
        ⊎ ((is_past_migration r.state ≡ true) × (c ≡ names r.to_version))

-- The same, where the journal ends with `r`.
abbrev pub SoundAt : Record → Region
SoundAt r c f j = Sound c f j × (last_of j ≡ some r)
