-- ===== src/Layout/Disk.antt =====
-- The install root that core/fsx reaches and internal/layout names, as far as a transaction
-- depends on it. `H` is the host's own state, outside the root, that migrations change.
use idunn.Prelude.{Bool, true, false, List, Option, Bytes, same, if◌then◌else◌, ℕ}
use idunn.Txn.Journal.{Document, Record}

-- What stands at `current`: no entry, the pointer to versions/<v>, or anything else.
pub data Pointer : Type 0 where
  absent : Pointer
  names : Bytes → Pointer
  foreign : Pointer

-- A version directory: not there, there with files missing, or there in full.
pub data Dir : Type 0 where
  missing partial whole : Dir

-- The directories in which an atomic write leaves a scratch file behind.
pub data Place : Type 0 where
  at_root at_meta at_versions at_outcomes : Place

pub record Install : Type 0 where
  pub name : Bytes
  pub version : Bytes
  pub layout_schema : ℕ

pub record Disk (H : Type 0) : Type 0 where
  pub current : Pointer
  pub dirs : Bytes → Dir
  -- what encoding/json decodes from journal.json, and the length of that file
  pub journal : Option Document
  pub journal_len : ℕ
  -- the length of the file that encoding/json makes of a history, which no call changes
  pub encoded_len : List Record → ℕ
  pub install : Option Install
  -- the staging tree of a version, and the name of the launcher that waits in it
  pub staged : Bytes → Bool
  pub pending : Bytes → Option Bytes
  -- the launcher that the next start swaps in: its name, and the version that it came with
  pub next_launcher : Option (Bytes × Bytes)
  pub scratch : Place → Bool
  pub host : H

-- A function with one value changed.
unfoldable pub update {ℓ} : {A : Type ℓ} → (Bytes → A) → Bytes → A → Bytes → A
update f k v j = if same k j then v else f j

place_eq : Place → Place → Bool
place_eq at_root at_root = true
place_eq at_meta at_meta = true
place_eq at_versions at_versions = true
place_eq at_outcomes at_outcomes = true
place_eq _ _ = false

abbrev pub exists : Dir → Bool
exists missing = false
exists partial = true
exists whole = true

-- A directory that was there may have lost files; one that was not is still not.
abbrev pub damaged : Dir → Dir
damaged missing = missing
damaged partial = partial
damaged whole = partial

module _ {H : Type 0} where
  unfoldable pub set_scratch : Place → Bool → Disk H → Disk H
  unfolding place_eq
  set_scratch p b d = record d { scratch = λ q. if place_eq p q then b else d.scratch q }
