-- ===== src/Probation/Files.antt =====
-- internal/layout/probation.go: reading and writing the record. The files of probation are part of
-- what `H` stands for in Layout.Disk, beside the host's own state, which no operation of the install
-- root touches.
use idunn.Prelude.{not, Option, none, some, List, [], ◌∷◌, Bytes, refuse_if, ◌==◌}
use idunn.Txn.Journal.{bad_probation}
use idunn.Layout.Disk.{Disk, at_meta}
use idunn.Layout.Effects.{Action, pure, raise, lift, look, quiet, write_file_atomic, ◌>>=◌, ◌>>◌}
use idunn.Probation.Record.{Status, Probation, Stored, validate, probation_schema}

-- The files of probation, and the host's own state.
pub record Files (H : Type 0) : Type 0 where
  pub probation : Stored
  pub outcomes : List Bytes
  pub app : H

unfoldable pub pins : Option Probation → List Bytes
pins none = []
pins (some p) = elim p.status [
  | Status.active ↦ p.previous ∷ []
  | Status.unhealthy ↦ p.previous ∷ []
  | Status.reverting ↦ p.previous ∷ []
  | _ ↦ []
]

module _ {H : Type 0} where
  unfoldable pub decode : Stored → Action (Files H) (Option Probation)
  decode Stored.absent = pure none
  decode Stored.unreadable = raise bad_probation
  decode (Stored.stored p) = do
    lift (refuse_if (not (p.schema_version == probation_schema)) bad_probation)
    lift (validate p)
    pure (some p)

  -- ReadProbation
  unfoldable pub read_probation : Action (Files H) (Option Probation)
  unfolding decode
  read_probation = do s ← look (λ d. d.host.probation); decode s

  unfoldable pub store : Probation → Disk (Files H) → Disk (Files H)
  store p d = record d { host = record d.host { probation = Stored.stored p } }

  -- WriteProbation, for a record that encoding/json can encode in MaxProbationLen bytes: a reason
  -- has at most 512, so that only names of versions of some kilobytes make a longer one.
  unfoldable pub write_probation : Probation → Action (Files H) (Unit {0})
  write_probation p = do
    lift (validate (record p { schema_version = probation_schema }))
    quiet
    write_file_atomic at_meta (store (record p { schema_version = probation_schema }))

  -- ProbationPins: the version that a probation may still return to.
  unfoldable pub probation_pins : Action (Files H) (List Bytes)
  unfolding pins
  probation_pins = do p ← read_probation; pure (pins p)
