-- ===== src/Probation/Record.antt =====
-- internal/layout/probation.go: the record of a version on probation, and its validation.
pub mod Valid
use idunn.Prelude.{
  ℕ, ◌+◌, Bool, true, false, not, ◌||◌, Option, none, some, Bytes, Result, ok, refuse_if, same, ltb,
  map, ◌>>=◌, ◌>>◌,
}
use idunn.Txn.Journal.{Error, bad_probation}
use idunn.Layout.Pointer.{validate_version}
use idunn.Probation.Reason.{Runes, sanitize_reason}

-- ProbationStatus; `other` is any other text.
pub data Status : Type 0 where
  active confirmed unhealthy reverting reverted kept other : Status

pub record BlockedVersion : Type 0 where
  pub version : Bytes
  pub reason : Runes

pub record Probation : Type 0 where
  pub schema_version : ℕ
  pub version : Bytes
  pub previous : Bytes
  pub status : Status
  pub attempts : ℕ
  pub attempts_allowed : ℕ
  pub restarts : ℕ
  pub restarts_allowed : ℕ
  pub restart_pending : Bool
  pub reason : Runes
  pub blocked : Option BlockedVersion

-- probation.json: not there, a file that ReadProbation refuses before validate, or a record. It
-- refuses a file over MaxProbationLen, 16 KiB, one that encoding/json does not decode, and (in
-- validate) a number below 0.
pub data Stored : Type 0 where
  absent unreadable : Stored
  stored : Probation → Stored

abbrev pub is_other : Status → Bool
is_other other = true
is_other _ = false

-- A reason that SanitizeReason leaves as it is.
abbrev pub is_sanitized : Runes → Bool
is_sanitized reason = same (sanitize_reason (map some reason)) reason

abbrev pub max_probation_attempts : ℕ
max_probation_attempts = 20

abbrev pub max_probation_restarts : ℕ
max_probation_restarts = 20

abbrev pub probation_schema : ℕ
probation_schema = 1

unfoldable pub validate_blocked : Option BlockedVersion → Result Error (Unit {0})
validate_blocked none = ok tt
validate_blocked (some b) =
    validate_version b.version >> refuse_if (not (is_sanitized b.reason)) bad_probation

unfoldable pub validate : Probation → Result Error (Unit {0})
unfolding validate_blocked
validate p =
    validate_version p.version
    >> validate_version p.previous
    >> refuse_if (same p.version p.previous) bad_probation
    >> refuse_if (is_other p.status) bad_probation
    >> refuse_if (ltb p.attempts_allowed 1 || ltb max_probation_attempts p.attempts_allowed)
        bad_probation
    >> refuse_if (ltb max_probation_restarts p.restarts_allowed) bad_probation
    >> refuse_if (ltb (p.attempts_allowed + 1) p.attempts) bad_probation
    >> refuse_if (ltb (p.restarts_allowed + 1) p.restarts) bad_probation
    >> refuse_if (not (is_sanitized p.reason)) bad_probation
    >> validate_blocked p.blocked
