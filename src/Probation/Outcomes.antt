-- ===== src/Probation/Outcomes.antt =====
-- internal/layout/probation_outcome.go: the failed probations that wait to be reported.
use idunn.Prelude.{
  ℕ, Bool, not, ◌||◌, List, [], ◌∷◌, ◌++◌, Bytes, codes, Result, refuse_if, same, member,
  contains_byte, ◌==◌, ◌>>◌,
}
use idunn.Txn.Journal.{Error, bad_outcome}
use idunn.Layout.Pointer.{validate_version}

-- `at` counts from the zero time.
pub record ProbationOutcome : Type 0 where
  pub from_version : Bytes
  pub to_version : Bytes
  pub os : Bytes
  pub arch : Bytes
  pub result : Bytes
  pub class : Bytes
  pub at : ℕ

abbrev pub max_probation_outcomes : ℕ
max_probation_outcomes = 16

abbrev pub rolled_back : Bytes
rolled_back = codes "rolled_back"

abbrev pub result_kept : Bytes
result_kept = codes "kept"

abbrev pub class_unconfirmed : Bytes
class_unconfirmed = codes "unconfirmed"

abbrev pub class_unhealthy : Bytes
class_unhealthy = codes "unhealthy"

abbrev pub class_restarts : Bytes
class_restarts = codes "restarts"

abbrev pub class_reinstalled : Bytes
class_reinstalled = codes "reinstalled"

abbrev results : List Bytes
results = rolled_back ∷ result_kept ∷ []

abbrev classes : List Bytes
classes = class_unconfirmed ∷ class_unhealthy ∷ class_restarts ∷ class_reinstalled ∷ []

-- `/`, a backslash or a space.
abbrev has_separator : Bytes → Bool
has_separator s = contains_byte b'/' s || contains_byte b'\\' s || contains_byte b' ' s

unfoldable pub validate_outcome : ProbationOutcome → Result Error (Unit {0})
validate_outcome o = do
  validate_version o.from_version
  validate_version o.to_version
  refuse_if (same o.os [] || same o.arch [] || has_separator (o.os ++ o.arch)) bad_outcome
  refuse_if (not (member o.result results)) bad_outcome
  refuse_if (not (member o.class classes)) bad_outcome
  refuse_if (o.at == 0) bad_outcome

unfoldable pub outcome_name : ProbationOutcome → Bytes
outcome_name o =
    o.to_version ++ (codes "_" ++ (o.result ++ (codes "_" ++ (o.class ++ codes ".json"))))
