-- ===== src/Probation/Reports.antt =====
-- WriteProbationOutcome of internal/layout/probation_outcome.go: one file for each outcome, and no more
-- files than the ceiling.
use idunn.Prelude.{not, ◌&&◌, List, ◌∷◌, Bytes, refuse_if, member, leb, length, if◌then◌else◌}
use idunn.Txn.Journal.{too_many_outcomes}
use idunn.Layout.Disk.{at_outcomes}
use idunn.Layout.Effects.{Action, lift, look, quiet, write_file_atomic, ◌>>=◌, ◌>>◌}
use idunn.Probation.Files.{Files}
use idunn.Probation.Outcomes.{
  ProbationOutcome, max_probation_outcomes, validate_outcome, outcome_name,
}

-- The names of the waiting outcomes with one more, if it is not there yet; the order in which
-- ProbationOutcomeNames sorts them is left open.
unfoldable pub add_name : Bytes → List Bytes → List Bytes
add_name name names = if member name names then names else name ∷ names

module _ {H : Type 0} where
  unfoldable pub write_probation_outcome : ProbationOutcome → Action (Files H) (Unit {0})
  write_probation_outcome o = do
    lift (validate_outcome o)
    pending ← look (λ d. d.host.outcomes)
    lift (
        refuse_if
          (leb max_probation_outcomes (length pending) && not (member (outcome_name o) pending))
          too_many_outcomes)
    quiet
    write_file_atomic at_outcomes (λ d. record d {
      host = record d.host { outcomes = add_name (outcome_name o) d.host.outcomes };
    })
