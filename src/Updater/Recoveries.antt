-- ===== src/Updater/Recoveries.antt =====
-- Recoveries in which no call fails, at the roots of an interrupted update.
use idunn.Prelude.{arith, ℕ, ◌≡◌, refl, true, false, inr, some, List, [], ◌∷◌, ok, last?, same}
use idunn.Txn.Journal.{Record, document, staged, next_records, check_record, extend}
use idunn.Txn.Journal.Histories.{Built, empty, grown}
use idunn.Release.Version.{valid_version}
use idunn.Txn.Recover.{recover, finished}
use idunn.Txn.Recover.Progress.{undone, undone_journal}
use idunn.Txn.Recover.Settles.{ResultOf, recover_rolls_back}
use idunn.Txn.Recover.Completes.{completed_journal, recover_completes}
use idunn.Layout.Disk.{Disk, names, whole}
use idunn.Layout.Pointer.{validate_version}
use idunn.Updater.Tests.{
  old_version, new_version, hooks, begun, after_migration, at_old, at_old-Sound, apart,
}

abbrev ready : Record
ready = record begun { state = staged }

abbrev three : List Record
three = begun ∷ ready ∷ after_migration ∷ []

three-Built : Built three
unfolding next_records check_record extend last? same
three-Built = grown after_migration (grown ready (grown begun empty refl) refl) refl

last_of_three : last? three ≡ some after_migration
unfolding last?
last_of_three = refl

valid_old : validate_version old_version ≡ ok tt
unfolding validate_version valid_version
valid_old = refl

valid_new : validate_version new_version ≡ ok tt
unfolding validate_version valid_version
valid_new = refl

recover_rolls_back_example :
    ResultOf
      (finished after_migration false)
      (names old_version)
      (undone (λ v. whole) after_migration)
      (undone_journal three after_migration)
      (recover hooks (record { disk = at_old (some (document three)); outcomes = [] }))
recover_rolls_back_example =
    recover_rolls_back hooks (at_old (some (document three))) three after_migration refl
      (omega arith) three-Built last_of_three refl (at_old-Sound after_migration refl) refl
      (inr valid_old) valid_new apart (λ h. refl)

-- The same after the swap, which the journal does not know of.
abbrev at_new : Disk ℕ
at_new = record (at_old (some (document three))) { current = names new_version }

recover_completes_example :
    ResultOf
      (finished after_migration true)
      (names new_version)
      (λ v. whole)
      (completed_journal three after_migration)
      (recover hooks (record { disk = at_new; outcomes = [] }))
recover_completes_example =
    recover_completes hooks at_new three after_migration refl (omega arith) three-Built
      last_of_three refl refl valid_new
