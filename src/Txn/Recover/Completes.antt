-- ===== src/Txn/Recover/Completes.antt =====
-- Recovery of a transaction whose swap happened, where no call fails.
use mathlib.Core.Path.{subst}
use idunn.Prelude.{
  ◌≤◌, ◌≡◌, ◌≢◌, inr, refl, sym, ap, ◌∙◌, Bool, true, false, Option, some, List, [], ◌∷◌, ◌++◌,
  Bytes, ok, last?, last?-snoc, same, same_refl,
}
use idunn.Txn.Journal.{
  apply, commit, State, migrated, swapped, committed, Record, Document, document, parse,
  max_journal_len, next_records,
}
use idunn.Txn.Log.Progress.{Goes-append, Goes-open_journal}
use idunn.Txn.Recover.{
  Migrator, Recovery, finished, next_record, record_swap, complete, recover_migrated, recover_from,
  recover_last, recover, is_empty,
}
use idunn.Layout.Disk.{Disk, Pointer, Dir}
use idunn.Layout.Effects.Progress.{
  Goes, Holding, Goes-pure, Goes-lift, Goes-bind, Goes-given, Goes-weaken, Goes-if,
}
use idunn.Layout.Pointer.{validate_version}
use idunn.Layout.Pointer.Region.{pointer_at}
use idunn.Layout.Pointer.Progress.{Goes-pointer_target, Goes-write_install}
use idunn.Txn.Journal.Histories.{Built, grown, parse-Built}
use idunn.Txn.Journal.Closing.{next_records-follows, Built-name}
use idunn.Txn.Journal.{may_follow, state_eq, is_known}
use idunn.Txn.Recover.Progress.{Goes-settle_committed}
use idunn.Txn.Recover.Settles.{ResultOf, Ends-ResultOf, not_empty}

-- The records of SWAPPED and of COMMITTED.
abbrev pub swap_record : Record → Record
swap_record last = next_record last swapped apply

abbrev pub commit_record : Record → Record
commit_record last = next_record last committed commit

-- The history in which the swap is recorded.
abbrev pub swap_known : State → List Record → Record → List Record
swap_known migrated records last = records ++ swap_record last ∷ []
swap_known _ records last = records

-- The journal after a transaction was finished: it says first that the swap happened, where it did
-- not yet.
abbrev pub completed_journal : List Record → Record → Option Document
completed_journal records last =
    some (document (swap_known last.state records last ++ commit_record last ∷ []))

-- What finishing needs: names that are versions, and a journal that takes its records.
record Completable (records : List Record) (last : Record) : Type 0 where
  to : validate_version last.to_version ≡ ok tt
  named : is_empty last.name ≡ false
  swap_room :
      last.state ≡ migrated
      → next_records records (swap_record last) ≡ ok (records ++ swap_record last ∷ [])
  room :
      next_records (swap_known last.state records last) (commit_record last)
      ≡ ok (swap_known last.state records last ++ commit_record last ∷ [])

abbrev swap_journal : State → Option Document → List Record → Record → Option Document
swap_journal migrated j records last = some (document (records ++ swap_record last ∷ []))
swap_journal _ j records last = j

module _ {H : Type 0} {c : Pointer} {f : Bytes → Dir} {j : Option Document} (records : List Record)
    (last : Record) (u : Completable records last) where
  Goes-record_swap :
      (s : State)
      → last.state ≡ s
      → Goes {H = H}
          (Holding c f j)
          (record_swap s records last)
          (λ r d. Holding c f (swap_journal s j records last) d × (r ≡ swap_known s records last))
  unfolding record_swap
  Goes-record_swap migrated e = Goes-append records _ _ (u.swap_room e)
  Goes-record_swap _ e = Goes-pure records (λ d h. (h, refl))

module _ {H : Type 0} {f : Bytes → Dir} {j : Option Document} (records : List Record)
    (last : Record) (u : Completable records last) where
  Goes-complete :
      Goes {H = H}
        (Holding (pointer_at last.to_version) f j)
        (complete records last)
        (λ _. Holding (pointer_at last.to_version) f (completed_journal records last))
  unfolding complete
  Goes-complete =
      let live : Pointer = pointer_at last.to_version in
      let j' : Option Document = swap_journal last.state j records last in
      let known : List Record = swap_known last.state records last in
      let j'' : Option Document = completed_journal records last in
      Goes-bind (λ r d. Holding live f j d × (r ≡ last.to_version))
        (Goes-pointer_target last.to_version (inr u.to))
        λ at. Goes-given _ λ is_to.
          Goes-bind (λ _. Holding live f j)
            (Goes-lift _ tt (rw (is_to, same_refl last.to_version) refl) (λ d h. h))
            λ _.
              Goes-bind (λ r d. Holding live f j' d × (r ≡ known))
                (Goes-record_swap records last u last.state refl)
                λ r. Goes-given _ λ is_known.
                  Goes-bind (λ _. Holding live f j') (Goes-write_install _ u.named u.to refl)
                    λ _.
                      Goes-bind
                        (λ n d. Holding live f j'' d × (n ≡ known ++ commit_record last ∷ []))
                        (Goes-append r _ _
                          (ap (λ x. next_records x (commit_record last)) is_known ∙ u.room))
                        λ n.
                          Goes-weaken (Goes-settle_committed last.to_version (inr u.to) last u.to)
                            (λ d h. h.0)

-- The states from which recovery may find that the swap happened.
abbrev pub is_finished : State → Bool
is_finished migrated = true
is_finished swapped = true
is_finished _ = false

module _ {H : Type 0} {f : Bytes → Dir} {j : Option Document} (m : Option (Migrator H))
    (records : List Record) (last : Record) (u : Completable records last) where
  Goes-recover_finished :
      (s : State)
      → is_finished s ≡ true
      → Goes (Holding (pointer_at last.to_version) f j) (recover_from m records last s) (λ r d.
        Holding (pointer_at last.to_version) f (completed_journal records last) d
        × (r ≡ finished last true))
  unfolding recover_from recover_migrated
  Goes-recover_finished swapped e =
      Goes-bind (λ _. Holding (pointer_at last.to_version) f (completed_journal records last))
        (Goes-complete records last u) λ _. Goes-pure _ (λ d h. (h, refl))
  Goes-recover_finished migrated e =
      Goes-bind (λ r d. Holding (pointer_at last.to_version) f j d × (r ≡ last.to_version))
        (Goes-pointer_target last.to_version (inr u.to))
        λ at. Goes-given _ λ is_to.
          Goes-if (same at last.to_version)
            (λ _.
              Goes-bind
                (λ _. Holding (pointer_at last.to_version) f (completed_journal records last))
                (Goes-complete records last u) λ _. Goes-pure _ (λ d h. (h, refl)))
            (λ away.
              absurd (cc (ap (λ v. same v last.to_version) is_to, away, same_refl last.to_version)))
  Goes-recover_finished _ e = cc

  Goes-recover_completed :
      last? records ≡ some last
      → is_finished last.state ≡ true
      → parse (document records) ≡ ok records
      → j ≡ some (document records)
      → Goes
          (λ d. Holding (pointer_at last.to_version) f j d × (d.journal_len ≤ max_journal_len))
          (recover m)
          (λ r d.
            Holding (pointer_at last.to_version) f (completed_journal records last) d
            × (r ≡ finished last true))
  unfolding recover recover_last
  Goes-recover_completed at_last fin parses at_j =
      Goes-bind (λ n d. Holding (pointer_at last.to_version) f j d × (n ≡ records))
        (Goes-open_journal records parses at_j)
        λ n. Goes-given _ λ is_records.
          let P : Disk H → Type 0 = Holding (pointer_at last.to_version) f j in
          let Q : Recovery → Disk H → Type 0 = λ r d.
            Holding (pointer_at last.to_version) f (completed_journal records last) d
            × (r ≡ finished last true) in
          subst (λ x. Goes {H = H} P (recover_last m x (last? x)) Q) (sym is_records)
            (subst (λ o. Goes {H = H} P (recover_last m records o) Q) (sym at_last)
              (Goes-recover_finished last.state fin))

not_is_empty : (v : Bytes) → v ≢ [] → is_empty v ≡ false
not_is_empty [] h = absurd (h refl)
not_is_empty (x ∷ v) h = refl

swap-room :
    (records : List Record) (last : Record)
    → last.state ≡ migrated
    → Built records
    → last? records ≡ some last
    → next_records records (swap_record last) ≡ ok (records ++ swap_record last ∷ [])
swap-room records last e b at_last =
    next_records-follows records last swapped apply b at_last
      (ap (λ s. may_follow s swapped) e ∙ unfold may_follow in refl) (unfold is_known in refl)
      (unfold state_eq in refl)

-- The journal takes the record of the commit, after that of the swap where it is missing.
commit-room :
    (s : State) (records : List Record) (last : Record)
    → last.state ≡ s
    → is_finished s ≡ true
    → Built records
    → last? records ≡ some last
    → next_records (swap_known s records last) (commit_record last)
      ≡ ok (swap_known s records last ++ commit_record last ∷ [])
commit-room swapped records last e fin b at_last =
    next_records-follows records last committed commit b at_last
      (ap (λ s. may_follow s committed) e ∙ unfold may_follow in refl) (unfold is_known in refl)
      (unfold state_eq in refl)
commit-room migrated records last e fin b at_last =
    let made = swap-room records last e b at_last in
    next_records-follows (records ++ swap_record last ∷ []) (swap_record last) committed commit
      (grown (swap_record last) b made) (last?-snoc records (swap_record last))
      (unfold may_follow in refl) (unfold is_known in refl) (unfold state_eq in refl)
commit-room _ records last e fin b at_last = cc

-- Where no call fails and the journal is one that Append has built and Open finds short enough,
-- RecoverResult finishes a
-- transaction that had got to MIGRATED or SWAPPED while `current` already names its version, a valid
-- one: it reports a completion, leaves `current` and the
-- version directories as they are, and the journal goes on with SWAPPED, where that is missing,
-- and COMMITTED.
pub recover_completes :
    {H : Type 0} (m : Option (Migrator H)) (d : Disk H) (records : List Record) (last : Record)
    → d.journal ≡ some (document records)
    → d.journal_len ≤ max_journal_len
    → Built records
    → last? records ≡ some last
    → is_finished last.state ≡ true
    → d.current ≡ pointer_at last.to_version
    → validate_version last.to_version ≡ ok tt
    → ResultOf
        (finished last true)
        (pointer_at last.to_version)
        d.dirs
        (completed_journal records last)
        (recover m (record { disk = d; outcomes = [] }))
recover_completes m d records last at_j small b at_last fin at_to valid =
    let u : Completable records last = record {
      to = valid;
      named = not_is_empty last.name (Built-name last b at_last);
      swap_room = λ e. swap-room records last e b at_last;
      room = commit-room last.state records last refl fin b at_last;
    } in
    Ends-ResultOf _ (
      (Goes-recover_completed m records last u at_last fin
          (parse-Built b (not_empty records last at_last)) at_j).at
        d ((at_to, refl, refl), small))
