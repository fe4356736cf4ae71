-- ===== src/Txn/Recover/Settles.antt =====
-- Recovery of a transaction whose swap did not happen, where no call fails.
use mathlib.Core.Path.{subst}
use idunn.Prelude.{
  ◌≤◌, ◌≡◌, ◌≢◌, refl, sym, ap, ◌∙◌, Bool, true, false, Option, none, some, List, [], Bytes, ok,
  Result, last?, same,
}
use idunn.Txn.Journal.{
  rollback, State, begin, staged, migrated, rolled_back, Record, Document, Error, document, parse,
  max_journal_len,
}
use idunn.Txn.Log.Progress.{Goes-open_journal}
use idunn.Txn.Recover.{
  Migrator, Recovery, finished, recover_migrated, recover_from, recover_last, recover,
}
use idunn.Layout.Disk.{Disk, Pointer, Dir}
use idunn.Layout.Effects.{World}
use idunn.Layout.Effects.Progress.{
  Ends, ends, Goes, Holding, Goes-pure, Goes-bind, Goes-given, Goes-if,
}
use idunn.Layout.Pointer.{validate_version}
use idunn.Layout.Pointer.Region.{pointer_at}
use idunn.Layout.Pointer.Progress.{IsNamed, Goes-pointer_target}
use idunn.Txn.Journal.Histories.{Built, parse-Built}
use idunn.Txn.Journal.Closing.{next_records-follows}
use idunn.Txn.Journal.{may_follow, state_eq, is_known}
use idunn.Txn.Invariant.{last_of, is_open, Sound}
use idunn.Layout.Effects.Region.{Over}
use idunn.Txn.Recover.Progress.{Undoes, Undoable, undone, undone_journal, Goes-undo_transaction}

abbrev pub is_undone : State → Bool
is_undone begin = true
is_undone staged = true
is_undone migrated = true
is_undone _ = false

-- What a run that ended says of its result and of its disk.
abbrev pub ResultOf :
    {H A : Type 0}
    → A
    → Pointer
    → (Bytes → Dir)
    → Option Document
    → Result Error A × World H
    → Type 0
ResultOf a c f j x =
    (x.0 ≡ ok a) × (x.1.disk.current ≡ c) × (x.1.disk.dirs ≡ f) × (x.1.disk.journal ≡ j)

pub Ends-ResultOf :
    {H A : Type 0} {a : A} {c : Pointer} {f : Bytes → Dir} {j : Option Document}
    (x : Result Error A × World H)
    → Ends (λ r d. Holding c f j d × (r ≡ a)) x
    → ResultOf a c f j x
Ends-ResultOf _ (ends r d (h, e)) = (ap ok e, h.0, h.1, h.2)

module _ {H : Type 0} {f : Bytes → Dir} {j : Option Document} (m : Option (Migrator H))
    (records : List Record) (last : Record) (apart : same last.from_version last.to_version ≡ false)
    (u : Undoable m f records last) where
  Goes-recover_from :
      (s : State)
      → is_undone s ≡ true
      → Goes (Holding (pointer_at last.from_version) f j) (recover_from m records last s) (λ r d.
        Holding (pointer_at last.from_version) (undone f last) (undone_journal records last) d
        × (r ≡ finished last false))
  unfolding recover_from recover_migrated
  Goes-recover_from begin e =
      Goes-bind
        (λ _. Holding (pointer_at last.from_version) (undone f last) (undone_journal records last))
        (Goes-undo_transaction last.from_version u.from none records last
          (record { from = u.from; to = u.to; there = u.there; hook = tt; room = u.room }))
        λ _. Goes-pure _ (λ d h. (h, refl))
  Goes-recover_from staged e =
      Goes-bind
        (λ _. Holding (pointer_at last.from_version) (undone f last) (undone_journal records last))
        (Goes-undo_transaction last.from_version u.from m records last u)
        λ _. Goes-pure _ (λ d h. (h, refl))
  Goes-recover_from migrated e =
      Goes-bind (λ r d. Holding (pointer_at last.from_version) f j d × (r ≡ last.from_version))
        (Goes-pointer_target last.from_version u.from)
        λ live. Goes-given _ λ is_from.
          Goes-if (same live last.to_version)
            (λ at_to. absurd (cc (ap (λ v. same v last.to_version) is_from, at_to, apart)))
            (λ _.
              Goes-bind
                (λ _.
                  Holding (pointer_at last.from_version) (undone f last)
                    (undone_journal records last))
                (Goes-undo_transaction last.from_version u.from m records last u)
                λ _. Goes-pure _ (λ d h. (h, refl)))
  Goes-recover_from _ e = cc

  Goes-recover-undone :
      last? records ≡ some last
      → is_undone last.state ≡ true
      → parse (document records) ≡ ok records
      → j ≡ some (document records)
      → Goes
          (λ d. Holding (pointer_at last.from_version) f j d × (d.journal_len ≤ max_journal_len))
          (recover m)
          (λ r d.
            Holding (pointer_at last.from_version) (undone f last) (undone_journal records last) d
            × (r ≡ finished last false))
  unfolding recover recover_last
  Goes-recover-undone at_last undo parses at_j =
      Goes-bind (λ n d. Holding (pointer_at last.from_version) f j d × (n ≡ records))
        (Goes-open_journal records parses at_j)
        λ n. Goes-given _ λ is_records.
          let P : Disk H → Type 0 = Holding (pointer_at last.from_version) f j in
          let Q : Recovery → Disk H → Type 0 = λ r d.
            Holding (pointer_at last.from_version) (undone f last) (undone_journal records last) d
            × (r ≡ finished last false) in
          subst (λ x. Goes {H = H} P (recover_last m x (last? x)) Q) (sym is_records)
            (subst (λ o. Goes {H = H} P (recover_last m records o) Q) (sym at_last)
              (Goes-recover_from last.state undo))

is_undone-open : (s : State) → is_undone s ≡ true → is_open s ≡ true
is_undone-open begin h = refl
is_undone-open staged h = refl
is_undone-open migrated h = refl
is_undone-open _ h = cc

is_undone-follows : (s : State) → is_undone s ≡ true → may_follow s rolled_back ≡ true
unfolding may_follow
is_undone-follows begin h = refl
is_undone-follows staged h = refl
is_undone-follows migrated h = refl
is_undone-follows _ h = cc

pub not_empty : (records : List Record) (last : Record) → last? records ≡ some last → records ≢ []
not_empty records last h e = unfold last? in cc (ap last? e, h)

-- From a sound install root whose journal Append has built and Open finds short enough, where no call fails and the hook can
-- undo its migration, RecoverResult rolls back a transaction between two different versions, that a
-- pointer may name, which had got to BEGIN, STAGED or MIGRATED while `current` still names the version it came from:
-- it reports a rollback, `current` still names that version, the new version's directory is gone
-- with every other left alone, and the journal goes on with ROLLED_BACK.
pub recover_rolls_back :
    {H : Type 0} (m : Option (Migrator H)) (d : Disk H) (records : List Record) (last : Record)
    → d.journal ≡ some (document records)
    → d.journal_len ≤ max_journal_len
    → Built records
    → last? records ≡ some last
    → is_undone last.state ≡ true
    → Over Sound d
    → d.current ≡ pointer_at last.from_version
    → IsNamed last.from_version
    → validate_version last.to_version ≡ ok tt
    → same last.from_version last.to_version ≡ false
    → Undoes m last
    → ResultOf
        (finished last false)
        (pointer_at last.from_version)
        (undone d.dirs last)
        (undone_journal records last)
        (recover m (record { disk = d; outcomes = [] }))
recover_rolls_back m d records last at_j small b at_last undo sound at_from from to apart hook =
    let room =
      next_records-follows records last rolled_back rollback b at_last
        (is_undone-follows last.state undo) (unfold is_known in refl) (unfold state_eq in refl) in
    let on_disk : last_of d.journal ≡ some last = ap last_of at_j ∙ at_last in
    let u : Undoable m d.dirs records last = record {
      from = from;
      to = to;
      there = sound.base_whole last on_disk (is_undone-open last.state undo);
      hook = hook;
      room = room;
    } in
    Ends-ResultOf _ (
      (Goes-recover-undone m records last apart u at_last undo
          (parse-Built b (not_empty records last at_last)) at_j).at
        d ((at_from, refl, refl), small))
