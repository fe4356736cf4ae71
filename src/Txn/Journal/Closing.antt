-- ===== src/Txn/Journal/Closing.antt =====
-- The journal always takes the record that closes a transaction.
use mathlib.Core.Path.{subst}
use idunn.Prelude.{
  ◌≡◌, ◌≢◌, refl, sym, ap, ◌∙◌, true, false, some, List, [], ◌∷◌, ◌++◌, ok, last?, same_refl, arith,
  ◌>>◌,
}
use idunn.Txn.Journal.{
  State, Phase, begin, other, Record, may_follow, same_transaction, check_transition, state_eq,
  check_record, extend, next_records, is_known, is_empty, is_empty_state,
}
use idunn.Txn.Journal.Histories.{Built, empty, grown, next_records-eq-ok}
use idunn.Txn.Journal.Ranks.{next_records-eq-extend, Built-last, some_inj}

-- The last record of a built history has passed the check of Append.
Built-check_record :
    {records : List Record} (last : Record)
    → Built records
    → last? records ≡ some last
    → check_record last ≡ ok tt
Built-check_record last empty e = unfold last? in cc
Built-check_record last (grown {records} {next} r b made) e =
    let (known, extended, fits) = next_records-eq-ok records r made in
    subst (λ x. check_record x ≡ ok tt) (some_inj r last (sym (Built-last b extended) ∙ e)) known

empty_state-known : (s : State) → is_known s ≡ true → is_empty_state s ≡ false
unfolding is_known
empty_state-known (other t) k = cc
empty_state-known _ k = refl

check_record-known :
    (last : Record) (s : State) (p : Phase)
    → is_known s ≡ true
    → check_record last ≡ ok tt
    → check_record (record last { state = s; phase = p }) ≡ ok tt
unfolding check_record is_known
check_record-known last s p k h = ground (arith, empty_state-known s)

check_transition-next :
    (last : Record) (s : State) (p : Phase)
    → may_follow last.state s ≡ true
    → check_transition last (record last { state = s; phase = p }) ≡ ok tt
unfolding check_transition same_transaction
check_transition-next last s p follows =
    ground (arith, same_refl last.from_version, same_refl last.to_version, same_refl last.name)

extends-follows :
    (records : List Record) (last r : Record)
    → last? records ≡ some last
    → check_transition last r ≡ ok tt
    → state_eq r.state begin ≡ false
    → extend (last? records) records r ≡ ok (records ++ r ∷ [])
unfolding extend
extends-follows records last r at_last legal goes_on = rw (at_last, legal, goes_on) refl

-- The next record of the transaction that a history ends with, where its state may follow.
pub next_records-follows :
    (records : List Record) (last : Record) (s : State) (p : Phase)
    → Built records
    → last? records ≡ some last
    → may_follow last.state s ≡ true
    → is_known s ≡ true
    → state_eq s begin ≡ false
    → next_records records (record last { state = s; phase = p })
      ≡ ok (records ++ record last { state = s; phase = p } ∷ [])
next_records-follows records last s p b at_last follows known goes_on =
    let fine = check_record-known last s p known (Built-check_record last b at_last) in
    let legal = check_transition-next last s p follows in
    next_records-eq-extend _ b
    ∙ (ap (λ c. c >> extend (last? records) records (record last { state = s; phase = p })) fine
        ∙ extends-follows records last (record last { state = s; phase = p }) at_last legal goes_on)

check_record-name : (r : Record) → check_record r ≡ ok tt → r.name ≢ []
unfolding check_record
check_record-name r h e = let blank : is_empty r.name ≡ true = ap is_empty e in ground arith

-- The record that a built history ends with has a name.
pub Built-name :
    {records : List Record} (last : Record)
    → Built records
    → last? records ≡ some last
    → last.name ≢ []
Built-name last b at_last = check_record-name last (Built-check_record last b at_last)
