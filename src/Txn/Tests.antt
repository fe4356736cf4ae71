-- ===== src/Txn/Tests.antt =====
-- The journal at concrete histories.
use idunn.Prelude.{◌≡◌, refl, [], ◌∷◌, ok, err, some, codes, last?, length, ◌≤◌, All, same}
use idunn.Txn.Journal.{
  document, Record, begin, staged, migrated, check, stage, migrate, next_records, check_record,
  extend, parse, bad_transition,
}
use idunn.Txn.Journal.Histories.{Built, empty, grown, parse-Built}
use idunn.Txn.Journal.Ranks.{SameTransaction, Built-one_transaction}

abbrev begun : Record
begun = record {
  state = begin;
  name = codes "app";
  from_version = codes "1.0.0";
  to_version = codes "1.1.0";
  phase = check;
}

abbrev ready : Record
ready = record begun { state = staged; phase = stage }

abbrev moved : Record
moved = record begun { state = migrated; phase = migrate }

first_append : next_records [] begun ≡ ok (begun ∷ [])
unfolding next_records check_record extend last?
first_append = refl

second_append : next_records (begun ∷ []) ready ≡ ok (begun ∷ ready ∷ [])
unfolding next_records check_record extend last? same
second_append = refl

skipped_stage : next_records (begun ∷ []) moved ≡ err bad_transition
unfolding next_records check_record extend last? same
skipped_stage = refl

abbrev two : Built (begun ∷ ready ∷ [])
two = grown ready (grown begun empty first_append) second_append

last_ready : last? (begun ∷ ready ∷ []) ≡ some ready
unfolding last?
last_ready = refl

reads_two : parse (document (begun ∷ ready ∷ [])) ≡ ok (begun ∷ ready ∷ [])
reads_two = parse-Built two (λ e. cc)

Built-one_transaction_example :
    All (SameTransaction ready) (begun ∷ ready ∷ []) × (length (begun ∷ ready ∷ []) ≤ 7)
Built-one_transaction_example = Built-one_transaction ready two last_ready
