-- ===== src/Txn/Journal/Known.antt =====
-- A journal that Open accepts ends with a state that the journal knows.
use mathlib.Core.Path.{subst}
use idunn.Prelude.{◌≡◌, refl, true, false, some, List, [], ◌∷◌, Bytes, ok, last?, arith}
use idunn.Txn.Journal.{
  State, begin, uninstalling, other, Record, Document, may_follow, check_transition, check_history,
  check_records, opens, parse,
}

-- A state that the journal knows.
abbrev pub IsKnown : State → Type 0
IsKnown (other s) = ⊥
IsKnown _ = Unit

may_follow_of :
    (prev next : Record)
    → check_transition prev next ≡ ok tt
    → may_follow prev.state next.state ≡ true
unfolding check_transition
may_follow_of prev next h = ground arith

not-may_follow : (a : State) (t : Bytes) → may_follow a (other t) ≡ false
unfolding may_follow
not-may_follow begin t = refl
not-may_follow _ t = refl

check_transition-IsKnown :
    (prev next : Record) → check_transition prev next ≡ ok tt → IsKnown next.state
check_transition-IsKnown prev next h = known next.state (may_follow_of prev next h)
  where
    known : (s : State) → may_follow prev.state s ≡ true → IsKnown s
    known begin e = tt
    known (other t) e = cc (not-may_follow prev.state t)
    known _ e = tt

check_history-cons :
    (first next : Record) (rest : List Record)
    → check_history first (next ∷ rest) ≡ ok tt
    → (check_transition first next ≡ ok tt) × (check_history next rest ≡ ok tt)
unfolding check_history
check_history-cons first next rest h = ground arith

some_inj : (a b : Record) → some a ≡ some b → a ≡ b
some_inj a b h = cc

check_history-IsKnown :
    (first last : Record) (rest : List Record)
    → IsKnown first.state
    → check_history first rest ≡ ok tt
    → last? (first ∷ rest) ≡ some last
    → IsKnown last.state
check_history-IsKnown first last [] k h e =
    unfold last? in subst (λ (r : Record). IsKnown r.state) (some_inj first last e) k
check_history-IsKnown first last (next ∷ rest) k h e =
    let (legal, following) = check_history-cons first next rest h in
    check_history-IsKnown next last rest (check_transition-IsKnown first next legal) following
      (unfold last? in e)

opens-IsKnown : (s : State) → opens s ≡ true → IsKnown s
opens-IsKnown begin h = tt
opens-IsKnown uninstalling h = tt
opens-IsKnown (other t) h = cc
opens-IsKnown _ h = tt

check_records-cons :
    (first : Record) (rest : List Record)
    → check_records (first ∷ rest) ≡ ok tt
    → (opens first.state ≡ true) × (check_history first rest ≡ ok tt)
unfolding check_records
check_records-cons first rest h = ground arith

parse-records :
    (doc : Document) (records : List Record)
    → parse doc ≡ ok records
    → (check_records records ≡ ok tt)
unfolding parse
parse-records doc records h = ground arith

check_records-IsKnown :
    (records : List Record) (last : Record)
    → check_records records ≡ ok tt
    → last? records ≡ some last
    → IsKnown last.state
check_records-IsKnown [] last h e = unfold check_records in cc
check_records-IsKnown (first ∷ rest) last h e =
    let (open_first, following) = check_records-cons first rest h in
    check_history-IsKnown first last rest (opens-IsKnown first.state open_first) following e

pub parse-IsKnown :
    (doc : Document) (records : List Record) (last : Record)
    → parse doc ≡ ok records
    → last? records ≡ some last
    → IsKnown last.state
parse-IsKnown doc records last h e =
    check_records-IsKnown records last (parse-records doc records h) e
