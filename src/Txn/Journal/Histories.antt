-- ===== src/Txn/Journal/Histories.antt =====
-- The histories that Append builds.

use idunn.Prelude.{
  ◌≤◌, ◌≡◌, ◌≢◌, refl, true, false, some, List, [], ◌∷◌, ◌++◌, ok, arith, length, last?, inl, inr,
  ◌⊎◌,
}
use idunn.Txn.Journal.{
  State, Record, document, begin, check_transition, check_history, check_records, parse, extend,
  check_record, next_records, state_eq, opens, max_records,
}

-- A record that Append accepts at the end keeps the check of the history.
check_history-snoc :
    (first last r : Record) (rest : List Record)
    → check_history first rest ≡ ok tt
    → last? (first ∷ rest) ≡ some last
    → check_transition last r ≡ ok tt
    → check_history first (rest ++ r ∷ []) ≡ ok tt
unfolding check_history last?
check_history-snoc first last r [] h e k = ground arith
check_history-snoc first last r (next ∷ rest) h e k =
    ground (arith, check_history-snoc next last r rest)

-- A history that the code accepts to read: what check_records says.
abbrev IsReadable : List Record → Type 0
IsReadable records = check_records records ≡ ok tt

pub last?-cons : (x : Record) (xs : List Record) → (l : Record) × (last? (x ∷ xs) ≡ some l)
unfolding last?
last?-cons x [] = (x, refl)
last?-cons x (y ∷ xs) = last?-cons y xs

-- The two ways in which Append goes on from a last record.
pub extend-some :
    (last r : Record) (records next : List Record)
    → extend (some last) records r ≡ ok next
    → (check_transition last r ≡ ok tt)
      × ((state_eq r.state begin ≡ true) × (next ≡ r ∷ [])
          ⊎ (state_eq r.state begin ≡ false) × (next ≡ records ++ r ∷ []))
unfolding extend
extend-some last r records next h = ground arith

pub state_eq-begin : (s : State) → state_eq s begin ≡ true → s ≡ begin
unfolding state_eq
state_eq-begin begin h = refl
state_eq-begin s h = ground arith

IsReadable-single : (r : Record) → opens r.state ≡ true → IsReadable (r ∷ [])
unfolding check_records
IsReadable-single r h = ground arith

IsReadable-snoc :
    (first last r : Record) (rest : List Record)
    → IsReadable (first ∷ rest)
    → last? (first ∷ rest) ≡ some last
    → check_transition last r ≡ ok tt
    → length (first ∷ rest ++ r ∷ []) ≤ max_records
    → IsReadable (first ∷ rest ++ r ∷ [])
unfolding check_records
IsReadable-snoc first last r rest h e k fits = ground (arith, check_history-snoc first last r rest)

was-IsReadable :
    (first : Record) (rest : List Record)
    → ((first ∷ rest) ≡ []) ⊎ IsReadable (first ∷ rest)
    → IsReadable (first ∷ rest)
was-IsReadable first rest (inl h) = cc
was-IsReadable first rest (inr h) = h

-- One Append keeps the journal readable.
extend-IsReadable :
    (records next : List Record) (r : Record)
    → (records ≡ []) ⊎ IsReadable records
    → extend (last? records) records r ≡ ok next
    → length next ≤ max_records
    → IsReadable next
extend-IsReadable [] next r h e fits = unfold extend last? in ground (arith, IsReadable-single r)
extend-IsReadable (first ∷ rest) next r h e fits =
    let (last, at_last) = last?-cons first rest in
    let (legal, which) = extend-some last r (first ∷ rest) next (rw at_last at e) in
    elim which [
      | inl (fresh, made) ↦ rw made (IsReadable-single r (rw (state_eq-begin r.state fresh) refl))
      | inr (old, made) ↦ rw made (
          IsReadable-snoc first last r rest (was-IsReadable first rest h) at_last legal
            (rw made at fits))
    ]

-- Append, as its check of the record and its choice of the history.
pub next_records-eq-ok :
    (records : List Record) (r : Record) {next : List Record}
    → next_records records r ≡ ok next
    → (check_record r ≡ ok tt)
      × (extend (last? records) records r ≡ ok next)
      × (length next ≤ max_records)
unfolding next_records
next_records-eq-ok records r {next} h = ground arith

-- The histories that calls of Append build, from an empty journal.
pub data Built : List Record → Type 0 where
  empty : Built []
  grown :
      {records next : List Record} (r : Record)
      → Built records
      → next_records records r ≡ ok next
      → Built next

Built-IsReadable : {records : List Record} → Built records → (records ≡ []) ⊎ IsReadable records
Built-IsReadable empty = inl refl
Built-IsReadable (grown {records} {next} r b e) =
    let (known, made, fits) = next_records-eq-ok records r e in
    inr (extend-IsReadable records next r (Built-IsReadable b) made fits)

-- The document that holds a history of one or more records built by Append alone, from an empty
-- journal, parses, and gives the same records.
pub parse-Built :
    {records : List Record} → Built records → records ≢ [] → parse (document records) ≡ ok records
unfolding parse
parse-Built {records} b h = elim (Built-IsReadable b) [
  | inl nothing ↦ absurd (h nothing)
  | inr fine ↦ rw fine
]
