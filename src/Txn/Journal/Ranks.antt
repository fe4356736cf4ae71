-- ===== src/Txn/Journal/Ranks.antt =====
-- How far a transaction has come, and how long its history can be.
use mathlib.Core.Path.{subst}
use idunn.Prelude.{
  All-map, Result-cases, sym, ◌∙◌, ℕ, ◌+◌, ◌≤◌, ◌≡◌, refl, true, false, some, List, [], ◌∷◌, ◌++◌,
  ok, arith, length, length-append, last?, last?-snoc, All, All-append, same_iff, inl, inr, ◌>>◌,
}
use idunn.Txn.Journal.{
  State, Record, begin, staged, migrated, swapped, committed, rolled_back, deferred, uninstalling,
  other, may_follow, same_transaction, check_transition, extend, check_record, next_records,
  state_eq, opens,
}
use idunn.Txn.Journal.Histories.{
  last?-cons, extend-some, state_eq-begin, next_records-eq-ok, Built, empty, grown,
}

-- How far a transaction has come, by its last record.
rank : State → ℕ
rank begin = 1
rank staged = 2
rank deferred = 3
rank migrated = 4
rank swapped = 5
rank committed = 6
rank rolled_back = 6
rank uninstalling = 7
rank (other s) = 8

may_follow-rank :
    (a b : State) → may_follow a b ≡ true → state_eq b begin ≡ false → rank a + 1 ≤ rank b
unfolding may_follow rank state_eq
may_follow-rank begin b h k = ground arith
may_follow-rank staged b h k = ground arith
may_follow-rank _ b h k = ground arith

abbrev pub SameTransaction : Record → Record → Type 0
SameTransaction a b =
    (a.from_version ≡ b.from_version) × (a.to_version ≡ b.to_version) × (a.name ≡ b.name)

SameTransaction-trans :
    (a b c : Record) → SameTransaction a b → SameTransaction b c → SameTransaction a c
SameTransaction-trans a b c h k = (h.0 ∙ k.0, h.1 ∙ k.1, h.2 ∙ k.2)

same_transaction-eqs :
    (prev next : Record) → same_transaction prev next ≡ true → SameTransaction next prev
unfolding same_transaction
same_transaction-eqs prev next h = ground (
  arith,
  same_iff next.from_version prev.from_version,
  same_iff next.to_version prev.to_version,
  same_iff next.name prev.name,
)

check_transition-eq-ok :
    (prev next : Record)
    → check_transition prev next ≡ ok tt
    → state_eq next.state begin ≡ false
    → (may_follow prev.state next.state ≡ true) × (same_transaction prev next ≡ true)
unfolding check_transition
check_transition-eq-ok prev next h k = ground arith

-- What every history that Append has built satisfies, beside its last record.
record Steady (records : List Record) (last : Record) : Type 0 where
  short : length records ≤ rank last.state
  known : rank last.state ≤ 7
  one_transaction : All (λ r. SameTransaction last r) records

may_follow-known : (a b : State) → may_follow a b ≡ true → rank b ≤ 7
unfolding may_follow rank
may_follow-known begin b h = ground arith
may_follow-known _ b h = ground arith

opens-rank : (s : State) → opens s ≡ true → (1 ≤ rank s) × (rank s ≤ 7)
unfolding rank
opens-rank begin h = omega arith
opens-rank _ h = ground arith

Steady-single : (r : Record) → opens r.state ≡ true → Steady (r ∷ []) r
Steady-single r h =
    let (low, high) = opens-rank r.state h in
    record { short = low; known = high; one_transaction = ((refl, refl, refl), tt) }

Steady-snoc :
    (records : List Record) (last r : Record)
    → Steady records last
    → check_transition last r ≡ ok tt
    → state_eq r.state begin ≡ false
    → Steady (records ++ r ∷ []) r
Steady-snoc records last r s h k =
    let (follows, same_one) = check_transition-eq-ok last r h k in
    let identity = same_transaction-eqs last r same_one in
    record {
      short = omega (
        arith,
        length-append records (r ∷ []),
        may_follow-rank last.state r.state follows k,
        s.short,
      );
      known = may_follow-known last.state r.state follows;
      one_transaction =
          All-append _ records (r ∷ [])
            (All-map records (λ x. SameTransaction-trans r last x identity) s.one_transaction)
            ((refl, refl, refl), tt);
    }

-- The history that Append makes, and its last record.
extend-Steady :
    (records next : List Record) (r : Record)
    → ((last : Record) → last? records ≡ some last → Steady records last)
    → extend (last? records) records r ≡ ok next
    → (last? next ≡ some r) × Steady next r
extend-Steady [] next r ih e = unfold extend last? in ground (arith, Steady-single r)
extend-Steady (first ∷ rest) next r ih e =
    let (last, at_last) = last?-cons first rest in
    let (legal, which) = extend-some last r (first ∷ rest) next (rw at_last at e) in
    elim which [
      | inl (fresh, made) ↦
          rw made (unfold last? in refl, Steady-single r (rw (state_eq-begin r.state fresh) refl))
      | inr (old, made) ↦ rw made (
        last?-snoc (first ∷ rest) r,
        Steady-snoc (first ∷ rest) last r (ih last at_last) legal old,
      )
    ]

pub some_inj : (a b : Record) → some a ≡ some b → a ≡ b
some_inj a b h = cc

Built-Steady :
    {records : List Record}
    → Built records
    → (last : Record) → last? records ≡ some last
    → Steady records last
Built-Steady empty last e = unfold last? in cc
Built-Steady (grown {records} {next} r b e) last at_last =
    let (known, made, fits) = next_records-eq-ok records r e in
    let (at_r, steady) = extend-Steady records next r (Built-Steady b) made in
    subst (Steady next) (some_inj r last (sym at_r ∙ at_last)) steady

pub Built-last :
    {records next : List Record} {r : Record}
    → Built records
    → extend (last? records) records r ≡ ok next
    → last? next ≡ some r
Built-last {records} {next} {r} b made = (extend-Steady records next r (Built-Steady b) made).0

-- A history that Append builds holds one transaction: every record has the name and the two
-- versions of the last one, and there are at most seven records.
pub Built-one_transaction :
    {records : List Record} (last : Record)
    → Built records
    → last? records ≡ some last
    → All (λ r. SameTransaction last r) records × (length records ≤ 7)
Built-one_transaction last b e =
    let steady = Built-Steady b last e in
    (steady.one_transaction, omega (arith, steady.short, steady.known))

extend-length :
    {records next : List Record} (r : Record)
    → Built records
    → extend (last? records) records r ≡ ok next
    → length next ≤ 7
extend-length {records} {next} r b e =
    let (at_r, steady) = extend-Steady records next r (Built-Steady b) e in
    omega (arith, steady.short, steady.known)

pub next_records-eq-extend :
    {records : List Record} (r : Record)
    → Built records
    → next_records records r ≡ (check_record r >> extend (last? records) records r)
next_records-eq-extend {records} r b = elim (Result-cases (extend (last? records) records r)) [
  | inl (next, made) ↦ let short = extend-length r b made in unfold next_records in ground arith
  | inr (e, refused) ↦ unfold next_records in ground arith
]
