-- ===== src/Timefloor/Rising.antt =====
-- The floor only rises.
use mathlib.Core.Path.{subst}
use idunn.Prelude.{
  ℕ, ◌≤◌, ◌<◌, ◌≡◌, ◌∙◌, true, Option, none, some, ok, err, Bool-cases, bind-eq-ok, inl, inr, arith,
  ltb,
}
use idunn.Layout.Effects.{Outcome, done, refused, unsure}
use idunn.Timefloor.{
  clock_rollback, Clock, Floor, schema, truncate, read, later_of, known_good, judge, check,
  write_clock, raise_to, observe,
}

truncate-le : (t : ℕ) → truncate t ≤ t
unfolding truncate
truncate-le t = omega arith

truncate-truncate : (t : ℕ) → truncate (truncate t) ≡ truncate t
unfolding truncate
truncate-truncate t = omega arith

-- The file that Observe writes.
read-written :
    (t : ℕ)
    → 0 < truncate t
    → read (some (record { schema_version = schema; known_good = truncate t })) ≡ ok (truncate t)
unfolding read
read-written t h = ground (arith, truncate-truncate t)

later_of_mono : (b s t : ℕ) → s ≤ t → later_of b s ≤ later_of b t
unfolding later_of
later_of_mono b s t h = ground (arith, truncate-le b)

le-later_of : (b s : ℕ) → truncate s ≡ s → s ≤ later_of b s
unfolding later_of truncate
le-later_of b s h = ground arith

known_good-ok :
    (f : Floor) (a : ℕ)
    → known_good f ≡ ok a
    → (s : ℕ) × (read f.clock ≡ ok s) × (later_of f.build_time s ≡ a)
unfolding known_good
known_good-ok f a h =
    let (s, found, made) = bind-eq-ok (read f.clock) (λ s. ok (later_of f.build_time s)) h in
    (s, found, cc)

known_good-of :
    (f : Floor) (s : ℕ) → read f.clock ≡ ok s → known_good f ≡ ok (later_of f.build_time s)
unfolding known_good
known_good-of f s h = rw h

-- A floor is at least `a`.
abbrev AtLeast : ℕ → Floor → Type 0
AtLeast a f = (b : ℕ) × (known_good f ≡ ok b) × (a ≤ b)

AtLeast-of : (f : Floor) (s : ℕ) → read f.clock ≡ ok s → AtLeast (later_of f.build_time s) f
AtLeast-of f s h = (later_of f.build_time s, known_good-of f s h, omega arith)

AtLeast-written :
    (f : Floor) (s now : ℕ)
    → ltb s (truncate now) ≡ true
    → AtLeast
        (later_of f.build_time s)
        (record f { clock = some (record { schema_version = schema; known_good = truncate now }) })
AtLeast-written f s now h = (
  later_of f.build_time (truncate now),
  known_good-of _ (truncate now) (read-written now (ground arith)),
  later_of_mono f.build_time s (truncate now) (ground arith),
)

write_clock-AtLeast :
    (o : Outcome) (f : Floor) (s now : ℕ)
    → read f.clock ≡ ok s
    → ltb s (truncate now) ≡ true
    → AtLeast (later_of f.build_time s) (write_clock o f (truncate now)).1
unfolding write_clock
write_clock-AtLeast done f s now h k = AtLeast-written f s now k
write_clock-AtLeast refused f s now h k = AtLeast-of f s h
write_clock-AtLeast unsure f s now h k = AtLeast-written f s now k

raise_to-AtLeast :
    (o : Outcome) (f : Floor) (s now : ℕ)
    → read f.clock ≡ ok s
    → AtLeast (later_of f.build_time s) (raise_to o f (truncate now) (ok s)).1
unfolding raise_to
raise_to-AtLeast o f s now h = elim (Bool-cases (ltb s (truncate now))) [
  | inl up ↦ rw up (write_clock-AtLeast o f s now h up)
  | inr same_or_down ↦ rw same_or_down (AtLeast-of f s h)
]

-- Observe never lowers the floor, whichever way its write ends: where the floor could be read, it
-- can be read afterwards, and is not below what it was.
pub observe-AtLeast :
    (o : Outcome) (f : Floor) (now a : ℕ)
    → known_good f ≡ ok a
    → (b : ℕ) × (known_good (observe o f now).1 ≡ ok b) × (a ≤ b)
unfolding observe
observe-AtLeast o f now a h =
    let (s, found, is_a) = known_good-ok f a h in
    subst (λ x. AtLeast x (raise_to o f (truncate now) (read f.clock)).1) is_a
      (rw found (raise_to-AtLeast o f s now found))

-- What a floor makes of a clock.
judge-below : (now floor : ℕ) → now < floor → judge now floor ≡ err clock_rollback
unfolding judge
judge-below now floor h = ground arith

check-judge : (f : Floor) (now floor : ℕ) → known_good f ≡ ok floor → check f now ≡ judge now floor
unfolding check
check-judge f now floor h = rw h

read-truncated : (c : Option Clock) (s : ℕ) → read c ≡ ok s → truncate s ≡ s
unfolding read truncate
read-truncated none s h = ground arith
read-truncated (some c) s h = ground (arith, truncate-truncate c.known_good)

AtLeast-observed :
    (f : Floor) (s now : ℕ)
    → read f.clock ≡ ok s
    → AtLeast (truncate now) (raise_to done f (truncate now) (ok s)).1
unfolding raise_to write_clock
AtLeast-observed f s now h = elim (Bool-cases (ltb s (truncate now))) [
  | inl up ↦ rw up (
    later_of f.build_time (truncate now),
    known_good-of _ (truncate now) (read-written now (ground arith)),
    le-later_of f.build_time (truncate now) (truncate-truncate now),
  )
  | inr down ↦ rw down (
    later_of f.build_time s,
    known_good-of f s h,
    ground (arith, le-later_of f.build_time s (read-truncated f.clock s h)),
  )
]

-- Once Observe has written a time, a clock that reads a time before its second is refused.
pub observe-check :
    (f : Floor) (now a earlier : ℕ)
    → known_good f ≡ ok a
    → earlier < truncate now
    → check (observe done f now).1 earlier ≡ err clock_rollback
unfolding observe
observe-check f now a earlier h before =
    let (s, found, is_a) = known_good-ok f a h in
    let after : Floor = (raise_to done f (truncate now) (read f.clock)).1 in
    let (b, floor, above) : AtLeast (truncate now) after =
      rw found (AtLeast-observed f s now found) in
    check-judge after earlier b floor ∙ judge-below earlier b (omega (arith, before, above))
