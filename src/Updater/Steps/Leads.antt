-- ===== src/Updater/Steps/Leads.antt =====
-- What the steps to a release are: each may be installed on top of the one before it.
use mathlib.Core.Path.{subst}
use idunn.Prelude.{
  ℕ, zero, suc, ◌≤◌, ◌≡◌, refl, sym, ◌∙◌, Bool, true, false, Option, none, some, List, [], ◌∷◌,
  Bytes, Result, ok, err, same, same_iff, length, Bool-cases, Option-cases, inl, inr, arith,
  if◌then◌else◌,
}
use idunn.Release.Descriptor.{Descriptor}
use idunn.Updater.Policy.{Client, Refusal, migration_floor, applicable}
use idunn.Updater.Steps.{
  History, max_walk, is_step, furthest_from, furthest_reachable, add_step, walk_on, walk_along,
  steps_after, steps,
}

-- From one version to another, by releases that may each be installed on top of the one before.
pub data Leads (u : Client) : Bytes → List Descriptor → Bytes → Type 0 where
  arrived : {v : Bytes} → Leads u v [] v
  installs :
      {at to : Bytes} {rest : List Descriptor} (c : Descriptor)
      → applicable u c at ≡ ok tt
      → Leads u c.version rest to
      → Leads u at (c ∷ rest) to

some_descriptor : (a b : Descriptor) → some a ≡ some b → a ≡ b
some_descriptor a b h = cc

is_step-applicable :
    (u : Client) (c : Descriptor) (at : Bytes) → is_step u c at ≡ true → applicable u c at ≡ ok tt
unfolding is_step
is_step-applicable u c at h = ground arith

-- The candidate in hand after one more, which is a step where it was taken.
picked-applicable :
    (u : Client) (x : Descriptor) (at : Bytes) (pick : Option Descriptor) (b : Bool)
    (c : Descriptor)
    → is_step u x at ≡ b
    → (pick ≡ some c → applicable u c at ≡ ok tt)
    → (if b then some x else pick) ≡ some c
    → applicable u c at ≡ ok tt
picked-applicable u x at pick true c h k e =
    subst (λ y. applicable u y at ≡ ok tt) (some_descriptor x c e) (is_step-applicable u x at h)
picked-applicable u x at pick false c h k e = k e

furthest_from-applicable :
    (u : Client) (cs : List Descriptor) (at : Bytes) (pick : Option Descriptor) (c : Descriptor)
    → ((c' : Descriptor) → pick ≡ some c' → applicable u c' at ≡ ok tt)
    → furthest_from u cs at pick ≡ some c
    → applicable u c at ≡ ok tt
unfolding furthest_from
furthest_from-applicable u [] at pick c k h = k c h
furthest_from-applicable u (x ∷ cs) at pick c k h =
    furthest_from-applicable u cs at _ c
      (λ c'. picked-applicable u x at pick (is_step u x at) c' refl (k c')) h

furthest_reachable-applicable :
    (u : Client) (cs : List Descriptor) (at : Bytes) (c : Descriptor)
    → furthest_reachable u cs at ≡ some c
    → applicable u c at ≡ ok tt
unfolding furthest_reachable
furthest_reachable-applicable u cs at c h = furthest_from-applicable u cs at none c (λ c' e. cc) h

-- A path of at most `n` releases.
abbrev LeadsWithin : Client → ℕ → Bytes → List Descriptor → Bytes → Type 0
LeadsWithin u n at out to = Leads u at out to × (length out ≤ n)

leads_nowhere : (u : Client) (n : ℕ) (at to : Bytes) → at ≡ to → LeadsWithin u n at [] to
leads_nowhere u n at to e = (subst (λ v. Leads u at [] v) e arrived, omega arith)

add_step-ok :
    (c : Descriptor) (r : Result Refusal (List Descriptor)) (out : List Descriptor)
    → add_step c r ≡ ok out
    → (rest : List Descriptor) × (r ≡ ok rest) × (c ∷ rest ≡ out)
unfolding add_step
add_step-ok c (ok rest) out h = (rest, refl, cc)
add_step-ok c (err e) out h = cc

-- The three ways in which the loop goes on.
walk_on-at :
    (u : Client) (cs : List Descriptor) (to : Bytes) (n : ℕ) (at : Bytes)
    → same at to ≡ true
    → walk_on u cs to n at ≡ ok []
unfolding walk_on
walk_on-at u cs to zero at h = rw h
walk_on-at u cs to (suc n) at h = rw h

walk_on-over :
    (u : Client) (cs : List Descriptor) (to at : Bytes)
    → same at to ≡ false
    → walk_on u cs to 0 at ≡ err migration_floor
unfolding walk_on
walk_on-over u cs to at h = rw h

walk_on-none :
    (u : Client) (cs : List Descriptor) (to : Bytes) (n : ℕ) (at : Bytes)
    → same at to ≡ false
    → furthest_reachable u cs at ≡ none
    → walk_on u cs to (suc n) at ≡ err migration_floor
unfolding walk_on
walk_on-none u cs to n at h e = rw (h, e)

walk_on-some :
    (u : Client) (cs : List Descriptor) (to : Bytes) (n : ℕ) (at : Bytes) (c : Descriptor)
    → same at to ≡ false
    → furthest_reachable u cs at ≡ some c
    → walk_on u cs to (suc n) at ≡ add_step c (walk_on u cs to n c.version)
unfolding walk_on
walk_on-some u cs to n at c h e = rw (h, e)

ok_list :
    (r : Result Refusal (List Descriptor)) {a b : List Descriptor} → r ≡ ok a → r ≡ ok b → a ≡ b
ok_list r h k = cc

not_ok :
    (r : Result Refusal (List Descriptor)) {a : List Descriptor} (e : Refusal)
    → r ≡ err e
    → r ≡ ok a
    → ⊥
not_ok r e h k = cc

at_end :
    (u : Client) (n : ℕ) (at to : Bytes) (out : List Descriptor)
    → same at to ≡ true
    → [] ≡ out
    → LeadsWithin u n at out to
at_end u n at to out h e =
    subst (λ xs. LeadsWithin u n at xs to) e (leads_nowhere u n at to ((same_iff at to).0 h))

walk_on-LeadsWithin :
    (u : Client) (cs : List Descriptor) (to : Bytes) (n : ℕ) (at : Bytes) (out : List Descriptor)
    → walk_on u cs to n at ≡ ok out
    → LeadsWithin u n at out to
walk_on-LeadsWithin u cs to zero at out h = elim (Bool-cases (same at to)) [
  | inl e ↦ at_end u 0 at to out e (ok_list _ (walk_on-at u cs to 0 at e) h)
  | inr e ↦ absurd (not_ok _ migration_floor (walk_on-over u cs to at e) h)
]
walk_on-LeadsWithin u cs to (suc n) at out h = elim (Bool-cases (same at to)) [
  | inl e ↦ at_end u (suc n) at to out e (ok_list _ (walk_on-at u cs to (suc n) at e) h)
  | inr e ↦ elim (Option-cases (furthest_reachable u cs at)) [
    | inr some_c ↦
        let (c, found) = some_c in
        let (rest, going, made) =
          add_step-ok c _ out (sym (walk_on-some u cs to n at c e found) ∙ h) in
        let (leads, short) = walk_on-LeadsWithin u cs to n c.version rest going in
        subst (λ xs. LeadsWithin u (suc n) at xs to) made
          (installs c (furthest_reachable-applicable u cs at c found) leads, omega (arith, short))
    | inl nothing ↦ absurd (not_ok _ migration_floor (walk_on-none u cs to n at e nothing) h)
  ]
]

walk_along-LeadsWithin :
    (u : Client) (known : History) (d : Descriptor) (installed : Bytes) (walk : Option (List Bytes))
    (out : List Descriptor)
    → walk_along u known d installed walk ≡ ok out
    → LeadsWithin u max_walk installed out d.version
unfolding walk_along
walk_along-LeadsWithin u known d installed none out h = cc
walk_along-LeadsWithin u known d installed (some walk) out h =
    walk_on-LeadsWithin u _ d.version max_walk installed out h

steps_after-LeadsWithin :
    (u : Client) (known : Option History) (d : Descriptor) (installed : Bytes)
    (r : Result Refusal (Unit {0})) (out : List Descriptor)
    → applicable u d installed ≡ r
    → steps_after u known d installed r ≡ ok out
    → LeadsWithin u max_walk installed out d.version
unfolding steps_after
steps_after-LeadsWithin u known d installed (ok t) out e h =
    subst (λ xs. LeadsWithin u max_walk installed xs d.version) (ok_list _ refl h)
      (installs d e arrived, omega arith)
steps_after-LeadsWithin u none d installed (err migration_floor) out e h = cc
steps_after-LeadsWithin u (some known) d installed (err migration_floor) out e h =
    walk_along-LeadsWithin u known d installed _ out h
steps_after-LeadsWithin u known d installed (err _) out e h = cc

-- The releases that steps plans, where it plans any, lead from the installed version to the one asked for, each may be
-- installed on top of the one before it, and there are at most 32.
pub steps-LeadsWithin :
    (u : Client) (known : Option History) (d : Descriptor) (installed : Bytes)
    (out : List Descriptor)
    → steps u known d installed ≡ ok out
    → Leads u installed out d.version × (length out ≤ max_walk)
unfolding steps
steps-LeadsWithin u known d installed out h =
    steps_after-LeadsWithin u known d installed _ out refl h
