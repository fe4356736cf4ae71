-- ===== src/Probation/Allowance/Bounds.antt =====
-- The allowance of a release is within the bounds of the record, and below the ceiling of the host.
use mathlib.Core.Path.{subst}
use idunn.Prelude.{
  ℕ, Bool, true, false, not, ◌&&◌, ◌⊎◌, inl, inr, Option, none, some, Bytes, ok, refuse_if-false,
  if◌then◌else◌, then-eq-ok, bind-eq-ok, ok-injective, ◌≡◌, refl, sym, ap, ◌∙◌, arith,
}
use idunn.Prelude.Integers.{ℤ, pos, negsuc, is_int, exceeds}
use idunn.Release.Documents.{Policy, ProbationPolicy}
use idunn.Release.Documents.Accepts.{UpTo, outside_iff, IsPolicy, IsAllowance}
use idunn.Probation.Record.{max_probation_attempts, max_probation_restarts}
use idunn.Probation.Allowance.{
  HostPolicy, Resolver, or_default, check_host, validate_host, Allowance, stated, of_policy,
  followed, capped, host_allowance, probation_for,
}

-- Numbers that a record of probation holds, for a release that is put on it.
abbrev Bounded : Allowance → Type 0
Bounded a = UpTo max_probation_attempts a.attempts × UpTo max_probation_restarts a.restarts

-- A host policy that is off, or one within the bounds.
abbrev Checked : HostPolicy → Type 0
Checked p =
    UpTo max_probation_attempts p.max_attempts
    × (((is_int p.attempts 0 ≡ true) × (p.follow_release ≡ false)) ⊎ Bounded (host_allowance p))

check_host-Bounded :
    (p q : HostPolicy) (elevated : Bool) (resolver : Option Resolver)
    → check_host p elevated resolver ≡ ok q
    → Bounded (host_allowance q) × (q.max_attempts ≡ p.max_attempts)
unfolding check_host
check_host-Bounded p q elevated resolver h =
    let (h1, k1) = then-eq-ok _ _ h in
    let (h2, k2) = then-eq-ok _ _ k1 in
    let (h3, k3) = then-eq-ok _ _ k2 in
    let (h4, k4) = then-eq-ok _ _ k3 in
    let (h5, k5) = then-eq-ok _ _ k4 in
    let e = ok-injective (record p { restarts = or_default p.restarts }) q k5 in
    (
      subst (λ x. Bounded (host_allowance x)) e
          (
            (outside_iff p.attempts max_probation_attempts).0 (refuse_if-false _ _ h3),
            (outside_iff (or_default p.restarts) max_probation_restarts).0 (refuse_if-false _ _ h4),
          ),
      sym (ap (λ x. x.max_attempts) e),
    )

validate_host-Checked :
    (p q : HostPolicy) (elevated : Bool) (resolver : Option Resolver)
    → validate_host p elevated resolver ≡ ok q
    → Checked q
unfolding validate_host
validate_host-Checked p q elevated resolver h =
    let (h1, k1) = then-eq-ok _ _ h in
    let top = (outside_iff p.max_attempts max_probation_attempts).0 (refuse_if-false _ _ h1) in
    go (is_int p.attempts 0) refl p.follow_release refl top k1
  where
    go :
        (z : Bool)
        → is_int p.attempts 0 ≡ z
        → (b : Bool) → p.follow_release ≡ b
        → UpTo max_probation_attempts p.max_attempts
        → (if z && not b then ok p else check_host p elevated resolver) ≡ ok q
        → Checked q
    go true ez false eb top k = subst Checked (ok-injective p q k) (top, inl (ez, eb))
    go true ez true eb top k =
        let (b, e) = check_host-Bounded p q elevated resolver k in
        (subst (UpTo max_probation_attempts) (sym e) top, inr b)
    go false ez b eb top k =
        let (w, e) = check_host-Bounded p q elevated resolver k in
        (subst (UpTo max_probation_attempts) (sym e) top, inr w)

is_int-UpTo : (n : ℤ) (top : ℕ) → is_int n 0 ≡ true → UpTo top n
unfolding is_int
is_int-UpTo (pos n) top h = ground arith
is_int-UpTo (negsuc n) top h = cc

if-UpTo : (top : ℕ) (b : Bool) (m n : ℤ) → UpTo top m → UpTo top n → UpTo top (if b then m else n)
if-UpTo top true m n h k = h
if-UpTo top false m n h k = k

stated-Bounded :
    (o : Option ProbationPolicy) (host : Allowance)
    → IsAllowance o
    → Bounded host
    → Bounded (stated o host)
unfolding stated IsAllowance
stated-Bounded none host p h = h
stated-Bounded (some pp) host p h =
    (p.0, if-UpTo max_probation_restarts (is_int pp.restarts 0) host.restarts pp.restarts h.1 p.1)

-- The trust client answers only policies that ParsePolicy accepted.
unfoldable pub Answers : Option Resolver → Type 0
Answers none = Unit
Answers (some resolve) =
    (goos goarch version : Bytes) (p : Policy)
    → resolve goos goarch version ≡ ok (some p)
    → IsPolicy p

capped-Bounded :
    (pol : HostPolicy) (a : Allowance)
    → UpTo max_probation_attempts pol.max_attempts
    → Bounded a
    → Bounded (capped pol a)
unfolding capped or_default
capped-Bounded pol a t h = (
  if-UpTo max_probation_attempts
      (exceeds pol.max_attempts (pos 0) && exceeds a.attempts pol.max_attempts) _ _ t h.0,
  if-UpTo max_probation_restarts (is_int a.restarts 0) _ _ (omega arith) h.1,
)

exceeds_self : (n : ℤ) → exceeds n n ≡ false
unfolding exceeds
exceeds_self (pos n) = ground arith
exceeds_self (negsuc n) = ground arith

capped-ceiling :
    (pol : HostPolicy) (a : Allowance)
    → (exceeds pol.max_attempts (pos 0) && exceeds (capped pol a).attempts pol.max_attempts) ≡ false
unfolding capped
capped-ceiling pol a =
    go (exceeds pol.max_attempts (pos 0)) (exceeds a.attempts pol.max_attempts) refl
  where
    go :
        (b c : Bool)
        → exceeds a.attempts pol.max_attempts ≡ c
        → (b && exceeds (if b && c then pol.max_attempts else a.attempts) pol.max_attempts) ≡ false
    go true true e = exceeds_self pol.max_attempts
    go true false e = e
    go false c e = refl

capped-restarts : (pol : HostPolicy) (a : Allowance) → is_int (capped pol a).restarts 0 ≡ false
unfolding capped or_default is_int
capped-restarts pol a = go (is_int a.restarts 0) refl
  where
    go : (b : Bool) → is_int a.restarts 0 ≡ b → is_int (if b then pos 3 else a.restarts) 0 ≡ false
    go true e = refl
    go false e = e

followed-Bounded :
    (resolver : Option Resolver) (goos goarch version : Bytes) (host a : Allowance)
    → Answers resolver
    → Bounded host
    → followed resolver goos goarch version host ≡ ok a
    → Bounded a
unfolding followed of_policy Answers IsPolicy
followed-Bounded none goos goarch version host a w b h = cc
followed-Bounded (some resolve) goos goarch version host a w b h =
    let (o, e, k) = bind-eq-ok (resolve goos goarch version) (λ o. ok (of_policy o host)) h in
    subst Bounded (ok-injective _ _ k) (go o e)
  where
    go : (o : Option Policy) → resolve goos goarch version ≡ ok o → Bounded (of_policy o host)
    go none e = b
    go (some p) e = stated-Bounded p.probation host ((w goos goarch version p e).3) b

-- Attempts of a host whose policy is off stay 0.
capped-zero :
    (pol : HostPolicy)
    → UpTo max_probation_attempts pol.max_attempts
    → is_int pol.attempts 0 ≡ true
    → is_int (capped pol (host_allowance pol)).attempts 0 ≡ true
unfolding capped is_int exceeds
capped-zero pol t z = go pol.max_attempts pol.attempts t z
  where
    go :
        (m n : ℤ)
        → UpTo max_probation_attempts m
        → is_int n 0 ≡ true
        → is_int (if exceeds m (pos 0) && exceeds n m then m else n) 0 ≡ true
    go (pos m) (pos n) t z = ground arith
    go (negsuc m) n t z = elim t [ ]
    go (pos m) (negsuc n) t z = cc

Checked-Bounded :
    (pol : HostPolicy) (resolver : Option Resolver) (goos goarch version : Bytes) (a : Allowance)
    → Checked pol
    → Answers resolver
    → (if pol.follow_release
        then followed resolver goos goarch version (host_allowance pol)
        else ok (host_allowance pol))
      ≡ ok a
    → is_int (capped pol a).attempts 0 ≡ false
    → Bounded a
Checked-Bounded pol resolver goos goarch version a (t, inr b) w h z = go pol.follow_release h
  where
    go :
        (f : Bool)
        → (if f
            then followed resolver goos goarch version (host_allowance pol)
            else ok (host_allowance pol))
          ≡ ok a
        → Bounded a
    go true h = followed-Bounded resolver goos goarch version (host_allowance pol) a w b h
    go false h = subst Bounded (ok-injective _ _ h) b
Checked-Bounded pol resolver goos goarch version a (t, inl (off, alone)) w h z =
    let e = ok-injective (host_allowance pol) a (
      ap
        (λ f.
          if f
          then followed resolver goos goarch version (host_allowance pol)
          else ok (host_allowance pol))
        (sym alone)
      ∙ h) in
    cc (ap (λ x. is_int (capped pol x).attempts 0) e, capped-zero pol t off, z)

-- With a host policy that New accepted and a trust client that answers only accepted policies, the
-- allowance of a release that is put on probation is one that its record may hold: at most 20
-- attempts, no more of them than the host's ceiling if it has one, and 1 to 20 restarts.
pub probation_for-Bounded :
    (p pol : HostPolicy) (elevated : Bool) (resolver : Option Resolver)
    (goos goarch version : Bytes) (a : Allowance)
    → validate_host p elevated resolver ≡ ok pol
    → Answers resolver
    → probation_for pol resolver goos goarch version ≡ ok a
    → is_int a.attempts 0 ≡ false
    → UpTo 20 a.attempts
      × UpTo 20 a.restarts
      × (is_int a.restarts 0 ≡ false)
      × ((exceeds pol.max_attempts (pos 0) && exceeds a.attempts pol.max_attempts) ≡ false)
unfolding probation_for
probation_for-Bounded p pol elevated resolver goos goarch version a hv w h z =
    let checked = validate_host-Checked p pol elevated resolver hv in
    let (b, hb, k) = bind-eq-ok _ (λ x. ok (capped pol x)) h in
    let e = ok-injective (capped pol b) a k in
    let inside =
      Checked-Bounded pol resolver goos goarch version b checked w hb
        (ap (λ x. is_int x.attempts 0) e ∙ z) in
    let fine = capped-Bounded pol b checked.0 inside in
    subst
      (λ x.
        UpTo 20 x.attempts
        × UpTo 20 x.restarts
        × (is_int x.restarts 0 ≡ false)
        × ((exceeds pol.max_attempts (pos 0) && exceeds x.attempts pol.max_attempts) ≡ false))
      e (fine.0, fine.1, capped-restarts pol b, capped-ceiling pol b)
