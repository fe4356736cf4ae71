-- ===== src/Probation/Record/Valid.antt =====
-- The records that validate accepts, and that what the launcher writes is one of them.

use idunn.Prelude.{
  ℕ, ◌+◌, ◌≤◌, Bool, true, false, ◌||◌, Option, some, ok, refuse_if-false, same, same_iff, ltb,
  ltb-false→le, map, then-eq-ok, ◌≡◌, arith,
}
use idunn.Prelude.Options.{not-false}
use idunn.Layout.Pointer.{validate_version}
use idunn.Probation.Reason.{Runes, sanitize_reason}
use idunn.Probation.Reason.Clean.{sanitize_reason-IsClean, IsClean-sanitize_reason}
use idunn.Probation.Record.{
  Status, Probation, BlockedVersion, is_other, is_sanitized, max_probation_attempts,
  max_probation_restarts, validate, validate_blocked,
}

pub record IsValid (p : Probation) : Type 0 where
  pub version_valid : validate_version p.version ≡ ok tt
  pub previous_valid : validate_version p.previous ≡ ok tt
  pub moves : same p.version p.previous ≡ false
  pub known : is_other p.status ≡ false
  pub allowance :
      (ltb p.attempts_allowed 1 || ltb max_probation_attempts p.attempts_allowed) ≡ false
  pub restart_allowance : ltb max_probation_restarts p.restarts_allowed ≡ false
  pub attempts_bound : p.attempts ≤ p.attempts_allowed + 1
  pub restarts_bound : p.restarts ≤ p.restarts_allowed + 1
  pub clean : is_sanitized p.reason ≡ true
  pub blocked_valid : validate_blocked p.blocked ≡ ok tt

pub validate-IsValid : (p : Probation) → validate p ≡ ok tt → IsValid p
unfolding validate
validate-IsValid p h =
    let (k9, h10) = then-eq-ok _ _ h in
    let (k8, h9) = then-eq-ok _ _ k9 in
    let (k7, h8) = then-eq-ok _ _ k8 in
    let (k6, h7) = then-eq-ok _ _ k7 in
    let (k5, h6) = then-eq-ok _ _ k6 in
    let (k4, h5) = then-eq-ok _ _ k5 in
    let (k3, h4) = then-eq-ok _ _ k4 in
    let (k2, h3) = then-eq-ok _ _ k3 in
    let (h1, h2) = then-eq-ok _ _ k2 in
    record {
      version_valid = h1;
      previous_valid = h2;
      moves = refuse_if-false _ _ h3;
      known = refuse_if-false _ _ h4;
      allowance = refuse_if-false _ _ h5;
      restart_allowance = refuse_if-false _ _ h6;
      attempts_bound = ltb-false→le _ _ (refuse_if-false _ _ h7);
      restarts_bound = ltb-false→le _ _ (refuse_if-false _ _ h8);
      clean = not-false _ (refuse_if-false _ _ h9);
      blocked_valid = h10;
    }

pub IsValid-validate : (p : Probation) → IsValid p → validate p ≡ ok tt
unfolding validate
IsValid-validate p h =
    let a : ltb (p.attempts_allowed + 1) p.attempts ≡ false = ground (arith, h.attempts_bound) in
    let r : ltb (p.restarts_allowed + 1) p.restarts ≡ false = ground (arith, h.restarts_bound) in
    rw
      (
        h.version_valid, h.previous_valid, h.moves, h.known, h.allowance, h.restart_allowance, a, r,
        h.clean,
      )
      (h.blocked_valid)

pub is_sanitized-sanitize_reason : (s : Runes) → is_sanitized (sanitize_reason (map some s)) ≡ true
is_sanitized-sanitize_reason s =
    (same_iff _ _).1 (IsClean-sanitize_reason _ (sanitize_reason-IsClean (map some s)))

-- A record that differs in its status, reason, pending restart and blocked version.
pub IsValid-decided :
    (p : Probation) (status : Status) (reason : Runes) (pending : Bool)
    (blocked : Option BlockedVersion)
    → IsValid p
    → is_other status ≡ false
    → is_sanitized reason ≡ true
    → validate_blocked blocked ≡ ok tt
    → IsValid (record p {
      status = status;
      reason = reason;
      restart_pending = pending;
      blocked = blocked;
    })
IsValid-decided p status reason pending blocked h k c b = record {
  version_valid = h.version_valid;
  previous_valid = h.previous_valid;
  moves = h.moves;
  known = k;
  allowance = h.allowance;
  restart_allowance = h.restart_allowance;
  attempts_bound = h.attempts_bound;
  restarts_bound = h.restarts_bound;
  clean = c;
  blocked_valid = b;
}

-- One that differs in what it counts.
pub IsValid-counted :
    (p : Probation) (attempts restarts : ℕ) (pending : Bool)
    → IsValid p
    → attempts ≤ p.attempts_allowed + 1
    → restarts ≤ p.restarts_allowed + 1
    → IsValid (record p { attempts = attempts; restarts = restarts; restart_pending = pending })
IsValid-counted p attempts restarts pending h a r = record {
  version_valid = h.version_valid;
  previous_valid = h.previous_valid;
  moves = h.moves;
  known = h.known;
  allowance = h.allowance;
  restart_allowance = h.restart_allowance;
  attempts_bound = a;
  restarts_bound = r;
  clean = h.clean;
  blocked_valid = h.blocked_valid;
}
