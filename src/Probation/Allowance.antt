-- ===== src/Probation/Allowance.antt =====
-- core/updater/probation.go: the policy of the host, and the allowance that a release is installed
-- with.
pub mod Bounds
use idunn.Prelude.{
  ℕ, Bool, true, false, not, ◌||◌, ◌&&◌, Option, none, some, Bytes, Result, ok, err, refuse_if,
  if◌then◌else◌, ◌>>=◌, ◌>>◌,
}
use idunn.Prelude.Integers.{ℤ, pos, negsuc, is_int, outside, exceeds}
use idunn.Txn.Journal.{Error, no_resolver}
use idunn.Release.Documents.{Policy, ProbationPolicy}
use idunn.Probation.Record.{max_probation_attempts, max_probation_restarts}

-- ProbationPolicy of core/updater.
pub record HostPolicy : Type 0 where
  pub attempts : ℤ
  pub restarts : ℤ
  pub follow_release : Bool
  pub max_attempts : ℤ

-- What the trust client answers for a release's policy, where it is a PolicyResolver.
abbrev pub Resolver : Type 0
Resolver = Bytes → Bytes → Bytes → Result Error (Option Policy)

-- ErrConfig, by message.
pub data ConfigError : Type 0 where
  bad_max_attempts cannot_follow above_ceiling bad_host_attempts bad_host_restarts not_writable :
      ConfigError

abbrev pub default_probation_restarts : ℕ
default_probation_restarts = 3

abbrev pub has_resolver : Option Resolver → Bool
has_resolver none = false
has_resolver (some r) = true

unfoldable pub or_default : ℤ → ℤ
unfolding is_int
or_default n = if is_int n 0 then pos default_probation_restarts else n

-- The part of validate for a policy that is on.
unfoldable pub check_host : HostPolicy → Bool → Option Resolver → Result ConfigError HostPolicy
unfolding outside exceeds or_default
check_host p elevated resolver = do
  refuse_if (p.follow_release && not (has_resolver resolver)) cannot_follow
  refuse_if (exceeds p.max_attempts (pos 0) && exceeds p.attempts p.max_attempts) above_ceiling
  refuse_if (outside p.attempts max_probation_attempts) bad_host_attempts
  refuse_if (outside (or_default p.restarts) max_probation_restarts) bad_host_restarts
  refuse_if elevated not_writable
  ok (record p { restarts = or_default p.restarts })

-- validate: the policy with its defaults filled in.
unfoldable pub validate_host : HostPolicy → Bool → Option Resolver → Result ConfigError HostPolicy
unfolding check_host is_int outside
validate_host p elevated resolver = do
  refuse_if (outside p.max_attempts max_probation_attempts) bad_max_attempts
  if is_int p.attempts 0 && not p.follow_release then ok p else check_host p elevated resolver

-- The attempts and the restarts of a release.
pub record Allowance : Type 0 where
  pub attempts : ℤ
  pub restarts : ℤ

unfoldable pub stated : Option ProbationPolicy → Allowance → Allowance
unfolding is_int
stated none host = host
stated (some pp) host = record {
  attempts = pp.attempts;
  restarts = if is_int pp.restarts 0 then host.restarts else pp.restarts;
}

unfoldable pub of_policy : Option Policy → Allowance → Allowance
unfolding stated
of_policy none host = host
of_policy (some p) host = stated p.probation host

unfoldable pub followed :
    Option Resolver → Bytes → Bytes → Bytes → Allowance → Result Error Allowance
unfolding of_policy
followed none goos goarch version host = err no_resolver
followed (some resolve) goos goarch version host = do
  p ← resolve goos goarch version
  ok (of_policy p host)

unfoldable pub capped : HostPolicy → Allowance → Allowance
unfolding exceeds or_default
capped pol a = record {
  attempts =
      if exceeds pol.max_attempts (pos 0) && exceeds a.attempts pol.max_attempts
      then pol.max_attempts
      else a.attempts;
  restarts = or_default a.restarts;
}

abbrev pub host_allowance : HostPolicy → Allowance
host_allowance pol = record { attempts = pol.attempts; restarts = pol.restarts }

-- probationFor
unfoldable pub probation_for :
    HostPolicy → Option Resolver → Bytes → Bytes → Bytes → Result Error Allowance
unfolding followed capped
probation_for pol resolver goos goarch version = do
  a ←
      if pol.follow_release
      then followed resolver goos goarch version (host_allowance pol)
      else ok (host_allowance pol)
  ok (capped pol a)
