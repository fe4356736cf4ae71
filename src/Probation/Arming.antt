-- ===== src/Probation/Arming.antt =====
-- core/updater/probation.go: the record that is written before the transaction of a release, and the
-- version that must not be installed again.
use idunn.Prelude.{
  ℕ, Bool, true, false, not, ◌&&◌, Option, none, some, [], ◌∷◌, Bytes, refuse_if, same,
  if◌then◌else◌,
}
use idunn.Prelude.Integers.{ℤ, pos, negsuc, is_int}
use idunn.Txn.Journal.{bad_probation, stale}
use idunn.Layout.Disk.{exists}
use idunn.Layout.Effects.{Action, pure, raise, lift, look_or, ◌>>=◌, ◌>>◌}
use idunn.Probation.Reason.{Runes}
use idunn.Probation.Record.{Status, active, unhealthy, Probation, BlockedVersion, probation_schema}
use idunn.Probation.Files.{Files, read_probation, write_probation}
use idunn.Probation.Changes.{is_reverting}
use idunn.Probation.Allowance.{HostPolicy, Resolver, Allowance, probation_for}

abbrev pub is_unconfirmed : Status → Bool
is_unconfirmed active = true
is_unconfirmed unhealthy = true
is_unconfirmed _ = false

-- A version that was replaced before it confirmed is none to fall back to, if the one before it is
-- still there.
unfoldable pub may_fall_back : Bytes → Bytes → Probation → Bool
may_fall_back installed version prev =
    is_unconfirmed prev.status && same prev.version installed && not (same prev.previous version)

unfoldable pub next_probation : Bytes → Bytes → ℕ → ℕ → Bool → Option Probation → Probation
next_probation installed version attempts restarts falls_back prev = record {
  schema_version = probation_schema;
  version = version;
  previous = elim prev [ none ↦ installed | some p ↦ if falls_back then p.previous else installed ];
  status = active;
  attempts = 0;
  attempts_allowed = attempts;
  restarts = 0;
  restarts_allowed = restarts;
  restart_pending = false;
  reason = [];
  blocked = elim prev [ none ↦ none | some p ↦ p.blocked ];
}

unfoldable pub blocking : Bytes → Option BlockedVersion → Runes
blocking version none = []
blocking version (some b) = if same b.version version then b.reason else []

module _ {H : Type 0} where
  -- A number that the record holds; validate refuses the others.
  unfoldable pub count : ℤ → Action (Files H) ℕ
  count (pos n) = pure n
  count (negsuc n) = raise bad_probation

  -- Whether the record's own previous version is what to fall back to; versionInstalled is the look.
  unfoldable pub falls_back : Bytes → Bytes → Option Probation → Action (Files H) Bool
  unfolding may_fall_back
  falls_back installed version none = pure false
  falls_back installed version (some p) =
      if may_fall_back installed version p
      then look_or false (λ d. exists (d.dirs p.previous))
      else pure false

  unfoldable pub refuse_unfinished : Option Probation → Action (Files H) (Unit {0})
  refuse_unfinished none = pure tt
  refuse_unfinished (some p) = lift (refuse_if (is_reverting p.status) stale)

  unfoldable pub arm : Bytes → Bytes → Allowance → Action (Files H) (Unit {0})
  unfolding count falls_back refuse_unfinished next_probation
  arm installed version a = do
    prev ← read_probation
    refuse_unfinished prev
    back ← falls_back installed version prev
    attempts ← count a.attempts
    restarts ← count a.restarts
    write_probation (next_probation installed version attempts restarts back prev)

  -- armProbation
  unfoldable pub arm_probation :
      HostPolicy → Option Resolver → Bytes → Bytes → Bytes → Bytes → Action (Files H) (Unit {0})
  unfolding arm is_int
  arm_probation pol resolver goos goarch [] version = pure tt
  arm_probation pol resolver goos goarch (c ∷ installed) version = do
    a ← lift (probation_for pol resolver goos goarch version)
    if is_int a.attempts 0 then pure tt else arm (c ∷ installed) version a

  -- blocked: why the version must not be installed, or the empty text.
  unfoldable pub blocked_reason : Bytes → Action (Files H) Runes
  unfolding blocking
  blocked_reason version = do
    p ← read_probation
    pure (elim p [ none ↦ [] | some q ↦ blocking version q.blocked ])
