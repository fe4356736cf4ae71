-- ===== src/Probation/Launcher.antt =====
-- core/launch/probation.go: what the running application reports of itself.
use idunn.Prelude.{Bool, true, false, ◌&&◌, Option, none, some, Bytes, same}
use idunn.Layout.Effects.{Action, pure, attempt, ◌>>=◌}
use idunn.Layout.Pointer.{pointer_target}
use idunn.Probation.Reason.{RawRunes}
use idunn.Probation.Record.{Probation}
use idunn.Probation.Files.{Files, read_probation, write_probation}
use idunn.Probation.Changes.{is_active, to_healthy, to_unhealthy, to_restart}

module _ {H : Type 0} where
  mark_if : Bool → Action (Files H) (Unit {0}) → Action (Files H) (Unit {0})
  mark_if true m = m
  mark_if false m = pure tt

  mark_record : Bytes → (Probation → Probation) → Option Probation → Action (Files H) (Unit {0})
  unfolding mark_if
  mark_record version change none = pure tt
  mark_record version change (some p) =
      mark_if (same p.version version && is_active p.status) (write_probation (change p))

  -- mark, for a filesystem and a root that are there.
  unfoldable pub mark : Bytes → (Probation → Probation) → Action (Files H) (Unit {0})
  unfolding mark_record
  mark version change = do p ← read_probation; mark_record version change p

  unfoldable pub mark_healthy : Bytes → Action (Files H) (Unit {0})
  unfolding mark
  mark_healthy version = mark version to_healthy

  unfoldable pub mark_unhealthy : Bytes → RawRunes → Action (Files H) (Unit {0})
  unfolding mark
  mark_unhealthy version reason = mark version (to_unhealthy reason)

  restart_record : Option Probation → Action (Files H) (Unit {0})
  unfolding mark_if
  restart_record none = pure tt
  restart_record (some p) =
      mark_if (is_active p.status)
        (do live ← pointer_target; mark_if (same live p.version) (write_probation (to_restart p)))

  -- markRestart: every error is dropped.
  unfoldable pub mark_restart : Action (Files H) (Unit {0})
  unfolding restart_record
  mark_restart = attempt (do p ← read_probation; restart_record p)
