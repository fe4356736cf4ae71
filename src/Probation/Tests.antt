-- ===== src/Probation/Tests.antt =====
-- Probations as probation_test.go plays them.

use idunn.Prelude
use idunn.Prelude.{
  ℕ, suc, zero, Bytes, codes, map, List, [], ◌∷◌, Option, some, none, false, true, ok, ◌≡◌, ◌↔◌,
  refl, Bool, ◌&&◌,
}
use idunn.Prelude.Integers.{pos, is_int, exceeds}
use idunn.Layout.Disk.{Dir, whole, Install, names}
use idunn.Layout.Effects.Progress.{Goes}
use idunn.Layout.Pointer.{validate_version}
use idunn.Release.Version.{valid_version}
use idunn.Release.Documents.Accepts.{UpTo}
use idunn.Probation.Reason.{RawRunes, sanitize_reason, is_space}
use idunn.Probation.Reason.Clean.{IsClean, sanitize_reason_idem}
use idunn.Probation.Record.{Probation, active, reverting, stored, validate}
use idunn.Probation.Record.Valid.{IsValid, validate-IsValid}
use idunn.Probation.Changes.{sanitize, not_confirmed}
use idunn.Probation.Files.{Files}
use idunn.Probation.Start.{Platform, not_needed, granted, probation}
use idunn.Probation.Start.Rules.{Standing}
use idunn.Probation.Start.Revert.{IsBack, Willing}
use idunn.Probation.Start.Finish.{IsFree, probation_finishes}
use idunn.Probation.Start.Progress.{starts, spent, probation_returns}
use idunn.Probation.Allowance.{HostPolicy, validate_host, probation_for}
use idunn.Probation.Allowance.Bounds.{Answers, probation_for-Bounded}

-- A tab and a byte of no rune.
tidy_reason :
    sanitize_reason (some 32 ∷ some b'a' ∷ some 9 ∷ some b'b' ∷ none ∷ none ∷ some 10 ∷ [])
    ≡ b'a' ∷ 32 ∷ b'b' ∷ 65533 ∷ []
unfolding sanitize_reason is_space
tidy_reason = refl

-- A tab, 510 letters, a byte of no rune and a space at the cut.
letters : ℕ → RawRunes
letters zero = none ∷ some 32 ∷ some b'b' ∷ []
letters (suc n) = some b'a' ∷ letters n

abbrev long_reason : RawRunes
long_reason = some 9 ∷ letters 508

sanitize_reason_idem_example :
    IsClean (sanitize_reason long_reason)
    × (sanitize_reason (map some (sanitize_reason long_reason)) ≡ sanitize_reason long_reason)
sanitize_reason_idem_example = sanitize_reason_idem long_reason

abbrev fresh : Probation
fresh = record {
  schema_version = 1;
  version = codes "2.0.0";
  previous = codes "1.0.0";
  status = active;
  attempts = 0;
  attempts_allowed = 2;
  restarts = 0;
  restarts_allowed = 3;
  restart_pending = false;
  reason = [];
  blocked = none;
}

fresh-IsValid : IsValid fresh
unfolding validate valid_version validate_version Prelude.same sanitize_reason is_space
fresh-IsValid = validate-IsValid fresh refl

abbrev all_there : Bytes → Dir
all_there v = whole

abbrev app_install : Install
app_install = record { name = codes "app"; version = codes "2.0.0"; layout_schema = 1 }

abbrev linux : Platform
linux = record { goos = codes "linux"; goarch = codes "amd64"; now = 1 }

probation_returns_example :
    Goes {H = Files (Unit {0})}
      (Standing (names (codes "2.0.0")) all_there (some app_install) (stored fresh))
      (starts 2 linux none granted)
      (IsBack (spent fresh) (sanitize (not_confirmed fresh)))
unfolding IsFree Willing
probation_returns_example =
    probation_returns all_there app_install linux none granted 2 fresh tt fresh-IsValid refl refl
      refl refl refl tt refl

abbrev half_done : Probation
half_done = record fresh { status = reverting; reason = codes "no disk" }

half_done-IsValid : IsValid half_done
unfolding validate valid_version validate_version Prelude.same sanitize_reason is_space
half_done-IsValid = validate-IsValid half_done refl

probation_finishes_example :
    Goes {H = Files (Unit {0})}
      (Standing (names (codes "1.0.0")) all_there (some app_install) (stored half_done))
      (probation linux none not_needed)
      (IsBack half_done (sanitize (codes "no disk")))
unfolding IsFree Willing
probation_finishes_example =
    probation_finishes (names (codes "1.0.0")) all_there app_install linux none not_needed half_done
      half_done-IsValid refl refl refl refl tt tt

abbrev host : HostPolicy
host = record { attempts = pos 3; restarts = pos 0; follow_release = false; max_attempts = pos 5 }

abbrev host_checked : HostPolicy
host_checked = record host { restarts = pos 3 }

host-validate : validate_host host false none ≡ ok host_checked
unfolding validate_host
host-validate = refl

host-probation_for :
    probation_for host_checked none (codes "linux") (codes "amd64") (codes "2.0.0")
    ≡ ok (record { attempts = pos 3; restarts = pos 3 })
unfolding probation_for
host-probation_for = refl

three_attempts : is_int (pos 3) 0 ≡ false
unfolding is_int
three_attempts = refl

probation_for-Bounded_example :
    UpTo 20 (pos 3)
    × UpTo 20 (pos 3)
    × (is_int (pos 3) 0 ≡ false)
    × ((exceeds (pos 5) (pos 0) && exceeds (pos 3) (pos 5)) ≡ false)
unfolding Answers
probation_for-Bounded_example =
    probation_for-Bounded host host_checked false none (codes "linux") (codes "amd64")
      (codes "2.0.0") (record { attempts = pos 3; restarts = pos 3 }) host-validate tt
      host-probation_for three_attempts
