-- ===== src/Timefloor.antt =====
-- core/timefloor/timefloor.go: the known-good time below which a clock is refused. A time is its
-- nanoseconds since Go's zero time, and none is before that; encoding/json is outside, so the file
-- is the record that it holds.
pub mod Rising
mod Tests
use idunn.Prelude.{
  ℕ, ◌-◌, ◌%◌, Bool, true, false, not, Option, none, some, Result, ok, err, ◌>>=◌, ◌>>◌, refuse_if,
  ltb, ◌==◌, if◌then◌else◌,
}
use idunn.Layout.Effects.{Outcome, done, refused, unsure}

pub data FloorError : Type 0 where
  clock_rollback bad_schema not_set write_failed : FloorError

-- The persisted record.
pub record Clock : Type 0 where
  pub schema_version : ℕ
  pub known_good : ℕ

pub record Floor : Type 0 where
  pub clock : Option Clock
  pub build_time : ℕ

abbrev pub schema : ℕ
schema = 1

abbrev pub second : ℕ
second = 1000000000

-- Truncate(time.Second).
unfoldable pub truncate : ℕ → ℕ
truncate t = t - t % second

-- read, of a file that could be read; no file is the zero time.
unfoldable pub read : Option Clock → Result FloorError ℕ
unfolding truncate
read none = ok 0
read (some c) = do
  refuse_if (not (c.schema_version == schema)) bad_schema
  refuse_if (c.known_good == 0) not_set
  ok (truncate c.known_good)

-- KnownGood.
unfoldable pub later_of : ℕ → ℕ → ℕ
unfolding truncate
later_of build stored = if ltb build stored then stored else truncate build

unfoldable pub known_good : Floor → Result FloorError ℕ
unfolding later_of
known_good f = do stored ← read f.clock; ok (later_of f.build_time stored)

-- Check.
unfoldable pub judge : ℕ → ℕ → Result FloorError (Unit {0})
judge now floor = if floor == 0 then ok tt else refuse_if (ltb now floor) clock_rollback

unfoldable pub check : Floor → ℕ → Result FloorError (Unit {0})
unfolding judge
check f now = do floor ← known_good f; judge now floor

-- Observe, whose durable write takes effect, is refused, or fails after it took effect.
write_clock : Outcome → Floor → ℕ → Result FloorError (Unit {0}) × Floor
write_clock done f now =
    (ok tt, record f { clock = some (record { schema_version = schema; known_good = now }) })
write_clock refused f now = (err write_failed, f)
write_clock unsure f now = (
  err write_failed,
  record f { clock = some (record { schema_version = schema; known_good = now }) },
)

raise_to : Outcome → Floor → ℕ → Result FloorError ℕ → Result FloorError (Unit {0}) × Floor
unfolding write_clock
raise_to o f now (err e) = (err e, f)
raise_to o f now (ok stored) = if ltb stored now then write_clock o f now else (ok tt, f)

unfoldable pub observe : Outcome → Floor → ℕ → Result FloorError (Unit {0}) × Floor
unfolding raise_to
observe o f now = raise_to o f (truncate now) (read f.clock)
