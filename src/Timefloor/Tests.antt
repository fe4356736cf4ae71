-- ===== src/Timefloor/Tests.antt =====
-- The floor at concrete times.
use idunn.Prelude.{ℕ, ◌≡◌, ◌≤◌, ◌<◌, refl, some, ok, err, arith}
use idunn.Layout.Effects.{done, unsure}
use idunn.Timefloor.{Floor, clock_rollback, truncate, read, known_good, check, observe}
use idunn.Timefloor.Rising.{observe-AtLeast, observe-check}

-- Built in second 5, last known good in second 9.
abbrev at_nine : Floor
at_nine = record {
  clock = some (record { schema_version = 1; known_good = 9000000000 });
  build_time = 5500000000;
}

nine : known_good at_nine ≡ ok 9000000000
unfolding known_good read
nine = refl

eleven : 10000000000 < truncate 11700000000
unfolding truncate
eleven = omega arith

observe-AtLeast_example :
    (b : ℕ) × (known_good (observe unsure at_nine 11700000000).1 ≡ ok b) × (9000000000 ≤ b)
observe-AtLeast_example = observe-AtLeast unsure at_nine 11700000000 9000000000 nine

observe-check_example : check (observe done at_nine 11700000000).1 10000000000 ≡ err clock_rollback
observe-check_example = observe-check at_nine 11700000000 9000000000 10000000000 nine eleven
