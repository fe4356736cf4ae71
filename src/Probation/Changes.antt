-- ===== src/Probation/Changes.antt =====
-- core/launch/probation.go: what each report and each decision writes into the record.
use idunn.Prelude.{
  ℕ, zero, suc, ◌+◌, ◌/◌, ◌%◌, Bool, true, false, some, [], ◌∷◌, ◌++◌, codes, ltb, leb, ◌==◌, map,
  if◌then◌else◌,
}
use idunn.Probation.Reason.{Runes, RawRunes, sanitize_reason}
use idunn.Probation.Record.{
  Status, active, confirmed, unhealthy, reverting, reverted, kept, Probation,
}

-- fmt's %d, for a number of at most 20 digits.
unfoldable pub decimal : ℕ → ℕ → Runes → Runes
decimal zero n digits = digits
decimal (suc fuel) n digits =
    let more = decimal fuel (n / 10) ((48 + n % 10) ∷ digits) in
    if ltb n 10 then (48 + n) ∷ digits else more

unfoldable pub plural : ℕ → Runes → Runes
unfolding decimal
plural n noun =
    if n == 1 then codes "1 " ++ noun else decimal 20 n [] ++ (codes " " ++ (noun ++ codes "s"))

abbrev pub is_active : Status → Bool
is_active active = true
is_active _ = false

abbrev pub is_reverting : Status → Bool
is_reverting reverting = true
is_reverting _ = false

abbrev pub sanitize : Runes → Runes
sanitize reason = sanitize_reason (map some reason)

-- `p.Reason = …; if p.Reason == ""`
unfoldable pub own_words : Runes → Runes
own_words [] = codes "the application reported itself unhealthy"
own_words (c ∷ s) = c ∷ s

unfoldable pub to_healthy : Probation → Probation
to_healthy p = record p { status = confirmed; restart_pending = false }

unfoldable pub to_unhealthy : RawRunes → Probation → Probation
unfolding own_words
to_unhealthy reason p = record p { status = unhealthy; reason = own_words (sanitize_reason reason) }

unfoldable pub to_restart : Probation → Probation
to_restart p = record p {
  restarts = if leb p.restarts p.restarts_allowed then p.restarts + 1 else p.restarts;
  restart_pending = true;
}

-- Why the launcher rolls a version back, in its own words.
unfoldable pub too_many_restarts : Probation → Runes
unfolding plural
too_many_restarts p =
    codes "asked to be restarted more than "
    ++ (plural p.restarts_allowed (codes "time") ++ codes " without confirming it is healthy")

unfoldable pub not_confirmed : Probation → Runes
unfolding plural
not_confirmed p = codes "not confirmed healthy after " ++ plural p.attempts_allowed (codes "start")

unfoldable pub to_kept : Runes → Probation → Probation
to_kept reason p = record p {
  status = kept;
  reason =
      sanitize
        (reason ++ (codes "; " ++ (p.previous ++ codes " is no longer installed, so it stays")));
}

unfoldable pub to_reverting : Runes → Probation → Probation
to_reverting reason p = record p { status = reverting; reason = reason }

unfoldable pub to_reverted : Runes → Probation → Probation
to_reverted reason p = record p {
  status = reverted;
  reason = reason;
  restart_pending = false;
  blocked = some (record { version = p.version; reason = reason });
}
