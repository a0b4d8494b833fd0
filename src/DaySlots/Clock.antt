-- ===== src/DaySlots/Clock.antt =====
-- The clock of a zone that is a whole number of minutes ahead of UTC, such as Africa/Addis_Ababa.
use werefa.Prelude.{ℕ, ◌+◌, ◌*◌, ◌/◌, ◌≤◌, ◌≡◌, arith}
use werefa.DaySlots.{Zone, minute, at_time_on}

abbrev pub ahead : ℕ → Zone
ahead offset t = t / minute + offset

-- In a zone ahead of UTC, `atTimeOn` answers an instant at which the zone's clocks show the asked
-- minutes of the calendar day of `t`, if that instant is not before the epoch.
pub at_time_on-ahead :
    (offset t hour mins : ℕ)
    → offset ≤ ahead offset t / 1440 * 1440 + (hour * 60 + mins)
    → ahead offset (at_time_on (ahead offset) t hour mins)
      ≡ ahead offset t / 1440 * 1440 + (hour * 60 + mins)
unfolding at_time_on
at_time_on-ahead offset t hour mins h = omega arith
