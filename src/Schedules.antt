-- ===== src/Schedules.antt =====
-- backend/src/domain/services/schedule.service.ts: the validation of a schedule template, and whether a
-- booking is possible under a schedule version. Minutes are natural numbers, as the request's bounds
-- make them, so the tests for negative or fractional minutes are left out. The texts of the messages are
-- left out too.
pub mod Templates
pub mod Saving
pub mod Promotion
pub mod Resumed
pub mod Agreement
pub mod Exceptions
pub mod Keeping
pub mod Excused
use werefa.Prelude.{
  ℕ, ◌/◌, ◌%◌, Bool, true, false, not, ◌&&◌, ◌||◌, Option, none, some, List, [], ◌∷◌, ◌++◌, ltb,
  leb, ◌==◌, if◌then◌else◌, any, is_some, find_first,
}
use werefa.Errors.{Result, ok, err, invalid_schedule}
use werefa.Lifecycle.{day_ms}
use werefa.Texts.{is_empty}
use werefa.Availability.{
  WorkingPeriod, BlockedPeriod, SpecialDate, is_closed, is_custom, applies_on, block_start,
  block_end,
}
use werefa.DaySlots.{Zone, ScheduleVersion, date_key_of, iso_weekday_of}

-- The keys of `fields`, the parts of the template that are refused.
pub data TemplateField : Type 0 where
  working_periods_field blocked_periods_field : TemplateField
  special_date_field : ℕ → TemplateField

abbrev refuse : Bool → TemplateField → List TemplateField
refuse bad field = if bad then field ∷ [] else []

abbrev period_fields : WorkingPeriod → List TemplateField
period_fields w =
    refuse (ltb w.weekday 1 || ltb 7 w.weekday) working_periods_field
    ++ (refuse (leb 1440 w.start_minutes || (leb w.end_minutes 0 || ltb 1440 w.end_minutes))
          working_periods_field
        ++ refuse (leb w.end_minutes w.start_minutes) working_periods_field)

working_fields : List WorkingPeriod → List TemplateField
working_fields [] = []
working_fields (w ∷ ws) = period_fields w ++ working_fields ws

abbrev bad_day : Option ℕ → Bool
bad_day none = false
bad_day (some d) = ltb d 1 || ltb 7 d

-- Both ends are given, and the start is not before the end.
abbrev is_reversed : Option ℕ → Option ℕ → Bool
is_reversed (some s) (some e) = leb e s
is_reversed _ _ = false

blocked_fields : List BlockedPeriod → List TemplateField
blocked_fields [] = []
blocked_fields (b ∷ bs) =
    refuse (bad_day b.day_of_week) blocked_periods_field
    ++ (refuse (is_reversed b.start_minutes b.end_minutes) blocked_periods_field
        ++ blocked_fields bs)

-- `dateKeyOf`, the calendar day in UTC.
abbrev pub utc_day : SpecialDate → ℕ
utc_day s = s.date / day_ms

abbrev lacks_hours : SpecialDate → Bool
lacks_hours s = is_custom s && not (is_some s.start_minutes && is_some s.end_minutes)

special_fields : List ℕ → List SpecialDate → List TemplateField
special_fields seen [] = []
special_fields seen (s ∷ ss) =
    let field = special_date_field (utc_day s) in
    refuse (any (λ d. d == utc_day s) seen) field
    ++ (refuse (lacks_hours s) field
        ++ (refuse (is_custom s && is_reversed s.start_minutes s.end_minutes) field
            ++ special_fields (utc_day s ∷ seen) ss))

template_fields : ScheduleVersion → List TemplateField
unfolding working_fields blocked_fields special_fields
template_fields t =
    working_fields t.working_periods
    ++ (refuse (is_empty t.working_periods && is_empty t.special_dates) working_periods_field
        ++ (blocked_fields t.blocked_periods ++ special_fields [] t.special_dates))

-- `validateTemplate`
unfoldable pub validate_template : ScheduleVersion → Result (Unit {0})
unfolding template_fields
validate_template t = if is_empty (template_fields t) then ok tt else err invalid_schedule

pub data ConflictKind : Type 0 where
  closed_day outside_hours blocked_hours : ConflictKind

-- `minuteOfDay`
abbrev pub minute_of_day : Zone → ℕ → ℕ
minute_of_day zone t = zone t % 1440

abbrev pub or_zero : Option ℕ → ℕ
or_zero none = 0
or_zero (some n) = n

weekly_hours : ScheduleVersion → ℕ → ℕ → ℕ → Bool
weekly_hours version weekday start_min end_min =
    any
      (λ (w : WorkingPeriod).
        w.weekday == weekday && (leb w.start_minutes start_min && leb end_min w.end_minutes))
      version.working_periods

-- Does the booking lie in the hours of its day?
valid_window : ScheduleVersion → ℕ → ℕ → ℕ → Option SpecialDate → Bool
unfolding weekly_hours
valid_window version weekday start_min end_min none = weekly_hours version weekday start_min end_min
valid_window version weekday start_min end_min (some s) =
    if is_custom s
    then leb (or_zero s.start_minutes) start_min && leb end_min (or_zero s.end_minutes)
    else weekly_hours version weekday start_min end_min

abbrev pub meets_block : ℕ → ℕ → ℕ → BlockedPeriod → Bool
meets_block weekday start_min end_min b =
    applies_on weekday b.day_of_week && (ltb start_min (block_end b) && ltb (block_start b) end_min)

abbrev is_closed_date : Option SpecialDate → Bool
is_closed_date none = false
is_closed_date (some s) = is_closed s

-- The tests of `scheduleConflictReason`, once the instants are read off the clock.
unfoldable pub conflict_of : ScheduleVersion → Option SpecialDate → ℕ → ℕ → ℕ → Option ConflictKind
unfolding valid_window
conflict_of version special weekday start_min end_min =
    if is_closed_date special
    then some closed_day
    else if not (valid_window version weekday start_min end_min special)
    then some outside_hours
    else if any (meets_block weekday start_min end_min) version.blocked_periods
    then some blocked_hours
    else none

-- `scheduleConflictReason`
unfoldable pub schedule_conflict_reason : Zone → ScheduleVersion → ℕ → ℕ → Option ConflictKind
unfolding conflict_of
schedule_conflict_reason zone version start_at end_at =
    conflict_of version
      (find_first (λ (s : SpecialDate). date_key_of zone s.date == date_key_of zone start_at)
        version.special_dates)
      (iso_weekday_of zone start_at) (minute_of_day zone start_at) (minute_of_day zone end_at)
