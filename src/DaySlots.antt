-- ===== src/DaySlots.antt =====
-- backend/src/domain/services/availability.service.ts and backend/src/domain/time/global-clock.ts: the
-- slots that a business offers on a calendar day. The time zone is a parameter: what
-- `Intl.DateTimeFormat` shows, in minutes since the epoch. A date key 'YYYY-MM-DD' is the number of
-- the day, and `Date.UTC` of its parts is that number in milliseconds.
pub mod Closures
pub mod Spans
pub mod Clock
use werefa.Prelude.{
  ℕ, ◌+◌, ◌-◌, ◌*◌, ◌/◌, ◌%◌, ◌<◌, max, min, Bool, true, false, not, ◌&&◌, ◌||◌, Option, none, some,
  List, [], ◌∷◌, ◌++◌, map, ltb, ◌==◌, if◌then◌else◌, select,
}
use werefa.Store.{Booking, SlotLock, Db, is_active, is_held}
use werefa.Lifecycle.{Bands, is_eligible_at, day_ms}
use werefa.Prepayment.{PrepaymentSettings, compute_prepaid_amount}
use werefa.Availability.{
  WorkingPeriod, BlockedPeriod, SpecialDate, ComputeArgs, MinuteSpan, compute_available_slot_starts,
}

abbrev pub minute : ℕ
minute = 60000

-- What the zone's clocks show at an instant: minutes since the epoch.
abbrev pub Zone : Type 0
Zone = ℕ → ℕ

-- `isoWeekday`: day 0 was a Thursday, so JavaScript's `getUTCDay` is `(day + 4) % 7`.
abbrev pub iso_weekday_of : Zone → ℕ → ℕ
iso_weekday_of zone t = ((zone t / 1440 + 4) % 7 + 6) % 7 + 1

-- `slotDate`
abbrev slot_date_of : Zone → ℕ → ℕ
slot_date_of zone t = zone t / 1440 * day_ms

-- `dateKey`
abbrev pub date_key_of : Zone → ℕ → ℕ
date_key_of zone t = zone t / 1440

-- `dateKeyAsSlotDate`
abbrev pub date_key_as_slot_date : ℕ → ℕ
date_key_as_slot_date key = key * day_ms

-- One round of the loop of `atTimeOn`.
abbrev converge : Zone → ℕ → ℕ → ℕ
converge zone target guess = guess + target - zone guess * minute

-- `atTimeOn`: the wall clock's target, then three rounds.
unfoldable pub at_time_on : Zone → ℕ → ℕ → ℕ → ℕ
at_time_on zone t hour mins =
    let target = slot_date_of zone t + (hour * 60 + mins) * minute in
    converge zone target (converge zone target (converge zone target target))

-- The columns that the service reads of a business, its settings and its active schedule version.
pub record SlotSettings : Type 0 where
  pub is_paused : Bool
  pub booking_interval_mins : ℕ
  pub prepayment : PrepaymentSettings

pub record ScheduleVersion : Type 0 where
  pub working_periods : List WorkingPeriod
  pub blocked_periods : List BlockedPeriod
  pub special_dates : List SpecialDate

pub record Shop : Type 0 where
  pub business_id : ℕ
  pub deactivated : Bool
  pub settings : Option SlotSettings
  pub subscription : Option Bands
  pub active_version : Option ScheduleVersion

pub record SlotsArgs : Type 0 where
  pub date_key : ℕ
  pub duration_minutes : ℕ
  pub from_minutes : Option ℕ
  pub until_minutes : Option ℕ
  pub include_business_gates : Bool

-- A booking's or a lock's window, in minutes of the day that starts at `day`. A window that ends before
-- the day has no minute of it, here (0, 0).
abbrev pub minute_span : ℕ → ℕ → ℕ → MinuteSpan
minute_span day start_at end_at = record {
  start_minute = (max start_at day - day) / minute;
  end_minute = min 1440 ((min end_at (day + day_ms) - day + (minute - 1)) / minute);
}

-- The two queries of the day and their spans.
unfoldable pub minute_spans : Db → ℕ → ℕ → List MinuteSpan
minute_spans db business_id day =
    map (λ (b : Booking). minute_span day b.start_at b.end_at)
      (select
        (λ (b : Booking).
          b.business_id == business_id
          && (is_active b.status && (ltb b.start_at (day + day_ms) && ltb day b.end_at)))
        db.bookings)
    ++ map (λ (l : SlotLock). minute_span day l.start_at l.end_at)
        (select
          (λ (l : SlotLock).
            l.business_id == business_id && (is_held l.state && l.slot_date == day))
          db.slot_locks)

-- The special dates of the version, all of them, with their keys.
abbrev pub keyed : Zone → SpecialDate → SpecialDate
keyed zone s = record s { date = date_key_of zone s.date }

abbrev pub compute_args : Zone → SlotSettings → ScheduleVersion → SlotsArgs → ComputeArgs
compute_args zone settings version args = record {
  interval_minutes = settings.booking_interval_mins;
  duration_minutes = args.duration_minutes;
  iso_weekday = iso_weekday_of zone (date_key_as_slot_date args.date_key);
  working_periods = version.working_periods;
  blocked_periods = version.blocked_periods;
  special_dates = map (keyed zone) version.special_dates;
  from_minutes = args.from_minutes;
  until_minutes = args.until_minutes;
}

-- The business gates: not deactivated, not paused, and with an eligible subscription.
abbrev passes_gates : Shop → SlotSettings → ℕ → Bool
passes_gates shop settings now =
    not shop.deactivated
    && (not settings.is_paused
        && elim shop.subscription [ none ↦ false | some sub ↦ is_eligible_at sub now ])

pub record SlotStart : Type 0 where
  pub start_at : ℕ
  pub end_at : ℕ
  pub day_start : ℕ
  pub start_minutes : ℕ
  pub end_minutes : ℕ

abbrev pub slot_at : Zone → ℕ → MinuteSpan → SlotStart
slot_at zone day r = record {
  start_at = at_time_on zone day (r.start_minute / 60) (r.start_minute % 60);
  end_at = at_time_on zone day (r.end_minute / 60) (r.end_minute % 60);
  day_start = day;
  start_minutes = r.start_minute;
  end_minutes = r.end_minute;
}

slots_of_version :
    Zone → Db → Shop → SlotSettings → SlotsArgs → Option ScheduleVersion → List SlotStart
slots_of_version zone db shop settings args none = []
slots_of_version zone db shop settings args (some version) =
    let day = date_key_as_slot_date args.date_key in
    map (slot_at zone day) (
      compute_available_slot_starts (compute_args zone settings version args)
        (minute_spans db shop.business_id day))

slots_of_shop : Zone → Db → ℕ → Shop → SlotsArgs → Option SlotSettings → List SlotStart
unfolding slots_of_version
slots_of_shop zone db now shop args none = []
slots_of_shop zone db now shop args (some settings) =
    if args.include_business_gates && not (passes_gates shop settings now)
    then []
    else slots_of_version zone db shop settings args shop.active_version

-- `getSlotsForDay`, with the row of the business if there is one.
unfoldable pub get_slots_for_day : Zone → Db → ℕ → Option Shop → SlotsArgs → List SlotStart
unfolding slots_of_shop
get_slots_for_day zone db now none args = []
get_slots_for_day zone db now (some shop) args = slots_of_shop zone db now shop args shop.settings

-- `requiredPrepaidMinor`
unfoldable required_prepaid_minor : Option SlotSettings → ℕ → ℕ
required_prepaid_minor none total = 0
required_prepaid_minor (some settings) total =
    compute_prepaid_amount (some settings.prepayment) total
