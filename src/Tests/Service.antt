-- ===== src/Tests/Service.antt =====
-- Days of a business in a time zone.
use werefa.Prelude.{ℕ, ◌≡◌, refl, false, none, some, List, [], ◌∷◌, map}
use werefa.Store.{Db, empty_db, confirmed}
use werefa.Availability.{closed, compute_available_slot_starts}
use werefa.DaySlots.{
  ScheduleVersion, Shop, SlotsArgs, SlotStart, minute_spans, at_time_on, get_slots_for_day,
}
use werefa.DaySlots.Clock.{ahead}
use werefa.DaySlots.Closures.{closed_date_closes_every_day}

abbrev office : ScheduleVersion
office = record {
  working_periods = record { weekday = 1; start_minutes = 540; end_minutes = 780 } ∷ [];
  blocked_periods = [];
  special_dates = [];
}

abbrev holiday : ScheduleVersion
holiday = record office {
  special_dates =
      record { date = 8640000000; kind = closed; start_minutes = none; end_minutes = none } ∷ [];
}

abbrev shop_with : ScheduleVersion → Shop
shop_with version = record {
  business_id = 1;
  deactivated = false;
  settings = some (record {
    is_paused = false;
    booking_interval_mins = 60;
    prepayment = record { mode = none; percent = none; fixed_minor = none };
  });
  subscription = none;
  active_version = some version;
}

-- Monday, 5 January 1970.
abbrev hour_on_monday : SlotsArgs
hour_on_monday = record {
  date_key = 4;
  duration_minutes = 60;
  from_minutes = none;
  until_minutes = none;
  include_business_gates = false;
}

-- A booking from 09:00 to 10:00 of that Monday in a zone three hours ahead of UTC.
abbrev booked_at_nine : Db
booked_at_nine = record empty_db {
  bookings =
      record {
        id = 1;
        business_id = 1;
        status = confirmed;
        customer_name = 10;
        customer_phone = 7;
        note = none;
        start_at = 367200000;
        end_at = 370800000;
        components = [];
      }
      ∷ [];
}

abbrev starts_of : List SlotStart → List ℕ
starts_of xs = map (λ (x : SlotStart). x.start_at) xs

-- The slot at 09:00 is offered again.
offered_again :
    starts_of
      (get_slots_for_day (ahead 180) booked_at_nine 0 (some (shop_with office)) hour_on_monday)
    ≡ 367200000 ∷ 370800000 ∷ 374400000 ∷ 378000000 ∷ []
unfolding get_slots_for_day minute_spans compute_available_slot_starts at_time_on
offered_again = refl

closed_date_closes_every_day_example :
    get_slots_for_day (ahead 180) empty_db 0 (some (shop_with holiday)) hour_on_monday ≡ []
closed_date_closes_every_day_example =
    closed_date_closes_every_day (ahead 180) empty_db 0 (shop_with holiday) holiday hour_on_monday
      refl refl
