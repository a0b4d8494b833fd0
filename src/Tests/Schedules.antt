-- ===== src/Tests/Schedules.antt =====
-- Saved schedules, their conflicts and their exceptions.
use werefa.Schedules.Resumed.{resume_tx-save_tx}
use werefa.Texts.{is_empty}
use werefa.Schedules.Templates.{
  is_good_period, is_good_block, is_good_date, on_different_days, validate_template_iff,
}
use werefa.Store.Bookings.{find_by_id}
use werefa.Schedules.Excused.{about, recorded_not_open}
use werefa.Availability.Grid.{offers}
use werefa.Schedules.Agreement.{asking, offered_no_conflict, midnight_no_conflict}
use werefa.Subscriptions.Service.{resume_tx, apply_pending, clear_pause, settings_of}
use werefa.Tenant.{Business, require_owned_business}
use werefa.Schedules.Exceptions.{Records, Exempt, record_schedule_exception, list_open_conflicts}
use werefa.Schedules.{conflict_of, schedule_conflict_reason, validate_template}
use werefa.Availability.{ComputeArgs, compute_available_slot_starts}
use werefa.Booking.Transactions.{Ensures}
use werefa.Schedules.Saving.{save_tx, get_active_version, paused_of, create_pending_version}
use werefa.Schedules.Promotion.{IsNumbered, saved_content}
use werefa.Subscriptions.{Ledger}
use werefa.Versions.{VersionRow, active}
use werefa.Errors.{is_ok, ok}
use werefa.DaySlots.{ScheduleVersion, Zone}
use werefa.Prelude.{
  ℕ, ◌≡◌, refl, none, ◌*◌, Option, any, ◌∷◌, [], false, true, ◌%◌, ◌/◌, ◌+◌, some, all, arith, ◌&&◌,
  not,
}
use werefa.Store.{Booking, empty_db, confirmed, owner, Text}

-- Mondays from 9 to 17, closed from 12 to 13.
abbrev pub mondays : ScheduleVersion
mondays = record {
  working_periods = record { weekday = 1; start_minutes = 540; end_minutes = 1020 } ∷ [];
  blocked_periods =
      record { day_of_week = none; start_minutes = some 720; end_minutes = some 780 } ∷ [];
  special_dates = [];
}

-- The same hours with the end and the start swapped.
abbrev reversed_hours : ScheduleVersion
reversed_hours = record mondays {
  working_periods = record { weekday = 1; start_minutes = 1020; end_minutes = 540 } ∷ [];
}

accepted_template : is_ok (validate_template mondays) ≡ true
unfolding is_ok validate_template
accepted_template = refl

refused_template : is_ok (validate_template reversed_hours) ≡ false
unfolding is_ok validate_template
refused_template = refl

validate_template_iff_example : is_ok (validate_template mondays) ≡ (
    all is_good_period mondays.working_periods
    && (not (is_empty mondays.working_periods && is_empty mondays.special_dates)
        && (all is_good_block mondays.blocked_periods
            && (all is_good_date mondays.special_dates
                && on_different_days mondays.special_dates))))
validate_template_iff_example = validate_template_iff mondays

abbrev old_version : VersionRow
old_version = record { id = 4; business_id = 1; version_no = 2; status = active }

abbrev book : Ledger
book = record {
  subscriptions = [];
  history = [];
  proofs = [];
  files = [];
  settings = record { business_id = 1; is_paused = true; reopen_at = none } ∷ [];
  versions = old_version ∷ [];
  active_versions = record { business_id = 1; version_id = some 4 } ∷ [];
  contents = record { version_id = 4; business_id = 1; template = reversed_hours } ∷ [];
  exceptions = [];
  next_version = 5;
  next_subscription = 1;
  next_proof = 1;
  next_file = 1;
}

book-IsNumbered : IsNumbered book
book-IsNumbered = record { ids_below = refl }

-- A block with a start and no end passes the validation, but not the CHECK constraint.
abbrev open_block : ScheduleVersion
open_block = record mondays {
  blocked_periods =
      record { day_of_week = none; start_minutes = some 600; end_minutes = none } ∷ [];
}

validated : is_ok (validate_template open_block) ≡ true
unfolding is_ok validate_template
validated = refl

not_inserted : is_ok (save_tx 1 true open_block book) ≡ false
unfolding is_ok save_tx create_pending_version
not_inserted = refl

resume_tx-save_tx_example :
    Ensures
      (λ r.
        (resume_tx 1 r.1 ≡ ok (apply_pending 1 (clear_pause 1 r.1)))
        × (get_active_version (apply_pending 1 (clear_pause 1 r.1)) 1
            ≡ some (saved_content 1 mondays book)))
      (save_tx 1 (paused_of (settings_of book 1)) mondays book)
resume_tx-save_tx_example = resume_tx-save_tx 1 mondays book book-IsNumbered refl

abbrev asked_day : ComputeArgs
asked_day = asking mondays 30 60 1 none none

on_offer : offers 540 600 (compute_available_slot_starts asked_day []) ≡ true
unfolding compute_available_slot_starts
on_offer = refl

offered_no_conflict_example : conflict_of mondays none 1 540 (600 % 1440) ≡ none
offered_no_conflict_example =
    offered_no_conflict mondays 30 60 1 none none [] 540 600 (omega arith) (omega arith)
      (omega arith) accepted_template refl on_offer

-- Day 4 is a Monday; the booking lasts from 9:00 to midnight, over the block and beyond the hours.
abbrev utc : Zone
utc t = t / 60000

midnight_no_conflict_example :
    schedule_conflict_reason utc mondays (4 * 86400000 + 540 * 60000) (5 * 86400000) ≡ none
midnight_no_conflict_example =
    midnight_no_conflict mondays utc (4 * 86400000 + 540 * 60000) (5 * 86400000) refl refl refl

-- From 12:00 to 13:00 on that Monday.
abbrev lunch : Booking
lunch = record {
  id = 7;
  business_id = 1;
  status = confirmed;
  customer_name = 1;
  customer_phone = 2;
  note = none;
  start_at = 4 * 86400000 + 720 * 60000;
  end_at = 4 * 86400000 + 780 * 60000;
  components = [];
}

abbrev morning : Booking
morning = record lunch {
  id = 8;
  start_at = 4 * 86400000 + 540 * 60000;
  end_at = 4 * 86400000 + 600 * 60000;
}

abbrev records : Records
records = record {
  ledger = record book {
    contents = record { version_id = 4; business_id = 1; template = mondays } ∷ [];
  };
  bookings = record empty_db { bookings = lunch ∷ morning ∷ [] };
}

abbrev shop : Business
shop = record { id = 1; slug = 1; owners = 5 ∷ []; deactivated = false }

abbrev keep : ℕ → Exempt
keep id = record {
  business_id = 1;
  version_id = 4;
  booking_id = id;
  actor = record { actor_type = owner; actor_user_id = some 5 };
  reason = none;
}

abbrev audit : Option Text → ℕ
audit t = 0

kept_ok : is_ok (record_schedule_exception audit utc (shop ∷ []) (keep 7) records).0 ≡ true
unfolding is_ok record_schedule_exception require_owned_business find_by_id schedule_conflict_reason
kept_ok = refl

in_force_now :
    get_active_version records.ledger 1
    ≡ some (record { version_id = 4; business_id = 1; template = mondays })
unfolding get_active_version
in_force_now = refl

recorded_not_open_example :
    any (about 7) (
      list_open_conflicts utc
        (record_schedule_exception audit utc (shop ∷ []) (keep 7) records).1
        1)
    ≡ false
recorded_not_open_example =
    recorded_not_open audit utc (shop ∷ []) (keep 7) records 1
      (record { version_id = 4; business_id = 1; template = mondays }) kept_ok in_force_now refl
