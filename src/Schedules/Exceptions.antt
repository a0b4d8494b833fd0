-- ===== src/Schedules/Exceptions.antt =====
-- backend/src/domain/services/schedule.service.ts (`recordScheduleException`, `listOpenConflicts`) with
-- `getById` and `createException` of
-- backend/src/domain/repositories/prisma-schedule.repository.ts.
use werefa.Store.Bookings.{find_by_id}
use werefa.Schedules.Saving.{get_active_version}
use werefa.Schedules.{ConflictKind, schedule_conflict_reason}
use werefa.Texts.{is_empty, trim}
use werefa.DaySlots.{Zone}
use werefa.Tenant.{ActorContext, Business, require_owned_business}
use werefa.Store.{Db, Text, Booking, is_active}
use werefa.Subscriptions.{Ledger, VersionContent, ScheduleException}
use werefa.Errors.{Result, ok, err, business_not_found, invalid_schedule}
use werefa.Prelude.{
  ℕ, ◌∷◌, [], List, Option, none, some, Bool, false, ◌&&◌, ◌==◌, find_first, select, any,
  if◌then◌else◌, ltb, length,
}

-- `getById`, the version with its periods and dates.
abbrev pub get_version : Ledger → ℕ → ℕ → Option VersionContent
get_version db n version_id =
    find_first (λ (c : VersionContent). c.version_id == version_id && c.business_id == n)
      db.contents

abbrev pub is_exception_of : ℕ → ℕ → ScheduleException → Bool
is_exception_of booking_id version_id e = e.booking_id == booking_id && e.version_id == version_id

-- The two tables' databases, which one transaction changes together.
pub record Records : Type 0 where
  pub ledger : Ledger
  pub bookings : Db

pub record Exempt : Type 0 where
  pub business_id : ℕ
  pub version_id : ℕ
  pub booking_id : ℕ
  pub actor : ActorContext
  pub reason : Option Text

-- `trimmed || null`
abbrev pub or_null : Option Text → Option Text
or_null none = none
or_null (some t) = if is_empty t then none else some t

abbrev pub too_long : Option Text → Bool
too_long none = false
too_long (some t) = ltb 500 (length t)

-- The transaction's answer: an exception that is there already, or a new one with its row in the history
-- of the booking. `audit` names the text that the row carries.
unfoldable pub exempt_tx :
    (Option Text → ℕ)
    → Exempt
    → Booking
    → Records
    → Option ScheduleException
    → ScheduleException × Records
exempt_tx audit x b w (some existing) = (existing, w)
exempt_tx audit x b w none =
    let row : ScheduleException = record {
      business_id = x.business_id;
      version_id = x.version_id;
      booking_id = x.booking_id;
      created_by = x.actor.actor_user_id;
      reason = or_null x.reason;
    } in
    (
      row,
      record {
        ledger = record w.ledger { exceptions = row ∷ w.ledger.exceptions };
        bookings = record w.bookings {
          booking_history =
              record {
                booking_id = x.booking_id;
                business_id = x.business_id;
                from_status = none;
                to_status = b.status;
                actor_type = x.actor.actor_type;
                actor_user_id = x.actor.actor_user_id;
                reason = some (audit (or_null x.reason));
              }
              ∷ Db.booking_history w.bookings;
        };
      },
    )

unfoldable pub exempt_checked :
    (Option Text → ℕ)
    → Exempt
    → Booking
    → Records
    → Option ConflictKind
    → Result ScheduleException × Records
unfolding exempt_tx
exempt_checked audit x b w none = (err invalid_schedule, w)
exempt_checked audit x b w (some kind) =
    let r =
      exempt_tx audit x b w
        (find_first (is_exception_of x.booking_id x.version_id) w.ledger.exceptions) in
    (ok r.0, r.1)

unfoldable pub exempt_booking :
    (Option Text → ℕ)
    → Zone
    → Exempt
    → Records
    → VersionContent
    → Option Booking
    → Result ScheduleException × Records
unfolding exempt_checked
exempt_booking audit zone x w v none = (err business_not_found, w)
exempt_booking audit zone x w v (some b) =
    if too_long x.reason
    then (err invalid_schedule, w)
    else exempt_checked audit x b w (schedule_conflict_reason zone v.template b.start_at b.end_at)

unfoldable pub exempt_version :
    (Option Text → ℕ)
    → Zone
    → Exempt
    → Records
    → Option VersionContent
    → Result ScheduleException × Records
unfolding exempt_booking
exempt_version audit zone x w none = (err business_not_found, w)
exempt_version audit zone x w (some v) =
    exempt_booking audit zone x w v (find_by_id w.bookings x.business_id x.booking_id)

unfoldable pub exempt_owned :
    (Option Text → ℕ)
    → Zone
    → Exempt
    → Records
    → Result Business
    → Result ScheduleException × Records
unfolding exempt_version
exempt_owned audit zone x w (err e) = (err e, w)
exempt_owned audit zone x w (ok b) =
    exempt_version audit zone x w (get_version w.ledger x.business_id x.version_id)

unfoldable pub trimmed : Option Text → Option Text
trimmed none = none
trimmed (some t) = some (trim t)

-- `recordScheduleException`
unfoldable pub record_schedule_exception :
    (Option Text → ℕ) → Zone → List Business → Exempt → Records → Result ScheduleException × Records
unfolding exempt_owned trimmed
record_schedule_exception audit zone businesses x w =
    exempt_owned audit zone (record x { reason = trimmed x.reason }) w
      (require_owned_business businesses x.actor x.business_id)

pub record OpenConflict : Type 0 where
  pub booking : Booking
  pub kind : ConflictKind

abbrev pub listed : Booking → Option ConflictKind → List OpenConflict → List OpenConflict
listed b none rest = rest
listed b (some kind) rest = record { booking = b; kind = kind } ∷ rest

-- The loop over the bookings, with the exceptions of the version.
unfoldable pub conflicts_of :
    Zone → VersionContent → List ScheduleException → List Booking → List OpenConflict
conflicts_of zone v exceptions [] = []
conflicts_of zone v exceptions (b ∷ bs) =
    let rest = conflicts_of zone v exceptions bs in
    if any (is_exception_of b.id v.version_id) exceptions
    then rest
    else listed b (schedule_conflict_reason zone v.template b.start_at b.end_at) rest

unfoldable pub conflicts_under : Zone → Records → ℕ → Option VersionContent → List OpenConflict
unfolding conflicts_of
conflicts_under zone w n none = []
conflicts_under zone w n (some v) =
    conflicts_of zone v w.ledger.exceptions
      (select (λ (b : Booking). b.business_id == n && is_active b.status) (Db.bookings w.bookings))

-- `listOpenConflicts`
unfoldable pub list_open_conflicts : Zone → Records → ℕ → List OpenConflict
unfolding conflicts_under
list_open_conflicts zone w n = conflicts_under zone w n (get_active_version w.ledger n)
