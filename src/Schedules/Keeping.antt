-- ===== src/Schedules/Keeping.antt =====
-- Exceptions are recorded for real conflicts only, and once.
use werefa.Schedules.Promotion.{same_number}
use werefa.Store.Bookings.{find_by_id}
use werefa.Schedules.{schedule_conflict_reason, ConflictKind}
use werefa.Tenant.{Business, require_owned_business}
use werefa.DaySlots.{Zone}
use werefa.Store.{Text, Db, Booking}
use werefa.Subscriptions.{ScheduleException, VersionContent}
use werefa.Schedules.Exceptions.{
  Records, exempt_booking, exempt_owned, record_schedule_exception, exempt_tx, exempt_checked,
  exempt_version, Exempt, get_version, too_long, is_exception_of, trimmed,
}
use werefa.Prelude.{
  ℕ, ◌≡◌, refl, false, none, some, Option, List, ap, Bool-cases, inl, inr, find_first,
}
use werefa.Errors.{Result, ok, err, is_ok}

-- The answer is an error and nothing was written.
abbrev IsRefused : Records → Result ScheduleException × Records → Type 0
IsRefused w r = (is_ok r.0 ≡ false) × (r.1 ≡ w)

exempt_booking-IsRefused :
    (audit : Option Text → ℕ) (zone : Zone) (x : Exempt) (w : Records) (v : VersionContent)
    (b : Booking)
    → schedule_conflict_reason zone v.template b.start_at b.end_at ≡ none
    → IsRefused w (exempt_booking audit zone x w v (some b))
unfolding is_ok exempt_booking exempt_checked
exempt_booking-IsRefused audit zone x w v b possible = elim (Bool-cases (too_long x.reason)) [
  | inl long ↦ rw long (refl, refl)
  | inr short ↦ rw (short, possible) (refl, refl)
]

exempt_owned-IsRefused :
    (audit : Option Text → ℕ) (zone : Zone) (x : Exempt) (w : Records) (v : VersionContent)
    (b : Booking) (r : Result Business)
    → get_version w.ledger x.business_id x.version_id ≡ some v
    → find_by_id w.bookings x.business_id x.booking_id ≡ some b
    → schedule_conflict_reason zone v.template b.start_at b.end_at ≡ none
    → IsRefused w (exempt_owned audit zone x w r)
unfolding is_ok exempt_owned exempt_version
exempt_owned-IsRefused audit zone x w v b (err e) found there possible = (refl, refl)
exempt_owned-IsRefused audit zone x w v b (ok o) found there possible =
    rw found (rw there (exempt_booking-IsRefused audit zone x w v b possible))

-- A booking that the version leaves possible gets no exception, and nothing is written.
pub no_conflict_no_exception :
    (audit : Option Text → ℕ) (zone : Zone) (businesses : List Business) (x : Exempt) (w : Records)
    (v : VersionContent) (b : Booking)
    → get_version w.ledger x.business_id x.version_id ≡ some v
    → find_by_id w.bookings x.business_id x.booking_id ≡ some b
    → schedule_conflict_reason zone v.template b.start_at b.end_at ≡ none
    → (is_ok (record_schedule_exception audit zone businesses x w).0 ≡ false)
      × ((record_schedule_exception audit zone businesses x w).1 ≡ w)
unfolding record_schedule_exception
no_conflict_no_exception audit zone businesses x w v b found there possible =
    exempt_owned-IsRefused audit zone (record x { reason = trimmed x.reason }) w v b
      (require_owned_business businesses x.actor x.business_id) found there possible

-- What the checks read is the same after a call.
record SameReads (w next : Records) : Type 0 where
  contents_same : next.ledger.contents ≡ w.ledger.contents
  bookings_same : Db.bookings next.bookings ≡ Db.bookings w.bookings

same_checked :
    (audit : Option Text → ℕ) (x : Exempt) (b : Booking) (w : Records)
    (o : Option ScheduleException)
    → SameReads w (exempt_tx audit x b w o).1
unfolding exempt_tx
same_checked audit x b w none = record { contents_same = refl; bookings_same = refl }
same_checked audit x b w (some e) = record { contents_same = refl; bookings_same = refl }

again_tx :
    (audit : Option Text → ℕ) (x : Exempt) (b : Booking) (w : Records)
    (o : Option ScheduleException)
    → find_first (is_exception_of x.booking_id x.version_id) w.ledger.exceptions ≡ o
    → exempt_tx audit x b (exempt_tx audit x b w o).1 (
        find_first
          (is_exception_of x.booking_id x.version_id)
          (exempt_tx audit x b w o).1.ledger.exceptions)
      ≡ exempt_tx audit x b w o
unfolding exempt_tx
again_tx audit x b w none e = rw (same_number x.booking_id) (rw (same_number x.version_id) refl)
again_tx audit x b w (some old) e = rw e refl

same_all : (w : Records) → SameReads w w
same_all w = record { contents_same = refl; bookings_same = refl }

same_kind :
    (audit : Option Text → ℕ) (x : Exempt) (b : Booking) (w : Records) (k : Option ConflictKind)
    → SameReads w (exempt_checked audit x b w k).1
unfolding exempt_checked
same_kind audit x b w none = same_all w
same_kind audit x b w (some kind) = same_checked audit x b w _

again_kind :
    (audit : Option Text → ℕ) (x : Exempt) (b : Booking) (w : Records) (k : Option ConflictKind)
    → exempt_checked audit x b (exempt_checked audit x b w k).1 k ≡ exempt_checked audit x b w k
unfolding exempt_checked
again_kind audit x b w none = refl
again_kind audit x b w (some kind) = ap (λ r. (ok r.0, r.1)) (again_tx audit x b w _ refl)

same_booking :
    (audit : Option Text → ℕ) (zone : Zone) (x : Exempt) (w : Records) (v : VersionContent)
    (o : Option Booking)
    → SameReads w (exempt_booking audit zone x w v o).1
unfolding exempt_booking
same_booking audit zone x w v none = same_all w
same_booking audit zone x w v (some b) = elim (Bool-cases (too_long x.reason)) [
  | inl long ↦ rw long (same_all w)
  | inr short ↦ rw short (same_kind audit x b w _)
]

again_booking :
    (audit : Option Text → ℕ) (zone : Zone) (x : Exempt) (w : Records) (v : VersionContent)
    (o : Option Booking)
    → exempt_booking audit zone x (exempt_booking audit zone x w v o).1 v o
      ≡ exempt_booking audit zone x w v o
unfolding exempt_booking
again_booking audit zone x w v none = refl
again_booking audit zone x w v (some b) = elim (Bool-cases (too_long x.reason)) [
  | inl long ↦ rw long refl
  | inr short ↦ rw short (again_kind audit x b w _)
]

again_version :
    (audit : Option Text → ℕ) (zone : Zone) (x : Exempt) (w : Records) (o : Option VersionContent)
    → SameReads w (exempt_version audit zone x w o).1
      × (exempt_version audit zone x (exempt_version audit zone x w o).1 o
          ≡ exempt_version audit zone x w o)
unfolding exempt_version find_by_id
again_version audit zone x w none = (same_all w, refl)
again_version audit zone x w (some v) =
    let b = find_by_id w.bookings x.business_id x.booking_id in
    let same = same_booking audit zone x w v b in
    (same, rw (same.bookings_same) (again_booking audit zone x w v b))

again_owned :
    (audit : Option Text → ℕ) (zone : Zone) (x : Exempt) (w : Records) (r : Result Business)
    → exempt_owned audit zone x (exempt_owned audit zone x w r).1 r ≡ exempt_owned audit zone x w r
unfolding exempt_owned
again_owned audit zone x w (err e) = refl
again_owned audit zone x w (ok b) =
    let v = get_version w.ledger x.business_id x.version_id in
    let (same, again) = again_version audit zone x w v in rw (same.contents_same) again

-- A second, identical call of recordScheduleException answers what the first one answered and changes
-- nothing more: neither a second exception nor a second row in the booking's history.
pub record_schedule_exception_idem :
    (audit : Option Text → ℕ) (zone : Zone) (businesses : List Business) (x : Exempt) (w : Records)
    → record_schedule_exception audit zone businesses x
        (record_schedule_exception audit zone businesses x w).1
      ≡ record_schedule_exception audit zone businesses x w
unfolding record_schedule_exception
record_schedule_exception_idem audit zone businesses x w =
    again_owned audit zone (record x { reason = trimmed x.reason }) w
      (require_owned_business businesses x.actor x.business_id)
