-- ===== src/Schedules/Excused.antt =====
-- An exception takes its booking off the list of open conflicts.
use werefa.Versions.{VersionRow}
use werefa.Schedules.Promotion.{same_number}
use werefa.Schedules.Saving.{get_active_version, content_of, newest_active}
use werefa.Schedules.{ConflictKind, schedule_conflict_reason}
use werefa.Tenant.{Business, require_owned_business}
use werefa.Subscriptions.{VersionContent, ScheduleException, Ledger}
use werefa.DaySlots.{Zone}
use werefa.Store.{Text, Booking}
use werefa.Prelude.{
  ℕ, ◌≡◌, refl, true, false, none, some, Option, List, arith, Bool-cases, inl, inr, any, Bool, ◌==◌,
  find_first, ◌∷◌, [], any-find_first, subst, ◌∙◌, ap, if◌then◌else◌,
}
use werefa.Errors.{Result, ok, err, is_ok}
use werefa.Schedules.Exceptions.{
  Exempt, Records, exempt_tx, exempt_checked, exempt_booking, exempt_version, exempt_owned,
  OpenConflict, conflicts_of, record_schedule_exception, is_exception_of, list_open_conflicts,
  conflicts_under, too_long, trimmed, listed,
}

-- The tables have the exception of the call, and the versions as they were.
record IsExcused (x : Exempt) (w next : Records) : Type 0 where
  recorded : any (is_exception_of x.booking_id x.version_id) next.ledger.exceptions ≡ true
  versions_same : next.ledger.versions ≡ w.ledger.versions
  contents_same : next.ledger.contents ≡ w.ledger.contents

exempt_tx-IsExcused :
    (audit : Option Text → ℕ) (x : Exempt) (b : Booking) (w : Records)
    (o : Option ScheduleException)
    → find_first (is_exception_of x.booking_id x.version_id) w.ledger.exceptions ≡ o
    → IsExcused x w (exempt_tx audit x b w o).1
unfolding exempt_tx
exempt_tx-IsExcused audit x b w none e = record {
  recorded = rw (same_number x.booking_id) (rw (same_number x.version_id) refl);
  versions_same = refl;
  contents_same = refl;
}
exempt_tx-IsExcused audit x b w (some old) e = record {
  recorded = any-find_first (is_exception_of x.booking_id x.version_id) w.ledger.exceptions e;
  versions_same = refl;
  contents_same = refl;
}

exempt_checked-IsExcused :
    (audit : Option Text → ℕ) (x : Exempt) (b : Booking) (w : Records) (k : Option ConflictKind)
    → is_ok (exempt_checked audit x b w k).0 ≡ true
    → IsExcused x w (exempt_checked audit x b w k).1
unfolding is_ok exempt_checked
exempt_checked-IsExcused audit x b w none h = cc
exempt_checked-IsExcused audit x b w (some kind) h = exempt_tx-IsExcused audit x b w _ refl

exempt_booking-IsExcused :
    (audit : Option Text → ℕ) (zone : Zone) (x : Exempt) (w : Records) (v : VersionContent)
    (o : Option Booking)
    → is_ok (exempt_booking audit zone x w v o).0 ≡ true
    → IsExcused x w (exempt_booking audit zone x w v o).1
unfolding is_ok exempt_booking
exempt_booking-IsExcused audit zone x w v none h = cc
exempt_booking-IsExcused audit zone x w v (some b) h = elim (Bool-cases (too_long x.reason)) [
  | inl long ↦ ground (arith, h, long)
  | inr short ↦ rw short (exempt_checked-IsExcused audit x b w _ (ground (arith, h, short)))
]

exempt_version-IsExcused :
    (audit : Option Text → ℕ) (zone : Zone) (x : Exempt) (w : Records) (o : Option VersionContent)
    → is_ok (exempt_version audit zone x w o).0 ≡ true
    → IsExcused x w (exempt_version audit zone x w o).1
unfolding is_ok exempt_version
exempt_version-IsExcused audit zone x w none h = cc
exempt_version-IsExcused audit zone x w (some v) h = exempt_booking-IsExcused audit zone x w v _ h

exempt_owned-IsExcused :
    (audit : Option Text → ℕ) (zone : Zone) (x : Exempt) (w : Records) (r : Result Business)
    → is_ok (exempt_owned audit zone x w r).0 ≡ true
    → IsExcused x w (exempt_owned audit zone x w r).1
unfolding is_ok exempt_owned
exempt_owned-IsExcused audit zone x w (err e) h = cc
exempt_owned-IsExcused audit zone x w (ok b) h = exempt_version-IsExcused audit zone x w _ h

abbrev pub about : ℕ → OpenConflict → Bool
about id c = Booking.id c.booking == id

listed_other :
    (excused : Bool) (id : ℕ) (b : Booking) (k : Option ConflictKind) (rest : List OpenConflict)
    → (b.id == id) ≡ false
    → any (about id) (if excused then rest else listed b k rest) ≡ any (about id) rest
listed_other true id b k rest h = refl
listed_other false id b none rest h = refl
listed_other false id b (some kind) rest h = rw h refl

skipped :
    (zone : Zone) (v : VersionContent) (exceptions : List ScheduleException) (id : ℕ)
    (bs : List Booking)
    → any (is_exception_of id v.version_id) exceptions ≡ true
    → any (about id) (conflicts_of zone v exceptions bs) ≡ false
unfolding conflicts_of
skipped zone v exceptions id [] h = refl
skipped zone v exceptions id (b ∷ bs) h = elim (Bool-cases (b.id == id)) [
  | inl same ↦
      let eq : id ≡ b.id = ground (arith, same) in
      rw (subst (λ k. any (is_exception_of k v.version_id) exceptions ≡ true) eq h)
        (skipped zone v exceptions id bs h)
  | inr other ↦
      listed_other (any (is_exception_of b.id v.version_id) exceptions) id b
        (schedule_conflict_reason zone v.template b.start_at b.end_at)
        (conflicts_of zone v exceptions bs) other
      ∙ skipped zone v exceptions id bs h
]

content_of_same :
    (a b : Ledger) (o : Option VersionRow)
    → a.contents ≡ b.contents
    → content_of a o ≡ content_of b o
unfolding content_of
content_of_same a b none e = refl
content_of_same a b (some v) e = rw e refl

active_same :
    (a b : Ledger) (n : ℕ)
    → a.versions ≡ b.versions
    → a.contents ≡ b.contents
    → get_active_version a n ≡ get_active_version b n
unfolding get_active_version
active_same a b n v c =
    ap (λ vs. content_of a (newest_active n none vs)) v ∙ content_of_same a b _ c

-- Once an exception was recorded for the version in force, its booking is no open conflict any more.
pub recorded_not_open :
    (audit : Option Text → ℕ) (zone : Zone) (businesses : List Business) (x : Exempt) (w : Records)
    (n : ℕ) (v : VersionContent)
    → is_ok (record_schedule_exception audit zone businesses x w).0 ≡ true
    → get_active_version w.ledger n ≡ some v
    → v.version_id ≡ x.version_id
    → any
        (about x.booking_id)
        (list_open_conflicts zone (record_schedule_exception audit zone businesses x w).1 n)
      ≡ false
unfolding record_schedule_exception list_open_conflicts conflicts_under
recorded_not_open audit zone businesses x w n v h active_ same =
    let s =
      exempt_owned-IsExcused audit zone (record x { reason = trimmed x.reason }) w
        (require_owned_business businesses x.actor x.business_id) h in
    rw
      (active_same
          (exempt_owned audit zone (record x { reason = trimmed x.reason }) w
            (require_owned_business businesses x.actor x.business_id)).1.ledger
          w.ledger n s.versions_same s.contents_same
        ∙ active_)
      (skipped zone v (record_schedule_exception audit zone businesses x w).1.ledger.exceptions
        x.booking_id _ (rw same (s.recorded)))
