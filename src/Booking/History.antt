-- ===== src/Booking/History.antt =====
-- The histories of the booking tables: any interleaving of the services' transactions, each with any
-- arguments, since what a service reads before its transaction may be out of date inside it. The
-- one restriction is on `releaseSlot`: it stands here for CANCELLED bookings alone.
use werefa.Prelude.{
  ℕ, ◌≡◌, refl, sym, subst, ◌≢◌, Bool, true, false, Option, Memᴰ, List, [], ◌∷◌, arith, any,
  update_many,
}
use werefa.Errors.{ok}
use werefa.Store.{Booking, SlotLock, Db, empty_db, BookingState, is_active, rejected, cancelled}
use werefa.Store.Bookings.{release_slot_lock, is_held_by, release}
use werefa.Booking.Transactions.{
  Action, accept_tx, reject_tx, cancel_tx, no_show_tx, release_tx, reschedule_tx, complete_tx,
  Resubmission, resubmit_tx, Ensures-ok,
}
use werefa.Booking.Slots.{IsConsistent, covers, windows_overlap, no_double_booking}
use werefa.Booking.Invariant.{
  accept_tx-IsConsistent, reject_tx-IsConsistent, cancel_tx-IsConsistent, no_show_tx-IsConsistent,
  complete_tx-IsConsistent, release_slot_lock-IsConsistent,
}
use werefa.Booking.Moves.{reschedule_tx-IsConsistent}
use werefa.Booking.Reopened.{resubmit_tx-IsConsistent}
use werefa.Booking.Idempotency.{CommitRef}
use werefa.Booking.Claiming.{Claim, claim_tx}
use werefa.Booking.Reach.{claim_tx-IsConsistent}

-- One committed transaction.
pub data Step (db db' : Db) : Type 0 where
  claimed : (c : Claim) (ref : CommitRef) → claim_tx c db ≡ ok (ref, db') → Step db db'
  proof_accepted : (a : Action) (payment : ℕ) → accept_tx a payment db ≡ ok db' → Step db db'
  proof_rejected :
      (a : Action) (payment reason : ℕ) → reject_tx a payment reason db ≡ ok db' → Step db db'
  was_cancelled :
      (a : Action) (current : BookingState) (releases : Bool)
      → cancel_tx a current releases db ≡ ok db'
      → Step db db'
  marked_no_show : (a : Action) → no_show_tx a db ≡ ok db' → Step db db'
  rescheduled : (a : Action) (day s e : ℕ) → reschedule_tx a day s e db ≡ ok db' → Step db db'
  completed_due : (a : Action) → db' ≡ (complete_tx a db).1 → Step db db'
  resubmitted :
      (a : Action) (r : Resubmission) (reason : ℕ)
      → resubmit_tx a r reason db ≡ ok db'
      → Step db db'
  cancelled_released :
      (a : Action)
      → ((b : Booking)
          → Memᴰ b db.bookings
          → b.business_id ≡ a.business_id
          → b.id ≡ a.booking_id
          → b.status ≡ cancelled)
      → release_tx a db ≡ ok db'
      → Step db db'

pub data History : Db → Type 0 where
  start : {db : Db} → db ≡ empty_db → History db
  next : {db db' : Db} → History db → Step db db' → History db'

release_cancelled-IsConsistent :
    (a : Action) (db db' : Db)
    → IsConsistent db
    → ((b : Booking)
        → Memᴰ b db.bookings
        → b.business_id ≡ a.business_id
        → b.id ≡ a.booking_id
        → b.status ≡ cancelled)
    → release_tx a db ≡ ok db'
    → IsConsistent db'
unfolding release_tx
release_cancelled-IsConsistent a db db' v gone h = subst IsConsistent (ground (arith, h)) (
    release_slot_lock-IsConsistent db a.business_id a.booking_id a.actor_user_id
      (λ b m same id. rw (gone b m same id) refl) v)

-- Every committed transaction preserves the slot discipline: a booking that keeps its slot holds a lock
-- on its window, held locks of different bookings of one business do not overlap, and booking ids are
-- unique and below the next one.
pub Step-IsConsistent : {db db' : Db} → Step db db' → IsConsistent db → IsConsistent db'
Step-IsConsistent {db} (claimed c ref h) v = Ensures-ok (claim_tx-IsConsistent c db v) h
Step-IsConsistent {db} (proof_accepted a p h) v = Ensures-ok (accept_tx-IsConsistent a p db v) h
Step-IsConsistent {db} (proof_rejected a p r h) v = Ensures-ok (reject_tx-IsConsistent a p r db v) h
Step-IsConsistent {db} (was_cancelled a s r h) v = Ensures-ok (cancel_tx-IsConsistent a s r db v) h
Step-IsConsistent {db} (marked_no_show a h) v = Ensures-ok (no_show_tx-IsConsistent a db v) h
Step-IsConsistent {db} (rescheduled a d s e h) v =
    Ensures-ok (reschedule_tx-IsConsistent a d s e db v) h
Step-IsConsistent {db} (completed_due a h) v =
    subst IsConsistent (sym h) (complete_tx-IsConsistent a db v)
Step-IsConsistent {db} (resubmitted a r reason h) v =
    Ensures-ok (resubmit_tx-IsConsistent a r reason db v) h
Step-IsConsistent {db} {db'} (cancelled_released a gone h) v =
    release_cancelled-IsConsistent a db db' v gone h

pub empty-IsConsistent : IsConsistent empty_db
empty-IsConsistent = record {
  kept = λ b m. elim m [ ];
  apart = λ l m ml. elim ml [ ];
  unique = λ b c m. elim m [ ];
  fresh = λ b m. elim m [ ];
}

-- Every history keeps the slot discipline.
History-IsConsistent : {db : Db} → History db → IsConsistent db
History-IsConsistent (start e) = subst IsConsistent (sym e) empty-IsConsistent
History-IsConsistent (next r s) = Step-IsConsistent s (History-IsConsistent r)

-- However the transactions of the services are interleaved, two different bookings of one business
-- that wait for payment or are confirmed never overlap, provided that `releaseSlot` frees the slots
-- of cancelled bookings only.
pub History-never_double_books :
    {db : Db} (h : History db) (b c : Booking)
    → Memᴰ b db.bookings
    → Memᴰ c db.bookings
    → is_active b.status ≡ true
    → is_active c.status ≡ true
    → b.business_id ≡ c.business_id
    → b.id ≢ c.id
    → windows_overlap b.start_at b.end_at c.start_at c.end_at ≡ false
History-never_double_books {db} h b c = no_double_booking db b c (History-IsConsistent h)

-- A released lock covers no booking, so its own booking is covered by none.
released_uncovered :
    (b : Booking) (by : Option ℕ) (locks : List SlotLock)
    → any (covers b) (update_many (is_held_by b.business_id b.id) (release by) locks) ≡ false
unfolding update_many
released_uncovered b by [] = refl
released_uncovered b by (l ∷ locks) = ground (arith, released_uncovered b by locks)

-- Releasing the slot of a REJECTED booking, which `releaseSlot` allows, breaks the slot discipline in
-- every database that holds the booking: it keeps its slot in every consistent one.
pub release_rejected_breaks :
    (db : Db) (b : Booking) (by : Option ℕ)
    → Memᴰ b db.bookings
    → b.status ≡ rejected
    → ¬ IsConsistent (release_slot_lock db b.business_id b.id by)
unfolding release_slot_lock
release_rejected_breaks db b by m s v =
    let t = v.kept b m (rw s refl) in let f = released_uncovered b by db.slot_locks in cc
