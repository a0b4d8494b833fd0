-- ===== src/Booking/Invariant.antt =====
-- Every transaction of the booking and resubmission services keeps the slot discipline.
use werefa.Prelude.{
  ℕ, ◌≡◌, refl, Bool, true, false, Option, none, some, Memᴰ, arith, update_many, count_where, inl,
  inr, Option-cases,
}
use werefa.Errors.{invalid_booking_state, invalid_payment_state}
use werefa.Store.{
  Booking, Db, BookingState, pending, accepted, declined, payment_pending, confirmed, rejected,
  cancelled, no_show, completed,
}
use werefa.Store.Bookings.{
  TransitionArgs, matches_transition, set_status, transition_status, release_slot_lock,
  allocate_slot_locks,
}
use werefa.Store.Payments.{PaymentTransition, transition_payment}
use werefa.Booking.Transactions.{
  Action, moving, paying, accept_tx, reject_tx, cancel_tx, no_show_tx, complete_tx, Ensures,
  returns, bind, thrown,
}
use werefa.Booking.Slots.{keeps_slot, IsConsistent}
use werefa.Booking.Changes.{
  Apart-release, Apart-allocate, Kept-release, Kept-allocate, UniqueIds-update, FreshIds-update,
  Kept-transition, transition-status,
}

-- The tables that the slot discipline reads are the same.
pub record SameSlots (db db' : Db) : Type 0 where
  pub bookings : db'.bookings ≡ db.bookings
  pub slot_locks : db'.slot_locks ≡ db.slot_locks
  pub next_booking : db'.next_booking ≡ db.next_booking

pub SameSlots-IsConsistent : {db db' : Db} → SameSlots db db' → IsConsistent db → IsConsistent db'
SameSlots-IsConsistent same v = record {
  kept = rw (same.bookings, same.slot_locks) v.kept;
  apart = rw same.slot_locks v.apart;
  unique = rw same.bookings v.unique;
  fresh = rw (same.bookings, same.next_booking) v.fresh;
}

pub transition_payment-SameSlots :
    (db db' : Db) (a : PaymentTransition) → transition_payment db a ≡ some db' → SameSlots db db'
unfolding transition_payment
transition_payment-SameSlots db db' a h = ground arith

module _ (db db' : Db) (a : TransitionArgs) (v : IsConsistent db)
    (moved : transition_status db a ≡ some db') where
  moved-count : count_where (matches_transition a) db.bookings ≡ 1
  unfolding transition_status
  moved-count = ground (arith, moved)

  moved-bookings : db'.bookings ≡ update_many (matches_transition a) (set_status a.to) db.bookings
  unfolding transition_status
  moved-bookings = ground (arith, moved)

  moved-slot_locks : db'.slot_locks ≡ db.slot_locks
  unfolding transition_status
  moved-slot_locks = ground (arith, moved)

  moved-next : db'.next_booking ≡ db.next_booking
  unfolding transition_status
  moved-next = ground (arith, moved)

  -- A transition into a status that keeps the slot comes from one that keeps it.
  pub transition_status-IsConsistent :
      (keeps_slot a.to ≡ true → keeps_slot a.from ≡ true) → IsConsistent db'
  transition_status-IsConsistent mono = record {
    kept =
        rw (moved-bookings, moved-slot_locks)
          (Kept-transition a db.bookings db.slot_locks mono v.kept);
    apart = rw moved-slot_locks v.apart;
    unique = rw moved-bookings (UniqueIds-update _ _ (λ b. refl) db.bookings v.unique);
    fresh =
        rw (moved-bookings, moved-next)
          (FreshIds-update _ _ (λ b. refl) db.next_booking db.bookings v.fresh);
  }

  pub transition_status-status :
      (b : Booking) → Memᴰ b db'.bookings → b.id ≡ a.booking_id → b.status ≡ a.to
  transition_status-status b m id =
      transition-status a db.bookings v.unique moved-count b (rw moved-bookings at m) id

-- A release keeps the discipline if the booking keeps no slot.
pub release_slot_lock-IsConsistent :
    (db : Db) (business_id booking_id : ℕ) (by : Option ℕ)
    → ((b : Booking)
        → Memᴰ b db.bookings
        → b.business_id ≡ business_id
        → b.id ≡ booking_id
        → keeps_slot b.status ≡ false)
    → IsConsistent db
    → IsConsistent (release_slot_lock db business_id booking_id by)
unfolding release_slot_lock
release_slot_lock-IsConsistent db business_id booking_id by gone v = record {
  kept = Kept-release business_id booking_id by db.bookings db.slot_locks gone v.kept;
  apart = Apart-release business_id booking_id by db.slot_locks v.apart;
  unique = v.unique;
  fresh = v.fresh;
}

allocate_slot_locks-IsConsistent :
    (db : Db) (business_id booking_id : ℕ)
    → IsConsistent db
    → IsConsistent (allocate_slot_locks db business_id booking_id)
unfolding allocate_slot_locks
allocate_slot_locks-IsConsistent db business_id booking_id v = record {
  kept = Kept-allocate business_id booking_id db.bookings db.slot_locks v.kept;
  apart = Apart-allocate business_id booking_id db.slot_locks v.apart;
  unique = v.unique;
  fresh = v.fresh;
}

pub accept_tx-IsConsistent :
    (a : Action) (payment_id : ℕ) (db : Db)
    → IsConsistent db
    → Ensures IsConsistent (accept_tx a payment_id db)
unfolding accept_tx
accept_tx-IsConsistent a payment_id db v =
    let pay = paying a payment_id pending accepted none in
    let move = moving a payment_pending confirmed none in
    bind
      (thrown (transition_payment db pay) invalid_payment_state
        λ paid e. SameSlots-IsConsistent (transition_payment-SameSlots db paid pay e) v)
      λ paid v'.
        bind
          (thrown (transition_status paid move) invalid_booking_state
            λ moved e. transition_status-IsConsistent paid moved move v' e (λ k. refl))
          λ moved v''.
            returns (allocate_slot_locks-IsConsistent moved a.business_id a.booking_id v'')

pub reject_tx-IsConsistent :
    (a : Action) (payment_id reason : ℕ) (db : Db)
    → IsConsistent db
    → Ensures IsConsistent (reject_tx a payment_id reason db)
unfolding reject_tx
reject_tx-IsConsistent a payment_id reason db v =
    let pay = paying a payment_id pending declined (some reason) in
    let move = moving a payment_pending rejected (some reason) in
    bind
      (thrown (transition_payment db pay) invalid_payment_state
        λ paid e. SameSlots-IsConsistent (transition_payment-SameSlots db paid pay e) v)
      λ paid v'.
        thrown (transition_status paid move) invalid_booking_state
          λ moved e. transition_status-IsConsistent paid moved move v' e (λ k. refl)

-- A transition into a status that keeps no slot, and the release of the slot after it.
module _ (a : Action) (from to : BookingState) (reason : Option ℕ) (ends : keeps_slot to ≡ false)
    (db moved : Db) (v : IsConsistent db)
    (e : transition_status db (moving a from to reason) ≡ some moved) where
  pub ended-IsConsistent : IsConsistent moved
  ended-IsConsistent =
      transition_status-IsConsistent db moved (moving a from to reason) v e (λ k. cc)

  pub ended-release-IsConsistent :
      (by : Option ℕ) → IsConsistent (release_slot_lock moved a.business_id a.booking_id by)
  ended-release-IsConsistent by =
      release_slot_lock-IsConsistent moved a.business_id a.booking_id by
        (λ b m _ id.
          let s = transition_status-status db moved (moving a from to reason) v e b m id in
          rw s ends)
        ended-IsConsistent

pub cancel_tx-IsConsistent :
    (a : Action) (current : BookingState) (releases : Bool) (db : Db)
    → IsConsistent db
    → Ensures IsConsistent (cancel_tx a current releases db)
unfolding cancel_tx
cancel_tx-IsConsistent a current true db v =
    bind
      (thrown (transition_status db (moving a current cancelled none)) invalid_booking_state
        λ m e. ended-release-IsConsistent a current cancelled none refl db m v e a.actor_user_id)
      λ m v'. returns v'
cancel_tx-IsConsistent a current false db v =
    bind
      (thrown (transition_status db (moving a current cancelled none)) invalid_booking_state
        λ m e. ended-IsConsistent a current cancelled none refl db m v e)
      λ m v'. returns v'

pub no_show_tx-IsConsistent :
    (a : Action) (db : Db) → IsConsistent db → Ensures IsConsistent (no_show_tx a db)
unfolding no_show_tx
no_show_tx-IsConsistent a db v =
    bind
      (thrown (transition_status db (moving a confirmed no_show none)) invalid_booking_state
        λ m e. ended-release-IsConsistent a confirmed no_show none refl db m v e a.actor_user_id)
      λ m v'. returns v'

pub complete_tx-IsConsistent :
    (a : Action) (db : Db) → IsConsistent db → IsConsistent (complete_tx a db).1
unfolding complete_tx
complete_tx-IsConsistent a db v =
    elim (Option-cases (transition_status db (moving a confirmed completed none))) [
      | inl e ↦ rw (e, complete_tx) v
      | inr (m, e) ↦
          rw (e, complete_tx)
            (ended-release-IsConsistent a confirmed completed none refl db m v e none)
    ]
