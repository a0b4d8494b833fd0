-- ===== src/Store/Bookings.antt =====
-- backend/src/domain/repositories/prisma-booking.repository.ts. A guarded update that matches no row
-- returns `none` for the source's `false`.
use werefa.Prelude.{
  ℕ, suc, Bool, true, false, not, ◌&&◌, ◌||◌, Option, none, some, List, ◌∷◌, ltb, ◌==◌,
  if◌then◌else◌, find_first, any, update_many, count_where,
}
use werefa.Errors.{Result, ok, err, p2002_submission_key, p2002_slot_lock}
use werefa.Store.{
  BookingState, payment_pending, locked, allocated, released, PaymentMethod, pending, ActorType,
  customer, ComponentSnapshot, Booking, Payment, PaymentProof, SlotLock, Db, is_active, is_held,
  booking_state_is,
}

pub record CreateBookingArgs : Type 0 where
  pub business_id : ℕ
  pub customer_name : ℕ
  pub customer_phone : ℕ
  pub note : Option ℕ
  pub start_at : ℕ
  pub end_at : ℕ
  pub slot_date : ℕ
  pub payment_method : PaymentMethod
  pub prepaid_minor : ℕ
  pub submission_key : ℕ
  pub proof_file_object_id : Option ℕ
  pub components : List ComponentSnapshot

-- The unique index `payment_proof_submission_key_key`.
abbrev pub key_taken : ℕ → Db → Bool
key_taken key db = any (λ (p : PaymentProof). p.submission_key == key) db.proofs

-- The partial unique index `uq_slot_lock_active`.
abbrev pub slot_taken : ℕ → ℕ → ℕ → Db → Bool
slot_taken business_id slot_date start_at db =
    any
      (λ (l : SlotLock).
        is_held l.state
        && (l.business_id == business_id && (l.slot_date == slot_date && l.start_at == start_at)))
      db.slot_locks

abbrev pub new_booking : Db → CreateBookingArgs → Booking
new_booking db args = record {
  id = db.next_booking;
  business_id = args.business_id;
  status = payment_pending;
  customer_name = args.customer_name;
  customer_phone = args.customer_phone;
  note = args.note;
  start_at = args.start_at;
  end_at = args.end_at;
  components = args.components;
}

abbrev new_payment : Db → CreateBookingArgs → Payment
new_payment db args = record {
  id = db.next_payment;
  booking_id = db.next_booking;
  business_id = args.business_id;
  status = pending;
  method = args.payment_method;
  prepaid_minor = args.prepaid_minor;
}

abbrev new_proof : Db → CreateBookingArgs → PaymentProof
new_proof db args = record {
  id = db.next_proof;
  payment_id = db.next_payment;
  business_id = args.business_id;
  submission_key = args.submission_key;
  file_object_id = args.proof_file_object_id;
  replaced_by_proof_id = none;
}

abbrev pub new_lock : Db → CreateBookingArgs → SlotLock
new_lock db args = record {
  business_id = args.business_id;
  booking_id = db.next_booking;
  slot_date = args.slot_date;
  start_at = args.start_at;
  end_at = args.end_at;
  state = locked;
  released_by = none;
}

-- The rows of one `booking.create` with its nested creates.
unfoldable pub insert_booking : Db → CreateBookingArgs → Db
insert_booking db args = record db {
  bookings = new_booking db args ∷ db.bookings;
  payments = new_payment db args ∷ db.payments;
  proofs = new_proof db args ∷ db.proofs;
  slot_locks = new_lock db args ∷ db.slot_locks;
  booking_history =
      record {
        booking_id = db.next_booking;
        business_id = args.business_id;
        from_status = none;
        to_status = payment_pending;
        actor_type = customer;
        actor_user_id = none;
        reason = none;
      }
      ∷ db.booking_history;
  payment_history =
      record {
        payment_id = db.next_payment;
        business_id = args.business_id;
        from_status = none;
        to_status = pending;
        actor_type = customer;
        actor_user_id = none;
        reason = none;
      }
      ∷ db.payment_history;
  next_booking = suc db.next_booking;
  next_payment = suc db.next_payment;
  next_proof = suc db.next_proof;
}

-- `createBooking`: the new booking's id, or the unique index that refuses the rows.
unfoldable pub create_booking : Db → CreateBookingArgs → Result (ℕ × Db)
create_booking db args =
    if key_taken args.submission_key db
    then err p2002_submission_key
    else if slot_taken args.business_id args.slot_date args.start_at db
    then err p2002_slot_lock
    else ok (db.next_booking, insert_booking db args)

abbrev pub is_row : ℕ → ℕ → Booking → Bool
is_row business_id id b = b.id == id && b.business_id == business_id

unfoldable pub find_by_id : Db → ℕ → ℕ → Option Booking
find_by_id db business_id id = find_first (is_row business_id id) db.bookings

-- The `payment` relation of a booking.
abbrev pub payment_of : Db → ℕ → Option Payment
payment_of db booking_id = find_first (λ (p : Payment). p.booking_id == booking_id) db.payments

-- `id: check.excludeBookingId ? { not: … } : undefined`
abbrev is_excluded : Option ℕ → ℕ → Bool
is_excluded none id = false
is_excluded (some x) id = not (x == 0) && x == id

abbrev booking_overlaps : ℕ → ℕ → ℕ → Option ℕ → Booking → Bool
booking_overlaps business_id start_at end_at exclude b =
    b.business_id == business_id
    && (ltb b.start_at end_at
        && (ltb start_at b.end_at && (is_active b.status && not (is_excluded exclude b.id))))

abbrev pub lock_overlaps : ℕ → ℕ → ℕ → SlotLock → Bool
lock_overlaps business_id start_at end_at l =
    l.business_id == business_id
    && (ltb l.start_at end_at && (ltb start_at l.end_at && is_held l.state))

-- An active booking or an active slot lock overlaps the window.
unfoldable pub has_active_overlap : Db → ℕ → ℕ → ℕ → Option ℕ → Bool
has_active_overlap db business_id start_at end_at exclude =
    ltb 0 (count_where (booking_overlaps business_id start_at end_at exclude) db.bookings)
    || ltb 0 (count_where (lock_overlaps business_id start_at end_at) db.slot_locks)

pub record TransitionArgs : Type 0 where
  pub booking_id : ℕ
  pub business_id : ℕ
  pub from : BookingState
  pub to : BookingState
  pub actor_type : ActorType
  pub actor_user_id : Option ℕ
  pub reason : Option ℕ

abbrev pub matches_transition : TransitionArgs → Booking → Bool
matches_transition a b = is_row a.business_id a.booking_id b && booking_state_is b.status a.from

abbrev pub set_status : BookingState → Booking → Booking
set_status to b = record b { status = to }

-- `transitionStatus`, with the history row of `appendStatusHistory`.
unfoldable pub transition_status : Db → TransitionArgs → Option Db
transition_status db a =
    if count_where (matches_transition a) db.bookings == 1
    then some (record db {
      bookings = update_many (matches_transition a) (set_status a.to) db.bookings;
      booking_history =
          record {
            booking_id = a.booking_id;
            business_id = a.business_id;
            from_status = some a.from;
            to_status = a.to;
            actor_type = a.actor_type;
            actor_user_id = a.actor_user_id;
            reason = a.reason;
          }
          ∷ db.booking_history;
    })
    else none

abbrev pub set_times : ℕ → ℕ → Booking → Booking
set_times start_at end_at b = record b { start_at = start_at; end_at = end_at }

unfoldable pub change_times : Db → ℕ → ℕ → ℕ → ℕ → Option Db
change_times db business_id booking_id start_at end_at =
    if count_where (is_row business_id booking_id) db.bookings == 1
    then some (record db {
      bookings =
          update_many (is_row business_id booking_id) (set_times start_at end_at) db.bookings;
    })
    else none

-- `createSlotLock`, refused by the partial unique index.
unfoldable pub create_slot_lock : Db → SlotLock → Result Db
create_slot_lock db l =
    if is_held l.state && slot_taken l.business_id l.slot_date l.start_at db
    then err p2002_slot_lock
    else ok (record db { slot_locks = l ∷ db.slot_locks })

abbrev pub is_held_by : ℕ → ℕ → SlotLock → Bool
is_held_by business_id booking_id l =
    l.business_id == business_id && (l.booking_id == booking_id && is_held l.state)

abbrev pub release : Option ℕ → SlotLock → SlotLock
release by l = record l { state = released; released_by = by }

unfoldable pub release_slot_lock : Db → ℕ → ℕ → Option ℕ → Db
release_slot_lock db business_id booking_id released_by = record db {
  slot_locks = update_many (is_held_by business_id booking_id) (release released_by) db.slot_locks;
}

abbrev pub is_locked_by : ℕ → ℕ → SlotLock → Bool
is_locked_by business_id booking_id l =
    l.business_id == business_id
    && (l.booking_id == booking_id
        && elim l.state [ locked ↦ true | allocated ↦ false | released ↦ false ])

abbrev pub allocate : SlotLock → SlotLock
allocate l = record l { state = allocated }

unfoldable pub allocate_slot_locks : Db → ℕ → ℕ → Db
allocate_slot_locks db business_id booking_id = record db {
  slot_locks = update_many (is_locked_by business_id booking_id) allocate db.slot_locks;
}
