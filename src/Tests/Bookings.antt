-- ===== src/Tests/Bookings.antt =====
-- Two customers ask for one window of a business.
use werefa.Prelude.{
  ℕ, ◌≡◌, refl, sym, subst, Bool, true, false, none, some, List, [], ◌∷◌, Memᴰ, arith, update_many,
}
use werefa.Errors.{Result, ok, err, unavailable_appointment}
use werefa.Store.{Booking, Db, empty_db, payment_pending, rejected, owner, customer, is_active}
use werefa.Store.Bookings.{
  create_booking, insert_booking, has_active_overlap, transition_status, release_slot_lock,
}
use werefa.Store.Payments.{
  find_by_submission_key, transition_payment, create_file, add_proof, mark_proof_replaced,
}
use werefa.Booking.Transactions.{Action, reject_tx, Resubmission, resubmit_tx}
use werefa.Booking.Slots.{IsConsistent, windows_overlap}
use werefa.Booking.Claiming.{Claim, claim_tx, booking_args}
use werefa.Booking.History.{
  History, start, next, claimed, proof_rejected, Step-IsConsistent, empty-IsConsistent,
  History-never_double_books,
}

abbrev claim_at : ℕ → ℕ → ℕ → Claim
claim_at key from to = record {
  business_id = 1;
  input = record {
    business_slug = 1;
    selections = [];
    customer_name = 10;
    customer_phone = key;
    note = none;
    start_at = from;
    submission_key = key;
    payment_method = none;
    proof = none;
  };
  start_at = from;
  end_at = to;
  slot_date = 0;
  prepaid = 0;
  components = [];
  staged = none;
}

abbrev by_owner : ℕ → Action
by_owner booking_id = record {
  business_id = 1;
  booking_id = booking_id;
  actor_type = owner;
  actor_user_id = some 5;
}

abbrev by_customer : ℕ → Action
by_customer booking_id = record {
  business_id = 1;
  booking_id = booking_id;
  actor_type = customer;
  actor_user_id = none;
}

abbrev pub one_booking : Db
one_booking = insert_booking empty_db (booking_args (claim_at 7 3600000 7200000) none)

first_claim :
    claim_tx (claim_at 7 3600000 7200000) empty_db
    ≡ ok (record { booking_id = 1; customer_phone = 7 }, one_booking)
unfolding claim_tx find_by_submission_key has_active_overlap create_booking
first_claim = refl

-- The window is taken while the first booking lives.
second_claim : claim_tx (claim_at 8 5400000 9000000) one_booking ≡ err unavailable_appointment
unfolding claim_tx find_by_submission_key has_active_overlap insert_booking
second_claim = refl

abbrev pub two_bookings : Db
two_bookings = insert_booking one_booking (booking_args (claim_at 8 7200000 9000000) none)

later_claim :
    claim_tx (claim_at 8 7200000 9000000) one_booking
    ≡ ok (record { booking_id = 2; customer_phone = 8 }, two_bookings)
unfolding claim_tx find_by_submission_key has_active_overlap create_booking insert_booking
later_claim = refl

pub two_claims : History two_bookings
two_claims =
    next (next (start refl) (claimed (claim_at 7 3600000 7200000) _ first_claim))
      (claimed (claim_at 8 7200000 9000000) _ later_claim)

abbrev first_booking : Booking
first_booking = record {
  id = 1;
  business_id = 1;
  status = payment_pending;
  customer_name = 10;
  customer_phone = 7;
  note = none;
  start_at = 3600000;
  end_at = 7200000;
  components = [];
}

abbrev second_booking : Booking
second_booking = record first_booking {
  id = 2;
  customer_phone = 8;
  start_at = 7200000;
  end_at = 9000000;
}

two_rows : two_bookings.bookings ≡ second_booking ∷ first_booking ∷ []
unfolding insert_booking
two_rows = refl

History-never_double_books_example : windows_overlap 3600000 7200000 7200000 9000000 ≡ false
History-never_double_books_example =
    History-never_double_books two_claims first_booking second_booking
      (subst (Memᴰ first_booking) (sym two_rows) (Memᴰ.tail (Memᴰ.head refl)))
      (subst (Memᴰ second_booking) (sym two_rows) (Memᴰ.head refl)) refl refl refl (omega arith)

Step-IsConsistent_example : IsConsistent one_booking
Step-IsConsistent_example =
    Step-IsConsistent (claimed (claim_at 7 3600000 7200000) _ first_claim) empty-IsConsistent

-- The first booking is rejected, its slot released, claimed again under another key, and the first
-- booking is resubmitted: both wait for payment on one window.
abbrev resubmission : Resubmission
resubmission = record {
  payment_id = 1;
  latest_proof_id = 1;
  submission_key = 9;
  storage_key = 1;
  size_bytes = 100;
}

abbrev after : Result Db → Db
after (ok db) = db
after (err e) = empty_db

abbrev pub rejected_db : Db
rejected_db = after (reject_tx (by_owner 1) 1 3 one_booking)

rejection : reject_tx (by_owner 1) 1 3 one_booking ≡ ok rejected_db
unfolding reject_tx transition_payment transition_status insert_booking
rejection = refl

pub declined_claim : History rejected_db
declined_claim =
    next (next (start refl) (claimed (claim_at 7 3600000 7200000) _ first_claim))
      (proof_rejected (by_owner 1) 1 3 rejection)

abbrev released_db : Db
released_db = release_slot_lock rejected_db 1 1 (some 5)

abbrev reclaimed_db : Db
reclaimed_db = insert_booking released_db (booking_args (claim_at 8 3600000 7200000) none)

reclaimed :
    claim_tx (claim_at 8 3600000 7200000) released_db
    ≡ ok (record { booking_id = 2; customer_phone = 8 }, reclaimed_db)
unfolding claim_tx reject_tx transition_payment transition_status insert_booking release_slot_lock
    find_by_submission_key has_active_overlap create_booking update_many
reclaimed = refl

abbrev statuses : List Booking → List (ℕ × ℕ × ℕ × Bool)
statuses [] = []
statuses (b ∷ bs) = (b.id, b.start_at, b.end_at, is_active b.status) ∷ statuses bs

double_booked :
    statuses (after (resubmit_tx (by_customer 1) resubmission 4 reclaimed_db)).bookings
    ≡ (2, 3600000, 7200000, true) ∷ (1, 3600000, 7200000, true) ∷ []
unfolding resubmit_tx reject_tx transition_payment transition_status insert_booking
    release_slot_lock update_many create_file add_proof mark_proof_replaced
double_booked = refl

abbrev pub rejected_booking : Booking
rejected_booking = record first_booking { status = rejected }

pub rejected_row : rejected_db.bookings ≡ rejected_booking ∷ []
unfolding reject_tx transition_payment transition_status insert_booking update_many
rejected_row = refl
