-- ===== src/Booking/Reopened.antt =====
-- The resubmission, which takes a booking out of REJECTED, keeps the slot discipline.
use werefa.Prelude.{ℕ, refl, Option, some}
use werefa.Errors.{invalid_payment_state, invalid_lifecycle_transition}
use werefa.Store.{Db, payment_pending, rejected, pending, declined}
use werefa.Store.Bookings.{key_taken, transition_status}
use werefa.Store.Payments.{transition_payment, create_file, add_proof, mark_proof_replaced}
use werefa.Booking.Transactions.{
  Action, moving, paying, Resubmission, resubmit_tx, Ensures, returns, throws, bind, thrown,
  checked,
}
use werefa.Booking.Slots.{IsConsistent}
use werefa.Booking.Invariant.{
  SameSlots, SameSlots-IsConsistent, transition_payment-SameSlots, transition_status-IsConsistent,
}

pub create_file-SameSlots :
    (db : Db) (business_id key size : ℕ) → SameSlots db (create_file db business_id key size).1
unfolding create_file
create_file-SameSlots db business_id key size = record {
  bookings = refl;
  slot_locks = refl;
  next_booking = refl;
}

add_proof-Ensures :
    (db : Db) (payment_id business_id key : ℕ) (file : Option ℕ)
    → Ensures (λ (r : ℕ × Db). SameSlots db r.1) (add_proof db payment_id business_id key file)
unfolding add_proof
add_proof-Ensures db payment_id business_id key file =
    checked (key_taken key db) (λ _. throws)
      λ _. returns (record { bookings = refl; slot_locks = refl; next_booking = refl })

mark_proof_replaced-SameSlots :
    (db : Db) (proof_id by : ℕ) → SameSlots db (mark_proof_replaced db proof_id by)
unfolding mark_proof_replaced
mark_proof_replaced-SameSlots db proof_id by = record {
  bookings = refl;
  slot_locks = refl;
  next_booking = refl;
}

-- A resubmission takes a REJECTED booking, which keeps its slot, back to PAYMENT_PENDING.
pub resubmit_tx-IsConsistent :
    (a : Action) (r : Resubmission) (reason : ℕ) (db : Db)
    → IsConsistent db
    → Ensures IsConsistent (resubmit_tx a r reason db)
unfolding resubmit_tx
resubmit_tx-IsConsistent a r reason db v =
    let move = moving a rejected payment_pending (some reason) in
    let pay = paying a r.payment_id declined pending (some reason) in
    bind
      (thrown (transition_status db move) invalid_lifecycle_transition
        λ moved e. transition_status-IsConsistent db moved move v e (λ k. refl))
      λ moved v'.
        bind
          (thrown (transition_payment moved pay) invalid_payment_state
            λ paid e. SameSlots-IsConsistent (transition_payment-SameSlots moved paid pay e) v')
          λ paid v''.
            let filed = create_file paid a.business_id r.storage_key r.size_bytes in
            let w =
              SameSlots-IsConsistent
                (create_file-SameSlots paid a.business_id r.storage_key r.size_bytes) v'' in
            bind
              (add_proof-Ensures filed.1 r.payment_id a.business_id r.submission_key (some filed.0))
              λ (p : ℕ × Db) same. returns (
                SameSlots-IsConsistent (mark_proof_replaced-SameSlots p.1 r.latest_proof_id p.0)
                  (SameSlots-IsConsistent same w))
