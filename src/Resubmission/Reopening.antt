-- ===== src/Resubmission/Reopening.antt =====
-- backend/src/domain/services/resubmission.service.ts: `resubmit`, from the checks of the code to the
-- transaction that reopens the booking.
use werefa.Prelude.{
  ℕ, not, ◌&&◌, Option, none, some, List, [], ◌∷◌, ◌==◌, if◌then◌else◌, find_first, length,
}
use werefa.Errors.{
  Result, ok, err, business_not_found, invalid_lifecycle_transition, idempotency_conflict,
  resubmission_code_used, invalid_payment_state, proof_required,
}
use werefa.Store.{Booking, Payment, PaymentProof, Db, rejected, booking_state_is, customer}
use werefa.Store.Bookings.{find_by_id}
use werefa.Store.Payments.{KeyRow, find_by_submission_key}
use werefa.Tenant.{Business}
use werefa.Booking.Transactions.{◌>>=◌, or_throw, Action, Resubmission, resubmit_tx}
use werefa.Booking.World.{Reply, Event, payment_proof_received, store_object, delete_object}
use werefa.Booking.Create.{check_proof}
use werefa.Resubmission.{
  Verification, Station, Channel, ResubmitInput, resubmission_proof, fine, failed, note_security,
  mark_used, find_active, check_code,
}

-- `getByBooking` and its newest proof.
abbrev payment_and_proof : Db → Booking → Result (Payment × PaymentProof)
payment_and_proof db b = do
  payment ←
      or_throw
        (find_first (λ (p : Payment). p.business_id == b.business_id && p.booking_id == b.id)
          db.payments)
        invalid_payment_state
  proof ←
      or_throw (find_first (λ (p : PaymentProof). p.payment_id == payment.id) db.proofs)
        invalid_payment_state
  ok (payment, proof)

-- The uploaded bytes, present and of an accepted format.
abbrev uploaded : Option (List ℕ) → Result (List ℕ)
uploaded none = err proof_required
uploaded (some bytes) = do checked ← check_proof bytes; ok bytes

-- The number that stands for the text 'Proof resubmitted'.
abbrev proof_resubmitted : ℕ
proof_resubmitted = 1

abbrev pub customer_action : Booking → Action
customer_action b = record {
  business_id = b.business_id;
  booking_id = b.id;
  actor_type = customer;
  actor_user_id = none;
}

-- The transaction: the tables and the code, or nothing.
unfoldable pub reopen_tx :
    Station → Booking → Verification → Resubmission → Result (Db × List Verification)
reopen_tx s b v r = do
  db ← resubmit_tx (customer_action b) r proof_resubmitted s.world.db
  codes ← or_throw (mark_used v.id b.business_id s.codes) resubmission_code_used
  ok (db, codes)

-- After the transaction: the event is published, then the booking is read back; or the staged object
-- is removed.
unfoldable pub after_reopen :
    Station → Booking → ℕ → ℕ → Result (Db × List Verification) → Station × Result Reply
after_reopen s b phone key (err e) = (record s { world = delete_object key s.world }, err e)
after_reopen s b phone key (ok (db, codes)) =
    let event : Event = record {
      type = payment_proof_received;
      business_id = b.business_id;
      booking_id = b.id;
      customer_phone = phone;
    } in
    (
      note_security b.business_id resubmission_proof fine (record s {
        world = record s.world { db = db; events = event ∷ s.world.events };
        codes = codes;
      }),
      or_throw (find_by_id db b.business_id b.id) business_not_found >>= λ updated.
          ok (record { booking = updated; events = event ∷ [] }),
    )

unfoldable pub reopen :
    Station
    → Booking
    → Verification
    → ℕ
    → ℕ
    → Result (Payment × PaymentProof)
    → Result (List ℕ)
    → Station × Result Reply
unfolding reopen_tx after_reopen
reopen s b v phone submission_key (err e) proof = (s, err e)
reopen s b v phone submission_key (ok _) (err e) = (s, err e)
reopen s b v phone submission_key (ok (payment, latest)) (ok bytes) =
    let (key, world) = store_object s.world in
    let staged = record s { world = world } in
    after_reopen staged b phone key (
      reopen_tx staged b v (record {
        payment_id = payment.id;
        latest_proof_id = latest.id;
        submission_key = submission_key;
        storage_key = key;
        size_bytes = length bytes;
      }))

-- What follows the checks of the code.
unfoldable pub with_code :
    ResubmitInput → Booking → Station × Result Verification → Station × Result Reply
unfolding reopen
with_code input b (s, err e) = (s, err e)
with_code input b (s, ok v) =
    reopen s b v input.phone input.submission_key (payment_and_proof s.world.db b)
      (uploaded input.proof)

-- A submission key that was used before: the same booking's is answered again.
unfoldable pub replay_key : Station → Booking → KeyRow → Station × Result Reply
replay_key s b row =
    if not (row.business_id == b.business_id && row.booking_id == b.id)
    then (note_security b.business_id resubmission_proof failed s, err idempotency_conflict)
    else (
      s,
      or_throw (find_by_id s.world.db b.business_id row.booking_id) business_not_found >>= λ found.
          ok (record { booking = found; events = [] }),
    )

unfoldable pub resubmit_key :
    Channel → Station → ℕ → ResubmitInput → Booking → Option KeyRow → Station × Result Reply
unfolding replay_key check_code with_code
resubmit_key ch s now input b (some row) = replay_key s b row
resubmit_key ch s now input b none =
    with_code input b
      (check_code ch s now input.code b.business_id (find_active s b.business_id b.id input.phone))

unfoldable pub resubmit_for :
    Channel → Station → ℕ → ResubmitInput → Option Booking → Station × Result Reply
unfolding resubmit_key
resubmit_for ch s now input none = (s, err business_not_found)
resubmit_for ch s now input (some b) =
    if not (b.customer_phone == input.phone)
    then (s, err business_not_found)
    else if not (booking_state_is b.status rejected)
    then (s, err invalid_lifecycle_transition)
    else resubmit_key ch s now input b (find_by_submission_key s.world.db input.submission_key)

-- `resubmit`
unfoldable pub resubmit : Channel → Station → ℕ → ResubmitInput → Station × Result Reply
unfolding resubmit_for
resubmit ch s now input =
    elim (find_first (λ (b : Business). b.slug == input.business_slug) s.world.businesses) [
      | none ↦ (s, err business_not_found)
      | some biz ↦ resubmit_for ch s now input (find_by_id s.world.db biz.id input.booking_id)
    ]
