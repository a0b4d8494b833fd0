-- ===== src/Booking/Claiming.antt =====
-- backend/src/domain/services/booking.service.ts: the transaction of `createBooking` and what it is
-- handed.
use werefa.Prelude.{ℕ, Option, none, some, List, ◌==◌, if◌then◌else◌, or_default}
use werefa.Errors.{
  Result, ok, err, unavailable_appointment, idempotency_conflict, p2002_submission_key,
  p2002_slot_lock,
}
use werefa.Store.{PaymentMethod, bank_transfer, ComponentSnapshot, Db}
use werefa.Store.Bookings.{CreateBookingArgs, create_booking, has_active_overlap}
use werefa.Store.Payments.{KeyRow, find_by_submission_key, create_file}
use werefa.Catalog.{Selection}
use werefa.Booking.Transactions.{◌>>=◌}
use werefa.Booking.Idempotency.{CommitRef, idempotent_ref}

pub record BookingInput : Type 0 where
  pub business_slug : ℕ
  pub selections : List Selection
  pub customer_name : ℕ
  pub customer_phone : ℕ
  pub note : Option ℕ
  pub start_at : ℕ
  pub submission_key : ℕ
  pub payment_method : Option PaymentMethod
  pub proof : Option (List ℕ)

pub record StagedProof : Type 0 where
  pub storage_key : ℕ
  pub size_bytes : ℕ

-- What the transaction closes over.
pub record Claim : Type 0 where
  pub business_id : ℕ
  pub input : BookingInput
  pub start_at : ℕ
  pub end_at : ℕ
  pub slot_date : ℕ
  pub prepaid : ℕ
  pub components : List ComponentSnapshot
  pub staged : Option StagedProof

-- `fileRepo.create`, if a proof was staged.
unfoldable pub link_file : Db → Claim → Option ℕ × Db
link_file db c = elim c.staged [
  | none ↦ (none, db)
  | some s ↦
      let (id, filed) = create_file db c.business_id s.storage_key s.size_bytes in (some id, filed)
]

abbrev pub booking_args : Claim → Option ℕ → CreateBookingArgs
booking_args c file_id = record {
  business_id = c.business_id;
  customer_name = c.input.customer_name;
  customer_phone = c.input.customer_phone;
  note = c.input.note;
  start_at = c.start_at;
  end_at = c.end_at;
  slot_date = c.slot_date;
  payment_method = or_default c.input.payment_method bank_transfer;
  prepaid_minor = c.prepaid;
  submission_key = c.input.submission_key;
  proof_file_object_id = file_id;
  components = c.components;
}

unfoldable pub check_replay : Db → KeyRow → Claim → Result (CommitRef × Db)
check_replay db row c = do
  ref ← idempotent_ref db row c.business_id c.start_at c.components c.input.customer_phone
  ok (ref, db)

-- The `catch` around the insert. `db` is what the winner is read from.
unfoldable pub recover : Db → Claim → Result (ℕ × Db) → Result (CommitRef × Db)
unfolding check_replay
recover db c (ok (id, db')) =
    ok (record { booking_id = id; customer_phone = c.input.customer_phone }, db')
recover db c (err p2002_submission_key) = elim (find_by_submission_key db c.input.submission_key) [
  | none ↦ err idempotency_conflict
  | some row ↦
      if row.business_id == c.business_id then check_replay db row c else err idempotency_conflict
]
recover db c (err p2002_slot_lock) = err unavailable_appointment
recover db c (err e) = err e

-- The transaction under the advisory lock: the key again, the overlap, the insert.
unfoldable pub claim_tx : Claim → Db → Result (CommitRef × Db)
unfolding check_replay recover link_file
claim_tx c db = elim (find_by_submission_key db c.input.submission_key) [
  | some row ↦ check_replay db row c
  | none ↦
      if has_active_overlap db c.business_id c.start_at c.end_at none
      then err unavailable_appointment
      else let (file_id, filed) = link_file db c in
        recover filed c (create_booking filed (booking_args c file_id))
]
