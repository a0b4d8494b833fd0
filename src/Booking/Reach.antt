-- ===== src/Booking/Reach.antt =====
-- The claim of `createBooking` (backend/src/domain/services/booking.service.ts, the transaction under the
-- advisory lock) on the slot discipline: the overlap test, the insert, and the paths of a replay.
use werefa.Prelude.{ℕ, ◌≡◌, refl, Option, none, ◌∙◌, ◌==◌, Option-cases, inl, inr}
use werefa.Errors.{Result, ok, err, p2002_submission_key, p2002_slot_lock}
use werefa.Store.{Db}
use werefa.Store.Bookings.{create_booking, has_active_overlap}
use werefa.Store.Payments.{KeyRow, find_by_submission_key}
use werefa.Booking.Transactions.{anything, Ensures, returns, throws, bind, checked, Ensures-ok}
use werefa.Booking.Slots.{IsConsistent}
use werefa.Booking.Invariant.{SameSlots, SameSlots-IsConsistent}
use werefa.Booking.Claims.{create_booking-IsConsistent}
use werefa.Booking.Reopened.{create_file-SameSlots}
use werefa.Booking.Idempotency.{CommitRef, idempotent_ref}
use werefa.Booking.Claiming.{Claim, claim_tx, check_replay, recover, link_file, booking_args}

abbrev Sound : CommitRef × Db → Type 0
Sound r = IsConsistent r.1

check_replay-Sound :
    (db : Db) (row : KeyRow) (c : Claim) → IsConsistent db → Ensures Sound (check_replay db row c)
unfolding check_replay
check_replay-Sound db row c v =
    bind {Q = λ _. Unit {0}}
      (anything
        (idempotent_ref db row c.business_id c.start_at c.components c.input.customer_phone))
      λ ref _. returns v

recover-Sound :
    (db : Db) (c : Claim) (r : Result (ℕ × Db))
    → IsConsistent db
    → Ensures (λ (p : ℕ × Db). IsConsistent p.1) r
    → Ensures Sound (recover db c r)
unfolding recover
recover-Sound db c (ok (id, db')) v e = returns (Ensures-ok e refl)
recover-Sound db c (err p2002_submission_key) v e =
    elim (Option-cases (find_by_submission_key db c.input.submission_key)) [
      | inl none_found ↦ rw (none_found, recover) throws
      | inr (row, found) ↦
          rw (found, recover)
            (checked (row.business_id == c.business_id) (λ _. check_replay-Sound db row c v)
              (λ _. throws))
    ]
recover-Sound db c (err p2002_slot_lock) v e = throws
recover-Sound db c (err _) v e = throws

has_active_overlap-SameSlots :
    (db db' : Db) (business_id s e : ℕ) (exclude : Option ℕ)
    → SameSlots db db'
    → has_active_overlap db' business_id s e exclude ≡ has_active_overlap db business_id s e exclude
unfolding has_active_overlap
has_active_overlap-SameSlots db db' business_id s e exclude same =
    rw (same.bookings, same.slot_locks) refl

link_file-SameSlots : (db : Db) (c : Claim) → SameSlots db (link_file db c).1
unfolding link_file
link_file-SameSlots db c = elim (Option-cases c.staged) [
  | inl e ↦ rw (e, link_file) (record { bookings = refl; slot_locks = refl; next_booking = refl })
  | inr (s, e) ↦
      rw (e, link_file) (create_file-SameSlots db c.business_id s.storage_key s.size_bytes)
]

-- The claim of `createBooking` keeps the slot discipline, on the path of a replay too.
pub claim_tx-IsConsistent :
    (c : Claim) (db : Db)
    → IsConsistent db
    → Ensures (λ (r : CommitRef × Db). IsConsistent r.1) (claim_tx c db)
unfolding claim_tx
claim_tx-IsConsistent c db v =
    elim (Option-cases (find_by_submission_key db c.input.submission_key)) [
      | inl e ↦
          let same = link_file-SameSlots db c in
          let filed = (link_file db c).1 in
          let file_id = (link_file db c).0 in
          rw (e, claim_tx)
            (checked (has_active_overlap db c.business_id c.start_at c.end_at none) (λ _. throws)
              λ free.
                let v' = SameSlots-IsConsistent same v in
                recover-Sound filed c (create_booking filed (booking_args c file_id)) v' (
                  create_booking-IsConsistent filed (booking_args c file_id) v' none (
                    has_active_overlap-SameSlots db filed c.business_id c.start_at c.end_at none
                      same
                    ∙ free)))
      | inr (row, e) ↦ rw (e, claim_tx) (check_replay-Sound db row c v)
    ]
