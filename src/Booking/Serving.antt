-- ===== src/Booking/Serving.antt =====
-- The calls of the booking service (backend/src/domain/services/booking.service.ts), and what the owner's
-- calls keep when their transactions keep it.
use werefa.Prelude.{
  Bool, ◌+◌, ◌-◌, arith, ℕ, ◌≡◌, refl, sym, subst, not, ◌==◌, inl, inr, Option-cases, Bool-cases,
}
use werefa.Errors.{Result, ok, err, invalid_booking_state}
use werefa.Store.{Booking, Payment, BookingState, Db, confirmed, booking_state_is}
use werefa.Store.Bookings.{find_by_id}
use werefa.Tenant.{ActorContext}
use werefa.Booking.Transactions.{
  ◌>>=◌, or_throw, cancel_releases, accept_tx, reject_tx, cancel_tx, no_show_tx, reschedule_tx,
  Ensures, returns, throws, bind, anything, whenever_ok, checked, Ensures-ok,
}
use werefa.Booking.World.{
  World, Reply, EventType, booking_confirmed, payment_rejected, booking_cancelled, no_show_event,
  booking_rescheduled, after_commit, run_tx,
}
use werefa.Booking.Owner.{
  Calendar, action, strip_seconds, open_payment, verified_booking, with_booking, accept_proof,
  reject_proof, cancel_booking, mark_no_show, reschedule, reschedule_body,
}
use werefa.Booking.Completion.{auto_complete_due_bookings}
use werefa.Booking.Claiming.{BookingInput}
use werefa.Booking.Create.{Desk, create}

-- A call of an owner on a booking.
pub data OwnerCall : Type 0 where
  accepting cancelling missing : OwnerCall
  rejecting : ℕ → OwnerCall
  moving_to : ℕ → OwnerCall

-- A call from outside: a customer's claim, an owner's call, the job for one business at one time.
pub data Call : Type 0 where
  claiming : BookingInput → Call
  owning : ActorContext → ℕ → ℕ → OwnerCall → Call
  completing : ℕ → ℕ → Call

unfoldable pub owner_call :
    Calendar → World → ActorContext → ℕ → ℕ → OwnerCall → World × Result Reply
owner_call cal w ctx business_id booking_id accepting = accept_proof w ctx business_id booking_id
owner_call cal w ctx business_id booking_id cancelling = cancel_booking w ctx business_id booking_id
owner_call cal w ctx business_id booking_id missing = mark_no_show w ctx business_id booking_id
owner_call cal w ctx business_id booking_id (rejecting reason) =
    reject_proof w ctx business_id booking_id reason
owner_call cal w ctx business_id booking_id (moving_to t) =
    reschedule cal w ctx business_id booking_id t

unfoldable pub serve : Desk → World → Call → World
serve desk w (claiming input) = (create desk w input).0
serve desk w (owning ctx business_id booking_id c) =
    (owner_call desk.calendar w ctx business_id booking_id c).0
serve desk w (completing business_id now) = record w {
  db = (auto_complete_due_bookings w.db business_id now).1;
}

pub after_commit-db :
    (w : World) (n k phone : ℕ) (t : EventType) → (after_commit w n k phone t).0.db ≡ w.db
unfolding after_commit
after_commit-db w n k phone t = elim (Option-cases (find_by_id w.db n k)) [
  | inl e ↦ rw (e, after_commit) refl
  | inr (b, e) ↦ rw (e, after_commit) refl
]

module _ {κ} (P : Db → Type κ) (w : World) (h : P w.db) where
  run_tx-keeps :
      (r : Result Db) (n k phone : ℕ) (t : EventType)
      → Ensures P r
      → P (run_tx w r (λ w'. after_commit w' n k phone t)).0.db
  unfolding run_tx
  run_tx-keeps (err e) n k phone t en = h
  run_tx-keeps (ok db) n k phone t (returns p) =
      subst P (sym (after_commit-db (record w { db = db }) n k phone t)) p

  with_booking-keeps :
      (r : Result Booking) (k : Booking → World × Result Reply)
      → ((b : Booking) → P (k b).0.db)
      → P (with_booking w r k).0.db
  with_booking-keeps (err e) k hk = h
  with_booking-keeps (ok b) k hk = hk b

  module _ (cal : Calendar) (ctx : ActorContext) (n k : ℕ) where
    -- The shape that the owner's calls share.
    owner-keeps :
        (r : Booking → Result Db) (t : EventType)
        → ((b : Booking) → Ensures P (r b))
        → P
            (with_booking w
              (verified_booking w ctx n k)
              λ b. run_tx w (r b) λ w'. after_commit w' n k b.customer_phone t).0.db
    owner-keeps r t en =
        with_booking-keeps (verified_booking w ctx n k)
          (λ b. run_tx w (r b) λ w'. after_commit w' n k b.customer_phone t)
          λ b. run_tx-keeps (r b) n k b.customer_phone t (en b)

    -- What `reschedule` commits is what its transaction returns.
    committed-reschedule :
        (t : ℕ) (b : Booking) (db : Db)
        → reschedule_body cal w ctx n k t b ≡ ok db
        → let start = strip_seconds t in
          reschedule_tx
            (action ctx n k)
            (cal.slot_date start)
            start
            (start + (b.end_at - b.start_at))
            w.db
          ≡ ok db
    unfolding reschedule_body
    committed-reschedule t b db e = ground (arith, e)

    module _ (accepts : (p : ℕ) → Ensures P (accept_tx (action ctx n k) p w.db))
        (rejects : (p reason : ℕ) → Ensures P (reject_tx (action ctx n k) p reason w.db))
        (cancels : (s : BookingState) (r : Bool) → Ensures P (cancel_tx (action ctx n k) s r w.db))
        (misses : Ensures P (no_show_tx (action ctx n k) w.db))
        (moves : (d s e : ℕ) → Ensures P (reschedule_tx (action ctx n k) d s e w.db)) where
      cancel-keeps :
          (b : Booking)
          → Ensures P (
              or_throw (cancel_releases b.status) invalid_booking_state >>= λ r.
              cancel_tx (action ctx n k) b.status r w.db)
      cancel-keeps b =
          bind (anything (or_throw (cancel_releases b.status) invalid_booking_state))
            λ (r : Bool) u. cancels b.status r

      reject_proof-keeps : (reason : ℕ) → P (reject_proof w ctx n k reason).0.db
      unfolding reject_proof
      reject_proof-keeps reason = elim (Bool-cases (reason == 0)) [
        | inl blank ↦ rw blank h
        | inr told ↦ rw told (
            owner-keeps _ payment_rejected
              λ b. bind (anything (open_payment w.db b)) λ (p : Payment) u. rejects p.id reason)
      ]

      -- What every one of the transactions keeps, the owner's calls keep.
      pub owner_call-keeps : (c : OwnerCall) → P (owner_call cal w ctx n k c).0.db
      unfolding owner_call accept_proof cancel_booking mark_no_show reschedule
      owner_call-keeps accepting =
          owner-keeps _ booking_confirmed
            λ b. bind (anything (open_payment w.db b)) λ (p : Payment) u. accepts p.id
      owner_call-keeps cancelling = owner-keeps _ booking_cancelled cancel-keeps
      owner_call-keeps missing =
          owner-keeps _ no_show_event
            λ b. checked (not (booking_state_is b.status confirmed)) (λ _. throws) (λ _. misses)
      owner_call-keeps (rejecting reason) = reject_proof-keeps reason
      owner_call-keeps (moving_to t) = owner-keeps _ booking_rescheduled λ b.
          whenever_ok (reschedule_body cal w ctx n k t b)
            λ db e. Ensures-ok (moves _ _ _) (committed-reschedule t b db e)
