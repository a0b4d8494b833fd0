-- ===== src/Booking/Owner.antt =====
-- backend/src/domain/services/booking.service.ts: what the owner of a business and the completion
-- job do with a booking. The texts of the reasons are numbers; 0 stands for the blank text.
use werefa.Prelude.{
  ℕ, ◌+◌, ◌-◌, ◌*◌, ◌/◌, ◌%◌, Bool, true, false, not, ◌||◌, List, ltb, ◌==◌, if◌then◌else◌, any,
}
use werefa.Errors.{
  Result, ok, err, business_not_found, invalid_booking_state, invalid_payment_state,
  invalid_schedule, unavailable_appointment,
}
use werefa.Store.{
  BookingState, payment_pending, confirmed, rejected, cancelled, Booking, Payment, Db,
  booking_state_is,
}
use werefa.Store.Bookings.{find_by_id, payment_of}
use werefa.Tenant.{ActorContext, require_owned_business}
use werefa.Booking.World.{
  World, Reply, booking_confirmed, payment_rejected, booking_cancelled, no_show_event,
  booking_rescheduled, after_commit, run_tx,
}
use werefa.Booking.Transactions.{
  ◌>>=◌, or_throw, Action, accept_tx, reject_tx, cancel_tx, cancel_releases, no_show_tx, release_tx,
  reschedule_tx,
}

abbrev pub action : ActorContext → ℕ → ℕ → Action
action ctx business_id booking_id = record {
  business_id = business_id;
  booking_id = booking_id;
  actor_type = ctx.actor_type;
  actor_user_id = ctx.actor_user_id;
}

-- `requireOwnedBusiness`, then the read of `withVerifiedBooking`.
unfoldable pub verified_booking : World → ActorContext → ℕ → ℕ → Result Booking
verified_booking w ctx business_id booking_id = do
  biz ← require_owned_business w.businesses ctx business_id
  or_throw (find_by_id w.db business_id booking_id) business_not_found

-- The rest of a call, with the booking that was read, or the error.
abbrev pub with_booking :
    World → Result Booking → (Booking → World × Result Reply) → World × Result Reply
with_booking w (err e) k = (w, err e)
with_booking w (ok b) k = k b

-- The two tests before an acceptance or a rejection.
abbrev pub open_payment : Db → Booking → Result Payment
open_payment db b =
    if not (booking_state_is b.status payment_pending)
    then err invalid_booking_state
    else or_throw (payment_of db b.id) invalid_payment_state

unfoldable pub accept_proof : World → ActorContext → ℕ → ℕ → World × Result Reply
accept_proof w ctx business_id booking_id =
    with_booking w (verified_booking w ctx business_id booking_id) λ b.
      run_tx w
        (open_payment w.db b >>= λ p. accept_tx (action ctx business_id booking_id) p.id w.db)
        λ w'. after_commit w' business_id booking_id b.customer_phone booking_confirmed

unfoldable pub reject_proof : World → ActorContext → ℕ → ℕ → ℕ → World × Result Reply
reject_proof w ctx business_id booking_id reason =
    if reason == 0
    then (w, err invalid_schedule)
    else with_booking w (verified_booking w ctx business_id booking_id) λ b.
      run_tx w
        (open_payment w.db b >>= λ p.
          reject_tx (action ctx business_id booking_id) p.id reason w.db)
        λ w'. after_commit w' business_id booking_id b.customer_phone payment_rejected

unfoldable pub cancel_booking : World → ActorContext → ℕ → ℕ → World × Result Reply
cancel_booking w ctx business_id booking_id =
    with_booking w (verified_booking w ctx business_id booking_id) λ b.
      run_tx w
        (or_throw (cancel_releases b.status) invalid_booking_state >>= λ releases.
          cancel_tx (action ctx business_id booking_id) b.status releases w.db)
        λ w'. after_commit w' business_id booking_id b.customer_phone booking_cancelled

unfoldable pub mark_no_show : World → ActorContext → ℕ → ℕ → World × Result Reply
mark_no_show w ctx business_id booking_id =
    with_booking w (verified_booking w ctx business_id booking_id) λ b.
      run_tx w
        (if not (booking_state_is b.status confirmed)
          then err invalid_booking_state
          else no_show_tx (action ctx business_id booking_id) w.db)
        λ w'. after_commit w' business_id booking_id b.customer_phone no_show_event

abbrev pub is_releasable : BookingState → Bool
is_releasable cancelled = true
is_releasable rejected = true
is_releasable _ = false

-- `releaseSlot` answers nothing and publishes nothing.
unfoldable pub release_slot : World → ActorContext → ℕ → ℕ → World × Result (Unit {0})
release_slot w ctx business_id booking_id = elim (verified_booking w ctx business_id booking_id) [
  | err e ↦ (w, err e)
  | ok b ↦
      if not (is_releasable b.status)
      then (w, err invalid_booking_state)
      else elim (release_tx (action ctx business_id booking_id) w.db) [
        | err e ↦ (w, err e)
        | ok db ↦ (record w { db = db }, ok tt)
      ]
]

abbrev pub minute_ms : ℕ
minute_ms = 60000

-- `setSeconds(0, 0)`: the time zones of the platform differ from UTC by whole minutes.
abbrev pub strip_seconds : ℕ → ℕ
strip_seconds t = t / minute_ms * minute_ms

-- `Math.abs(a - b) < 60_000`
abbrev pub same_minute : ℕ → ℕ → Bool
same_minute a b = ltb (a - b + (b - a)) minute_ms

-- What the booking services ask of the availability service and of the clock: the starts that a day
-- offers for a duration in minutes, with or without the business gates, and the two keys of a day.
pub record Calendar : Type 0 where
  pub slot_starts : Db → ℕ → ℕ → ℕ → Bool → List ℕ
  pub date_key : ℕ → ℕ
  pub slot_date : ℕ → ℕ

-- `durationMs <= 0 || durationMs % 60_000 !== 0`; the truncated difference is 0 exactly when the
-- source's is not positive.
abbrev bad_duration : ℕ → Bool
bad_duration d = d == 0 || not (d % minute_ms == 0)

-- The checks of `reschedule` before its transaction, and the transaction.
unfoldable pub reschedule_body : Calendar → World → ActorContext → ℕ → ℕ → ℕ → Booking → Result Db
reschedule_body cal w ctx business_id booking_id new_start_at b =
    let duration = b.end_at - b.start_at in
    let new_start = strip_seconds new_start_at in
    if not (booking_state_is b.status confirmed)
    then err invalid_booking_state
    else if bad_duration duration
    then err invalid_booking_state
    else if not (
        any (same_minute new_start)
          (cal.slot_starts w.db business_id (cal.date_key new_start) (duration / minute_ms) false))
    then err unavailable_appointment
    else reschedule_tx (action ctx business_id booking_id) (cal.slot_date new_start) new_start
        (new_start + duration) w.db

unfoldable pub reschedule : Calendar → World → ActorContext → ℕ → ℕ → ℕ → World × Result Reply
unfolding reschedule_body
reschedule cal w ctx business_id booking_id new_start_at =
    with_booking w (verified_booking w ctx business_id booking_id) λ b.
      run_tx w (reschedule_body cal w ctx business_id booking_id new_start_at b)
        λ w'. after_commit w' business_id booking_id b.customer_phone booking_rescheduled
