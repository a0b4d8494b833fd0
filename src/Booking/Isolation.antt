-- ===== src/Booking/Isolation.antt =====
-- Tenant isolation: what the calls of one business's owner leave alone.
use werefa.Prelude.{
  ℕ, ◌≡◌, ◌≢◌, refl, ap, ◌∙◌, Bool, true, false, ◌&&◌, Option, none, some, ◌∷◌, arith, select, ◌==◌,
  update_many, select-update_many,
}
use werefa.Errors.{invalid_payment_state, invalid_booking_state}
use werefa.Store.{
  Booking, SlotLock, Db, BookingState, pending, accepted, declined, payment_pending, confirmed,
  rejected, cancelled, no_show, is_held,
}
use werefa.Store.Bookings.{
  TransitionArgs, matches_transition, set_status, transition_status, is_held_by, release,
  release_slot_lock, is_row, set_times, change_times, is_locked_by, allocate, allocate_slot_locks,
  create_slot_lock, slot_taken, has_active_overlap,
}
use werefa.Store.Payments.{PaymentTransition, transition_payment}
use werefa.Booking.Transactions.{
  or_throw, Action, moving, paying, accept_tx, reject_tx, cancel_tx, no_show_tx, reschedule_tx,
  Ensures, returns, throws, bind, thrown, checked, after,
}
use werefa.Booking.Invariant.{transition_payment-SameSlots}

-- The bookings and the slot locks of business `m` are the same.
pub record Untouched (m : ℕ) (db db' : Db) : Type 0 where
  pub bookings :
      select (λ (b : Booking). b.business_id == m) db'.bookings
      ≡ select (λ (b : Booking). b.business_id == m) db.bookings
  pub slot_locks :
      select (λ (l : SlotLock). l.business_id == m) db'.slot_locks
      ≡ select (λ (l : SlotLock). l.business_id == m) db.slot_locks

pub Untouched-refl : {m : ℕ} {db : Db} → Untouched m db db
Untouched-refl = record { bookings = refl; slot_locks = refl }

Untouched-trans :
    {m : ℕ} {db db' db'' : Db} → Untouched m db db' → Untouched m db' db'' → Untouched m db db''
Untouched-trans u v = record {
  bookings = v.bookings ∙ u.bookings;
  slot_locks = v.slot_locks ∙ u.slot_locks;
}

module _ (m : ℕ) where
  transition_payment-Untouched :
      (db db' : Db) (a : PaymentTransition)
      → transition_payment db a ≡ some db'
      → Untouched m db db'
  transition_payment-Untouched db db' a h =
      let same = transition_payment-SameSlots db db' a h in
      record {
        bookings = ap (select (λ (b : Booking). b.business_id == m)) same.bookings;
        slot_locks = ap (select (λ (l : SlotLock). l.business_id == m)) same.slot_locks;
      }

  transition_status-bookings :
      (db db' : Db) (a : TransitionArgs)
      → transition_status db a ≡ some db'
      → db'.bookings ≡ update_many (matches_transition a) (set_status a.to) db.bookings
  unfolding transition_status
  transition_status-bookings db db' a h = ground (arith, h)

  transition_status-slot_locks :
      (db db' : Db) (a : TransitionArgs)
      → transition_status db a ≡ some db'
      → db'.slot_locks ≡ db.slot_locks
  unfolding transition_status
  transition_status-slot_locks db db' a h = ground (arith, h)

  transition_status-Untouched :
      (db db' : Db) (a : TransitionArgs)
      → a.business_id ≢ m
      → transition_status db a ≡ some db'
      → Untouched m db db'
  transition_status-Untouched db db' a other h = record {
    bookings = rw (transition_status-bookings db db' a h) (
        select-update_many _ (matches_transition a) (set_status a.to) db.bookings
          (λ x hit. ground (arith, hit, other)) (λ x hit. ground (arith, hit, other)));
    slot_locks =
        ap (select (λ (l : SlotLock). l.business_id == m))
          (transition_status-slot_locks db db' a h);
  }

  release_slot_lock-Untouched :
      (db : Db) (n k : ℕ) (by : Option ℕ) → n ≢ m → Untouched m db (release_slot_lock db n k by)
  unfolding release_slot_lock
  release_slot_lock-Untouched db n k by other = record {
    bookings = refl;
    slot_locks =
        select-update_many _ (is_held_by n k) (release by) db.slot_locks
          (λ x hit. ground (arith, hit, other)) (λ x hit. ground (arith, hit, other));
  }

  allocate_slot_locks-Untouched :
      (db : Db) (n k : ℕ) → n ≢ m → Untouched m db (allocate_slot_locks db n k)
  unfolding allocate_slot_locks
  allocate_slot_locks-Untouched db n k other = record {
    bookings = refl;
    slot_locks =
        select-update_many _ (is_locked_by n k) allocate db.slot_locks
          (λ x hit. ground (arith, hit, other)) (λ x hit. ground (arith, hit, other));
  }

module _ (m : ℕ) (a : Action) (other : a.business_id ≢ m) where
  paid-Untouched :
      (db : Db) (p : PaymentTransition)
      → Ensures (Untouched m db) (or_throw (transition_payment db p) invalid_payment_state)
  paid-Untouched db p = thrown _ _ λ paid e. transition_payment-Untouched m db paid p e

  moved-Untouched :
      (db : Db) (from to : BookingState) (reason : Option ℕ)
      → Ensures
          (Untouched m db)
          (or_throw (transition_status db (moving a from to reason)) invalid_booking_state)
  moved-Untouched db from to reason =
      thrown _ _ λ moved e. transition_status-Untouched m db moved (moving a from to reason) other e

  pub accept_tx-Untouched : (p : ℕ) (db : Db) → Ensures (Untouched m db) (accept_tx a p db)
  unfolding accept_tx
  accept_tx-Untouched p db =
      bind (paid-Untouched db (paying a p pending accepted none)) λ (paid : Db) u.
        bind (moved-Untouched paid payment_pending confirmed none) λ (moved : Db) v. returns (
          Untouched-trans u (
            Untouched-trans v
              (allocate_slot_locks-Untouched m moved a.business_id a.booking_id other)))

  pub reject_tx-Untouched :
      (p reason : ℕ) (db : Db) → Ensures (Untouched m db) (reject_tx a p reason db)
  unfolding reject_tx
  reject_tx-Untouched p reason db =
      bind (paid-Untouched db (paying a p pending declined (some reason))) λ (paid : Db) u.
        after (λ (db' : Db) v. Untouched-trans u v)
          (moved-Untouched paid payment_pending rejected (some reason))

  released-Untouched :
      {db moved : Db}
      → Untouched m db moved
      → Untouched m db (release_slot_lock moved a.business_id a.booking_id a.actor_user_id)
  released-Untouched {moved = moved} u =
      Untouched-trans u
        (release_slot_lock-Untouched m moved a.business_id a.booking_id a.actor_user_id other)

  pub cancel_tx-Untouched :
      (s : BookingState) (r : Bool) (db : Db) → Ensures (Untouched m db) (cancel_tx a s r db)
  unfolding cancel_tx
  cancel_tx-Untouched s true db =
      bind (moved-Untouched db s cancelled none) λ (moved : Db) u. returns (released-Untouched u)
  cancel_tx-Untouched s false db =
      bind (moved-Untouched db s cancelled none) λ (moved : Db) u. returns u

  pub no_show_tx-Untouched : (db : Db) → Ensures (Untouched m db) (no_show_tx a db)
  unfolding no_show_tx
  no_show_tx-Untouched db =
      bind (moved-Untouched db confirmed no_show none)
        λ (moved : Db) u. returns (released-Untouched u)

  change_times-bookings :
      (db db' : Db) (s e : ℕ)
      → change_times db a.business_id a.booking_id s e ≡ some db'
      → db'.bookings ≡ update_many (is_row a.business_id a.booking_id) (set_times s e) db.bookings
  unfolding change_times
  change_times-bookings db db' s e h = ground (arith, h)

  change_times-slot_locks :
      (db db' : Db) (s e : ℕ)
      → change_times db a.business_id a.booking_id s e ≡ some db'
      → db'.slot_locks ≡ db.slot_locks
  unfolding change_times
  change_times-slot_locks db db' s e h = ground (arith, h)

  change_times-Untouched :
      (db db' : Db) (s e : ℕ)
      → change_times db a.business_id a.booking_id s e ≡ some db'
      → Untouched m db db'
  change_times-Untouched db db' s e h = record {
    bookings = rw (change_times-bookings db db' s e h) (
        select-update_many _ (is_row a.business_id a.booking_id) (set_times s e) db.bookings
          (λ x hit. ground (arith, hit, other)) (λ x hit. ground (arith, hit, other)));
    slot_locks =
        ap (select (λ (l : SlotLock). l.business_id == m)) (change_times-slot_locks db db' s e h);
  }

  locked-Untouched :
      (db : Db) (l : SlotLock)
      → l.business_id ≡ a.business_id
      → Untouched m db (record db { slot_locks = l ∷ db.slot_locks })
  locked-Untouched db l e = record { bookings = refl; slot_locks = ground (arith, e, other) }

  create_slot_lock-Untouched :
      (db : Db) (l : SlotLock)
      → l.business_id ≡ a.business_id
      → Ensures (Untouched m db) (create_slot_lock db l)
  unfolding create_slot_lock
  create_slot_lock-Untouched db l e =
      checked (is_held l.state && slot_taken l.business_id l.slot_date l.start_at db) (λ _. throws)
        λ _. returns (locked-Untouched db l e)

  pub reschedule_tx-Untouched :
      (day s e : ℕ) (db : Db) → Ensures (Untouched m db) (reschedule_tx a day s e db)
  unfolding reschedule_tx
  reschedule_tx-Untouched day s e db =
      checked (has_active_overlap db a.business_id s e (some a.booking_id)) (λ _. throws)
        λ free.
          bind
            (thrown
              (change_times (release_slot_lock db a.business_id a.booking_id a.actor_user_id)
                a.business_id a.booking_id s e)
              invalid_booking_state
              λ changed h.
                Untouched-trans (released-Untouched Untouched-refl)
                  (change_times-Untouched _ changed s e h))
            λ (changed : Db) u.
              after (λ (db' : Db) v. Untouched-trans u v)
                (create_slot_lock-Untouched changed _ refl)
