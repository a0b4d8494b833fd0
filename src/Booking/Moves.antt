-- ===== src/Booking/Moves.antt =====
-- The rescheduling, which releases a window and claims another, keeps the slot discipline.
use werefa.Prelude.{
  ℕ, ◌≡◌, refl, sym, subst, true, false, none, some, List, ◌∷◌, Memᴰ, arith, any, update_many, inl,
  inr, Bool-cases, mem-update_many, any-update_many, any-update_many-false,
}
use werefa.Errors.{invalid_booking_state}
use werefa.Store.{Booking, SlotLock, Db, allocated}
use werefa.Store.Bookings.{
  has_active_overlap, lock_overlaps, is_row, set_times, change_times, create_slot_lock, slot_taken,
  release_slot_lock, is_held_by, release,
}
use werefa.Booking.Transactions.{
  Action, reschedule_tx, Ensures, returns, throws, bind, thrown, checked,
}
use werefa.Booking.Slots.{keeps_slot, covers, Kept, IsConsistent}
use werefa.Booking.Changes.{Apart-release, UniqueIds-update, FreshIds-update}
use werefa.Booking.Claims.{no_overlap-locks, Apart-cons}

module _ (a : Action) (slot_date s e : ℕ) (db : Db) (v : IsConsistent db) where
  abbrev moved_lock : SlotLock
  moved_lock = record {
    business_id = a.business_id;
    booking_id = a.booking_id;
    slot_date = slot_date;
    start_at = s;
    end_at = e;
    state = allocated;
    released_by = none;
  }

  abbrev freed : List SlotLock
  freed =
      update_many (is_held_by a.business_id a.booking_id) (release a.actor_user_id) db.slot_locks

  still_covered :
      (x : Booking)
      → Memᴰ x db.bookings
      → is_row a.business_id a.booking_id x ≡ false
      → keeps_slot x.status ≡ true
      → any (covers x) freed ≡ true
  still_covered x m other keeps =
      any-update_many (covers x) (is_held_by a.business_id a.booking_id) (release a.actor_user_id)
        db.slot_locks (λ l c. ground arith) (v.kept x m keeps)

  covered_anyway :
      (b : Booking) → any (covers b) freed ≡ true → any (covers b) (moved_lock ∷ freed) ≡ true
  covered_anyway b h = ground arith

  Kept-moved :
      Kept
        (update_many (is_row a.business_id a.booking_id) (set_times s e) db.bookings)
        (moved_lock ∷ freed)
  Kept-moved b mb keeps =
      let (x, mx, ex) =
        mem-update_many (is_row a.business_id a.booking_id) (set_times s e) db.bookings mb in
      elim (Bool-cases (is_row a.business_id a.booking_id x)) [
        | inl hit ↦ let e' : b ≡ set_times s e x = rw hit at ex in rw e' (ground arith)
        | inr miss ↦
            let e' : x ≡ b = sym (rw miss at ex) in
            covered_anyway b (
              subst (λ z. any (covers z) freed ≡ true) e'
                (still_covered x mx miss (subst (λ z. keeps_slot z.status ≡ true) (sym e') keeps)))
      ]

  still_free :
      any (lock_overlaps a.business_id s e) db.slot_locks ≡ false
      → any (lock_overlaps a.business_id s e) freed ≡ false
  still_free =
      any-update_many-false (lock_overlaps a.business_id s e)
        (is_held_by a.business_id a.booking_id) (release a.actor_user_id) db.slot_locks
        λ l h. ground arith

  module _ (free : has_active_overlap db a.business_id s e (some a.booking_id) ≡ false)
      (changed : Db)
      (moved : change_times
          (release_slot_lock db a.business_id a.booking_id a.actor_user_id)
          a.business_id
          a.booking_id
          s
          e
        ≡ some changed) where
    changed-bookings :
        changed.bookings
        ≡ update_many (is_row a.business_id a.booking_id) (set_times s e) db.bookings
    unfolding change_times release_slot_lock
    changed-bookings = ground arith

    changed-locks : changed.slot_locks ≡ freed
    unfolding change_times release_slot_lock
    changed-locks = ground arith

    changed-next : changed.next_booking ≡ db.next_booking
    unfolding change_times release_slot_lock
    changed-next = ground arith

    moved-IsConsistent :
        IsConsistent (record changed { slot_locks = moved_lock ∷ changed.slot_locks })
    moved-IsConsistent = record {
      kept = rw (changed-bookings, changed-locks) Kept-moved;
      apart = rw changed-locks (
          Apart-cons moved_lock freed
            (still_free (no_overlap-locks db a.business_id s e (some a.booking_id) free))
            (Apart-release a.business_id a.booking_id a.actor_user_id db.slot_locks v.apart));
      unique = rw changed-bookings (UniqueIds-update _ _ (λ b. refl) db.bookings v.unique);
      fresh =
          rw (changed-bookings, changed-next)
            (FreshIds-update _ _ (λ b. refl) db.next_booking db.bookings v.fresh);
    }

  create_slot_lock-Ensures :
      (changed : Db)
      → IsConsistent (record changed { slot_locks = moved_lock ∷ changed.slot_locks })
      → Ensures IsConsistent (create_slot_lock changed moved_lock)
  unfolding create_slot_lock
  create_slot_lock-Ensures changed w =
      checked (slot_taken a.business_id slot_date s changed) (λ _. throws) λ _. returns w

  -- A reschedule frees the booking's own lock and claims the new window.
  pub reschedule_tx-IsConsistent : Ensures IsConsistent (reschedule_tx a slot_date s e db)
  unfolding reschedule_tx
  reschedule_tx-IsConsistent =
      checked (has_active_overlap db a.business_id s e (some a.booking_id)) (λ _. throws)
        λ free.
          bind
            (thrown
              (change_times (release_slot_lock db a.business_id a.booking_id a.actor_user_id)
                a.business_id a.booking_id s e)
              invalid_booking_state λ changed moved. moved-IsConsistent free changed moved)
            λ changed w. create_slot_lock-Ensures changed w
