-- ===== src/Booking/Claims.antt =====
-- The insertion of a claimed booking keeps the slot discipline.
use werefa.Prelude.{
  ℕ, suc, ◌≡◌, sym, true, false, Option, List, ◌∷◌, Memᴰ, arith, any, any-mem, count_where-any, inl,
  inr, Bool-cases, ap, ◌∙◌,
}
use werefa.Store.{Booking, SlotLock, Db, is_held}
use werefa.Store.Bookings.{
  CreateBookingArgs, create_booking, insert_booking, new_booking, new_lock, has_active_overlap,
  lock_overlaps, slot_taken, key_taken,
}
use werefa.Booking.Transactions.{Ensures, returns, throws, checked}
use werefa.Booking.Slots.{windows_overlap, Apart, Kept, UniqueIds, FreshIds, IsConsistent}

-- No overlap found means that every held lock of the business lies apart from the window.
pub no_overlap-locks :
    (db : Db) (business_id s e : ℕ) (exclude : Option ℕ)
    → has_active_overlap db business_id s e exclude ≡ false
    → any (lock_overlaps business_id s e) db.slot_locks ≡ false
unfolding has_active_overlap
no_overlap-locks db business_id s e exclude h =
    count_where-any (lock_overlaps business_id s e) db.slot_locks (ground arith)

apart-one :
    (locks : List SlotLock) (business_id s e : ℕ) (m : SlotLock)
    → any (lock_overlaps business_id s e) locks ≡ false
    → Memᴰ m locks
    → is_held m.state ≡ true
    → m.business_id ≡ business_id
    → windows_overlap s e m.start_at m.end_at ≡ false
apart-one locks business_id s e m h mm held same =
    elim (Bool-cases (lock_overlaps business_id s e m)) [
      | inl hit ↦ let t = any-mem (lock_overlaps business_id s e) locks mm hit in cc
      | inr miss ↦ ground arith
    ]

-- A held lock on a free window can be added.
pub Apart-cons :
    (l : SlotLock) (locks : List SlotLock)
    → any (lock_overlaps l.business_id l.start_at l.end_at) locks ≡ false
    → Apart locks
    → Apart (l ∷ locks)
Apart-cons l locks free a x y (Memᴰ.head ex) (Memᴰ.head ey) hx hy same other =
    absurd (other (ground arith))
Apart-cons l locks free a x y (Memᴰ.head ex) (Memᴰ.tail my) hx hy same other =
    ground (arith, apart-one locks l.business_id l.start_at l.end_at y free my hy)
Apart-cons l locks free a x y (Memᴰ.tail mx) (Memᴰ.head ey) hx hy same other =
    ground (arith, apart-one locks l.business_id l.start_at l.end_at x free mx hx)
Apart-cons l locks free a x y (Memᴰ.tail mx) (Memᴰ.tail my) hx hy same other =
    a x y mx my hx hy same other

module _ (db : Db) (args : CreateBookingArgs) (v : IsConsistent db) where
  Kept-insert : Kept (new_booking db args ∷ db.bookings) (new_lock db args ∷ db.slot_locks)
  Kept-insert b (Memᴰ.head e) keeps = rw e (ground arith)
  Kept-insert b (Memᴰ.tail m) keeps = ground (arith, v.kept b m keeps)

  UniqueIds-insert : UniqueIds (new_booking db args ∷ db.bookings)
  UniqueIds-insert b c (Memᴰ.head e) (Memᴰ.head e') same = e ∙ sym e'
  UniqueIds-insert b c (Memᴰ.head e) (Memᴰ.tail m) same =
      absurd (omega (arith, v.fresh c m, ap (λ (z : Booking). z.id) e))
  UniqueIds-insert b c (Memᴰ.tail m) (Memᴰ.head e) same =
      absurd (omega (arith, v.fresh b m, ap (λ (z : Booking). z.id) e))
  UniqueIds-insert b c (Memᴰ.tail m) (Memᴰ.tail m') same = v.unique b c m m' same

  FreshIds-insert : FreshIds (suc db.next_booking) (new_booking db args ∷ db.bookings)
  FreshIds-insert b (Memᴰ.head e) = omega (arith, ap (λ (z : Booking). z.id) e)
  FreshIds-insert b (Memᴰ.tail m) = omega (arith, v.fresh b m)

  -- A booking is created on a window that no active booking and no held lock overlaps.
  pub create_booking-IsConsistent :
      (exclude : Option ℕ)
      → has_active_overlap db args.business_id args.start_at args.end_at exclude ≡ false
      → Ensures (λ (r : ℕ × Db). IsConsistent r.1) (create_booking db args)
  unfolding create_booking insert_booking
  create_booking-IsConsistent exclude free =
      checked (key_taken args.submission_key db) (λ _. throws)
        λ _.
          checked (slot_taken args.business_id args.slot_date args.start_at db) (λ _. throws)
            λ _. returns (record {
              kept = Kept-insert;
              apart =
                  Apart-cons (new_lock db args) db.slot_locks
                    (no_overlap-locks db args.business_id args.start_at args.end_at exclude free)
                    v.apart;
              unique = UniqueIds-insert;
              fresh = FreshIds-insert;
            })
