-- ===== src/Booking/Slots.antt =====
-- The slot discipline: each booking that keeps its slot holds a lock on its window, and the held
-- locks of two bookings of one business never overlap.
use werefa.Prelude.{
  ℕ, ◌<◌, ◌≡◌, ◌≢◌, Bool, true, false, ◌&&◌, List, Memᴰ, arith, ltb, ◌==◌, any, mem_of_any,
}
use werefa.Store.{
  BookingState, payment_pending, confirmed, rejected, Booking, SlotLock, Db, is_active, is_held,
}

-- The statuses in which a booking keeps its slot until somebody releases it.
abbrev pub keeps_slot : BookingState → Bool
keeps_slot payment_pending = true
keeps_slot confirmed = true
keeps_slot rejected = true
keeps_slot _ = false

-- The lock is held, by this booking, on this window.
abbrev pub covers : Booking → SlotLock → Bool
covers b l =
    is_held l.state
    && (l.business_id == b.business_id
        && (l.booking_id == b.id && (l.start_at == b.start_at && l.end_at == b.end_at)))

abbrev pub windows_overlap : ℕ → ℕ → ℕ → ℕ → Bool
windows_overlap s e s' e' = ltb s e' && ltb s' e

abbrev pub Kept : List Booking → List SlotLock → Type 0
Kept bookings locks =
    (b : Booking) → Memᴰ b bookings → keeps_slot b.status ≡ true → any (covers b) locks ≡ true

abbrev pub Apart : List SlotLock → Type 0
Apart locks =
    (l m : SlotLock)
    → Memᴰ l locks
    → Memᴰ m locks
    → is_held l.state ≡ true
    → is_held m.state ≡ true
    → l.business_id ≡ m.business_id
    → l.booking_id ≢ m.booking_id
    → windows_overlap l.start_at l.end_at m.start_at m.end_at ≡ false

abbrev pub UniqueIds : List Booking → Type 0
UniqueIds bookings = (b c : Booking) → Memᴰ b bookings → Memᴰ c bookings → b.id ≡ c.id → b ≡ c

abbrev pub FreshIds : ℕ → List Booking → Type 0
FreshIds next bookings = (b : Booking) → Memᴰ b bookings → b.id < next

pub record IsConsistent (db : Db) : Type 0 where
  pub kept : Kept db.bookings db.slot_locks
  pub apart : Apart db.slot_locks
  pub unique : UniqueIds db.bookings
  pub fresh : FreshIds db.next_booking db.bookings

covers-parts :
    (b : Booking) (l : SlotLock)
    → covers b l ≡ true
    → (is_held l.state ≡ true)
      × (l.business_id ≡ b.business_id)
      × (l.booking_id ≡ b.id)
      × (l.start_at ≡ b.start_at)
      × (l.end_at ≡ b.end_at)
covers-parts b l h = ground arith

active-keeps : (s : BookingState) → is_active s ≡ true → keeps_slot s ≡ true
active-keeps s h = ground arith

-- In consistent tables no two bookings of one business that wait for payment or are confirmed
-- overlap: there is no double booking.
pub no_double_booking :
    (db : Db) (b c : Booking)
    → IsConsistent db
    → Memᴰ b db.bookings
    → Memᴰ c db.bookings
    → is_active b.status ≡ true
    → is_active c.status ≡ true
    → b.business_id ≡ c.business_id
    → b.id ≢ c.id
    → windows_overlap b.start_at b.end_at c.start_at c.end_at ≡ false
no_double_booking db b c v mb mc ab ac same other =
    let (l, ml, hl) = mem_of_any (covers b) db.slot_locks (v.kept b mb (active-keeps _ ab)) in
    let (m, mm, hm) = mem_of_any (covers c) db.slot_locks (v.kept c mc (active-keeps _ ac)) in
    ground (arith, covers-parts b l hl, covers-parts c m hm, v.apart l m ml mm)
