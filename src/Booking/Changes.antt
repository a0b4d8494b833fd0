-- ===== src/Booking/Changes.antt =====
-- How the updates of the repositories act on the slot discipline.
use werefa.Prelude.{
  ℕ, ◌≡◌, refl, sym, inl, inr, Bool, true, false, Option, List, Memᴰ, arith, ap, if◌then◌else◌,
  update_many, mem-update_many, any-update_many, mem_of_count_where, count_where, Bool-cases, ◌∙◌,
}
use werefa.Store.{Booking, SlotLock, is_held, booking_state_is-eq}
use werefa.Store.Bookings.{
  TransitionArgs, matches_transition, set_status, is_held_by, release, is_locked_by, allocate,
}
use werefa.Booking.Slots.{keeps_slot, covers, Kept, Apart, UniqueIds, FreshIds}

-- The same lock, but for its state.
abbrev SameWindow : SlotLock → SlotLock → Type 0
SameWindow l m =
    (l.business_id ≡ m.business_id)
    × (l.booking_id ≡ m.booking_id)
    × (l.start_at ≡ m.start_at)
    × (l.end_at ≡ m.end_at)

module _ (p : SlotLock → Bool) (f : SlotLock → SlotLock)
    (held_before : (l : SlotLock)
      → p l ≡ true
      → is_held (f l).state ≡ true
      → (is_held l.state ≡ true) × SameWindow (f l) l) where
  -- A held lock after the update was held before it.
  held-origin :
      (locks : List SlotLock) (l : SlotLock)
      → Memᴰ l (update_many p f locks)
      → is_held l.state ≡ true
      → (k : SlotLock) × Memᴰ k locks × (is_held k.state ≡ true) × SameWindow l k
  held-origin locks l m h =
      let (k, mk, e) = mem-update_many p f locks m in
      elim (Bool-cases (p k)) [
        | inl hit ↦
            let e' : l ≡ f k = rw hit at e in
            let (was, same) = held_before k hit (rw e' at h) in (k, mk, was, rw e' same)
        | inr miss ↦
            let e' : l ≡ k = rw miss at e in (k, mk, rw e' at h, rw e' (refl, refl, refl, refl))
      ]

  Apart-update : (locks : List SlotLock) → Apart locks → Apart (update_many p f locks)
  Apart-update locks a l m ml mm hl hm same other =
      let (k, mk, hk, wk) = held-origin locks l ml hl in
      let (j, mj, hj, wj) = held-origin locks m mm hm in ground (arith, a k j mk mj hk hj)

module _ (business_id booking_id : ℕ) where
  pub Apart-release :
      (by : Option ℕ) (locks : List SlotLock)
      → Apart locks
      → Apart (update_many (is_held_by business_id booking_id) (release by) locks)
  Apart-release by = Apart-update _ _ (λ l hit held. cc)

  pub Apart-allocate :
      (locks : List SlotLock)
      → Apart locks
      → Apart (update_many (is_locked_by business_id booking_id) allocate locks)
  Apart-allocate = Apart-update _ _ λ l hit held. (ground arith, (refl, refl, refl, refl))

  -- A release takes no slot from the bookings that keep theirs, if this booking keeps none.
  pub Kept-release :
      (by : Option ℕ) (bookings : List Booking) (locks : List SlotLock)
      → ((b : Booking)
          → Memᴰ b bookings
          → b.business_id ≡ business_id
          → b.id ≡ booking_id
          → keeps_slot b.status ≡ false)
      → Kept bookings locks
      → Kept bookings (update_many (is_held_by business_id booking_id) (release by) locks)
  Kept-release by bookings locks gone k b mb keeps =
      any-update_many (covers b) (is_held_by business_id booking_id) (release by) locks
        (λ l c. ground (arith, gone b mb)) (k b mb keeps)

  pub Kept-allocate :
      (bookings : List Booking) (locks : List SlotLock)
      → Kept bookings locks
      → Kept bookings (update_many (is_locked_by business_id booking_id) allocate locks)
  Kept-allocate bookings locks k b mb keeps =
      any-update_many (covers b) (is_locked_by business_id booking_id) allocate locks
        (λ l c. ground arith) (k b mb keeps)

module _ (p : Booking → Bool) (f : Booking → Booking)
    (id_kept : (b : Booking) → (f b).id ≡ b.id) where
  updated-id : (x : Booking) → (if p x then f x else x).id ≡ x.id
  updated-id x = ground (arith, id_kept x)

  pub UniqueIds-update :
      (bookings : List Booking) → UniqueIds bookings → UniqueIds (update_many p f bookings)
  UniqueIds-update bookings u b c mb mc same =
      let (x, mx, ex) = mem-update_many p f bookings mb in
      let (y, my, ey) = mem-update_many p f bookings mc in
      let ids : x.id ≡ y.id =
        sym (updated-id x)
        ∙ sym (ap (λ (z : Booking). z.id) ex)
        ∙ same
        ∙ ap (λ (z : Booking). z.id) ey
        ∙ updated-id y in
      ex ∙ ap (λ (z : Booking). if p z then f z else z) (u x y mx my ids) ∙ sym ey

  pub FreshIds-update :
      (next : ℕ) (bookings : List Booking)
      → FreshIds next bookings
      → FreshIds next (update_many p f bookings)
  FreshIds-update next bookings h b mb =
      let (x, mx, ex) = mem-update_many p f bookings mb in
      let same : b.id ≡ x.id = ap (λ (z : Booking). z.id) ex ∙ updated-id x in omega (arith, h x mx)

module _ (a : TransitionArgs) where
  pub Kept-transition :
      (bookings : List Booking) (locks : List SlotLock)
      → (keeps_slot a.to ≡ true → keeps_slot a.from ≡ true)
      → Kept bookings locks
      → Kept (update_many (matches_transition a) (set_status a.to) bookings) locks
  Kept-transition bookings locks mono k b mb keeps =
      let (x, mx, e) = mem-update_many (matches_transition a) (set_status a.to) bookings mb in
      elim (Bool-cases (matches_transition a x)) [
        | inl hit ↦
            let e' : b ≡ set_status a.to x = rw hit at e in
            let from : x.status ≡ a.from = booking_state_is-eq _ _ (ground arith) in
            rw e' (k x mx (ground arith))
        | inr miss ↦ let e' : b ≡ x = rw miss at e in rw e' (k x mx (rw e' at keeps))
      ]

  -- With unique ids, a transition that counts one row leaves its booking in the new status.
  pub transition-status :
      (bookings : List Booking)
      → UniqueIds bookings
      → count_where (matches_transition a) bookings ≡ 1
      → (b : Booking) → Memᴰ b (update_many (matches_transition a) (set_status a.to) bookings)
      → b.id ≡ a.booking_id
      → b.status ≡ a.to
  transition-status bookings u one b mb id =
      let (x, mx, e) = mem-update_many (matches_transition a) (set_status a.to) bookings mb in
      let (y, my, hit) = mem_of_count_where (matches_transition a) bookings one in
      let x-id : x.id ≡ b.id =
        sym (updated-id (matches_transition a) (set_status a.to) (λ z. refl) x)
        ∙ sym (ap (λ (z : Booking). z.id) e) in
      let same : y ≡ x = u y x my mx (ground arith) in
      let hit' : matches_transition a x ≡ true = rw same at hit in
      let e' : b ≡ set_status a.to x = rw hit' at e in ap (λ (z : Booking). z.status) e'
