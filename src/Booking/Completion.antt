-- ===== src/Booking/Completion.antt =====
-- backend/src/domain/services/booking.service.ts and the reads behind it: the job that completes the
-- CONFIRMED bookings whose end has passed.
use werefa.Prelude.{
  ℕ, suc, Bool, ◌&&◌, none, List, [], ◌∷◌, ltb, leb, ◌==◌, if◌then◌else◌, select, take,
}
use werefa.Store.{confirmed, Booking, Db, booking_state_is, system}
use werefa.Booking.Transactions.{Action, complete_tx}

abbrev is_due : ℕ → ℕ → Booking → Bool
is_due business_id now b =
    b.business_id == business_id && (booking_state_is b.status confirmed && leb b.end_at now)

insert_by_end : Booking → List Booking → List Booking
insert_by_end b [] = b ∷ []
insert_by_end b (c ∷ cs) = if ltb c.end_at b.end_at then c ∷ insert_by_end b cs else b ∷ c ∷ cs

-- `orderBy: { endAt: 'asc' }`
sort_by_end : List Booking → List Booking
unfolding insert_by_end
sort_by_end [] = []
sort_by_end (b ∷ bs) = insert_by_end b (sort_by_end bs)

unfoldable pub list_due_for_completion : Db → ℕ → ℕ → ℕ → List Booking
unfolding sort_by_end
list_due_for_completion db business_id now limit =
    take limit (sort_by_end (select (is_due business_id now) db.bookings))

abbrev pub system_action : ℕ → ℕ → Action
system_action business_id booking_id = record {
  business_id = business_id;
  booking_id = booking_id;
  actor_type = system;
  actor_user_id = none;
}

-- The loop of `autoCompleteDueBookings`: how many were completed, and the tables.
unfoldable pub complete_each : ℕ → List Booking → ℕ → Db → ℕ × Db
complete_each business_id [] done db = (done, db)
complete_each business_id (b ∷ bs) done db =
    let r = complete_tx (system_action business_id b.id) db in
    complete_each business_id bs (if r.0 then suc done else done) r.1

unfoldable pub auto_complete_due_bookings : Db → ℕ → ℕ → ℕ × Db
unfolding complete_each list_due_for_completion
auto_complete_due_bookings db business_id now =
    complete_each business_id (list_due_for_completion db business_id now 50) 0 db
