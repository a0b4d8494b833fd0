-- ===== src/Tests/Calls.antt =====
-- Calls of the booking service on the tables of two claims.
use werefa.Prelude.{◌≡◌, refl, false, none, some, List, [], ◌∷◌, arith, update_many, map}
use werefa.Errors.{ok, err, business_not_found}
use werefa.Store.{Booking, BookingState, owner, confirmed, payment_pending}
use werefa.Store.Bookings.{find_by_id, transition_status, allocate_slot_locks, insert_booking}
use werefa.Store.Payments.{transition_payment}
use werefa.Tenant.{Business, ActorContext, require_owned_business}
use werefa.Booking.World.{World, after_commit, run_tx}
use werefa.Booking.Transactions.{accept_tx}
use werefa.Booking.Owner.{Calendar, verified_booking, accept_proof}
use werefa.Booking.Create.{Desk}
use werefa.Booking.History.{History}
use werefa.Booking.Serving.{owning, accepting, moving_to, owner_call, serve}
use werefa.Booking.Refinement.{serve-History}
use werefa.Booking.Isolation.{Untouched}
use werefa.Booking.Tenancy.{owner_call-Untouched}
use werefa.Tests.Bookings.{two_bookings, two_claims}

abbrev salon : Business
salon = record { id = 1; slug = 1; owners = 5 ∷ []; deactivated = false }

abbrev world : World
world = record {
  db = two_bookings;
  businesses = salon ∷ [];
  objects = [];
  next_key = 1;
  events = [];
}

-- A calendar that offers every slot at ten o'clock.
abbrev calendar : Calendar
calendar = record {
  slot_starts = λ db n day duration gates. 36000000 ∷ [];
  date_key = λ t. 0;
  slot_date = λ t. 0;
}

abbrev desk : Desk
desk = record {
  settings_of = λ n. none;
  booking_gate = λ n. ok tt;
  combinations = λ n s. err business_not_found;
  calendar = calendar;
}

abbrev hair_dresser : ActorContext
hair_dresser = record { actor_type = owner; actor_user_id = some 5 }

abbrev stranger : ActorContext
stranger = record { actor_type = owner; actor_user_id = some 6 }

abbrev statuses_of : List Booking → List BookingState
statuses_of bs = map (λ (b : Booking). b.status) bs

accepted_first :
    statuses_of (serve desk world (owning hair_dresser 1 1 accepting)).db.bookings
    ≡ payment_pending ∷ confirmed ∷ []
unfolding serve owner_call accept_proof verified_booking require_owned_business find_by_id run_tx
    accept_tx transition_payment transition_status allocate_slot_locks after_commit update_many
    insert_booking
accepted_first = refl

serve-History_example : History (serve desk world (owning hair_dresser 1 1 accepting)).db
serve-History_example = serve-History desk world (owning hair_dresser 1 1 accepting) two_claims

owner_call-Untouched_example :
    Untouched 2 two_bookings (owner_call calendar world hair_dresser 1 1 (moving_to 36000000)).0.db
owner_call-Untouched_example =
    owner_call-Untouched calendar world hair_dresser 1 1 (moving_to 36000000) 2 (omega arith)
