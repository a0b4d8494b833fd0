-- ===== src/Tests/Releases.antt =====
-- The owner releases the slot of a rejected booking.
use werefa.Prelude.{false, ◌≡◌, refl, sym, subst, some, [], ◌∷◌, Memᴰ, update_many}
use werefa.Errors.{ok}
use werefa.Store.{owner}
use werefa.Store.Bookings.{find_by_id, insert_booking, transition_status}
use werefa.Store.Payments.{transition_payment}
use werefa.Tenant.{ActorContext, require_owned_business}
use werefa.Booking.Transactions.{reject_tx}
use werefa.Booking.World.{World}
use werefa.Booking.Owner.{verified_booking, release_slot}
use werefa.Booking.Slots.{IsConsistent}
use werefa.Booking.Releasing.{release_slot-rejected}
use werefa.Tests.Bookings.{rejected_db, rejected_booking, rejected_row}

abbrev refused_world : World
refused_world = record {
  db = rejected_db;
  businesses = record { id = 1; slug = 1; owners = 5 ∷ []; deactivated = false } ∷ [];
  objects = [];
  next_key = 1;
  events = [];
}

abbrev her : ActorContext
her = record { actor_type = owner; actor_user_id = some 5 }

read_back : verified_booking refused_world her 1 1 ≡ ok rejected_booking
unfolding verified_booking require_owned_business find_by_id reject_tx transition_payment
    transition_status insert_booking update_many
read_back = refl

release_slot-rejected_example : ¬ IsConsistent (release_slot refused_world her 1 1).0.db
release_slot-rejected_example =
    release_slot-rejected refused_world her rejected_booking
      (subst (Memᴰ rejected_booking) (sym rejected_row) (Memᴰ.head refl)) refl read_back
