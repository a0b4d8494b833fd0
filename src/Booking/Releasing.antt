-- ===== src/Booking/Releasing.antt =====
-- `releaseSlot` of backend/src/domain/services/booking.service.ts on a REJECTED booking.
use werefa.Prelude.{◌≡◌, refl, subst, Memᴰ}
use werefa.Errors.{ok}
use werefa.Store.{Booking, rejected}
use werefa.Tenant.{ActorContext}
use werefa.Booking.Transactions.{release_tx}
use werefa.Booking.World.{World}
use werefa.Booking.Owner.{verified_booking, release_slot}
use werefa.Booking.Slots.{IsConsistent}
use werefa.Booking.History.{release_rejected_breaks}

-- An owner's `releaseSlot` on a REJECTED booking of the business leaves tables that are not consistent:
-- the booking, which may be resubmitted, holds no lock on its window any more.
pub release_slot-rejected :
    (w : World) (ctx : ActorContext) (b : Booking)
    → Memᴰ b w.db.bookings
    → b.status ≡ rejected
    → verified_booking w ctx b.business_id b.id ≡ ok b
    → ¬ IsConsistent (release_slot w ctx b.business_id b.id).0.db
unfolding release_slot release_tx
release_slot-rejected w ctx b m s read v =
    release_rejected_breaks w.db b ctx.actor_user_id m s
      (subst IsConsistent (rw (read, release_slot, s) refl) v)
