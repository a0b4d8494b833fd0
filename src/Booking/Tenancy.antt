-- ===== src/Booking/Tenancy.antt =====
-- The tenant guard of the owner's calls (backend/src/domain/authorization/tenant-guard.ts and the
-- methods of backend/src/domain/services/booking.service.ts): who may call, and on whose rows.
use werefa.Prelude.{ℕ, ◌≢◌}
use werefa.Tenant.{ActorContext}
use werefa.Booking.World.{World}
use werefa.Booking.Owner.{Calendar, action}
use werefa.Booking.Serving.{OwnerCall, owner_call, owner_call-keeps}
use werefa.Booking.Isolation.{
  Untouched, Untouched-refl, accept_tx-Untouched, reject_tx-Untouched, cancel_tx-Untouched,
  no_show_tx-Untouched, reschedule_tx-Untouched,
}

-- An owner's call on a booking of one business leaves the bookings and the slot locks of every other
-- business as they were.
pub owner_call-Untouched :
    (cal : Calendar) (w : World) (ctx : ActorContext) (n k : ℕ) (c : OwnerCall) (m : ℕ)
    → n ≢ m
    → Untouched m w.db (owner_call cal w ctx n k c).0.db
owner_call-Untouched cal w ctx n k c m other =
    let a = action ctx n k in
    owner_call-keeps (Untouched m w.db) w Untouched-refl cal ctx n k
      (λ p. accept_tx-Untouched m a other p w.db)
      (λ p reason. reject_tx-Untouched m a other p reason w.db)
      (λ s r. cancel_tx-Untouched m a other s r w.db) (no_show_tx-Untouched m a other w.db)
      (λ d s e. reschedule_tx-Untouched m a other d s e w.db) c
