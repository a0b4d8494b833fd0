-- ===== src/Booking/Idempotency.antt =====
-- backend/src/domain/services/booking.service.ts: when a repeated submission key is the same request.
use werefa.Prelude.{
  ℕ, Bool, not, ◌||◌, Option, none, some, List, [], ◌∷◌, ◌++◌, ◌==◌, if◌then◌else◌, or_default, map,
}
use werefa.Texts.{code_points, decimal}
use werefa.Errors.{Result, ok, err, idempotency_conflict, business_not_found}
use werefa.Store.{
  text_eq, Text, ComponentType, service, variation, add_on, ComponentSnapshot, Booking, Db,
}
use werefa.Store.Bookings.{find_by_id}
use werefa.Store.Payments.{KeyRow}

abbrev component_text : ComponentType → Text
component_text service = code_points "SERVICE"
component_text variation = code_points "VARIATION"
component_text add_on = code_points "ADD_ON"

-- `Array.prototype.join`
abbrev join_with : ℕ → List Text → Text
join_with sep [] = []
join_with sep (t ∷ []) = t
join_with sep (t ∷ u ∷ ts) = t ++ sep ∷ join_with sep (u ∷ ts)

unfoldable line_of : ComponentSnapshot → Text
unfolding decimal
line_of c = join_with b'|' (
    component_text c.component_type
    ∷ or_default c.service_id []
    ∷ c.name_snapshot
    ∷ decimal c.unit_price_minor
    ∷ decimal c.duration_minutes
    ∷ [])

-- The lines, joined by a line feed.
unfoldable pub component_signature : List ComponentSnapshot → Text
unfolding line_of
component_signature components = join_with 10 (map line_of components)

unfoldable booking_differs : Booking → ℕ → List ComponentSnapshot → Bool
booking_differs booking start_at components =
    not (booking.start_at == start_at)
    || not (text_eq (component_signature booking.components) (component_signature components))

-- What the transaction hands to the code after the commit.
pub record CommitRef : Type 0 where
  pub booking_id : ℕ
  pub customer_phone : ℕ

same_request : Option Booking → ℕ → List ComponentSnapshot → ℕ → Result CommitRef
unfolding booking_differs
same_request none start_at components phone = err business_not_found
same_request (some b) start_at components phone =
    if not (b.customer_phone == phone)
    then err idempotency_conflict
    else if booking_differs b start_at components
    then err idempotency_conflict
    else ok (record { booking_id = b.id; customer_phone = b.customer_phone })

unfoldable pub idempotent_ref : Db → KeyRow → ℕ → ℕ → List ComponentSnapshot → ℕ → Result CommitRef
unfolding same_request
idempotent_ref db row business_id start_at components phone =
    if not (row.business_id == business_id)
    then err idempotency_conflict
    else same_request (find_by_id db business_id row.booking_id) start_at components phone
