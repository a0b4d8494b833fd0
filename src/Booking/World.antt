-- ===== src/Booking/World.antt =====
-- What the booking services read and change beside the tables: the businesses, the proof storage and
-- the events that were published.
use werefa.Prelude.{ℕ, suc, not, none, some, List, [], ◌∷◌, ◌==◌, select}
use werefa.Errors.{Result, ok, err, business_not_found}
use werefa.Store.{Booking, Db}
use werefa.Store.Bookings.{find_by_id}
use werefa.Tenant.{Business}

pub data EventType : Type 0 where
  payment_proof_received booking_confirmed payment_rejected : EventType
  booking_cancelled no_show_event booking_rescheduled : EventType

pub record Event : Type 0 where
  pub type : EventType
  pub business_id : ℕ
  pub booking_id : ℕ
  pub customer_phone : ℕ

-- The stored proof objects are known by their keys; `next_key` stands for the random uuid.
pub record World : Type 0 where
  pub db : Db
  pub businesses : List Business
  pub objects : List ℕ
  pub next_key : ℕ
  pub events : List Event

pub record Reply : Type 0 where
  pub booking : Booking
  pub events : List Event

-- `proofStorage.store`, under a key that no object has yet.
abbrev pub store_object : World → ℕ × World
store_object w =
    (w.next_key, record w { objects = w.next_key ∷ w.objects; next_key = suc w.next_key })

-- `proofStorage.delete`
abbrev pub delete_object : ℕ → World → World
delete_object key w = record w { objects = select (λ k. not (k == key)) w.objects }

-- `afterCommit`: read the booking back, publish one event.
unfoldable pub after_commit : World → ℕ → ℕ → ℕ → EventType → World × Result Reply
after_commit w business_id booking_id phone type = elim (find_by_id w.db business_id booking_id) [
  | none ↦ (w, err business_not_found)
  | some b ↦
      let event : Event = record {
        type = type;
        business_id = business_id;
        booking_id = booking_id;
        customer_phone = phone;
      } in
      (record w { events = event ∷ w.events }, ok (record { booking = b; events = event ∷ [] }))
]

-- The transaction commits and the code after it runs, or it throws and nothing is changed.
unfoldable pub run_tx : World → Result Db → (World → World × Result Reply) → World × Result Reply
run_tx w (err e) k = (w, err e)
run_tx w (ok db) k = k (record w { db = db })
