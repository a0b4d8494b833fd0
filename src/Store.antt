-- ===== src/Store.antt =====
-- backend/prisma/schema.prisma as the booking repositories use it: the rows of the booking tables. An
-- identifier, and a text that is only stored and compared, is a number that names it; a `Date` is
-- its number of milliseconds.
pub mod Bookings
pub mod Payments
use werefa.Prelude.{
  ℕ, ◌≡◌, refl, Bool, true, false, ◌&&◌, ◌==◌, Option, none, some, List, [], ◌∷◌, arith,
}

pub data BookingState : Type 0 where
  payment_pending confirmed rejected completed no_show cancelled : BookingState

pub data PaymentState : Type 0 where
  pending accepted declined : PaymentState

pub data SlotLockState : Type 0 where
  locked allocated released : SlotLockState

pub data PaymentMethod : Type 0 where
  bank_transfer telebirr_mobile_money : PaymentMethod

pub data ActorType : Type 0 where
  system customer owner admin super_admin : ActorType

pub data ComponentType : Type 0 where
  service variation add_on : ComponentType

-- A text whose code units matter.
abbrev pub Text : Type 0
Text = List ℕ

abbrev pub text_eq : Text → Text → Bool
text_eq [] [] = true
text_eq (x ∷ xs) (y ∷ ys) = x == y && text_eq xs ys
text_eq _ _ = false

pub text_eq_refl : (t : Text) → text_eq t t ≡ true
text_eq_refl [] = refl
text_eq_refl (c ∷ cs) = ground (arith, text_eq_refl cs)

pub record ComponentSnapshot : Type 0 where
  pub service_id : Option Text
  pub component_type : ComponentType
  pub name_snapshot : Text
  pub unit_price_minor : ℕ
  pub duration_minutes : ℕ

pub record Booking : Type 0 where
  pub id : ℕ
  pub business_id : ℕ
  pub status : BookingState
  pub customer_name : ℕ
  pub customer_phone : ℕ
  pub note : Option ℕ
  pub start_at : ℕ
  pub end_at : ℕ
  pub components : List ComponentSnapshot

pub record Payment : Type 0 where
  pub id : ℕ
  pub booking_id : ℕ
  pub business_id : ℕ
  pub status : PaymentState
  pub method : PaymentMethod
  pub prepaid_minor : ℕ

pub record PaymentProof : Type 0 where
  pub id : ℕ
  pub payment_id : ℕ
  pub business_id : ℕ
  pub submission_key : ℕ
  pub file_object_id : Option ℕ
  pub replaced_by_proof_id : Option ℕ

pub record SlotLock : Type 0 where
  pub business_id : ℕ
  pub booking_id : ℕ
  pub slot_date : ℕ
  pub start_at : ℕ
  pub end_at : ℕ
  pub state : SlotLockState
  pub released_by : Option ℕ

pub record BookingStatusHistory : Type 0 where
  pub booking_id : ℕ
  pub business_id : ℕ
  pub from_status : Option BookingState
  pub to_status : BookingState
  pub actor_type : ActorType
  pub actor_user_id : Option ℕ
  pub reason : Option ℕ

pub record PaymentStatusHistory : Type 0 where
  pub payment_id : ℕ
  pub business_id : ℕ
  pub from_status : Option PaymentState
  pub to_status : PaymentState
  pub actor_type : ActorType
  pub actor_user_id : Option ℕ
  pub reason : Option ℕ

-- The uploaded proof that a payment row can point to.
pub record FileObject : Type 0 where
  pub id : ℕ
  pub business_id : ℕ
  pub storage_key : ℕ
  pub size_bytes : ℕ

-- The tables, the newest row first, and the numbers that the next rows get.
pub record Db : Type 0 where
  pub bookings : List Booking
  pub payments : List Payment
  pub proofs : List PaymentProof
  pub slot_locks : List SlotLock
  pub booking_history : List BookingStatusHistory
  pub payment_history : List PaymentStatusHistory
  pub file_objects : List FileObject
  pub next_booking : ℕ
  pub next_payment : ℕ
  pub next_proof : ℕ
  pub next_file : ℕ

abbrev pub empty_db : Db
empty_db = record {
  bookings = [];
  payments = [];
  proofs = [];
  slot_locks = [];
  booking_history = [];
  payment_history = [];
  file_objects = [];
  next_booking = 1;
  next_payment = 1;
  next_proof = 1;
  next_file = 1;
}

-- status in (PAYMENT_PENDING, CONFIRMED)
abbrev pub is_active : BookingState → Bool
is_active payment_pending = true
is_active confirmed = true
is_active _ = false

-- state in (LOCKED, ALLOCATED)
abbrev pub is_held : SlotLockState → Bool
is_held locked = true
is_held allocated = true
is_held released = false

abbrev pub booking_state_is : BookingState → BookingState → Bool
booking_state_is payment_pending payment_pending = true
booking_state_is confirmed confirmed = true
booking_state_is rejected rejected = true
booking_state_is completed completed = true
booking_state_is no_show no_show = true
booking_state_is cancelled cancelled = true
booking_state_is _ _ = false

abbrev pub payment_state_is : PaymentState → PaymentState → Bool
payment_state_is pending pending = true
payment_state_is accepted accepted = true
payment_state_is declined declined = true
payment_state_is _ _ = false

pub booking_state_is-eq : (a b : BookingState) → booking_state_is a b ≡ true → a ≡ b
booking_state_is-eq a b h = ground arith
