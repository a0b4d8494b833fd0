-- ===== src/Booking/Transactions.antt =====
-- backend/src/domain/services/booking.service.ts and resubmission.service.ts: the bodies of the
-- transactions under the business's advisory lock. An error rolls the transaction back, so a body
-- is a function from the tables to an error or the new tables.
use werefa.Prelude.{
  ℕ, ◌≡◌, refl, subst, Bool, true, false, Option, none, some, arith, if◌then◌else◌,
}
use werefa.Errors.{
  Result, ok, err, DomainError, unavailable_appointment, invalid_booking_state,
  invalid_payment_state, invalid_lifecycle_transition,
}
use werefa.Store.{
  BookingState, PaymentState, payment_pending, confirmed, rejected, completed, no_show, cancelled,
  pending, accepted, declined, allocated, ActorType, Db,
}
use werefa.Store.Bookings.{
  TransitionArgs, transition_status, release_slot_lock, allocate_slot_locks, has_active_overlap,
  change_times, create_slot_lock,
}
use werefa.Store.Payments.{
  PaymentTransition, transition_payment, create_file, add_proof, mark_proof_replaced,
}

infixl 5 ◌>>=◌
abbrev pub ◌>>=◌ {ℓ κ} : {A : Type ℓ} {B : Type κ} → Result A → (A → Result B) → Result B
ok a >>= f = f a
err e >>= f = err e

-- `if (!ok) throw …`
abbrev pub or_throw {ℓ} : {A : Type ℓ} → Option A → DomainError → Result A
or_throw none e = err e
or_throw (some a) e = ok a

-- Who acts, on which booking of which business.
pub record Action : Type 0 where
  pub business_id : ℕ
  pub booking_id : ℕ
  pub actor_type : ActorType
  pub actor_user_id : Option ℕ

-- The arguments of `bookingRepo.transitionStatus` and `paymentRepo.transitionStatus`.
abbrev pub moving : Action → BookingState → BookingState → Option ℕ → TransitionArgs
moving a from to reason = record {
  booking_id = a.booking_id;
  business_id = a.business_id;
  from = from;
  to = to;
  actor_type = a.actor_type;
  actor_user_id = a.actor_user_id;
  reason = reason;
}

abbrev pub paying : Action → ℕ → PaymentState → PaymentState → Option ℕ → PaymentTransition
paying a payment_id from to reason = record {
  payment_id = payment_id;
  business_id = a.business_id;
  from = from;
  to = to;
  actor_type = a.actor_type;
  actor_user_id = a.actor_user_id;
  reason = reason;
}

unfoldable pub accept_tx : Action → ℕ → Db → Result Db
accept_tx a payment_id db = do
  paid ←
      or_throw (transition_payment db (paying a payment_id pending accepted none))
        invalid_payment_state
  moved ←
      or_throw (transition_status paid (moving a payment_pending confirmed none))
        invalid_booking_state
  ok (allocate_slot_locks moved a.business_id a.booking_id)

unfoldable pub reject_tx : Action → ℕ → ℕ → Db → Result Db
reject_tx a payment_id reason db = do
  refused ←
      or_throw (transition_payment db (paying a payment_id pending declined (some reason)))
        invalid_payment_state
  or_throw (transition_status refused (moving a payment_pending rejected (some reason)))
      invalid_booking_state

-- The table `cfg` of `cancelBooking`: is the slot released when this status is cancelled?
abbrev pub cancel_releases : BookingState → Option Bool
cancel_releases confirmed = some true
cancel_releases payment_pending = some false
cancel_releases rejected = some true
cancel_releases _ = none

unfoldable pub cancel_tx : Action → BookingState → Bool → Db → Result Db
cancel_tx a current releases db = do
  moved ← or_throw (transition_status db (moving a current cancelled none)) invalid_booking_state
  ok (
      if releases
      then release_slot_lock moved a.business_id a.booking_id a.actor_user_id
      else moved)

unfoldable pub no_show_tx : Action → Db → Result Db
no_show_tx a db = do
  moved ← or_throw (transition_status db (moving a confirmed no_show none)) invalid_booking_state
  ok (release_slot_lock moved a.business_id a.booking_id a.actor_user_id)

unfoldable pub release_tx : Action → Db → Result Db
release_tx a db = ok (release_slot_lock db a.business_id a.booking_id a.actor_user_id)

unfoldable pub reschedule_tx : Action → ℕ → ℕ → ℕ → Db → Result Db
reschedule_tx a slot_date new_start new_end db =
    if has_active_overlap db a.business_id new_start new_end (some a.booking_id)
    then err unavailable_appointment
    else do
      changed ←
          or_throw
            (change_times (release_slot_lock db a.business_id a.booking_id a.actor_user_id)
              a.business_id a.booking_id new_start new_end)
            invalid_booking_state
      create_slot_lock changed (record {
        business_id = a.business_id;
        booking_id = a.booking_id;
        slot_date = slot_date;
        start_at = new_start;
        end_at = new_end;
        state = allocated;
        released_by = none;
      })

-- `completeBooking`: false, with nothing changed, when the booking is not CONFIRMED any more.
unfoldable pub complete_tx : Action → Db → Bool × Db
complete_tx a db = elim (transition_status db (moving a confirmed completed none)) [
  | none ↦ (false, db)
  | some moved ↦ (true, release_slot_lock moved a.business_id a.booking_id none)
]

-- The staged file, the key and the latest proof of a resubmission.
pub record Resubmission : Type 0 where
  pub payment_id : ℕ
  pub latest_proof_id : ℕ
  pub submission_key : ℕ
  pub storage_key : ℕ
  pub size_bytes : ℕ

-- The transaction of `resubmit`, up to `markUsed`, which touches none of these tables. `reason` is
-- the text 'Proof resubmitted'.
unfoldable pub resubmit_tx : Action → Resubmission → ℕ → Db → Result Db
resubmit_tx a r reason db = do
  moved ←
      or_throw (transition_status db (moving a rejected payment_pending (some reason)))
        invalid_lifecycle_transition
  reopened ←
      or_throw (transition_payment moved (paying a r.payment_id declined pending (some reason)))
        invalid_payment_state
  let (file_id, filed) = create_file reopened a.business_id r.storage_key r.size_bytes
  (proof_id, proved) ← add_proof filed r.payment_id a.business_id r.submission_key (some file_id)
  ok (mark_proof_replaced proved r.latest_proof_id proof_id)

-- A property of the value, if a value is returned.
pub data Ensures {ℓ κ} {A : Type ℓ} (P : A → Type κ) : Result A → Type (ℓ ⊔ κ) where
  returns : {a : A} → P a → Ensures P (ok a)
  throws : {e : DomainError} → Ensures P (err e)

pub bind {ℓ κ λ₁ λ₂} :
    {A : Type ℓ} {B : Type κ} {Q : A → Type λ₁} {P : B → Type λ₂} {m : Result A} {f : A → Result B}
    → Ensures Q m
    → ((a : A) → Q a → Ensures P (f a))
    → Ensures P (m >>= f)
bind (returns {a = x} q) k = k x q
bind throws k = throws

pub thrown {ℓ κ} :
    {A : Type ℓ} {P : A → Type κ} (o : Option A) (e : DomainError)
    → ((a : A) → o ≡ some a → P a)
    → Ensures P (or_throw o e)
thrown none e k = throws
thrown (some a) e k = returns (k a refl)

pub checked {ℓ κ} :
    {A : Type ℓ} {P : A → Type κ} (b : Bool) {x y : Result A}
    → (b ≡ true → Ensures P x)
    → (b ≡ false → Ensures P y)
    → Ensures P (if b then x else y)
checked true k l = k refl
checked false k l = l refl

pub ok-injective {ℓ} : {A : Type ℓ} {a b : A} → ok a ≡ ok b → a ≡ b
ok-injective h = ground (arith, h)

-- What a returned value satisfies.
pub Ensures-ok {ℓ κ} :
    {A : Type ℓ} {P : A → Type κ} {r : Result A} {a : A} → Ensures P r → r ≡ ok a → P a
Ensures-ok {P = P} (returns p) h = subst P (ok-injective h) p
Ensures-ok throws h = cc

pub anything {ℓ} : {A : Type ℓ} (r : Result A) → Ensures (λ _. Unit {0}) r
anything (ok a) = returns tt
anything (err e) = throws

-- What holds of every value that is returned.
pub whenever_ok {ℓ κ} :
    {A : Type ℓ} {P : A → Type κ} (r : Result A) → ((a : A) → r ≡ ok a → P a) → Ensures P r
whenever_ok (ok a) k = returns (k a refl)
whenever_ok (err e) k = throws

pub after {ℓ κ λ₁} :
    {A : Type ℓ} {P : A → Type κ} {Q : A → Type λ₁} {r : Result A}
    → ((a : A) → P a → Q a)
    → Ensures P r
    → Ensures Q r
after k (returns {a = x} p) = returns (k x p)
after k throws = throws
