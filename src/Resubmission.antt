-- ===== src/Resubmission.antt =====
-- backend/src/domain/services/resubmission.service.ts and
-- backend/src/domain/repositories/prisma-resubmission.repository.ts: the one-time codes with which a
-- customer uploads a new proof for a REJECTED booking. Hashing and the delivery of a code are parameters.
pub mod Reopening
pub mod Guard
pub mod Effects
use werefa.Prelude.{
  ℕ, ◌+◌, ◌*◌, suc, Bool, true, false, not, ◌&&◌, Option, none, some, List, [], ◌∷◌, ltb, leb, ◌==◌,
  if◌then◌else◌, find_first, count_where, update_many, length,
}
use werefa.Errors.{
  Result, ok, err, business_not_found, invalid_lifecycle_transition, rate_limited,
  idempotency_conflict, invalid_resubmission_code, resubmission_code_expired,
  resubmission_code_used, invalid_payment_state, proof_required,
}
use werefa.Store.{Booking, Payment, PaymentProof, Db, rejected, booking_state_is, customer}
use werefa.Store.Bookings.{find_by_id}
use werefa.Store.Payments.{KeyRow, find_by_submission_key}
use werefa.Tenant.{Business}
use werefa.Booking.Transactions.{◌>>=◌, or_throw, Action, Resubmission, resubmit_tx}
use werefa.Booking.World.{World, Reply, Event, payment_proof_received, store_object, delete_object}
use werefa.Booking.Create.{check_proof}

abbrev code_ttl_ms : ℕ
code_ttl_ms = 10 * 60 * 1000

abbrev max_attempts : ℕ
max_attempts = 5

abbrev max_active_codes : ℕ
max_active_codes = 5

-- A row of the codes; all have the one purpose of this service. The newest stands first.
pub record Verification : Type 0 where
  pub id : ℕ
  pub booking_id : ℕ
  pub business_id : ℕ
  pub phone : ℕ
  pub code_hash : ℕ
  pub expires_at : ℕ
  pub used : Bool
  pub attempts : ℕ

pub data SecurityType : Type 0 where
  code_request code_check resubmission_proof no_channel : SecurityType

pub data Outcome : Type 0 where
  fine failed limited expired : Outcome

pub record SecurityEvent : Type 0 where
  pub business_id : ℕ
  pub type : SecurityType
  pub result : Outcome

pub record Station : Type 0 where
  pub world : World
  pub codes : List Verification
  pub security : List SecurityEvent
  pub next_code : ℕ

-- SHA-256 of a code, and whether the customer of a phone number can be reached.
pub record Channel : Type 0 where
  pub hash_code : ℕ → ℕ
  pub is_reachable : ℕ → Bool

pub record ResubmitInput : Type 0 where
  pub business_slug : ℕ
  pub phone : ℕ
  pub booking_id : ℕ
  pub code : ℕ
  pub submission_key : ℕ
  pub proof : Option (List ℕ)

-- `securityEvent`
abbrev pub note_security : ℕ → SecurityType → Outcome → Station → Station
note_security business_id type result s = record s {
  security = record { business_id = business_id; type = type; result = result } ∷ s.security;
}

abbrev is_active_code : ℕ → ℕ → ℕ → Verification → Bool
is_active_code business_id booking_id phone v =
    v.business_id == business_id && (v.booking_id == booking_id && (v.phone == phone && not v.used))

-- `findActiveByBookingAndPhone`
unfoldable pub find_active : Station → ℕ → ℕ → ℕ → Option Verification
find_active s business_id booking_id phone =
    find_first (is_active_code business_id booking_id phone) s.codes

-- `registerAttempt`
abbrev register_attempt : ℕ → List Verification → List Verification
register_attempt id codes =
    update_many (λ (v : Verification). v.id == id && not v.used)
      (λ v. record v { attempts = suc v.attempts }) codes

-- `markUsed`, none when the code was used in the meantime.
unfoldable pub mark_used : ℕ → ℕ → List Verification → Option (List Verification)
mark_used id business_id codes =
    let is_it = λ (v : Verification). v.id == id && (v.business_id == business_id && not v.used) in
    if count_where is_it codes == 1
    then some (update_many is_it (λ v. record v { used = true }) codes)
    else none

-- The codes of a booking that count against its limit.
abbrev active_codes : Station → ℕ → ℕ → ℕ → ℕ
active_codes s business_id booking_id now =
    count_where
      (λ (v : Verification).
        v.business_id == business_id
        && (v.booking_id == booking_id && (not v.used && ltb now v.expires_at)))
      s.codes

-- A new code is stored and delivered, or voided when it cannot be delivered.
unfoldable pub issue_code : Channel → Station → ℕ → ℕ → ℕ → ℕ → ℕ → Station × Result (ℕ × ℕ)
issue_code ch s now code business_id booking_id phone =
    let row : Verification = record {
      id = s.next_code;
      booking_id = booking_id;
      business_id = business_id;
      phone = phone;
      code_hash = ch.hash_code code;
      expires_at = now + code_ttl_ms;
      used = false;
      attempts = 0;
    } in
    let issued =
      note_security business_id code_request fine
        (record s { codes = row ∷ s.codes; next_code = suc s.next_code }) in
    let voided : Station = elim (mark_used row.id business_id issued.codes) [
      | none ↦ issued
      | some codes ↦ record issued { codes = codes }
    ] in
    (
      if ch.is_reachable phone then issued else note_security business_id no_channel fine voided,
      ok (row.id, row.expires_at),
    )

request_for : Channel → Station → ℕ → ℕ → ℕ → ℕ → Option Booking → Station × Result (ℕ × ℕ)
unfolding issue_code
request_for ch s now code business_id phone none =
    (note_security business_id code_request failed s, err business_not_found)
request_for ch s now code business_id phone (some b) =
    if not (b.customer_phone == phone)
    then (note_security business_id code_request failed s, err business_not_found)
    else if not (booking_state_is b.status rejected)
    then (note_security business_id code_request failed s, err invalid_lifecycle_transition)
    else if leb max_active_codes (active_codes s business_id b.id now)
    then (note_security business_id code_request limited s, err rate_limited)
    else issue_code ch s now code business_id b.id phone

-- `requestCode`, with the code that `generateCode` draws.
unfoldable pub request_code : Channel → Station → ℕ → ℕ → ℕ → ℕ → ℕ → Station × Result (ℕ × ℕ)
unfolding request_for
request_code ch s now code slug phone booking_id =
    elim (find_first (λ (b : Business). b.slug == slug) s.world.businesses) [
      | none ↦ (s, err business_not_found)
      | some biz ↦ request_for ch s now code biz.id phone (find_by_id s.world.db biz.id booking_id)
    ]

-- The checks of the code, each with its security event; a wrong code counts as an attempt.
unfoldable pub check_code :
    Channel → Station → ℕ → ℕ → ℕ → Option Verification → Station × Result Verification
check_code ch s now code business_id none =
    (note_security business_id code_check failed s, err invalid_resubmission_code)
check_code ch s now code business_id (some v) =
    if leb max_attempts v.attempts
    then (note_security business_id code_check limited s, err rate_limited)
    else if ltb v.expires_at now
    then (note_security business_id code_check expired s, err resubmission_code_expired)
    else if not (ch.hash_code code == v.code_hash)
    then (
      note_security business_id code_check failed
          (record s { codes = register_attempt v.id s.codes }),
      err invalid_resubmission_code,
    )
    else (s, ok v)
