-- ===== src/Booking/Create.antt =====
-- backend/src/domain/services/booking.service.ts: `createBooking`, before its transaction
-- (`begin_booking`) and after it (`finish_booking`).
use werefa.Prelude.{
  ℕ, ◌+◌, ◌*◌, Bool, true, Option, none, some, List, [], ltb, ◌==◌, if◌then◌else◌, any, find_first,
  length,
}
use werefa.Errors.{
  Result, ok, err, business_not_found, business_paused, proof_required, proof_file_too_large,
  proof_file_type_invalid, unavailable_appointment,
}
use werefa.Prepayment.{PrepaymentSettings, compute_prepaid_amount}
use werefa.ProofFile.{proof_max_bytes, sniff_proof, is_allowed_proof_mime_type, mime_text}
use werefa.Store.{ComponentSnapshot, Db}
use werefa.Store.Bookings.{find_by_id}
use werefa.Store.Payments.{KeyRow, find_by_submission_key}
use werefa.Catalog.{Selection, Resolved}
use werefa.Tenant.{Business}
use werefa.Booking.World.{
  World, Reply, payment_proof_received, store_object, delete_object, after_commit,
}
use werefa.Booking.Transactions.{◌>>=◌, or_throw}
use werefa.Booking.Idempotency.{CommitRef, idempotent_ref}
use werefa.Booking.Owner.{Calendar, strip_seconds, same_minute, minute_ms}
use werefa.Booking.Claiming.{BookingInput, StagedProof, Claim, claim_tx}

pub record Settings : Type 0 where
  pub is_paused : Bool
  pub prepayment : PrepaymentSettings

-- The services that `createBooking` asks: the settings row, the subscription gate and the catalog.
pub record Desk : Type 0 where
  pub settings_of : ℕ → Option Settings
  pub booking_gate : ℕ → Result (Unit {0})
  pub combinations : ℕ → List Selection → Result Resolved
  pub calendar : Calendar

-- The first part ends in a replay's answer or in a claim for the transaction.
pub data Begun : Type 0 where
  replayed : Reply → Begun
  claims : Claim → Begun

-- `resolveIdempotent`
unfoldable resolve_idempotent : Db → KeyRow → ℕ → ℕ → List ComponentSnapshot → ℕ → Result Begun
resolve_idempotent db row business_id start_at components phone = do
  ref ← idempotent_ref db row business_id start_at components phone
  booking ← or_throw (find_by_id db business_id ref.booking_id) business_not_found
  ok (replayed (record { booking = booking; events = [] }))

-- The magic-byte gate on the uploaded bytes.
unfoldable pub check_proof : List ℕ → Result (Unit {0})
check_proof bytes =
    if ltb proof_max_bytes (length bytes)
    then err proof_file_too_large
    else elim (sniff_proof bytes) [
      | none ↦ err proof_file_type_invalid
      | some s ↦
          if is_allowed_proof_mime_type (mime_text s.mime_type)
          then ok tt
          else err proof_file_type_invalid
    ]

-- Missing and bad proofs are refused before the availability is read.
unfoldable check_upload : ℕ → Option (List ℕ) → Result (Unit {0})
unfolding check_proof
check_upload prepaid none = if ltb 0 prepaid then err proof_required else ok tt
check_upload prepaid (some bytes) = check_proof bytes

unfoldable pub stage_proof : World → Option (List ℕ) → Option StagedProof × World
stage_proof w none = (none, w)
stage_proof w (some bytes) =
    let (key, w') = store_object w in
    (some (record { storage_key = key; size_bytes = length bytes }), w')

unfoldable pub discard_staged : Option StagedProof → World → World
discard_staged none w = w
discard_staged (some s) w = delete_object s.storage_key w

-- The business that takes new bookings now.
unfoldable open_business : Desk → World → ℕ → Result (Business × Settings)
open_business desk w slug = do
  biz ← or_throw (find_first (λ (b : Business). b.slug == slug) w.businesses) business_not_found
  active ← (if biz.deactivated then err business_paused else ok biz)
  settings ← or_throw (desk.settings_of active.id) business_paused
  running ← (if settings.is_paused then err business_paused else ok settings)
  gated ← desk.booking_gate active.id
  ok (active, running)

-- The pre-check of the slot, which the same key may have claimed in the meantime.
unfoldable pub precheck : Desk → World → Claim → ℕ → World × Result Begun
unfolding discard_staged resolve_idempotent
precheck desk w c duration =
    if any (same_minute c.start_at) (
      desk.calendar.slot_starts w.db c.business_id (desk.calendar.date_key c.start_at) duration
        true)
    then (w, ok (claims c))
    else elim (find_by_submission_key w.db c.input.submission_key) [
      | none ↦ (discard_staged c.staged w, err unavailable_appointment)
      | some row ↦ (
        discard_staged c.staged w,
        resolve_idempotent w.db row c.business_id c.start_at c.components c.input.customer_phone,
      )
    ]

-- From the settled request on: replay, proof, staging, pre-check.
unfoldable pub begin_resolved :
    Desk → World → BookingInput → Business → Settings → Resolved → World × Result Begun
unfolding resolve_idempotent check_upload stage_proof precheck
begin_resolved desk w input biz settings r =
    let start_at = strip_seconds input.start_at in
    let prepaid = compute_prepaid_amount (some settings.prepayment) r.total_price_minor in
    elim (find_by_submission_key w.db input.submission_key) [
      | some row ↦
          (w, resolve_idempotent w.db row biz.id start_at r.components input.customer_phone)
      | none ↦ elim (check_upload prepaid input.proof) [
        | err e ↦ (w, err e)
        | ok _ ↦
            let (staged, w') = stage_proof w input.proof in
            precheck desk w'
              (record {
                business_id = biz.id;
                input = input;
                start_at = start_at;
                end_at = start_at + r.total_duration_minutes * minute_ms;
                slot_date = desk.calendar.slot_date start_at;
                prepaid = prepaid;
                components = r.components;
                staged = staged;
              })
              r.total_duration_minutes
      ]
    ]

unfoldable pub begin_booking : Desk → World → BookingInput → World × Result Begun
unfolding open_business begin_resolved
begin_booking desk w input = elim (open_business desk w input.business_slug) [
  | err e ↦ (w, err e)
  | ok (biz, settings) ↦ elim (desk.combinations biz.id input.selections) [
    | err e ↦ (w, err e)
    | ok r ↦ begin_resolved desk w input biz settings r
  ]
]

-- After the transaction: the reply and its event, or the staged object is removed.
unfoldable pub after_claim : World → Claim → Result (CommitRef × Db) → World × Result Reply
unfolding discard_staged
after_claim w c (err e) = (discard_staged c.staged w, err e)
after_claim w c (ok (ref, db)) =
    after_commit (record w { db = db }) c.business_id ref.booking_id ref.customer_phone
      payment_proof_received

unfoldable pub finish_booking : World → Claim → World × Result Reply
unfolding after_claim
finish_booking w c = after_claim w c (claim_tx c w.db)

unfoldable pub continue_with : World → Result Begun → World × Result Reply
unfolding finish_booking
continue_with w (err e) = (w, err e)
continue_with w (ok (replayed r)) = (w, ok r)
continue_with w (ok (claims c)) = finish_booking w c

unfoldable pub create : Desk → World → BookingInput → World × Result Reply
unfolding begin_booking continue_with
create desk w input = let (w', begun) = begin_booking desk w input in continue_with w' begun
