-- ===== src/Errors.antt =====
-- backend/src/domain/errors/domain-errors.ts and backend/src/common/errors/error-codes.ts: the errors
-- that the services throw, their taxonomy codes and HTTP statuses. Titles and details are left out.
use werefa.Prelude.{ℕ, Bool, true, false}

pub data ErrorCode : Type 0 where
  validation_error token_expired token_used forbidden not_found : ErrorCode
  slot_unavailable invalid_transition schedule_affected subscription_expired : ErrorCode
  business_paused_code file_too_large file_type_invalid conflict rate_limited_code : ErrorCode
  internal_error unauthenticated_code account_locked_code : ErrorCode

abbrev error_code_to_http : ErrorCode → ℕ
error_code_to_http validation_error = 400
error_code_to_http token_expired = 401
error_code_to_http token_used = 409
error_code_to_http forbidden = 403
error_code_to_http not_found = 404
error_code_to_http slot_unavailable = 409
error_code_to_http invalid_transition = 409
error_code_to_http schedule_affected = 409
error_code_to_http subscription_expired = 422
error_code_to_http business_paused_code = 422
error_code_to_http file_too_large = 413
error_code_to_http file_type_invalid = 415
error_code_to_http conflict = 409
error_code_to_http rate_limited_code = 429
error_code_to_http internal_error = 500
error_code_to_http unauthenticated_code = 401
error_code_to_http account_locked_code = 423

-- The factories of `domainErrors` and of backend/src/domain/services/auth-errors.ts, the errors that the
-- authentication services throw by themselves, and the violations (P2002) and missing
-- rows (P2025) of the database, with a value that is no uuid (P2023) and a violated CHECK constraint.
pub data DomainError : Type 0 where
  business_not_found unauthorized_tenant_access inactive_service invalid_schedule : DomainError
  unavailable_appointment invalid_booking_state invalid_payment_state : DomainError
  idempotency_conflict slug_conflict invalid_resubmission_code : DomainError
  resubmission_code_expired resubmission_code_used rate_limited : DomainError
  subscription_disabled business_paused schedule_conflict : DomainError
  invalid_lifecycle_transition proof_file_too_large proof_file_type_invalid : DomainError
  proof_required : DomainError
  p2002_submission_key p2002_slot_lock p2025_missing_row : DomainError
  p2023_invalid_uuid check_violation : DomainError
  invalid_credentials account_locked generic_conflict unauthenticated : DomainError
  recovery_code_invalid not_permitted password_mismatch password_length : DomainError
  p2002_token_hash telegram_callback_invalid : DomainError

abbrev code_of : DomainError → ErrorCode
code_of business_not_found = not_found
code_of unauthorized_tenant_access = forbidden
code_of inactive_service = validation_error
code_of invalid_schedule = validation_error
code_of unavailable_appointment = slot_unavailable
code_of invalid_booking_state = invalid_transition
code_of invalid_payment_state = invalid_transition
code_of idempotency_conflict = conflict
code_of slug_conflict = conflict
code_of invalid_resubmission_code = validation_error
code_of resubmission_code_expired = token_expired
code_of resubmission_code_used = token_used
code_of rate_limited = rate_limited_code
code_of subscription_disabled = subscription_expired
code_of business_paused = business_paused_code
code_of schedule_conflict = schedule_affected
code_of invalid_lifecycle_transition = invalid_transition
code_of proof_file_too_large = file_too_large
code_of proof_file_type_invalid = file_type_invalid
code_of proof_required = validation_error
code_of p2002_submission_key = internal_error
code_of p2002_slot_lock = internal_error
code_of p2025_missing_row = internal_error
code_of p2023_invalid_uuid = internal_error
code_of check_violation = internal_error
code_of invalid_credentials = unauthenticated_code
code_of account_locked = account_locked_code
code_of generic_conflict = conflict
code_of unauthenticated = unauthenticated_code
code_of recovery_code_invalid = token_expired
code_of not_permitted = forbidden
code_of password_mismatch = validation_error
code_of password_length = validation_error
code_of p2002_token_hash = internal_error
code_of telegram_callback_invalid = token_expired

-- A value, or the error that was thrown.
pub data Result {ℓ} (A : Type ℓ) : Type ℓ where
  ok : A → Result A
  err : DomainError → Result A

unfoldable pub is_ok {ℓ} : {A : Type ℓ} → Result A → Bool
is_ok (ok a) = true
is_ok (err e) = false
