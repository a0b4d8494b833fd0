-- ===== src/Notices/Keys.antt =====
-- backend/src/domain/notifications/notification-catalog.ts: the keys under which a notice is written once,
-- and what a delivery refers to.
use werefa.Notices.{
  Recipient, NoticeConfig, PayloadRef, NoticeType, to_customer, type_text, to_owner, to_system,
}
use werefa.Prelude.{ℕ, Option, none, some, [], ◌∷◌, ◌++◌}
use werefa.Store.{Text}
use werefa.Texts.{code_points, decimal}

abbrev recipient_text : Recipient → Text
recipient_text to_customer = code_points "customer"
recipient_text to_owner = code_points "owner"
recipient_text to_system = code_points "system"

abbrev pub colon : Text
colon = b':' ∷ []

unfoldable pub delivery_idempotency_key : Recipient → NoticeType → ℕ → Text
unfolding decimal
delivery_idempotency_key recipient type booking_id =
    recipient_text recipient ++ colon ++ type_text type ++ colon ++ decimal booking_id

unfoldable pub auth_delivery_idempotency_key : NoticeConfig → NoticeType → ℕ → Text
auth_delivery_idempotency_key cfg type user_id =
    code_points "system:" ++ type_text type ++ colon ++ cfg.uuid user_id

unfoldable pub admin_subscription_delivery_idempotency_key :
    NoticeConfig → NoticeType → ℕ → ℕ → Text
admin_subscription_delivery_idempotency_key cfg type business_id admin_id =
    code_points "admin:"
    ++ type_text type
    ++ colon
    ++ cfg.uuid business_id
    ++ colon
    ++ cfg.uuid admin_id

unfoldable pub owner_subscription_delivery_idempotency_key :
    NoticeConfig → NoticeType → ℕ → ℕ → Text
owner_subscription_delivery_idempotency_key cfg type business_id proof_id =
    code_points "owner:"
    ++ type_text type
    ++ colon
    ++ cfg.uuid business_id
    ++ colon
    ++ cfg.uuid proof_id

abbrev pub no_payload : PayloadRef
no_payload = record { booking_id = none; accept_token = none; reject_token = none; proof_id = none }

-- `bookingPayloadRef` without tokens, and `subscriptionPayloadRef`.
abbrev pub booking_payload : ℕ → Option PayloadRef
booking_payload booking_id = some (record no_payload { booking_id = some booking_id })

abbrev pub proof_payload : ℕ → Option PayloadRef
proof_payload proof_id = some (record no_payload { proof_id = some proof_id })
