-- ===== src/Notices/Providers.antt =====
-- backend/src/domain/notifications/notification-delivery.service.ts: the chat or address of a delivery,
-- the rows its text is rendered from, and what its provider answers.
use werefa.Notices.Keys.{no_payload}
use werefa.Prelude.{
  ℕ, Bool, true, false, ◌&&◌, Option, none, some, ◌==◌, if◌then◌else◌, find_first, is_some,
}
use werefa.Notices.{
  NoticeType, subscription_proof_rejected, Notice, Recipient, to_customer, to_owner, to_system,
  NoticeChannel, email, telegram, PayloadRef, Connection, Outbox, NoticeConfig, is_connected,
  is_customer_connection, names, lockout_email, forced_logout_email, subscription_proof_submitted,
}

-- What a provider does with a message; the last is an exception.
pub data Sent : Type 0 where
  accepted refused crashed : Sent

-- What a sweep reads of other tables, and what the providers answer in it.
pub record Surroundings : Type 0 where
  pub has_booking : ℕ → Bool
  pub has_business : ℕ → Bool
  pub has_user : ℕ → Bool
  pub send_message : Notice → ℕ → Sent
  pub send_email : Notice → Sent

-- The chat of a delivery: the newest connection of the customer, or the owner's own.
chat_of_owner : ℕ → Option Connection → Option ℕ
chat_of_owner business_id none = none
chat_of_owner business_id (some c) =
    if names c.business_id business_id && is_connected c.state then some c.chat_id else none

chat_of_customer : Option Connection → Option ℕ
chat_of_customer none = none
chat_of_customer (some c) = some c.chat_id

chat_for : Outbox → Notice → ℕ → Recipient → Option ℕ
unfolding chat_of_owner chat_of_customer
chat_for o n business_id to_customer =
    chat_of_customer (find_first (is_customer_connection business_id n.recipient_ref) o.connections)
chat_for o n business_id to_owner =
    chat_of_owner business_id
      (find_first (λ (c : Connection). c.id == n.recipient_ref) o.connections)
chat_for o n business_id to_system = none

abbrev payload_of : Option PayloadRef → PayloadRef
payload_of none = no_payload
payload_of (some p) = p

abbrev is_rejection : NoticeType → Bool
is_rejection subscription_proof_rejected = true
is_rejection _ = false

abbrev known : (ℕ → Bool) → Option ℕ → Bool
known has none = false
known has (some n) = has n

-- Whether the rows exist that the message is rendered from.
renders : Surroundings → Notice → ℕ → Bool
renders s n business_id =
    if is_rejection n.type
    then is_some (payload_of n.payload).proof_id && s.has_business business_id
    else known s.has_booking (payload_of n.payload).booking_id && s.has_business business_id

unfoldable pub telegram_to : NoticeConfig → Surroundings → Notice → ℕ → Option ℕ → Option Sent
unfolding renders
telegram_to cfg s n business_id none = none
telegram_to cfg s n business_id (some chat) =
    if cfg.telegram_enabled && renders s n business_id then some (s.send_message n chat) else none

unfoldable pub telegram_for : NoticeConfig → Surroundings → Outbox → Notice → Option ℕ → Option Sent
unfolding telegram_to chat_for
telegram_for cfg s o n none = none
telegram_for cfg s o n (some business_id) =
    telegram_to cfg s n business_id (chat_for o n business_id n.recipient_type)

abbrev has_template : NoticeType → Bool
has_template lockout_email = true
has_template forced_logout_email = true
has_template subscription_proof_submitted = true
has_template subscription_proof_rejected = true
has_template _ = false

-- What the provider answers to a delivery; `none` is a delivery that is suppressed without a call.
-- `deliverOne` up to its call, and `deliverEmail` up to its call.
unfoldable pub provider_answer :
    NoticeConfig → Surroundings → Outbox → Notice → NoticeChannel → Option Sent
unfolding telegram_for
provider_answer cfg s o n telegram = telegram_for cfg s o n n.business_id
provider_answer cfg s o n email =
    if cfg.email_configured && (s.has_user n.recipient_ref && has_template n.type)
    then some (s.send_email n)
    else none
