-- ===== src/Notices.antt =====
-- backend/src/domain/notifications: the rows of the outbox, and the insertion of
-- notification-outbox-event-bus.ts, which writes a row for each key once.
pub mod Keys
pub mod Writes
pub mod Events
pub mod Reminders
pub mod Providers
pub mod Delivery
pub mod Writing
pub mod Staying
pub mod Once
pub mod Settling
pub mod Attempts
pub mod Retries
pub mod Limits
pub mod Repeats
pub mod Rounds
pub mod Later
pub mod Dropped
pub mod Buttons
pub mod Taps
pub mod Tapping
use werefa.Prelude.{
  ℕ, suc, ◌+◌, Bool, true, false, not, ◌&&◌, ◌||◌, Option, none, some, List, [], ◌∷◌, ◌++◌, ◌==◌,
  leb, ltb, if◌then◌else◌, any, select, length, find_first, is_some, or_default,
}
use werefa.Store.{Text, text_eq}
use werefa.Texts.{code_points, decimal}

pub data NoticeType : Type 0 where
  payment_proof_received booking_confirmed payment_rejected reminder_24h reminder_1h : NoticeType
  no_show booking_cancelled booking_rescheduled : NoticeType
  lockout_email recovery_code_email forced_logout_email : NoticeType
  subscription_proof_submitted subscription_proof_rejected : NoticeType

abbrev pub type_text : NoticeType → Text
type_text payment_proof_received = code_points "PAYMENT_PROOF_RECEIVED"
type_text booking_confirmed = code_points "BOOKING_CONFIRMED"
type_text payment_rejected = code_points "PAYMENT_REJECTED"
type_text reminder_24h = code_points "REMINDER_24H"
type_text reminder_1h = code_points "REMINDER_1H"
type_text no_show = code_points "NO_SHOW"
type_text booking_cancelled = code_points "BOOKING_CANCELLED"
type_text booking_rescheduled = code_points "BOOKING_RESCHEDULED"
type_text lockout_email = code_points "LOCKOUT_EMAIL"
type_text recovery_code_email = code_points "RECOVERY_CODE_EMAIL"
type_text forced_logout_email = code_points "FORCED_LOGOUT_EMAIL"
type_text subscription_proof_submitted = code_points "SUBSCRIPTION_PROOF_SUBMITTED"
type_text subscription_proof_rejected = code_points "SUBSCRIPTION_PROOF_REJECTED"

-- `CUSTOMER_NOTIFICATION_SET`
abbrev pub is_for_customer : NoticeType → Bool
is_for_customer lockout_email = false
is_for_customer recovery_code_email = false
is_for_customer forced_logout_email = false
is_for_customer subscription_proof_submitted = false
is_for_customer subscription_proof_rejected = false
is_for_customer _ = true

-- `OWNER_NOTIFICATION_SET`
abbrev pub is_for_owner : NoticeType → Bool
is_for_owner payment_proof_received = true
is_for_owner _ = false

pub data Recipient : Type 0 where
  to_customer to_owner to_system : Recipient

pub data DeliveryState : Type 0 where
  pending sending sent dead_lettered suppressed : DeliveryState

pub data NoticeChannel : Type 0 where
  email telegram : NoticeChannel

-- What `parsePayloadRef` reads from the text that the writer made of it; a blank token is absent.
pub record PayloadRef : Type 0 where
  pub booking_id : Option ℕ
  pub accept_token : Option ℕ
  pub reject_token : Option ℕ
  pub proof_id : Option ℕ

-- A delivery with its notification.
pub record Notice : Type 0 where
  pub id : ℕ
  pub business_id : Option ℕ
  pub type : NoticeType
  pub recipient_type : Recipient
  pub recipient_ref : ℕ
  pub channel : NoticeChannel
  pub state : DeliveryState
  pub idempotency_key : Text
  pub payload : Option PayloadRef
  pub attempts : ℕ
  pub next_attempt_at : Option ℕ
  pub sent_at : Option ℕ
  pub updated_at : ℕ

pub data ConnectionKind : Type 0 where
  business_owner customer_chat : ConnectionKind

pub data ConnectionState : Type 0 where
  pending_verification connected revoked : ConnectionState

pub record Connection : Type 0 where
  pub id : ℕ
  pub business_id : Option ℕ
  pub user_id : Option ℕ
  pub customer_phone : Option ℕ
  pub chat_id : ℕ
  pub kind : ConnectionKind
  pub state : ConnectionState

pub data CallbackKind : Type 0 where
  accept_kind reject_kind : CallbackKind

pub record Callback : Type 0 where
  pub id : ℕ
  pub business_id : ℕ
  pub connection_id : ℕ
  pub booking_id : ℕ
  pub kind : CallbackKind
  pub used_at : Option ℕ

-- The tables: the deliveries in the order of their creation, the connections with the newest first, each
-- business with its first owner, and the active admins. `calls` lists the deliveries that were handed
-- to a provider.
pub record Outbox : Type 0 where
  pub deliveries : List Notice
  pub connections : List Connection
  pub callbacks : List Callback
  pub businesses : List (ℕ × Option ℕ)
  pub admins : List ℕ
  pub next_delivery : ℕ
  pub next_callback : ℕ
  pub calls : List ℕ

-- The configuration, the text of a uuid, and whether a mail provider is configured.
pub record NoticeConfig : Type 0 where
  pub telegram_enabled : Bool
  pub email_configured : Bool
  pub max_attempts : ℕ
  pub uuid : ℕ → Text

pub record BookingEvent : Type 0 where
  pub type : NoticeType
  pub business_id : ℕ
  pub booking_id : ℕ
  pub customer_phone : ℕ

pub data NoticeEvent : Type 0 where
  about_booking : BookingEvent → NoticeEvent
  about_proof : NoticeType → ℕ → ℕ → NoticeEvent
  about_account : NoticeType → ℕ → NoticeEvent

-- The input of `createDelivery`.
pub record NewDelivery : Type 0 where
  pub business_id : Option ℕ
  pub type : NoticeType
  pub recipient_type : Recipient
  pub recipient_ref : ℕ
  pub channel : NoticeChannel
  pub starts_pending : Bool
  pub key : Text
  pub payload : Option PayloadRef

abbrev pub has_key : Text → Notice → Bool
has_key key n = text_eq n.idempotency_key key

-- VARCHAR(128)
abbrev pub key_width : ℕ
key_width = 128

abbrev pub notice_of : ℕ → ℕ → NewDelivery → Notice
notice_of id now input = record {
  id = id;
  business_id = input.business_id;
  type = input.type;
  recipient_type = input.recipient_type;
  recipient_ref = input.recipient_ref;
  channel = input.channel;
  state = if input.starts_pending then pending else suppressed;
  idempotency_key = input.key;
  payload = input.payload;
  attempts = 0;
  next_attempt_at = none;
  sent_at = none;
  updated_at = now;
}

-- `createDelivery`: `none` is an error that is thrown, for a key that does not fit its column; a key
-- that is there already is skipped.
unfoldable pub create_delivery : Outbox → ℕ → NewDelivery → Option Outbox
create_delivery o now input =
    if ltb key_width (length input.key)
    then none
    else if any (has_key input.key) o.deliveries
    then some o
    else some (record o {
      deliveries = o.deliveries ++ notice_of o.next_delivery now input ∷ [];
      next_delivery = suc o.next_delivery;
    })

abbrev pub is_connected : ConnectionState → Bool
is_connected connected = true
is_connected _ = false

abbrev pub is_owner_kind : ConnectionKind → Bool
is_owner_kind business_owner = true
is_owner_kind customer_chat = false

abbrev pub names : Option ℕ → ℕ → Bool
names none n = false
names (some m) n = m == n

abbrev pub is_owner_connection : ℕ → Connection → Bool
is_owner_connection business_id c =
    names c.business_id business_id && (is_owner_kind c.kind && is_connected c.state)

abbrev pub is_customer_connection : ℕ → ℕ → Connection → Bool
is_customer_connection business_id phone c =
    names c.business_id business_id
    && (names c.customer_phone phone && (not (is_owner_kind c.kind) && is_connected c.state))
