-- ===== src/Tests/Notices.antt =====
-- A booking whose notices are written, sent, refused and repeated, and the owner's buttons.
use werefa.Notices.Settling.{in_flight, deliver_pending_settles}
use werefa.Notices.Keys.{
  delivery_idempotency_key, owner_subscription_delivery_idempotency_key, proof_payload,
  admin_subscription_delivery_idempotency_key,
}
use werefa.Notices.Writes.{for_each, written}
use werefa.Notices.Providers.{Surroundings, provider_answer, refused, crashed, accepted}
use werefa.Notices.Repeats.{rejected_proof-email_only}
use werefa.Notices.Dropped.{submitted_proof_dropped}
use werefa.Notices.Limits.{notice_steps-calls}
use werefa.Notices.Attempts.{calls_of}
use werefa.Notices.Once.{NoticeStep, notice_steps, notice_step}
use werefa.Notices.Delivery.{deliver_sweep, deliver_row, backoff_ms, deliver_pending}
use werefa.Notices.{
  NoticeConfig, Connection, Outbox, BookingEvent, business_owner, payment_proof_received,
  about_booking, DeliveryState, suppressed, connected, Notice, dead_lettered, create_delivery,
  to_owner, subscription_proof_rejected, NoticeChannel, about_proof, telegram, to_system, email,
  subscription_proof_submitted, pending, sent, has_key,
}
use werefa.Notices.Events.{
  publish_events, write_event, write_booking_event, write_customer_delivery, write_owner_deliveries,
  write_owner_delivery, write_subscription_event, write_owner_chat,
}
use werefa.Prelude.{
  ℕ, zero, suc, ◌≡◌, ◌≤◌, refl, true, none, some, List, [], ◌∷◌, ◌++◌, ◌⊎◌, Memᴰ, arith,
  update_many, map, any, false, length,
}
use werefa.Store.{Text, empty_db}

abbrev repeated : ℕ → ℕ → Text
repeated zero c = []
repeated (suc n) c = c ∷ repeated n c

-- Stands for the text of a uuid.
abbrev notice_config : NoticeConfig
notice_config = record {
  telegram_enabled = true;
  email_configured = true;
  max_attempts = 2;
  uuid = λ n. repeated 36 n;
}

abbrev owner_chat : Connection
owner_chat = record {
  id = 3;
  business_id = some 1;
  user_id = some 5;
  customer_phone = none;
  chat_id = 77;
  kind = business_owner;
  state = connected;
}

abbrev pub outbox : Outbox
outbox = record {
  deliveries = [];
  connections = owner_chat ∷ [];
  callbacks = [];
  businesses = (1, some 5) ∷ [];
  admins = 8 ∷ 9 ∷ [];
  next_delivery = 1;
  next_callback = 1;
  calls = [];
}

abbrev proof_event : BookingEvent
proof_event = record {
  type = payment_proof_received;
  business_id = 1;
  booking_id = 4;
  customer_phone = 6;
}

-- The provider refuses every message.
abbrev refusing : Surroundings
refusing = record {
  has_booking = λ n. true;
  has_business = λ n. true;
  has_user = λ n. true;
  send_message = λ n chat. refused;
  send_email = λ n. crashed;
}

abbrev steps : List NoticeStep
steps =
    NoticeStep.publishes 0 (about_booking proof_event ∷ [])
    ∷ NoticeStep.sweeps refusing 10 empty_db
    ∷ NoticeStep.sweeps refusing 20 empty_db
    ∷ NoticeStep.sweeps refusing 700000 empty_db
    ∷ NoticeStep.sweeps refusing 1400000 empty_db
    ∷ []

abbrev states_of : Outbox → List DeliveryState
states_of o = map (λ (n : Notice). n.state) o.deliveries

-- The customer has no chat; the owner's is tried twice and then given up.
gives_up : states_of (notice_steps notice_config steps outbox) ≡ suppressed ∷ dead_lettered ∷ []
unfolding notice_steps notice_step deliver_sweep publish_events write_event write_booking_event
    write_customer_delivery create_delivery delivery_idempotency_key write_owner_deliveries for_each
    write_owner_delivery deliver_row provider_answer update_many backoff_ms
gives_up = refl

called_twice : (notice_steps notice_config steps outbox).calls ≡ 2 ∷ 2 ∷ []
unfolding notice_steps notice_step deliver_sweep publish_events write_event write_booking_event
    write_customer_delivery create_delivery delivery_idempotency_key write_owner_deliveries for_each
    write_owner_delivery deliver_row provider_answer update_many backoff_ms
called_twice = refl

abbrev given_up : Notice
given_up = record {
  id = 2;
  business_id = some 1;
  type = payment_proof_received;
  recipient_type = to_owner;
  recipient_ref = 3;
  channel = telegram;
  state = dead_lettered;
  idempotency_key =
      unfold delivery_idempotency_key in
      delivery_idempotency_key to_owner payment_proof_received 4 ++ b':' ∷ repeated 36 3;
  payload = some (record {
    booking_id = some 4;
    accept_token = some 1;
    reject_token = some 2;
    proof_id = none;
  });
  attempts = 2;
  next_attempt_at = some 30010;
  sent_at = none;
  updated_at = 700000;
}

notice_steps-calls_example : calls_of 2 (notice_steps notice_config steps outbox) ≤ 2
unfolding notice_step deliver_sweep publish_events write_event write_booking_event
    write_customer_delivery create_delivery delivery_idempotency_key write_owner_deliveries for_each
    write_owner_delivery deliver_row provider_answer update_many backoff_ms
notice_steps-calls_example =
    notice_steps-calls notice_config outbox (omega arith) refl refl steps given_up written_row
  where
    written_row : Memᴰ given_up (notice_steps notice_config steps outbox).deliveries
    written_row = unfold notice_steps in Memᴰ.tail (Memᴰ.head refl)

abbrev rejection_mail : Notice
rejection_mail = record given_up {
  id = 1;
  type = subscription_proof_rejected;
  recipient_type = to_system;
  recipient_ref = 5;
  channel = email;
  state = pending;
  idempotency_key =
      owner_subscription_delivery_idempotency_key notice_config subscription_proof_rejected 1 9;
  payload = proof_payload 9;
  attempts = 0;
  next_attempt_at = none;
  updated_at = 0;
}

rejected_proof-email_only_example :
    Memᴰ rejection_mail outbox.deliveries ⊎ (◌≡◌ {A = NoticeChannel} email email)
unfolding write_event write_subscription_event create_delivery for_each write_owner_chat
rejected_proof-email_only_example =
    rejected_proof-email_only notice_config 0 1 9 outbox rejection_mail (λ u. refl) mailed
  where
    mailed :
        Memᴰ rejection_mail
          (publish_events notice_config 0
            (about_proof subscription_proof_rejected 1 9 ∷ [])
            outbox).deliveries
    mailed = unfold publish_events owner_subscription_delivery_idempotency_key in Memᴰ.head refl

repeated-length : (k c : ℕ) → length (repeated k c) ≡ k
repeated-length zero c = refl
repeated-length (suc k) c = omega (arith, repeated-length k c)

abbrev after_first : Outbox
after_first =
    publish_events notice_config 0 (about_proof subscription_proof_submitted 1 9 ∷ []) outbox

submitted_proof_dropped_example :
    ((admin : ℕ)
      → Memᴰ admin outbox.admins
      → any
          (has_key (
            admin_subscription_delivery_idempotency_key notice_config subscription_proof_submitted 1
              admin))
          after_first.deliveries
        ≡ true)
    × ((steps : List NoticeStep) (later second : ℕ)
        → (publish_events notice_config later
            (about_proof subscription_proof_submitted 1 second ∷ [])
            (notice_steps notice_config steps after_first)).deliveries
          ≡ (notice_steps notice_config steps after_first).deliveries)
submitted_proof_dropped_example =
    submitted_proof_dropped notice_config 0 1 9 outbox (λ n. repeated-length 36 n)

abbrev announced : Outbox
announced = written (write_owner_deliveries notice_config 0 proof_event outbox)

-- The provider takes every message.
abbrev accepting : Surroundings
accepting = record {
  has_booking = λ n. true;
  has_business = λ n. true;
  has_user = λ n. true;
  send_message = λ n chat. accepted;
  send_email = λ n. accepted;
}

abbrev told : Outbox
told =
    notice_steps notice_config (NoticeStep.publishes 0 (about_booking proof_event ∷ []) ∷ []) outbox

told_and_sent :
    states_of (deliver_pending notice_config accepting 10 told).1 ≡ suppressed ∷ sent ∷ []
unfolding notice_steps notice_step deliver_sweep publish_events write_event write_booking_event
    write_customer_delivery create_delivery delivery_idempotency_key write_owner_deliveries for_each
    write_owner_delivery deliver_row provider_answer update_many backoff_ms
told_and_sent = refl

told_waits : any in_flight told.deliveries ≡ false
unfolding notice_steps notice_step publish_events write_event write_booking_event
    write_customer_delivery create_delivery delivery_idempotency_key write_owner_deliveries for_each
    write_owner_delivery
told_waits = refl

deliver_pending_settles_example :
    any in_flight (deliver_pending notice_config accepting 10 told).1.deliveries ≡ false
deliver_pending_settles_example =
    deliver_pending_settles notice_config accepting 10 told
      (record { messages = λ n chat. cc; mails = λ n. cc }) told_waits
