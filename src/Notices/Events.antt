-- ===== src/Notices/Events.antt =====
-- backend/src/domain/notifications/notification-outbox-event-bus.ts: what is written for each event.
use werefa.Notices.Keys.{
  delivery_idempotency_key, admin_subscription_delivery_idempotency_key,
  owner_subscription_delivery_idempotency_key, auth_delivery_idempotency_key, booking_payload,
  colon, proof_payload, no_payload,
}
use werefa.Notices.Writes.{for_each, Written, written, attempt, and_then, done}
use werefa.Notices.{
  NoticeConfig, BookingEvent, NoticeType, Outbox, Connection, NoticeEvent, recovery_code_email,
  CallbackKind, reject_kind, Callback, accept_kind, about_booking, create_delivery,
  is_owner_connection, is_for_customer, about_proof, to_customer, to_owner, is_for_owner, to_system,
  about_account, subscription_proof_submitted, telegram, email, subscription_proof_rejected,
  is_customer_connection,
}
use werefa.Prelude.{
  ℕ, suc, Bool, true, false, not, ◌&&◌, Option, none, some, List, [], ◌∷◌, ◌++◌, ◌==◌,
  if◌then◌else◌, any, select,
}

-- `writeCustomerDelivery`
unfoldable pub write_customer_delivery : NoticeConfig → ℕ → BookingEvent → Outbox → Written
write_customer_delivery cfg now e o = attempt o (
    create_delivery o now (record {
      business_id = some e.business_id;
      type = e.type;
      recipient_type = to_customer;
      recipient_ref = e.customer_phone;
      channel = telegram;
      starts_pending =
          any (is_customer_connection e.business_id e.customer_phone) o.connections
          && cfg.telegram_enabled;
      key = delivery_idempotency_key to_customer e.type e.booking_id;
      payload = booking_payload e.booking_id;
    }))

abbrev pub callback_of : ℕ → BookingEvent → Connection → CallbackKind → Callback
callback_of id e c kind = record {
  id = id;
  business_id = e.business_id;
  connection_id = c.id;
  booking_id = e.booking_id;
  kind = kind;
  used_at = none;
}

-- The two tokens of an owner's buttons.
abbrev pub with_tokens : BookingEvent → Connection → Outbox → Outbox
with_tokens e c o = record o {
  callbacks =
      callback_of (suc o.next_callback) e c reject_kind
      ∷ callback_of o.next_callback e c accept_kind
      ∷ o.callbacks;
  next_callback = suc (suc o.next_callback);
}

-- The body of the loop of `writeOwnerDeliveries`.
unfoldable pub write_owner_delivery :
    NoticeConfig → ℕ → BookingEvent → Connection → Outbox → Written
write_owner_delivery cfg now e c o =
    let o' = if cfg.telegram_enabled then with_tokens e c o else o in
    attempt o' (
      create_delivery o' now (record {
        business_id = some e.business_id;
        type = e.type;
        recipient_type = to_owner;
        recipient_ref = c.id;
        channel = telegram;
        starts_pending = cfg.telegram_enabled;
        key = delivery_idempotency_key to_owner e.type e.booking_id ++ colon ++ cfg.uuid c.id;
        payload = some (record no_payload {
          booking_id = some e.booking_id;
          accept_token = if cfg.telegram_enabled then some o.next_callback else none;
          reject_token = if cfg.telegram_enabled then some (suc o.next_callback) else none;
        });
      }))

unfoldable pub write_owner_deliveries : NoticeConfig → ℕ → BookingEvent → Outbox → Written
write_owner_deliveries cfg now e o =
    for_each (write_owner_delivery cfg now e)
      (select (is_owner_connection e.business_id) o.connections) o

abbrev pub is_business : ℕ → ℕ × Option ℕ → Bool
is_business n b = b.0 == n

-- `writeBookingEvent`
unfoldable pub write_booking_event : NoticeConfig → ℕ → BookingEvent → Outbox → Written
write_booking_event cfg now e o =
    if any (is_business e.business_id) o.businesses
    then and_then (if is_for_customer e.type then write_customer_delivery cfg now e o else done o)
        (λ o'. if is_for_owner e.type then write_owner_deliveries cfg now e o' else done o')
    else done o

-- The mail to one admin about a submitted proof.
unfoldable pub write_admin_mail : NoticeConfig → ℕ → NoticeType → ℕ → ℕ → ℕ → Outbox → Written
write_admin_mail cfg now type business_id proof_id admin_id o = attempt o (
    create_delivery o now (record {
      business_id = some business_id;
      type = type;
      recipient_type = to_system;
      recipient_ref = admin_id;
      channel = email;
      starts_pending = cfg.email_configured;
      key = admin_subscription_delivery_idempotency_key cfg type business_id admin_id;
      payload = proof_payload proof_id;
    }))

unfoldable pub owner_of : ℕ → List (ℕ × Option ℕ) → Option ℕ
owner_of n [] = none
owner_of n (b ∷ bs) = if b.0 == n then b.1 else owner_of n bs

unfoldable pub write_owner_mail :
    NoticeConfig → ℕ → NoticeType → ℕ → ℕ → Option ℕ → Outbox → Written
write_owner_mail cfg now type business_id proof_id none o = done o
write_owner_mail cfg now type business_id proof_id (some owner) o = attempt o (
    create_delivery o now (record {
      business_id = some business_id;
      type = type;
      recipient_type = to_system;
      recipient_ref = owner;
      channel = email;
      starts_pending = cfg.email_configured;
      key = owner_subscription_delivery_idempotency_key cfg type business_id proof_id;
      payload = proof_payload proof_id;
    }))

-- The chat of one owner's connection about a rejected proof.
unfoldable pub write_owner_chat :
    NoticeConfig → ℕ → NoticeType → ℕ → ℕ → Connection → Outbox → Written
write_owner_chat cfg now type business_id proof_id c o = attempt o (
    create_delivery o now (record {
      business_id = some business_id;
      type = type;
      recipient_type = to_owner;
      recipient_ref = c.id;
      channel = telegram;
      starts_pending = cfg.telegram_enabled;
      key =
          owner_subscription_delivery_idempotency_key cfg type business_id proof_id
          ++ colon
          ++ cfg.uuid c.id;
      payload = proof_payload proof_id;
    }))

-- `writeSubscriptionEvent`
unfoldable pub write_subscription_event : NoticeConfig → ℕ → NoticeType → ℕ → ℕ → Outbox → Written
unfolding owner_of write_owner_mail
write_subscription_event cfg now subscription_proof_submitted business_id proof_id o =
    for_each (write_admin_mail cfg now subscription_proof_submitted business_id proof_id) o.admins o
write_subscription_event cfg now subscription_proof_rejected business_id proof_id o =
    and_then
      (write_owner_mail cfg now subscription_proof_rejected business_id proof_id
        (owner_of business_id o.businesses) o)
      (λ o'.
        for_each (write_owner_chat cfg now subscription_proof_rejected business_id proof_id)
          (select (is_owner_connection business_id) o'.connections) o')
write_subscription_event cfg now _ business_id proof_id o = done o

abbrev pub is_recovery : NoticeType → Bool
is_recovery recovery_code_email = true
is_recovery _ = false

-- `writeAuthEmailEvent`
unfoldable pub write_auth_email_event : NoticeConfig → ℕ → NoticeType → ℕ → Outbox → Written
write_auth_email_event cfg now type user_id o = attempt o (
    create_delivery o now (record {
      business_id = none;
      type = type;
      recipient_type = to_system;
      recipient_ref = user_id;
      channel = email;
      starts_pending = not (is_recovery type) && cfg.email_configured;
      key = auth_delivery_idempotency_key cfg type user_id;
      payload = none;
    }))

unfoldable pub write_event : NoticeConfig → ℕ → NoticeEvent → Outbox → Written
write_event cfg now (about_booking e) o = write_booking_event cfg now e o
write_event cfg now (about_proof type business_id proof_id) o =
    write_subscription_event cfg now type business_id proof_id o
write_event cfg now (about_account type user_id) o = write_auth_email_event cfg now type user_id o

-- `publish`, which swallows what a write throws.
unfoldable pub publish_events : NoticeConfig → ℕ → List NoticeEvent → Outbox → Outbox
publish_events cfg now [] o = o
publish_events cfg now (e ∷ es) o = publish_events cfg now es (written (write_event cfg now e o))
