-- ===== src/Notices/Writing.antt =====
-- What each write of the outbox keeps, publishing keeps.
use werefa.Notices.Writes.{for_each, Written, written, done, thrown, attempt, and_then}
use werefa.Notices.Reminders.{remind_of, remind_each}
use werefa.Store.{Booking}
use werefa.Prelude.{
  ℕ, Bool, true, false, Option, none, some, List, [], ◌∷◌, Bool-cases, inl, inr, if◌then◌else◌, any,
  select,
}
use werefa.Notices.{
  NoticeType, NoticeConfig, NoticeEvent, BookingEvent, Connection, NewDelivery, Outbox,
  create_delivery, is_owner_connection, is_for_customer, subscription_proof_submitted, is_for_owner,
  about_booking, subscription_proof_rejected, about_proof, about_account,
}
use werefa.Notices.Events.{
  write_owner_mail, owner_of, with_tokens, write_owner_delivery, write_booking_event,
  write_subscription_event, write_customer_delivery, write_admin_mail, write_owner_deliveries,
  write_owner_chat, is_business, write_event, publish_events, write_auth_email_event,
}

module _ (P : Outbox → Type 0) where
  abbrev pub Keeps : (Outbox → Written) → Type 0
  Keeps f = (o : Outbox) → P o → P (written (f o))

  and_then-keeps :
      (w : Written) (f : Outbox → Written) → P (written w) → Keeps f → P (written (and_then w f))
  and_then-keeps (done o) f p k = k o p
  and_then-keeps (thrown o) f p k = p

  pub for_each-Keeps {ℓ} :
      {A : Type ℓ} (f : A → Outbox → Written) (xs : List A)
      → ((x : A) → Keeps (f x))
      → Keeps (for_each f xs)
  unfolding for_each
  for_each-Keeps f [] k o p = p
  for_each-Keeps f (x ∷ xs) k o p =
      and_then-keeps (f x o) (for_each f xs) (k x o p) (for_each-Keeps f xs k)

module _ (P : Outbox → Type 0)
    (new : (now : ℕ) (input : NewDelivery) (o : Outbox)
      → P o
      → P (written (attempt o (create_delivery o now input))))
    (tokens : (e : BookingEvent) (c : Connection) (o : Outbox) → P o → P (with_tokens e c o)) where
  write_owner_delivery-Keeps :
      (cfg : NoticeConfig) (now : ℕ) (e : BookingEvent) (c : Connection)
      → Keeps P (write_owner_delivery cfg now e c)
  unfolding write_owner_delivery
  write_owner_delivery-Keeps cfg now e c o p = elim (Bool-cases cfg.telegram_enabled) [
    | inl on ↦ rw on (new now _ (with_tokens e c o) (tokens e c o p))
    | inr off ↦ rw off (new now _ o p)
  ]

  write_customer_delivery-Keeps :
      (cfg : NoticeConfig) (now : ℕ) (e : BookingEvent)
      → Keeps P (write_customer_delivery cfg now e)
  unfolding write_customer_delivery
  write_customer_delivery-Keeps cfg now e o p = new now _ o p

  write_owner_deliveries-Keeps :
      (cfg : NoticeConfig) (now : ℕ) (e : BookingEvent) → Keeps P (write_owner_deliveries cfg now e)
  unfolding write_owner_deliveries
  write_owner_deliveries-Keeps cfg now e o p =
      for_each-Keeps P (write_owner_delivery cfg now e)
        (select (is_owner_connection e.business_id) o.connections)
        (write_owner_delivery-Keeps cfg now e) o p

  -- A part of an event that is written for some types only.
  chosen-Keeps :
      (b : Bool) (f : Outbox → Written) → Keeps P f → Keeps P (λ o. if b then f o else done o)
  chosen-Keeps true f k o p = k o p
  chosen-Keeps false f k o p = p

  write_booking_event-Keeps :
      (cfg : NoticeConfig) (now : ℕ) (e : BookingEvent) → Keeps P (write_booking_event cfg now e)
  unfolding write_booking_event
  write_booking_event-Keeps cfg now e o p =
      chosen-Keeps (any (is_business e.business_id) o.businesses)
        (λ x.
          and_then (if is_for_customer e.type then write_customer_delivery cfg now e x else done x)
            (λ o'. if is_for_owner e.type then write_owner_deliveries cfg now e o' else done o'))
        (λ x px.
          and_then-keeps P
            (if is_for_customer e.type then write_customer_delivery cfg now e x else done x)
            (λ o'. if is_for_owner e.type then write_owner_deliveries cfg now e o' else done o')
            (chosen-Keeps (is_for_customer e.type) (write_customer_delivery cfg now e)
              (write_customer_delivery-Keeps cfg now e) x px)
            (chosen-Keeps (is_for_owner e.type) (write_owner_deliveries cfg now e)
              (write_owner_deliveries-Keeps cfg now e)))
        o p

  write_owner_mail-Keeps :
      (cfg : NoticeConfig) (now : ℕ) (type : NoticeType) (business_id proof_id : ℕ)
      (owner : Option ℕ)
      → Keeps P (write_owner_mail cfg now type business_id proof_id owner)
  unfolding write_owner_mail
  write_owner_mail-Keeps cfg now type business_id proof_id none o p = p
  write_owner_mail-Keeps cfg now type business_id proof_id (some user) o p = new now _ o p

  write_owner_chat-Keeps :
      (cfg : NoticeConfig) (now : ℕ) (type : NoticeType) (business_id proof_id : ℕ) (c : Connection)
      → Keeps P (write_owner_chat cfg now type business_id proof_id c)
  unfolding write_owner_chat
  write_owner_chat-Keeps cfg now type business_id proof_id c o p = new now _ o p

  write_subscription_event-Keeps :
      (cfg : NoticeConfig) (now : ℕ) (type : NoticeType) (business_id proof_id : ℕ)
      → Keeps P (write_subscription_event cfg now type business_id proof_id)
  unfolding write_subscription_event write_admin_mail
  write_subscription_event-Keeps cfg now subscription_proof_submitted business_id proof_id o p =
      for_each-Keeps P (write_admin_mail cfg now subscription_proof_submitted business_id proof_id)
        o.admins (λ admin x px. new now _ x px) o p
  write_subscription_event-Keeps cfg now subscription_proof_rejected business_id proof_id o p =
      let mail =
        write_owner_mail cfg now subscription_proof_rejected business_id proof_id
          (owner_of business_id o.businesses) in
      let chat = write_owner_chat cfg now subscription_proof_rejected business_id proof_id in
      and_then-keeps P (mail o)
        (λ x. for_each chat (select (is_owner_connection business_id) x.connections) x)
        (write_owner_mail-Keeps cfg now subscription_proof_rejected business_id proof_id
          (owner_of business_id o.businesses) o p)
        (λ x px.
          for_each-Keeps P chat (select (is_owner_connection business_id) x.connections)
            (write_owner_chat-Keeps cfg now subscription_proof_rejected business_id proof_id) x px)
  write_subscription_event-Keeps cfg now _ business_id proof_id o p = p

  write_event-Keeps :
      (cfg : NoticeConfig) (now : ℕ) (e : NoticeEvent) → Keeps P (write_event cfg now e)
  unfolding write_event write_auth_email_event
  write_event-Keeps cfg now (about_booking e) o p = write_booking_event-Keeps cfg now e o p
  write_event-Keeps cfg now (about_proof type business_id proof_id) o p =
      write_subscription_event-Keeps cfg now type business_id proof_id o p
  write_event-Keeps cfg now (about_account type user_id) o p = new now _ o p

  pub publish_events-keeps :
      (cfg : NoticeConfig) (now : ℕ) (es : List NoticeEvent) (o : Outbox)
      → P o
      → P (publish_events cfg now es o)
  unfolding publish_events
  publish_events-keeps cfg now [] o p = p
  publish_events-keeps cfg now (e ∷ es) o p =
      publish_events-keeps cfg now es (written (write_event cfg now e o))
        (write_event-Keeps cfg now e o p)

  remind_of-keeps :
      (cfg : NoticeConfig) (now : ℕ) (b : Booking) (ts : List NoticeType) (o : Outbox)
      → P o
      → P (remind_of cfg now b ts o)
  unfolding remind_of
  remind_of-keeps cfg now b [] o p = p
  remind_of-keeps cfg now b (t ∷ ts) o p =
      remind_of-keeps cfg now b ts _ (write_booking_event-Keeps cfg now _ o p)

  pub remind_each-keeps :
      (cfg : NoticeConfig) (now : ℕ) (bs : List Booking) (o : Outbox)
      → P o
      → P (remind_each cfg now bs o)
  unfolding remind_each
  remind_each-keeps cfg now [] o p = p
  remind_each-keeps cfg now (b ∷ bs) o p =
      remind_each-keeps cfg now bs _ (remind_of-keeps cfg now b _ o p)
