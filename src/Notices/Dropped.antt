-- ===== src/Notices/Dropped.antt =====
-- Later events of the same kind for the same booking or business, and the keys of earlier ones.
use werefa.Notices.Repeats.{length-append}
use werefa.Notices.Later.{notice_steps-Told}
use werefa.Notices.Once.{NoticeStep, notice_steps}
use werefa.Notices.Rounds.{Covered, Covered-after, Covered-same, Covered-has, Writer}
use werefa.Notices.Keys.{
  admin_subscription_delivery_idempotency_key, proof_payload, delivery_idempotency_key, colon,
}
use werefa.Notices.Writes.{for_each, attempt, written}
use werefa.Notices.Writing.{for_each-Keeps}
use werefa.Notices.{
  Outbox, create_delivery, NewDelivery, NoticeConfig, NoticeType, about_proof, to_system,
  subscription_proof_submitted, email, Connection, to_owner, List, key_width, has_key,
}
use werefa.Notices.Events.{write_admin_mail, publish_events, write_event, write_subscription_event}
use werefa.Prelude.{
  map, length, ltb, any, true, false, Memᴰ, ℕ, ◌≡◌, refl, ◌∙◌, some, [], ◌∷◌, ◌++◌, arith, subst,
  sym,
}
use werefa.Store.{Text}

admin-Writer :
    (cfg : NoticeConfig) (now : ℕ) (type : NoticeType) (business_id proof_id : ℕ)
    → Writer
        (admin_subscription_delivery_idempotency_key cfg type business_id)
        (write_admin_mail cfg now type business_id proof_id)
unfolding write_admin_mail
admin-Writer cfg now type business_id proof_id = record {
  now = now;
  base = λ admin o. o;
  input = λ admin o. record {
    business_id = some business_id;
    type = type;
    recipient_type = to_system;
    recipient_ref = admin;
    channel = email;
    starts_pending = cfg.email_configured;
    key = admin_subscription_delivery_idempotency_key cfg type business_id admin;
    payload = proof_payload proof_id;
  };
  base_same = λ admin o. refl;
  key_same = λ admin o. refl;
  writes = λ admin o. refl;
}

create_delivery-admins :
    (now : ℕ) (input : NewDelivery) (o : Outbox)
    → ((written (attempt o (create_delivery o now input))).admins ≡ o.admins)
      × ((written (attempt o (create_delivery o now input))).connections ≡ o.connections)
unfolding create_delivery
create_delivery-admins now input o = ground arith

-- The key of a submitted proof's mail has 108 code units.
admin_key_fits :
    (cfg : NoticeConfig) (business_id admin : ℕ)
    → ((u : ℕ) → length (cfg.uuid u) ≡ 36)
    → ltb key_width (
        length (
          admin_subscription_delivery_idempotency_key cfg subscription_proof_submitted business_id
            admin))
      ≡ false
unfolding admin_subscription_delivery_idempotency_key
admin_key_fits cfg business_id admin wide = simp (length-append, wide) (ground arith)

-- With uuids of 36 code units, once a proof of a business was submitted each admin has a delivery under
-- the admin's key for the business. Whatever is published, reminded and delivered after it, a later
-- proof of the business adds no delivery, while the admins stay the same.
pub submitted_proof_dropped :
    (cfg : NoticeConfig) (now business_id first : ℕ) (o : Outbox)
    → ((u : ℕ) → length (cfg.uuid u) ≡ 36)
    → let o' =
        publish_events cfg now
          (about_proof subscription_proof_submitted business_id first ∷ [])
          o in
      ((admin : ℕ)
        → Memᴰ admin o.admins
        → any
            (has_key (
              admin_subscription_delivery_idempotency_key cfg subscription_proof_submitted
                business_id admin))
            o'.deliveries
          ≡ true)
      × ((steps : List NoticeStep) (later second : ℕ)
          → (publish_events cfg later
              (about_proof subscription_proof_submitted business_id second ∷ [])
              (notice_steps cfg steps o')).deliveries
            ≡ (notice_steps cfg steps o').deliveries)
unfolding publish_events write_event write_subscription_event write_admin_mail
submitted_proof_dropped cfg now business_id first o wide =
    let key =
      admin_subscription_delivery_idempotency_key cfg subscription_proof_submitted business_id in
    let mail = write_admin_mail cfg now subscription_proof_submitted business_id first in
    let next = written (for_each mail o.admins o) in
    let same : next.admins ≡ o.admins =
      for_each-Keeps (λ (q : Outbox). q.admins ≡ o.admins) mail o.admins
        (λ admin q e. (create_delivery-admins now _ q).0 ∙ e) o refl in
    let covered : Covered (map key o.admins) next.deliveries =
      Covered-after key mail (admin-Writer cfg now subscription_proof_submitted business_id first)
        o.admins o in
    (
      (λ admin at.
          Covered-has key o.admins next.deliveries (λ a. admin_key_fits cfg business_id a wide)
            covered at),
      λ steps later second.
          let told =
            notice_steps-Told (map key o.admins) o.admins next.connections cfg steps next
              (record { covered = covered; same_admins = same; same_chats = refl }) in
          let again = write_admin_mail cfg later subscription_proof_submitted business_id second in
          let last = notice_steps cfg steps next in
          subst
            (λ (admins : List ℕ).
              (written (for_each again admins last)).deliveries ≡ last.deliveries)
            (sym told.same_admins)
            (Covered-same key again
              (admin-Writer cfg later subscription_proof_submitted business_id second) o.admins last
              told.covered),
    )

abbrev pub owner_key : NoticeConfig → NoticeType → ℕ → Connection → Text
owner_key cfg type booking_id c =
    delivery_idempotency_key to_owner type booking_id ++ colon ++ cfg.uuid c.id
