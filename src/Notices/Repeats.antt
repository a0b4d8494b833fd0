-- ===== src/Notices/Repeats.antt =====
-- What is not written because its key is wider than the column.
use werefa.Notices.Keys.{owner_subscription_delivery_idempotency_key, colon}
use werefa.Notices.Writes.{for_each, written, thrown, Written, and_then, done, attempt}
use werefa.Notices.Limits.{mem-append_one}
use werefa.Notices.{
  NoticeConfig, create_delivery, Connection, key_width, Outbox, subscription_proof_rejected,
  NewDelivery, Notice, email, about_proof, has_key, is_owner_connection, notice_of,
}
use werefa.Notices.Events.{
  write_owner_mail, owner_of, write_owner_chat, publish_events, write_event,
  write_subscription_event,
}
use werefa.Prelude.{
  ℕ, ◌+◌, ◌≡◌, refl, ap, subst, true, Option, none, some, List, [], ◌∷◌, ◌++◌, ◌⊎◌, arith,
  Bool-cases, inl, inr, any, select, length, ltb, Memᴰ,
}

pub length-append {ℓ} : {A : Type ℓ} (xs ys : List A) → length (xs ++ ys) ≡ length xs + length ys
length-append [] ys = omega arith
length-append (x ∷ xs) ys = omega (arith, length-append xs ys)

-- The key of a rejected proof's chat notice has 144 code units.
owner_chat_key_wide :
    (cfg : NoticeConfig) (business_id proof_id : ℕ) (c : Connection)
    → ((n : ℕ) → length (cfg.uuid n) ≡ 36)
    → ltb key_width (
        length (
          owner_subscription_delivery_idempotency_key cfg subscription_proof_rejected business_id
            proof_id
          ++ colon
          ++ cfg.uuid c.id))
      ≡ true
unfolding owner_subscription_delivery_idempotency_key
owner_chat_key_wide cfg business_id proof_id c wide = simp (length-append, wide) (ground arith)

write_owner_chat-thrown :
    (cfg : NoticeConfig) (now business_id proof_id : ℕ) (c : Connection) (o : Outbox)
    → ((n : ℕ) → length (cfg.uuid n) ≡ 36)
    → write_owner_chat cfg now subscription_proof_rejected business_id proof_id c o ≡ thrown o
unfolding write_owner_chat create_delivery
write_owner_chat-thrown cfg now business_id proof_id c o wide =
    rw (owner_chat_key_wide cfg business_id proof_id c wide) refl

chats-unchanged :
    (cfg : NoticeConfig) (now business_id proof_id : ℕ) (cs : List Connection) (o : Outbox)
    → ((n : ℕ) → length (cfg.uuid n) ≡ 36)
    → written
        (for_each (write_owner_chat cfg now subscription_proof_rejected business_id proof_id) cs o)
      ≡ o
unfolding for_each
chats-unchanged cfg now business_id proof_id [] o wide = refl
chats-unchanged cfg now business_id proof_id (c ∷ cs) o wide =
    rw (write_owner_chat-thrown cfg now business_id proof_id c o wide) refl

created :
    (now : ℕ) (input : NewDelivery) (o : Outbox) (n : Notice)
    → Memᴰ n (written (attempt o (create_delivery o now input))).deliveries
    → Memᴰ n o.deliveries ⊎ (n.channel ≡ input.channel)
unfolding create_delivery
created now input o n m = elim (Bool-cases (ltb key_width (length input.key))) [
  | inl wide ↦ inl (rw wide at m)
  | inr fits ↦ elim (Bool-cases (any (has_key input.key) o.deliveries)) [
    | inl there ↦ inl (rw (fits, there) at m)
    | inr new ↦
        elim (mem-append_one (notice_of o.next_delivery now input) o.deliveries
          (rw (fits, new) at m)) [
            | inl old ↦ inl old
            | inr e ↦ inr (ap (λ (x : Notice). x.channel) e)
          ]
  ]
]

owner_mail_created :
    (cfg : NoticeConfig) (now business_id proof_id : ℕ) (owner : Option ℕ) (o : Outbox) (n : Notice)
    → Memᴰ n
        (written (
          write_owner_mail cfg now subscription_proof_rejected business_id proof_id owner
            o)).deliveries
    → Memᴰ n o.deliveries ⊎ (n.channel ≡ email)
unfolding write_owner_mail
owner_mail_created cfg now business_id proof_id none o n m = inl m
owner_mail_created cfg now business_id proof_id (some owner) o n m = created now _ o n m

written-and_then :
    (w : Written) (k : Outbox → Written)
    → ((o : Outbox) → written (k o) ≡ o)
    → written (and_then w k) ≡ written w
written-and_then (done o) k same = same o
written-and_then (thrown o) k same = refl

-- With uuids of 36 code units, the event of a rejected subscription proof writes no Telegram delivery,
-- however many chats of the owner are connected: every new row is a mail.
pub rejected_proof-email_only :
    (cfg : NoticeConfig) (now business_id proof_id : ℕ) (o : Outbox) (n : Notice)
    → ((u : ℕ) → length (cfg.uuid u) ≡ 36)
    → Memᴰ n
        (publish_events cfg now
          (about_proof subscription_proof_rejected business_id proof_id ∷ [])
          o).deliveries
    → Memᴰ n o.deliveries ⊎ (n.channel ≡ email)
unfolding publish_events write_event write_subscription_event
rejected_proof-email_only cfg now business_id proof_id o n wide m =
    let owner = owner_of business_id o.businesses in
    let mail = write_owner_mail cfg now subscription_proof_rejected business_id proof_id owner o in
    let same =
      written-and_then mail
        (λ o'.
          for_each (write_owner_chat cfg now subscription_proof_rejected business_id proof_id)
            (select (is_owner_connection business_id) o'.connections) o')
        (λ o'.
          chats-unchanged cfg now business_id proof_id
            (select (is_owner_connection business_id) o'.connections) o' wide) in
    owner_mail_created cfg now business_id proof_id owner o n
      (subst (λ (x : Outbox). Memᴰ n x.deliveries) same m)
