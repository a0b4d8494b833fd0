-- ===== src/Notices/Once.antt =====
-- The keys of deliveries along whatever is published, reminded and delivered, and in whatever order.
use werefa.Notices.Staying.{deliver_pending-stays}
use werefa.Notices.Writes.{written, attempt}
use werefa.Notices.Reminders.{write_due_reminders, is_upcoming}
use werefa.Notices.Providers.{Surroundings}
use werefa.Notices.Writing.{publish_events-keeps, remind_each-keeps}
use werefa.Notices.Delivery.{deliver_pending, deliver_sweep}
use werefa.Notices.{
  Outbox, create_delivery, Notice, has_key, NewDelivery, key_width, notice_of, NoticeEvent,
  NoticeConfig, BookingEvent, Connection,
}
use werefa.Notices.Events.{publish_events, with_tokens}
use werefa.Prelude.{
  ℕ, ◌+◌, ◌≡◌, ◌≤◌, refl, Bool, true, List, [], ◌∷◌, ◌++◌, arith, Bool-cases, inl, inr, any, select,
  length, ltb, count_where, update_many, count_where-update_many, any-count_where, subst,
}
use werefa.Store.{Text, text_eq, Db}

text_eq-eq : (s t : Text) → text_eq s t ≡ true → s ≡ t
text_eq-eq [] [] h = refl
text_eq-eq [] (y ∷ ys) h = cc
text_eq-eq (x ∷ xs) [] h = cc
text_eq-eq (x ∷ xs) (y ∷ ys) h = ground (arith, h, text_eq-eq xs ys)

count_where-append {ℓ} :
    {A : Type ℓ} (p : A → Bool) (xs ys : List A)
    → count_where p (xs ++ ys) ≡ count_where p xs + count_where p ys
count_where-append p [] ys = omega arith
count_where-append p (x ∷ xs) ys = ground (arith, count_where-append p xs ys)

-- No key stands in two rows.
pub record HasUniqueKeys (o : Outbox) : Type 0 where
  pub unique : (key : Text) → count_where (has_key key) o.deliveries ≤ 1

create_delivery-HasUniqueKeys :
    (now : ℕ) (input : NewDelivery) (o : Outbox)
    → HasUniqueKeys o
    → HasUniqueKeys (written (attempt o (create_delivery o now input)))
unfolding create_delivery
create_delivery-HasUniqueKeys now input o u = elim (Bool-cases (ltb key_width (length input.key))) [
  | inl wide ↦ rw wide u
  | inr fits ↦ rw fits (elim (Bool-cases (any (has_key input.key) o.deliveries)) [
    | inl there ↦ rw there u
    | inr new ↦ rw new (record {
      unique = λ key. elim (Bool-cases (text_eq input.key key)) [
        | inl same ↦
            let fresh : count_where (has_key key) o.deliveries ≡ 0 =
              subst (λ k. count_where (has_key k) o.deliveries ≡ 0) (text_eq-eq input.key key same)
                (any-count_where (has_key input.key) o.deliveries new) in
            ground (
              arith,
              fresh,
              count_where-append (has_key key) o.deliveries
                  (notice_of o.next_delivery now input ∷ []),
            )
        | inr other ↦ ground (
          arith,
          other,
          u.unique key,
          count_where-append (has_key key) o.deliveries (notice_of o.next_delivery now input ∷ []),
        )
      ];
    })
  ])
]

-- An update that keeps the keys.
updated-HasUniqueKeys :
    (p : Notice → Bool) (f : Notice → Notice) (o next : Outbox)
    → ((n : Notice) → (f n).idempotency_key ≡ n.idempotency_key)
    → next.deliveries ≡ update_many p f o.deliveries
    → HasUniqueKeys o
    → HasUniqueKeys next
updated-HasUniqueKeys p f o next keep e u = record {
  unique = λ key. rw e (
      rw (count_where-update_many (has_key key) p f o.deliveries (λ n. ground (arith, keep n)))
        (u.unique key));
}

-- Events are published, or a sweep writes the due reminders of the bookings and delivers.
pub data NoticeStep : Type 0 where
  publishes : ℕ → List NoticeEvent → NoticeStep
  sweeps : Surroundings → ℕ → Db → NoticeStep

unfoldable pub notice_step : NoticeConfig → NoticeStep → Outbox → Outbox
notice_step cfg (publishes now es) o = publish_events cfg now es o
notice_step cfg (sweeps s now db) o = (deliver_sweep cfg s now db o).1

unfoldable pub notice_steps : NoticeConfig → List NoticeStep → Outbox → Outbox
notice_steps cfg [] o = o
notice_steps cfg (step ∷ steps) o = notice_steps cfg steps (notice_step cfg step o)

-- What writing and delivering keep, every run keeps.
pub notice_steps-keeps :
    (P : Outbox → Type 0) (cfg : NoticeConfig)
    → ((now : ℕ) (input : NewDelivery) (o : Outbox)
        → P o
        → P (written (attempt o (create_delivery o now input))))
    → ((e : BookingEvent) (c : Connection) (o : Outbox) → P o → P (with_tokens e c o))
    → ((s : Surroundings) (now : ℕ) (o : Outbox) → P o → P (deliver_pending cfg s now o).1)
    → (steps : List NoticeStep) (o : Outbox) → P o
    → P (notice_steps cfg steps o)
unfolding notice_steps notice_step deliver_sweep write_due_reminders
notice_steps-keeps P cfg new tokens deliver [] o p = p
notice_steps-keeps P cfg new tokens deliver (publishes now es ∷ steps) o p =
    notice_steps-keeps P cfg new tokens deliver steps (publish_events cfg now es o)
      (publish_events-keeps P new tokens cfg now es o p)
notice_steps-keeps P cfg new tokens deliver (sweeps s now db ∷ steps) o p =
    notice_steps-keeps P cfg new tokens deliver steps (deliver_sweep cfg s now db o).1 (
      deliver s now (write_due_reminders cfg now db o)
        (remind_each-keeps P new tokens cfg now (select (is_upcoming now) db.bookings) o p))

-- However events are published, reminders written and deliveries made, retried and reclaimed, no key
-- stands in two deliveries, if none did before.
pub notice_steps-HasUniqueKeys :
    (cfg : NoticeConfig) (steps : List NoticeStep) (o : Outbox)
    → HasUniqueKeys o
    → HasUniqueKeys (notice_steps cfg steps o)
notice_steps-HasUniqueKeys cfg steps o u =
    notice_steps-keeps HasUniqueKeys cfg create_delivery-HasUniqueKeys
      (λ e c x h. record { unique = h.unique })
      (deliver_pending-stays HasUniqueKeys
        (λ p f x next keep e a c h. updated-HasUniqueKeys p f x next keep e h)
        (λ x next e a c h. record { unique = λ key. rw e (h.unique key) }) cfg)
      steps o u
