-- ===== src/Notices/Later.antt =====
-- What stays in the outbox whatever is published, reminded and delivered later.
use werefa.Notices.Rounds.{Covered, Covered-grows, created_grows}
use werefa.Notices.Staying.{deliver_pending-stays}
use werefa.Notices.Once.{NoticeStep, notice_steps, notice_steps-keeps}
use werefa.Notices.Writes.{written, attempt}
use werefa.Notices.Events.{with_tokens}
use werefa.Notices.{Outbox, NoticeConfig, Connection, NewDelivery, create_delivery, has_key}
use werefa.Store.{Text}
use werefa.Prelude.{ℕ, ◌≡◌, refl, true, List, any, any-update_many, ◌∙◌, arith}

-- The keys are taken, and the admins and connections are these.
pub record Told (ks : List Text) (admins : List ℕ) (chats : List Connection) (o : Outbox)
    : Type 0 where
  pub covered : Covered ks o.deliveries
  pub same_admins : o.admins ≡ admins
  pub same_chats : o.connections ≡ chats

module _ (ks : List Text) (admins : List ℕ) (chats : List Connection) where
  Told-grows :
      (o next : Outbox)
      → ((l : Text) → any (has_key l) o.deliveries ≡ true → any (has_key l) next.deliveries ≡ true)
      → next.admins ≡ o.admins
      → next.connections ≡ o.connections
      → Told ks admins chats o
      → Told ks admins chats next
  Told-grows o next grow a c t = record {
    covered = Covered-grows ks o.deliveries next.deliveries grow t.covered;
    same_admins = a ∙ t.same_admins;
    same_chats = c ∙ t.same_chats;
  }

  created-admins :
      (now : ℕ) (input : NewDelivery) (o : Outbox)
      → ((written (attempt o (create_delivery o now input))).admins ≡ o.admins)
        × ((written (attempt o (create_delivery o now input))).connections ≡ o.connections)
  unfolding create_delivery
  created-admins now input o = ground arith

  pub notice_steps-Told :
      (cfg : NoticeConfig) (steps : List NoticeStep) (o : Outbox)
      → Told ks admins chats o
      → Told ks admins chats (notice_steps cfg steps o)
  notice_steps-Told cfg steps o =
      notice_steps-keeps (Told ks admins chats) cfg
        (λ now input x t.
          let same = created-admins now input x in
          Told-grows x _ (created_grows now input x) same.0 same.1 t)
        (λ e c x t. Told-grows x (with_tokens e c x) (λ l h. h) refl refl t)
        (deliver_pending-stays (Told ks admins chats)
          (λ p f x next keep e a c t.
            Told-grows x next
              (λ l h. rw e (
                any-update_many (has_key l) p f x.deliveries (λ n hit. ground (arith, keep n, hit))
                  h))
              a c t)
          (λ x next e a c t. Told-grows x next (λ l h. rw e h) a c t) cfg)
        steps o
