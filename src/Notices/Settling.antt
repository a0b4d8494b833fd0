-- ===== src/Notices/Settling.antt =====
-- A pass over the outbox leaves no row in the state that marks a call in flight.
use werefa.Notices.{Outbox, Notice, NoticeConfig, NoticeChannel, telegram, email}
use werefa.Notices.Providers.{
  Sent, Surroundings, provider_answer, telegram_for, telegram_to, accepted, crashed, refused,
}
use werefa.Notices.Delivery.{
  change, settle, deliver_row, deliver_each, reclaim_each, deliver_pending, Counts, logged, claims,
  claim_notice, as_reclaimed, reclaim_stale, as_failed, is_sending, is_notice, no_counts, due_rows,
  stale_rows,
}
use werefa.Prelude.{
  ℕ, ◌+◌, ◌≡◌, ◌≢◌, refl, Bool, true, false, not, ◌&&◌, ◌==◌, Option, none, some, List, [], ◌∷◌,
  arith, Bool-cases, inl, inr, any, count_where, update_many, if◌then◌else◌,
}

-- The providers answer every message without an exception.
pub record NeverThrows (s : Surroundings) : Type 0 where
  pub messages : (n : Notice) (chat : ℕ) → s.send_message n chat ≢ crashed
  pub mails : (n : Notice) → s.send_email n ≢ crashed

abbrev pub in_flight : Notice → Bool
in_flight n = is_sending n.state

-- A row in flight with another id.
abbrev strays : ℕ → Notice → Bool
strays id n = in_flight n && not (n.id == id)

any-update_many-other {ℓ} :
    {A : Type ℓ} (q q' p : A → Bool) (f : A → A) (xs : List A)
    → ((x : A) → q' (if p x then f x else x) ≡ true → q x ≡ true)
    → any q xs ≡ false
    → any q' (update_many p f xs) ≡ false
unfolding update_many
any-update_many-other q q' p f [] back h = refl
any-update_many-other q q' p f (x ∷ xs) back h =
    ground (arith, back x, any-update_many-other q q' p f xs back)

telegram_to-answers :
    (cfg : NoticeConfig) (s : Surroundings) (n : Notice) (b : ℕ) (chat : Option ℕ)
    → NeverThrows s
    → telegram_to cfg s n b chat ≢ some crashed
unfolding telegram_to
telegram_to-answers cfg s n b none calm = ground arith
telegram_to-answers cfg s n b (some chat) calm = ground (arith, calm.messages n chat)

change_settles :
    (id : ℕ) (f : Notice → Notice) (o : Outbox)
    → ((n : Notice) → in_flight (f n) ≡ false)
    → any (strays id) o.deliveries ≡ false
    → any in_flight (change id f o).deliveries ≡ false
change_settles id f o ends h =
    any-update_many-other (strays id) in_flight (is_notice id) f o.deliveries
      (λ n. ground (arith, ends n)) h

settle_settles :
    (cfg : NoticeConfig) (now : ℕ) (n : Notice) (answer : Option Sent) (r : Counts) (o : Outbox)
    → answer ≢ some crashed
    → any (strays n.id) o.deliveries ≡ false
    → any in_flight (settle cfg now n answer r o).1.deliveries ≡ false
unfolding settle
settle_settles cfg now n none r o calm h = change_settles n.id _ o (λ m. refl) h
settle_settles cfg now n (some accepted) r o calm h = change_settles n.id _ o (λ m. refl) h
settle_settles cfg now n (some crashed) r o calm h = absurd (calm refl)
settle_settles cfg now n (some refused) r o calm h =
    change_settles n.id (as_failed cfg now (n.attempts + 1)) o (λ m. ground arith) h

logged-deliveries :
    (id : ℕ) (answer : Option Sent) (o : Outbox) → (logged id answer o).deliveries ≡ o.deliveries
logged-deliveries id none o = refl
logged-deliveries id (some answer) o = refl

claim_notice-strays :
    (now : ℕ) (n : Notice) (o : Outbox)
    → any in_flight o.deliveries ≡ false
    → any (strays n.id) (claim_notice now n o).deliveries ≡ false
claim_notice-strays now n o h =
    any-update_many-other in_flight (strays n.id) (claims n.id) _ o.deliveries (λ m. ground arith) h

telegram_for-answers :
    (cfg : NoticeConfig) (s : Surroundings) (o : Outbox) (n : Notice) (b : Option ℕ)
    → NeverThrows s
    → telegram_for cfg s o n b ≢ some crashed
unfolding telegram_for
telegram_for-answers cfg s o n none calm = ground arith
telegram_for-answers cfg s o n (some b) calm = telegram_to-answers cfg s n b _ calm

provider_answer-answers :
    (cfg : NoticeConfig) (s : Surroundings) (o : Outbox) (n : Notice) (c : NoticeChannel)
    → NeverThrows s
    → provider_answer cfg s o n c ≢ some crashed
unfolding provider_answer
provider_answer-answers cfg s o n telegram calm = telegram_for-answers cfg s o n n.business_id calm
provider_answer-answers cfg s o n email calm = ground (arith, calm.mails n)

deliver_row_settles :
    (cfg : NoticeConfig) (s : Surroundings) (now : ℕ) (n : Notice) (r : Counts) (o : Outbox)
    → NeverThrows s
    → any in_flight o.deliveries ≡ false
    → any in_flight (deliver_row cfg s now n r o).1.deliveries ≡ false
unfolding deliver_row
deliver_row_settles cfg s now n r o calm h =
    elim (Bool-cases (count_where (claims n.id) o.deliveries == 0)) [
      | inl gone ↦ rw gone h
      | inr there ↦
          let o' = claim_notice now n o in
          let answer = provider_answer cfg s o' n n.channel in
          rw there (
            settle_settles cfg now n answer (record r { attempted = r.attempted + 1 })
              (logged n.id answer o') (provider_answer-answers cfg s o' n n.channel calm)
              (rw (logged-deliveries n.id answer o') (claim_notice-strays now n o h)))
    ]

deliver_each_settles :
    (cfg : NoticeConfig) (s : Surroundings) (now : ℕ) (ns : List Notice) (r : Counts) (o : Outbox)
    → NeverThrows s
    → any in_flight o.deliveries ≡ false
    → any in_flight (deliver_each cfg s now ns r o).1.deliveries ≡ false
unfolding deliver_each
deliver_each_settles cfg s now [] r o calm h = h
deliver_each_settles cfg s now (n ∷ ns) r o calm h =
    deliver_each_settles cfg s now ns (deliver_row cfg s now n r o).0
      (deliver_row cfg s now n r o).1 calm (deliver_row_settles cfg s now n r o calm h)

reclaim_each_settles :
    (cfg : NoticeConfig) (now : ℕ) (ns : List Notice) (o : Outbox)
    → any in_flight o.deliveries ≡ false
    → any in_flight (reclaim_each cfg now ns o).deliveries ≡ false
unfolding reclaim_each
reclaim_each_settles cfg now [] o h = h
reclaim_each_settles cfg now (n ∷ ns) o h =
    reclaim_each_settles cfg now ns (change n.id (as_reclaimed cfg now (n.attempts + 1)) o) (
      any-update_many-other in_flight in_flight (is_notice n.id)
        (as_reclaimed cfg now (n.attempts + 1)) o.deliveries (λ m. ground arith) h)

-- A delivery pass in which no provider throws leaves no delivery in the state SENDING, if there was none
-- before it.
pub deliver_pending_settles :
    (cfg : NoticeConfig) (s : Surroundings) (now : ℕ) (o : Outbox)
    → NeverThrows s
    → any in_flight o.deliveries ≡ false
    → any in_flight (deliver_pending cfg s now o).1.deliveries ≡ false
unfolding deliver_pending reclaim_stale
deliver_pending_settles cfg s now o calm h =
    deliver_each_settles cfg s now (due_rows now (reclaim_stale cfg now o)) no_counts
      (reclaim_stale cfg now o) calm (reclaim_each_settles cfg now (stale_rows now o) o h)
