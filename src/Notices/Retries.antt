-- ===== src/Notices/Retries.antt =====
-- What a sweep does to the rows of its two batches.
use werefa.Notices.Providers.{Sent, Surroundings, provider_answer, accepted, crashed, refused}
use werefa.Notices.Attempts.{IsBounded, RowStep, rewrite_row, calls_of, DistinctIds, then_step}
use werefa.Notices.{Notice, NoticeConfig, sending, Outbox}
use werefa.Notices.Delivery.{
  is_pending_state, logged, claim_notice, claims, settle, deliver_row, deliver_each, is_sending,
  reclaim_each, Counts, is_notice, change, is_stale, as_suppressed, is_due_notice, as_reclaimed,
  as_sent, as_failed,
}
use werefa.Prelude.{
  ℕ, ◌+◌, ◌≡◌, ◌≤◌, refl, sym, subst, Bool, true, Option, none, some, List, [], ◌∷◌, ◌==◌, arith,
  Bool-cases, inl, inr, count_where, Memᴰ, any-mem, update_many-mem,
}

abbrev made : Option Sent → ℕ
made none = 0
made (some answer) = 1

abbrev as_claimed : ℕ → Notice → Notice
as_claimed now m = record m { state = sending; updated_at = now }

-- The rows of a batch stand in the table as they were read, until their turn comes.
abbrev pub Waiting : (Notice → Bool) → List Notice → Outbox → Type 0
Waiting p ns o = (m : Notice) → Memᴰ m ns → Memᴰ m o.deliveries × (p m ≡ true)

module _ (cfg : NoticeConfig) (limit : ℕ) (allowed : limit ≡ cfg.max_attempts) where
  claim_step :
      (now : ℕ) (n : Notice) (answer : Option Sent) (o : Outbox)
      → IsBounded limit o
      → Memᴰ n o.deliveries
      → is_pending_state n.state ≡ true
      → RowStep limit n.id o (logged n.id answer (claim_notice now n o))
  claim_step now n none o b at free =
      rewrite_row limit o b n at (claims n.id) (ground (arith, free)) (λ m h. ground (arith, h))
        (as_claimed now) (λ m. refl) o.calls (λ i apart. refl)
        (record {
          spent = ground (arith, (b.within n at).spent, free);
          left = ground (arith, (b.within n at).left, free);
        })
  claim_step now n (some answer) o b at free =
      rewrite_row limit o b n at (claims n.id) (ground (arith, free)) (λ m h. ground (arith, h))
        (as_claimed now) (λ m. refl) (n.id ∷ o.calls) (λ i apart. rw apart refl)
        (record {
          spent = ground (arith, (b.within n at).spent, free);
          left = ground (arith, (b.within n at).left, free);
        })

  claimed_row :
      (now : ℕ) (n : Notice) (o : Outbox)
      → Memᴰ n o.deliveries
      → is_pending_state n.state ≡ true
      → Memᴰ (as_claimed now n) (claim_notice now n o).deliveries
  claimed_row now n o at free =
      let sel : claims n.id n ≡ true = ground (arith, free) in
      subst (λ (z : Notice). Memᴰ z (claim_notice now n o).deliveries) (rw sel refl)
        (update_many-mem (claims n.id) (as_claimed now) o.deliveries at)

  logged-deliveries :
      (id : ℕ) (answer : Option Sent) (o : Outbox) → (logged id answer o).deliveries ≡ o.deliveries
  logged-deliveries id none o = refl
  logged-deliveries id (some answer) o = refl

  logged-calls :
      (id : ℕ) (answer : Option Sent) (o : Outbox)
      → calls_of id (logged id answer o) ≡ calls_of id o + made answer
  logged-calls id none o = omega arith
  logged-calls id (some answer) o = ground arith

  -- What is written after the call, on the claimed row.
  settle_step :
      (now : ℕ) (n : Notice) (answer : Option Sent) (r : Counts) (o : Outbox)
      → IsBounded limit o
      → Memᴰ (as_claimed now n) o.deliveries
      → calls_of n.id o ≤ n.attempts + made answer
      → RowStep limit n.id o (settle cfg now n answer r o).1
  unfolding settle
  settle_step now n none r o b at few =
      rewrite_row limit o b (as_claimed now n) at (is_notice n.id) (ground arith)
        (λ m h. ground (arith, h)) (as_suppressed now) (λ m. refl) o.calls (λ i apart. refl)
        (record { spent = few; left = (b.within (as_claimed now n) at).left })
  settle_step now n (some accepted) r o b at few =
      rewrite_row limit o b (as_claimed now n) at (is_notice n.id) (ground arith)
        (λ m h. ground (arith, h)) (as_sent now) (λ m. refl) o.calls (λ i apart. refl)
        (record { spent = few; left = (b.within (as_claimed now n) at).left })
  settle_step now n (some crashed) r o b at few = record {
    bounded = b;
    others = λ m there apart. there;
  }
  settle_step now n (some refused) r o b at few =
      rewrite_row limit o b (as_claimed now n) at (is_notice n.id) (ground arith)
        (λ m h. ground (arith, h)) (as_failed cfg now (n.attempts + 1)) (λ m. ground arith) o.calls
        (λ i apart. refl)
        (record {
          spent = ground (arith, few);
          left = ground (arith, (b.within (as_claimed now n) at).left, allowed);
        })

  deliver_row_step :
      (s : Surroundings) (now : ℕ) (n : Notice) (r : Counts) (o : Outbox)
      → IsBounded limit o
      → Memᴰ n o.deliveries
      → is_pending_state n.state ≡ true
      → RowStep limit n.id o (deliver_row cfg s now n r o).1
  unfolding deliver_row
  deliver_row_step s now n r o b at free =
      elim (Bool-cases (count_where (claims n.id) o.deliveries == 0)) [
        | inl gone ↦ rw gone (record { bounded = b; others = λ m there apart. there })
        | inr there ↦
            let answer = provider_answer cfg s (claim_notice now n o) n n.channel in
            let mid = logged n.id answer (claim_notice now n o) in
            let first = claim_step now n answer o b at free in
            let row : Memᴰ (as_claimed now n) mid.deliveries =
              subst (λ (ds : List Notice). Memᴰ (as_claimed now n) ds)
                (sym (logged-deliveries n.id answer (claim_notice now n o)))
                (claimed_row now n o at free) in
            let few : calls_of n.id mid ≤ n.attempts + made answer = ground (
              arith,
              free,
              logged-calls n.id answer (claim_notice now n o),
              (b.within n at).spent,
            ) in
            rw there (
              then_step first (
                settle_step now n answer (record r { attempted = r.attempted + 1 }) mid
                  first.bounded row few))
      ]

  rest-Waiting :
      {o next : Outbox} (p : Notice → Bool) (n : Notice) (ns : List Notice)
      → DistinctIds (n ∷ ns)
      → Waiting p (n ∷ ns) o
      → RowStep limit n.id o next
      → Waiting p ns next
  rest-Waiting p n ns d w step m at =
      let (there, sel) = w m (Memᴰ.tail at) in
      (
        step.others m there (elim (Bool-cases (m.id == n.id)) [
          | inl same ↦ absurd (ground (arith, d.0, any-mem (is_notice n.id) ns at same))
          | inr apart ↦ apart
        ]),
        sel,
      )

  pub deliver_each-IsBounded :
      (s : Surroundings) (now : ℕ) (ns : List Notice) (r : Counts) (o : Outbox)
      → DistinctIds ns
      → Waiting (is_due_notice now) ns o
      → IsBounded limit o
      → IsBounded limit (deliver_each cfg s now ns r o).1
  unfolding deliver_each
  deliver_each-IsBounded s now [] r o d w b = b
  deliver_each-IsBounded s now (n ∷ ns) r o d w b =
      let (at, due) = w n (Memᴰ.head refl) in
      let next = deliver_row cfg s now n r o in
      let step = deliver_row_step s now n r o b at (ground (arith, due)) in
      deliver_each-IsBounded s now ns next.0 next.1 d.1
        (rest-Waiting (is_due_notice now) n ns d w step) step.bounded

  reclaim-RowStep :
      (now : ℕ) (n : Notice) (o : Outbox)
      → IsBounded limit o
      → Memᴰ n o.deliveries
      → is_sending n.state ≡ true
      → RowStep limit n.id o (change n.id (as_reclaimed cfg now (n.attempts + 1)) o)
  reclaim-RowStep now n o b at busy =
      rewrite_row limit o b n at (is_notice n.id) (ground arith) (λ m h. ground (arith, h))
        (as_reclaimed cfg now (n.attempts + 1)) (λ m. ground arith) o.calls (λ i apart. refl)
        (record {
          spent = ground (arith, (b.within n at).spent, busy);
          left = ground (arith, (b.within n at).left, allowed, busy);
        })

  pub reclaim_each-IsBounded :
      (now : ℕ) (ns : List Notice) (o : Outbox)
      → DistinctIds ns
      → Waiting (is_stale now) ns o
      → IsBounded limit o
      → IsBounded limit (reclaim_each cfg now ns o)
  unfolding reclaim_each
  reclaim_each-IsBounded now [] o d w b = b
  reclaim_each-IsBounded now (n ∷ ns) o d w b =
      let (at, stale) = w n (Memᴰ.head refl) in
      let step = reclaim-RowStep now n o b at (ground (arith, stale)) in
      reclaim_each-IsBounded now ns (change n.id (as_reclaimed cfg now (n.attempts + 1)) o) d.1
        (rest-Waiting (is_stale now) n ns d w step) step.bounded
