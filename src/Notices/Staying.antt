-- ===== src/Notices/Staying.antt =====
-- What an update of deliveries that keeps their keys keeps, a delivery pass keeps.
use werefa.Notices.Providers.{Sent, Surroundings, provider_answer, accepted, crashed, refused}
use werefa.Notices.Delivery.{
  change, settle, deliver_row, deliver_each, reclaim_each, deliver_pending, is_notice, Counts,
  logged, as_reclaimed, reclaim_stale, as_failed, claims, no_counts, claim_notice, due_rows,
  stale_rows,
}
use werefa.Notices.{Outbox, Notice, NoticeConfig}
use werefa.Prelude.{
  ℕ, ◌+◌, ◌≡◌, refl, Bool, Option, none, some, List, [], ◌∷◌, ◌==◌, arith, Bool-cases, inl, inr,
  count_where, update_many,
}

module _ (P : Outbox → Type 0)
    (updated : (p : Notice → Bool) (f : Notice → Notice) (o next : Outbox)
      → ((n : Notice) → (f n).idempotency_key ≡ n.idempotency_key)
      → next.deliveries ≡ update_many p f o.deliveries
      → next.admins ≡ o.admins
      → next.connections ≡ o.connections
      → P o
      → P next)
    (same_rows : (o next : Outbox)
      → next.deliveries ≡ o.deliveries
      → next.admins ≡ o.admins
      → next.connections ≡ o.connections
      → P o
      → P next) where
  change-stays :
      (id : ℕ) (f : Notice → Notice) (o : Outbox)
      → ((n : Notice) → (f n).idempotency_key ≡ n.idempotency_key)
      → P o
      → P (change id f o)
  change-stays id f o keep u = updated (is_notice id) f o (change id f o) keep refl refl refl u

  settle-stays :
      (cfg : NoticeConfig) (now : ℕ) (n : Notice) (answer : Option Sent) (r : Counts) (o : Outbox)
      → P o
      → P (settle cfg now n answer r o).1
  unfolding settle
  settle-stays cfg now n none r o u = change-stays n.id _ o (λ m. refl) u
  settle-stays cfg now n (some accepted) r o u = change-stays n.id _ o (λ m. refl) u
  settle-stays cfg now n (some crashed) r o u = u
  settle-stays cfg now n (some refused) r o u =
      change-stays n.id (as_failed cfg now (n.attempts + 1)) o (λ m. ground arith) u

  logged-stays : (id : ℕ) (answer : Option Sent) (o : Outbox) → P o → P (logged id answer o)
  logged-stays id none o u = u
  logged-stays id (some answer) o u = same_rows o (logged id (some answer) o) refl refl refl u

  deliver_row-stays :
      (cfg : NoticeConfig) (s : Surroundings) (now : ℕ) (n : Notice) (r : Counts) (o : Outbox)
      → P o
      → P (deliver_row cfg s now n r o).1
  unfolding deliver_row
  deliver_row-stays cfg s now n r o u =
      elim (Bool-cases (count_where (claims n.id) o.deliveries == 0)) [
        | inl gone ↦ rw gone u
        | inr there ↦
            let answer = provider_answer cfg s (claim_notice now n o) n n.channel in
            rw there (
              settle-stays cfg now n answer (record r { attempted = r.attempted + 1 })
                (logged n.id answer (claim_notice now n o))
                (logged-stays n.id answer (claim_notice now n o)
                  (updated (claims n.id) _ o (claim_notice now n o) (λ m. refl) refl refl refl u)))
      ]

  deliver_each-stays :
      (cfg : NoticeConfig) (s : Surroundings) (now : ℕ) (ns : List Notice) (r : Counts) (o : Outbox)
      → P o
      → P (deliver_each cfg s now ns r o).1
  unfolding deliver_each
  deliver_each-stays cfg s now [] r o u = u
  deliver_each-stays cfg s now (n ∷ ns) r o u =
      let next = deliver_row cfg s now n r o in
      deliver_each-stays cfg s now ns next.0 next.1 (deliver_row-stays cfg s now n r o u)

  reclaim_each-stays :
      (cfg : NoticeConfig) (now : ℕ) (ns : List Notice) (o : Outbox)
      → P o
      → P (reclaim_each cfg now ns o)
  unfolding reclaim_each
  reclaim_each-stays cfg now [] o u = u
  reclaim_each-stays cfg now (n ∷ ns) o u =
      reclaim_each-stays cfg now ns (change n.id (as_reclaimed cfg now (n.attempts + 1)) o)
        (change-stays n.id (as_reclaimed cfg now (n.attempts + 1)) o (λ m. ground arith) u)

  pub deliver_pending-stays :
      (cfg : NoticeConfig) (s : Surroundings) (now : ℕ) (o : Outbox)
      → P o
      → P (deliver_pending cfg s now o).1
  unfolding deliver_pending reclaim_stale
  deliver_pending-stays cfg s now o u =
      deliver_each-stays cfg s now (due_rows now (reclaim_stale cfg now o)) no_counts
        (reclaim_stale cfg now o) (reclaim_each-stays cfg now (stale_rows now o) o u)
