-- ===== src/Notices/Limits.antt =====
-- Every run of the outbox hands a delivery to a provider at most as often as the configuration allows.
use werefa.Notices.Writes.{written, attempt}
use werefa.Notices.Providers.{Surroundings}
use werefa.Notices.Retries.{Waiting, reclaim_each-IsBounded, deliver_each-IsBounded}
use werefa.Notices.Once.{NoticeStep, notice_steps, notice_steps-keeps}
use werefa.Notices.Delivery.{
  deliver_pending, is_notice, reclaim_stale, claim_batch, is_stale, stale_rows, is_due_notice,
  due_rows, no_counts,
}
use werefa.Notices.Attempts.{
  reserve, DistinctIds, IsBounded, calls_of, DistinctIds-take, Within-le, DistinctIds-select,
  mem-select, mem-take,
}
use werefa.Notices.{
  DeliveryState, Notice, NoticeConfig, Outbox, create_delivery, NewDelivery, pending, sending, sent,
  key_width, dead_lettered, has_key, suppressed, notice_of,
}
use werefa.Prelude.{
  ℕ, suc, ◌+◌, ◌≡◌, ◌≤◌, ◌<◌, refl, ap, sym, subst, Bool, false, List, [], ◌∷◌, ◌++◌, ◌==◌, ◌⊎◌,
  arith, Bool-cases, inl, inr, any, select, length, ltb, take, Memᴰ, any-append,
}

reserve-le : (s : DeliveryState) → reserve s ≤ 1
reserve-le pending = omega arith
reserve-le sending = omega arith
reserve-le sent = omega arith
reserve-le dead_lettered = omega arith
reserve-le suppressed = omega arith

pub mem-append_one :
    (n : Notice) (ns : List Notice) {m : Notice} → Memᴰ m (ns ++ n ∷ []) → Memᴰ m ns ⊎ (m ≡ n)
mem-append_one n [] (Memᴰ.head e) = inr e
mem-append_one n [] (Memᴰ.tail m) = elim m [ ]
mem-append_one n (x ∷ ns) (Memᴰ.head e) = inl (Memᴰ.head e)
mem-append_one n (x ∷ ns) (Memᴰ.tail m) = elim (mem-append_one n ns m) [
  | inl at ↦ inl (Memᴰ.tail at)
  | inr e ↦ inr e
]

DistinctIds-append :
    (n : Notice) (ns : List Notice)
    → DistinctIds ns
    → ((m : Notice) → Memᴰ m ns → (n.id == m.id) ≡ false)
    → DistinctIds (ns ++ n ∷ [])
DistinctIds-append n [] d new = (refl, tt)
DistinctIds-append n (x ∷ ns) d new = (
  rw (any-append (is_notice x.id) ns (n ∷ [])) (ground (arith, d.0, new x (Memᴰ.head refl))),
  DistinctIds-append n ns d.1 (λ m at. new m (Memᴰ.tail at)),
)

module _ (cfg : NoticeConfig) (limit : ℕ) (allowed : limit ≡ cfg.max_attempts) where
  batch :
      (p : Notice → Bool) (o : Outbox)
      → IsBounded limit o
      → DistinctIds (take claim_batch (select p o.deliveries))
        × Waiting p (take claim_batch (select p o.deliveries)) o
  batch p o b = (
    DistinctIds-take claim_batch (select p o.deliveries)
        (DistinctIds-select p o.deliveries b.distinct),
    λ m at. mem-select p o.deliveries (mem-take claim_batch (select p o.deliveries) at),
  )

  deliver_pending-IsBounded :
      (s : Surroundings) (now : ℕ) (o : Outbox)
      → IsBounded limit o
      → IsBounded limit (deliver_pending cfg s now o).1
  unfolding deliver_pending reclaim_stale
  deliver_pending-IsBounded s now o b =
      let stale = batch (is_stale now) o b in
      let o' = reclaim_stale cfg now o in
      let b' : IsBounded limit o' =
        reclaim_each-IsBounded cfg limit allowed now (stale_rows now o) o stale.0 stale.1 b in
      let due = batch (is_due_notice now) o' b' in
      deliver_each-IsBounded cfg limit allowed s now (due_rows now o') no_counts o' due.0 due.1 b'

  module _ (some_attempt : 0 < limit) where
    appended :
        (n : Notice) (o : Outbox)
        → n.id ≡ o.next_delivery
        → n.attempts ≡ 0
        → IsBounded limit o
        → IsBounded limit
            (record o { deliveries = o.deliveries ++ n ∷ []; next_delivery = suc o.next_delivery })
    appended n o id none_yet b = record {
      distinct =
          DistinctIds-append n o.deliveries b.distinct (λ m at. ground (arith, id, b.fresh m at));
      within = λ m at. elim (mem-append_one n o.deliveries at) [
        | inl old ↦ b.within m old
        | inr e ↦
            let unused : calls_of m.id o ≡ 0 =
              b.unused m.id (ground (arith, id, ap (λ (x : Notice). x.id) e)) in
            record {
              spent = omega (arith, unused);
              left =
                  subst (λ (x : Notice). x.attempts + reserve x.state ≤ limit) (sym e)
                    (omega (arith, none_yet, reserve-le n.state, some_attempt));
            }
      ];
      fresh = λ m at. elim (mem-append_one n o.deliveries at) [
        | inl old ↦ omega (arith, b.fresh m old)
        | inr e ↦ ground (arith, id, ap (λ (x : Notice). x.id) e)
      ];
      unused = λ i late. b.unused i (omega (arith, late));
    }

    create_delivery-IsBounded :
        (now : ℕ) (input : NewDelivery) (o : Outbox)
        → IsBounded limit o
        → IsBounded limit (written (attempt o (create_delivery o now input)))
    unfolding create_delivery
    create_delivery-IsBounded now input o b = elim (Bool-cases (ltb key_width (length input.key))) [
      | inl wide ↦ rw wide b
      | inr fits ↦ rw fits (elim (Bool-cases (any (has_key input.key) o.deliveries)) [
        | inl there ↦ rw there b
        | inr new ↦ rw new (appended (notice_of o.next_delivery now input) o refl refl b)
      ])
    ]

-- However events are published and deliveries made, retried and reclaimed, no delivery is handed to a
-- provider more often than the configuration allows, if there was none at the start and one attempt at
-- least is allowed.
pub notice_steps-calls :
    (cfg : NoticeConfig) (o : Outbox)
    → 0 < cfg.max_attempts
    → o.deliveries ≡ []
    → o.calls ≡ []
    → (steps : List NoticeStep) (n : Notice) → Memᴰ n (notice_steps cfg steps o).deliveries
    → calls_of n.id (notice_steps cfg steps o) ≤ cfg.max_attempts
notice_steps-calls cfg o some_attempt no_rows no_calls steps n at =
    let limit = cfg.max_attempts in
    let start : IsBounded limit o = record {
      distinct = rw no_rows tt;
      within = λ m m_at. elim (subst (λ (ds : List Notice). Memᴰ m ds) no_rows m_at) [ ];
      fresh = λ m m_at. elim (subst (λ (ds : List Notice). Memᴰ m ds) no_rows m_at) [ ];
      unused = λ i late. rw no_calls refl;
    } in
    let end : IsBounded limit (notice_steps cfg steps o) =
      notice_steps-keeps (IsBounded limit) cfg
        (create_delivery-IsBounded cfg limit refl some_attempt)
        (λ e c x b. record {
          distinct = b.distinct;
          within = b.within;
          fresh = b.fresh;
          unused = b.unused;
        })
        (deliver_pending-IsBounded cfg limit refl) steps o start in
    Within-le limit (calls_of n.id (notice_steps cfg steps o)) n (end.within n at)
