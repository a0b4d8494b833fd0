-- ===== src/Notices/Delivery.antt =====
-- backend/src/domain/notifications/notification-delivery.service.ts: the delivery of the pending rows, with
-- bounded retries. Texts, and why a row was not sent, are left out.
use werefa.Notices.Reminders.{write_due_reminders}
use werefa.Notices.Providers.{Sent, Surroundings, provider_answer, accepted, crashed, refused}
use werefa.Prelude.{
  ℕ, ◌+◌, ◌-◌, ◌*◌, ◌^◌, Bool, true, false, ◌&&◌, Option, none, some, List, [], ◌∷◌, ◌==◌, leb, ltb,
  min, if◌then◌else◌, select, update_many, count_where, take,
}
use werefa.Store.{Db}
use werefa.Notices.{
  Notice, DeliveryState, pending, sending, sent, dead_lettered, suppressed, Outbox, NoticeConfig,
}

abbrev pub claim_batch : ℕ
claim_batch = 25

abbrev pub stale_sending_ms : ℕ
stale_sending_ms = 600000

-- `Math.min(600_000, 30_000 * 2 ** (attempt - 1))`
unfoldable pub backoff_ms : ℕ → ℕ
backoff_ms attempt = min 600000 (30000 * 2 ^ (attempt - 1))

abbrev pub is_notice : ℕ → Notice → Bool
is_notice id n = n.id == id

abbrev pub is_pending_state : DeliveryState → Bool
is_pending_state pending = true
is_pending_state _ = false

abbrev pub is_sending : DeliveryState → Bool
is_sending sending = true
is_sending _ = false

abbrev pub as_failed : NoticeConfig → ℕ → ℕ → Notice → Notice
as_failed cfg now attempts n =
    if leb cfg.max_attempts attempts
    then record n { state = dead_lettered; attempts = attempts; updated_at = now }
    else record n {
      state = pending;
      attempts = attempts;
      next_attempt_at = some (now + backoff_ms attempts);
      updated_at = now;
    }

abbrev pub as_sent : ℕ → Notice → Notice
as_sent now n = record n { state = sent; sent_at = some now; updated_at = now }

abbrev pub as_suppressed : ℕ → Notice → Notice
as_suppressed now n = record n { state = suppressed; updated_at = now }

-- An update of one delivery.
abbrev pub change : ℕ → (Notice → Notice) → Outbox → Outbox
change id f o = record o { deliveries = update_many (is_notice id) f o.deliveries }

pub record Counts : Type 0 where
  pub attempted : ℕ
  pub delivered : ℕ
  pub failed : ℕ
  pub dead_letters : ℕ
  pub suppressions : ℕ

abbrev pub no_counts : Counts
no_counts = record { attempted = 0; delivered = 0; failed = 0; dead_letters = 0; suppressions = 0 }

-- What is written after the call, for the row as it was read; and the count of the outcome.
unfoldable pub settle : NoticeConfig → ℕ → Notice → Option Sent → Counts → Outbox → Counts × Outbox
settle cfg now n none r o =
    (record r { suppressions = r.suppressions + 1 }, change n.id (as_suppressed now) o)
settle cfg now n (some accepted) r o =
    (record r { delivered = r.delivered + 1 }, change n.id (as_sent now) o)
settle cfg now n (some crashed) r o = (record r { failed = r.failed + 1 }, o)
settle cfg now n (some refused) r o = (
  if leb cfg.max_attempts (n.attempts + 1)
      then record r { dead_letters = r.dead_letters + 1 }
      else record r { failed = r.failed + 1 },
  change n.id (as_failed cfg now (n.attempts + 1)) o,
)

abbrev pub claims : ℕ → Notice → Bool
claims id n = n.id == id && is_pending_state n.state

abbrev pub claim_notice : ℕ → Notice → Outbox → Outbox
claim_notice now n o = record o {
  deliveries =
      update_many (claims n.id) (λ (m : Notice). record m { state = sending; updated_at = now })
        o.deliveries;
}

abbrev pub logged : ℕ → Option Sent → Outbox → Outbox
logged id none o = o
logged id (some answer) o = record o { calls = id ∷ o.calls }

-- The body of the loop: the claim, the call and what is written after it.
unfoldable pub deliver_row :
    NoticeConfig → Surroundings → ℕ → Notice → Counts → Outbox → Counts × Outbox
unfolding settle
deliver_row cfg s now n r o =
    if count_where (claims n.id) o.deliveries == 0
    then (r, o)
    else (let o' = claim_notice now n o in
        let answer = provider_answer cfg s o' n n.channel in
        settle cfg now n answer (record r { attempted = r.attempted + 1 }) (logged n.id answer o'))

unfoldable pub deliver_each :
    NoticeConfig → Surroundings → ℕ → List Notice → Counts → Outbox → Counts × Outbox
deliver_each cfg s now [] r o = (r, o)
deliver_each cfg s now (n ∷ ns) r o =
    let next = deliver_row cfg s now n r o in deliver_each cfg s now ns next.0 next.1

abbrev pub is_stale : ℕ → Notice → Bool
is_stale now n = is_sending n.state && ltb (n.updated_at + stale_sending_ms) now

abbrev pub stale_rows : ℕ → Outbox → List Notice
stale_rows now o = take claim_batch (select (is_stale now) o.deliveries)

-- A row that was claimed and never settled.
abbrev pub as_reclaimed : NoticeConfig → ℕ → ℕ → Notice → Notice
as_reclaimed cfg now attempts n =
    if leb cfg.max_attempts attempts
    then record n { state = dead_lettered; attempts = attempts; updated_at = now }
    else record n {
      state = pending;
      attempts = attempts;
      next_attempt_at = some now;
      updated_at = now;
    }

unfoldable pub reclaim_each : NoticeConfig → ℕ → List Notice → Outbox → Outbox
reclaim_each cfg now [] o = o
reclaim_each cfg now (n ∷ ns) o =
    reclaim_each cfg now ns (change n.id (as_reclaimed cfg now (n.attempts + 1)) o)

-- `reclaimStale`
unfoldable pub reclaim_stale : NoticeConfig → ℕ → Outbox → Outbox
unfolding reclaim_each
reclaim_stale cfg now o = reclaim_each cfg now (stale_rows now o) o

abbrev pub may_attempt : ℕ → Option ℕ → Bool
may_attempt now none = true
may_attempt now (some at) = leb at now

abbrev pub is_due_notice : ℕ → Notice → Bool
is_due_notice now n = is_pending_state n.state && may_attempt now n.next_attempt_at

abbrev pub due_rows : ℕ → Outbox → List Notice
due_rows now o = take claim_batch (select (is_due_notice now) o.deliveries)

-- `deliverPending`
unfoldable pub deliver_pending : NoticeConfig → Surroundings → ℕ → Outbox → Counts × Outbox
unfolding reclaim_stale deliver_each
deliver_pending cfg s now o =
    let o' = reclaim_stale cfg now o in
    deliver_each cfg s now (take claim_batch (select (is_due_notice now) o'.deliveries)) no_counts
      o'

-- `sweep`
unfoldable pub deliver_sweep : NoticeConfig → Surroundings → ℕ → Db → Outbox → Counts × Outbox
unfolding write_due_reminders deliver_pending
deliver_sweep cfg s now db o = deliver_pending cfg s now (write_due_reminders cfg now db o)
