-- ===== src/Notices/Taps.antt =====
-- backend/src/domain/notifications/telegram-callback.service.ts: the owner's taps on Accept and Reject,
-- around the booking service. 0 stands for a blank reason; an owner without a user is no owner.
use werefa.Prelude.{
  ℕ, ◌+◌, Bool, not, ◌&&◌, Option, none, some, List, ◌∷◌, ◌==◌, ltb, if◌then◌else◌, find_first,
  update_many, is_some, select, count_where,
}
use werefa.Errors.{Result, ok, err, telegram_callback_invalid}
use werefa.Store.{owner}
use werefa.Tenant.{ActorContext}
use werefa.Booking.World.{World, Reply}
use werefa.Booking.Owner.{accept_proof, reject_proof}
use werefa.Notices.{Callback, Connection, Outbox, names, is_connected}

pub data TapOutcome : Type 0 where
  executed needs_reason refused_tap : TapOutcome

pub record PendingRejection : Type 0 where
  pub chat_id : ℕ
  pub business_id : ℕ
  pub connection_id : ℕ
  pub booking_id : ℕ
  pub prompted_at : ℕ

-- The tables, the booking service's world, and the map of rejections that wait for a reason.
pub record TapDesk : Type 0 where
  pub outbox : Outbox
  pub world : World
  pub waiting : List PendingRejection

abbrev pub prompt_ttl_ms : ℕ
prompt_ttl_ms = 600000

abbrev pub is_open : ℕ → Callback → Bool
is_open id c = c.id == id && not (is_some c.used_at)

abbrev pub connection_of : Outbox → ℕ → Option Connection
connection_of o id = find_first (λ (c : Connection). c.id == id) o.connections

-- The tests of `claim` on the row's connection.
abbrev pub may_tap : ℕ → Callback → Connection → Bool
may_tap chat_id row c =
    c.chat_id == chat_id && (is_connected c.state && names c.business_id row.business_id)

abbrev pub use_callback : ℕ → ℕ → Outbox → Outbox
use_callback id now o = record o {
  callbacks =
      update_many (is_open id) (λ (c : Callback). record c { used_at = some now }) o.callbacks;
}

unfoldable pub claim_row :
    Outbox → ℕ → ℕ → ℕ → Callback → Option Connection → Option (Callback × Connection) × Outbox
claim_row o id chat_id now row none = (none, o)
claim_row o id chat_id now row (some c) =
    if not (may_tap chat_id row c)
    then (none, o)
    else if count_where (is_open id) o.callbacks == 0
    then (none, o)
    else (some (row, c), use_callback id now o)

unfoldable pub claim_found :
    Outbox → ℕ → ℕ → ℕ → Option Callback → Option (Callback × Connection) × Outbox
unfolding claim_row
claim_found o id chat_id now none = (none, o)
claim_found o id chat_id now (some row) =
    claim_row o id chat_id now row (connection_of o row.connection_id)

-- `claim`
unfoldable pub claim_callback : Outbox → ℕ → ℕ → ℕ → Option (Callback × Connection) × Outbox
unfolding claim_found
claim_callback o id chat_id now = claim_found o id chat_id now (find_first (is_open id) o.callbacks)

-- `ownerActor`
abbrev pub owner_actor : Option ℕ → ActorContext
owner_actor user = record { actor_type = owner; actor_user_id = user }

-- The booking service's answer, or its error.
unfoldable pub answered : TapDesk → World × Result Reply → TapDesk × Result TapOutcome
answered d (w, ok reply) = (record d { world = w }, ok executed)
answered d (w, err e) = (record d { world = w }, err e)

unfoldable pub accept_claimed :
    TapDesk → Option (Callback × Connection) × Outbox → TapDesk × Result TapOutcome
unfolding answered
accept_claimed d (none, o) = (record d { outbox = o }, ok refused_tap)
accept_claimed d (some (row, c), o) =
    answered (record d { outbox = o })
      (accept_proof d.world (owner_actor c.user_id) row.business_id row.booking_id)

-- `acceptProof`
unfoldable pub accept_tap : TapDesk → ℕ → ℕ → ℕ → TapDesk × Result TapOutcome
unfolding accept_claimed
accept_tap d id chat_id now = accept_claimed d (claim_callback d.outbox id chat_id now)

abbrev pub waits_for : ℕ → PendingRejection → Bool
waits_for chat_id p = p.chat_id == chat_id

-- `pendingRejections.delete`
abbrev pub forget : ℕ → TapDesk → TapDesk
forget chat_id d = record d { waiting = select (λ p. not (waits_for chat_id p)) d.waiting }

unfoldable pub reject_claimed :
    TapDesk → ℕ → ℕ → Option (Callback × Connection) × Outbox → TapDesk × Result TapOutcome
reject_claimed d chat_id now (none, o) = (record d { outbox = o }, ok refused_tap)
reject_claimed d chat_id now (some (row, c), o) = (
  record d {
    outbox = o;
    waiting =
        record {
          chat_id = chat_id;
          business_id = row.business_id;
          connection_id = c.id;
          booking_id = row.booking_id;
          prompted_at = now;
        }
        ∷ select (λ p. not (waits_for chat_id p)) d.waiting;
  },
  ok needs_reason,
)

-- `startReject`
unfoldable pub start_reject : TapDesk → ℕ → ℕ → ℕ → TapDesk × Result TapOutcome
unfolding reject_claimed
start_reject d id chat_id now =
    reject_claimed d chat_id now (claim_callback d.outbox id chat_id now)

-- `ownerUser`
abbrev pub owner_user : Option Connection → Option ℕ
owner_user none = none
owner_user (some c) = c.user_id

unfoldable pub reject_as : TapDesk → PendingRejection → ℕ → Option ℕ → TapDesk × Result TapOutcome
unfolding answered
reject_as d p reason none = (d, err telegram_callback_invalid)
reject_as d p reason (some user) =
    answered d (reject_proof d.world (owner_actor (some user)) p.business_id p.booking_id reason)

unfoldable pub reason_given :
    TapDesk → ℕ → ℕ → ℕ → Option PendingRejection → TapDesk × Result TapOutcome
unfolding reject_as
reason_given d chat_id reason now none = (forget chat_id d, ok refused_tap)
reason_given d chat_id reason now (some p) =
    if ltb (p.prompted_at + prompt_ttl_ms) now
    then (forget chat_id d, ok refused_tap)
    else if reason == 0
    then (d, ok refused_tap)
    else reject_as (forget chat_id d) p reason (owner_user (connection_of d.outbox p.connection_id))

-- `submitRejectReason`
unfoldable pub submit_reject_reason : TapDesk → ℕ → ℕ → ℕ → TapDesk × Result TapOutcome
unfolding reason_given
submit_reject_reason d chat_id reason now =
    reason_given d chat_id reason now (find_first (waits_for chat_id) d.waiting)
