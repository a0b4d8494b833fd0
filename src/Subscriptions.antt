-- ===== src/Subscriptions.antt =====
-- backend/src/domain/repositories/prisma-subscription.repository.ts: the tables of subscriptions, their
-- status history and their payment proofs, with the operations on them. An actor id is `none` where
-- the code writes 'system' or NULL.
pub mod Service
pub mod Gating
pub mod Billing
pub mod Asides
pub mod Changes
pub mod Reach
pub mod Balance
pub mod Renewing
pub mod Settled
pub mod Once
pub mod Resuming
pub mod Replays
use werefa.DaySlots.{ScheduleVersion}
use werefa.Prelude.{
  ℕ, ◌≡◌, refl, arith, suc, ◌+◌, ◌*◌, Bool, true, false, ◌&&◌, Option, none, some, List, [], ◌∷◌,
  ◌==◌, if◌then◌else◌, any, select, find_first, find_first-mem, update_many, count_where,
  or_default,
}
use werefa.Store.{Text, text_eq, ActorType, system, FileObject}
use werefa.Lifecycle.{
  SubscriptionStatus, none_yet, trial, trial_grace, active, paid_grace, expired, Bands, day_ms,
  is_eligible,
}
use werefa.Versions.{VersionRow}

pub record Subscription : Type 0 where
  pub id : ℕ
  pub business_id : ℕ
  pub status : SubscriptionStatus
  pub trial_started_at : Option ℕ
  pub bands : Bands

-- What the reasons of the history say; `given` is a text of the caller.
pub data HistoryReason : Type 0 where
  time_advance : SubscriptionStatus → HistoryReason
  proof_approved : ℕ → HistoryReason
  resume_refused resume_applied : HistoryReason
  given : Option ℕ → HistoryReason

pub record SubscriptionStatusHistory : Type 0 where
  pub subscription_id : ℕ
  pub business_id : ℕ
  pub from_status : Option SubscriptionStatus
  pub to_status : SubscriptionStatus
  pub actor_type : ActorType
  pub actor_user_id : Option ℕ
  pub reason : HistoryReason

pub data ReviewState : Type 0 where
  pending approved rejected : ReviewState

pub record SubscriptionProof : Type 0 where
  pub id : ℕ
  pub subscription_id : ℕ
  pub business_id : ℕ
  pub submission_key : Text
  pub file_object_id : Option ℕ
  pub requested_at : ℕ
  pub review_state : ReviewState
  pub reviewed_by : Option ℕ
  pub rejection_reason : Option Text
  pub approved_until : Option ℕ

-- The columns of the settings that a pause uses.
pub record PauseSettings : Type 0 where
  pub business_id : ℕ
  pub is_paused : Bool
  pub reopen_at : Option ℕ

-- `business.activeScheduleVersionId`
pub record ActiveVersion : Type 0 where
  pub business_id : ℕ
  pub version_id : Option ℕ

-- The periods and dates of a schedule version.
pub record VersionContent : Type 0 where
  pub version_id : ℕ
  pub business_id : ℕ
  pub template : ScheduleVersion

pub record ScheduleException : Type 0 where
  pub business_id : ℕ
  pub version_id : ℕ
  pub booking_id : ℕ
  pub created_by : Option ℕ
  pub reason : Option Text

-- The tables of subscriptions and of schedules, the newest row first.
pub record Ledger : Type 0 where
  pub subscriptions : List Subscription
  pub history : List SubscriptionStatusHistory
  pub proofs : List SubscriptionProof
  pub files : List FileObject
  pub settings : List PauseSettings
  pub versions : List VersionRow
  pub active_versions : List ActiveVersion
  pub contents : List VersionContent
  pub exceptions : List ScheduleException
  pub next_version : ℕ
  pub next_subscription : ℕ
  pub next_proof : ℕ
  pub next_file : ℕ

abbrev pub status_is : SubscriptionStatus → SubscriptionStatus → Bool
status_is none_yet none_yet = true
status_is trial trial = true
status_is trial_grace trial_grace = true
status_is active active = true
status_is paid_grace paid_grace = true
status_is expired expired = true
status_is _ _ = false

pub status_is-eq : (a b : SubscriptionStatus) → status_is a b ≡ true → a ≡ b
status_is-eq a b h = ground arith

pub status_is_refl : (a : SubscriptionStatus) → status_is a a ≡ true
status_is_refl a = ground arith

abbrev pub is_pending : ReviewState → Bool
is_pending pending = true
is_pending _ = false

abbrev pub of_business : ℕ → Subscription → Bool
of_business n s = s.business_id == n

-- `getByBusiness`
abbrev pub get_by_business : Ledger → ℕ → Option Subscription
get_by_business db n = find_first (of_business n) db.subscriptions

-- `ensureTrialAtCreation`: an upsert that changes no existing row.
unfoldable pub ensure_trial_at_creation : Ledger → ℕ → ℕ → Option ℕ → Ledger
ensure_trial_at_creation db n now days =
    let trial_end = now + or_default days 30 * day_ms in
    if any (of_business n) db.subscriptions then db else record db {
      subscriptions =
          record {
            id = db.next_subscription;
            business_id = n;
            status = trial;
            trial_started_at = some now;
            bands = record {
              trial_ends_at = some trial_end;
              trial_grace_ends_at = some (trial_end + 3 * day_ms);
              period_ends_at = none;
              paid_grace_ends_at = none;
            };
          }
          ∷ db.subscriptions;
      next_subscription = suc db.next_subscription;
    }

-- `isBookingEligible`, on the persisted status.
unfoldable pub is_booking_eligible : Ledger → ℕ → Bool
unfolding is_eligible
is_booking_eligible db n = elim (get_by_business db n) [
  | none ↦ false
  | some s ↦ is_eligible s.status
]

-- `appendHistory`
abbrev pub append_history : SubscriptionStatusHistory → Ledger → Ledger
append_history h db = record db { history = h ∷ db.history }

abbrev pub standing : ℕ → SubscriptionStatus → Subscription → Bool
standing n from s = s.business_id == n && status_is s.status from

abbrev pub with_status : SubscriptionStatus → Subscription → Subscription
with_status to s = record s { status = to }

-- `subscription.updateMany({ where: { businessId, status: from }, data: { status: to } })`
abbrev pub move_status : ℕ → SubscriptionStatus → SubscriptionStatus → Ledger → Ledger
move_status n from to db = record db {
  subscriptions = update_many (standing n from) (with_status to) db.subscriptions;
}

-- The history row of a status change, if the subscription is still there.
unfoldable pub noted :
    Option Subscription
    → SubscriptionStatus
    → SubscriptionStatus
    → ActorType
    → Option ℕ
    → HistoryReason
    → Ledger
    → Ledger
noted none from to actor_type user reason db = db
noted (some sub) from to actor_type user reason db =
    append_history
      (record {
        subscription_id = sub.id;
        business_id = sub.business_id;
        from_status = some from;
        to_status = to;
        actor_type = actor_type;
        actor_user_id = user;
        reason = reason;
      })
      db

-- `transitionStatus`: `none` when not exactly one row was updated.
unfoldable pub transition_subscription :
    Ledger
    → ℕ
    → SubscriptionStatus
    → SubscriptionStatus
    → ActorType
    → Option ℕ
    → HistoryReason
    → Option Ledger
unfolding noted
transition_subscription db n from to actor_type user reason =
    let moved = move_status n from to db in
    if count_where (standing n from) db.subscriptions == 1
    then some (noted (get_by_business moved n) from to actor_type user reason moved)
    else none

unfoldable pub advance_from : Ledger → ℕ → SubscriptionStatus → Option Subscription → Ledger
unfolding noted
advance_from db n desired none = db
advance_from db n desired (some sub) =
    let moved = move_status n sub.status desired db in
    if status_is sub.status desired
    then db
    else if count_where (standing n sub.status) db.subscriptions == 1
    then noted (some sub) sub.status desired system none (time_advance desired) moved
    else moved

-- `advanceToCanonicalStatus`. The reason names the desired status.
unfoldable pub advance_to_canonical_status : Ledger → ℕ → SubscriptionStatus → Ledger
unfolding advance_from
advance_to_canonical_status db n desired = advance_from db n desired (get_by_business db n)

-- `findProofBySubmissionKey`
abbrev pub find_proof_by_key : Ledger → Text → Option SubscriptionProof
find_proof_by_key db key =
    find_first (λ (p : SubscriptionProof). text_eq p.submission_key key) db.proofs

-- `getProofById`
abbrev pub get_proof_by_id : Ledger → ℕ → Option SubscriptionProof
get_proof_by_id db id = find_first (λ (p : SubscriptionProof). p.id == id) db.proofs

-- `listProofsByBusiness`, without its order.
abbrev pub list_proofs_by_business : Ledger → ℕ → List SubscriptionProof
list_proofs_by_business db n = select (λ (p : SubscriptionProof). p.business_id == n) db.proofs

abbrev pub reviewable : ℕ → ℕ → SubscriptionProof → Bool
reviewable id n p = p.id == id && (p.business_id == n && is_pending p.review_state)

-- `reviewProof` with the state APPROVED or REJECTED, and the column of the other state NULL.
abbrev pub as_approved : Option ℕ → ℕ → SubscriptionProof → SubscriptionProof
as_approved user until p = record p {
  review_state = approved;
  reviewed_by = user;
  rejection_reason = none;
  approved_until = some until;
}

abbrev pub as_rejected : Option ℕ → Text → SubscriptionProof → SubscriptionProof
as_rejected user reason p = record p {
  review_state = rejected;
  reviewed_by = user;
  rejection_reason = some reason;
  approved_until = none;
}

unfoldable pub review_proof :
    Ledger → ℕ → ℕ → (SubscriptionProof → SubscriptionProof) → Option Ledger
review_proof db id n decision =
    if count_where (reviewable id n) db.proofs == 1
    then some (record db { proofs = update_many (reviewable id n) decision db.proofs })
    else none

-- `createProof`: `none` is a violation of the unique index on the submission key.
unfoldable pub create_proof : Ledger → ℕ → ℕ → Text → ℕ → ℕ → Option (SubscriptionProof × Ledger)
create_proof db subscription_id n key file_id now =
    let row : SubscriptionProof = record {
      id = db.next_proof;
      subscription_id = subscription_id;
      business_id = n;
      submission_key = key;
      file_object_id = some file_id;
      requested_at = now;
      review_state = pending;
      reviewed_by = none;
      rejection_reason = none;
      approved_until = none;
    } in
    if any (λ (p : SubscriptionProof). text_eq p.submission_key key) db.proofs
    then none
    else some (row, record db { proofs = row ∷ db.proofs; next_proof = suc db.next_proof })

-- `setPaidBand`
abbrev pub set_paid_band : ℕ → ℕ → ℕ → Ledger → Ledger
set_paid_band n period_ends_at paid_grace_ends_at db = record db {
  subscriptions =
      update_many (of_business n)
        (λ s. record s {
          bands = record (Subscription.bands s) {
            period_ends_at = some period_ends_at;
            paid_grace_ends_at = some paid_grace_ends_at;
          };
        })
        db.subscriptions;
}

-- `subscription.update({ where: { businessId }, data: { status: 'ACTIVE' } })`
abbrev pub set_active : ℕ → Ledger → Ledger
set_active n db = record db {
  subscriptions = update_many (of_business n) (with_status active) db.subscriptions;
}

pub status_is_comm : (a b : SubscriptionStatus) → status_is a b ≡ status_is b a
status_is_comm a b = ground arith

pub find_first-of_business :
    (n : ℕ) (xs : List Subscription) {s : Subscription}
    → find_first (of_business n) xs ≡ some s
    → of_business n s ≡ true
find_first-of_business n xs e = (find_first-mem (of_business n) xs e).1
