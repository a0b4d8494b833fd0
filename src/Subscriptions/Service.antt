-- ===== src/Subscriptions/Service.antt =====
-- backend/src/domain/services/subscription.service.ts: the booking gate and the end of a pause.
-- `reconcileStatus` and the gate write before they answer or throw, so a call is its answer with the
-- tables it leaves.
use werefa.Prelude.{
  ℕ, Bool, false, not, Option, none, some, List, ltb, ◌==◌, if◌then◌else◌, find_first, update_many,
  is_some, true, any, ◌&&◌,
}
use werefa.Errors.{Result, ok, err, subscription_disabled, p2025_missing_row}
use werefa.Store.{system}
use werefa.Lifecycle.{derive_canonical_status, is_eligible}
use werefa.Versions.{promote_latest_pending, VersionRow, pending, active}
use werefa.Tenant.{Business, ActorContext, require_owned_business}
use werefa.Subscriptions.{
  Ledger, Subscription, SubscriptionStatusHistory, PauseSettings, ActiveVersion, HistoryReason,
  resume_refused, resume_applied, status_is, get_by_business, advance_to_canonical_status,
  append_history, VersionRow,
}

unfoldable pub reconcile_from : Ledger → ℕ → ℕ → Option Subscription → Option Subscription × Ledger
reconcile_from db now n none = (none, db)
reconcile_from db now n (some sub) =
    let desired = derive_canonical_status sub.bands now in
    let advanced = advance_to_canonical_status db n desired in
    if not (status_is desired sub.status)
    then (get_by_business advanced n, advanced)
    else (some sub, db)

-- `reconcileStatus`
unfoldable pub reconcile_status : Ledger → ℕ → ℕ → Option Subscription × Ledger
unfolding reconcile_from
reconcile_status db now n = reconcile_from db now n (get_by_business db n)

-- `sub && isEligible(sub.status)`
abbrev pub takes_bookings : Option Subscription → Bool
takes_bookings none = false
takes_bookings (some sub) = is_eligible sub.status

-- `bookingGate`
unfoldable pub booking_gate : Ledger → ℕ → ℕ → Result (Unit {0}) × Ledger
booking_gate db now n =
    let r = reconcile_status db now n in
    (if takes_bookings r.0 then ok tt else err subscription_disabled, r.1)

-- `isEligibleNow`
unfoldable pub is_eligible_now : Ledger → ℕ → ℕ → Bool
is_eligible_now db now n = elim (get_by_business db n) [
  | none ↦ false
  | some sub ↦ is_eligible (derive_canonical_status sub.bands now)
]

abbrev pub settings_of : Ledger → ℕ → Option PauseSettings
settings_of db n = find_first (λ (s : PauseSettings). s.business_id == n) db.settings

-- `businessSettings.update({ where: { businessId }, data: { isPaused: false, reopenAt: null } })`
abbrev pub clear_pause : ℕ → Ledger → Ledger
clear_pause n db = record db {
  settings =
      update_many (λ (s : PauseSettings). s.business_id == n)
        (λ s. record s { is_paused = false; reopen_at = none }) db.settings;
}

named_version : ℕ → Option ℕ → List ActiveVersion → List ActiveVersion
named_version n none rows = rows
named_version n (some id) rows =
    update_many (λ (a : ActiveVersion). a.business_id == n) (λ a. record a { version_id = some id })
      rows

-- `promoteLatestPending` on these tables, by an actor with a user id, which the owner's guard makes sure
-- of in `manualResume`; by 'system' it throws where a version is pending, as `resume_with` says.
unfoldable pub apply_pending : ℕ → Ledger → Ledger
unfolding named_version
apply_pending n db =
    let r = promote_latest_pending n db.versions in
    record db { versions = r.0; active_versions = named_version n r.1 db.active_versions }

-- The transaction of `manualResume`; Prisma's `update` throws when the row is missing.
unfoldable pub resume_tx : ℕ → Ledger → Result Ledger
unfolding apply_pending
resume_tx n db =
    if is_some (settings_of db n)
    then ok (apply_pending n (clear_pause n db))
    else err p2025_missing_row

unfoldable pub commit : Ledger → Result Ledger → Result (Unit {0}) × Ledger
commit db (ok next) = (ok tt, next)
commit db (err e) = (err e, db)

unfoldable pub resume_owned : Ledger → ℕ → ℕ → Result Business → Result (Unit {0}) × Ledger
unfolding commit
resume_owned db now n (err e) = (err e, db)
resume_owned db now n (ok b) =
    let r = reconcile_status db now n in
    if takes_bookings r.0 then commit r.1 (resume_tx n r.1) else (err subscription_disabled, r.1)

-- `manualResume`
unfoldable pub manual_resume :
    Ledger → List Business → ActorContext → ℕ → ℕ → Result (Unit {0}) × Ledger
unfolding resume_owned
manual_resume db businesses ctx now n =
    resume_owned db now n (require_owned_business businesses ctx n)

-- The history row of an auto-resume, which keeps the status.
abbrev pub resume_row : Subscription → HistoryReason → SubscriptionStatusHistory
resume_row sub reason = record {
  subscription_id = sub.id;
  business_id = sub.business_id;
  from_status = some sub.status;
  to_status = sub.status;
  actor_type = system;
  actor_user_id = none;
  reason = reason;
}

pub data Resume : Type 0 where
  resumed not_paused not_yet no_subscription refused_expired : Resume
  thrown : Resume

abbrev pub is_thrown : Resume → Bool
is_thrown Resume.thrown = true
is_thrown _ = false

-- Has the business a PENDING version?
abbrev pub has_pending : ℕ → List VersionRow → Bool
has_pending n rows =
    any
      (λ (v : VersionRow). v.business_id == n && elim v.status [ pending ↦ true | active ↦ false ])
      rows

-- Both transactions of `attemptAutoResume`. The second one promotes a pending version as the actor
-- 'system', which is no value of the uuid column `applied_by`: with one, it throws and is rolled back.
unfoldable pub resume_with : ℕ → Ledger → Option Subscription → Resume × Ledger
unfolding apply_pending
resume_with n db none = (no_subscription, db)
resume_with n db (some sub) =
    if not (is_eligible sub.status)
    then (refused_expired, append_history (resume_row sub resume_refused) db)
    else if has_pending n db.versions
    then (thrown, db)
    else (
      resumed,
      apply_pending n (append_history (resume_row sub resume_applied) (clear_pause n db)),
    )

unfoldable pub due_resume : Ledger → ℕ → ℕ → Option ℕ → Resume × Ledger
unfolding resume_with
due_resume db now n none = (not_paused, db)
due_resume db now n (some reopen_at) =
    let r = reconcile_status db now n in
    if ltb now reopen_at then (not_yet, db) else resume_with n r.1 r.0

unfoldable pub auto_resume_from : Ledger → ℕ → ℕ → Option PauseSettings → Resume × Ledger
unfolding due_resume
auto_resume_from db now n none = (not_paused, db)
auto_resume_from db now n (some s) =
    if s.is_paused then due_resume db now n s.reopen_at else (not_paused, db)

-- `attemptAutoResume`
unfoldable pub attempt_auto_resume : Ledger → ℕ → ℕ → Resume × Ledger
unfolding auto_resume_from
attempt_auto_resume db now n = auto_resume_from db now n (settings_of db n)
