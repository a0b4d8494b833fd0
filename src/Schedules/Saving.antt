-- ===== src/Schedules/Saving.antt =====
-- backend/src/domain/services/schedule.service.ts (`saveTemplate`) with `createPendingVersion`,
-- `nextVersionNo` and `getActiveVersion` of
-- backend/src/domain/repositories/prisma-schedule.repository.ts.
use werefa.Subscriptions.Service.{settings_of}
use werefa.Schedules.{validate_template, WorkingPeriod, BlockedPeriod, SpecialDate}
use werefa.Tenant.{Business, ActorContext, require_owned_business}
use werefa.Errors.{Result, ok, err, invalid_lifecycle_transition, check_violation}
use werefa.Subscriptions.{ActiveVersion, Ledger, PauseSettings, VersionContent}
use werefa.DaySlots.{ScheduleVersion}
use werefa.Booking.Transactions.{◌>>=◌}
use werefa.Prelude.{
  ℕ, suc, ◌+◌, Bool, true, false, ◌&&◌, Option, none, some, List, [], ◌∷◌, ◌==◌, max, if◌then◌else◌,
  find_first, count_where, update_many, ltb, leb, all,
}
use werefa.Versions.{active, VersionRow, pending, is_current, demote_active, promote_pending}

-- The largest of the version numbers of a business, or 0.
unfoldable pub latest_version_no : ℕ → List VersionRow → ℕ
latest_version_no n [] = 0
latest_version_no n (v ∷ vs) =
    let rest = latest_version_no n vs in if v.business_id == n then max v.version_no rest else rest

-- `nextVersionNo`
unfoldable pub next_version_no : ℕ → List VersionRow → ℕ
unfolding latest_version_no
next_version_no n rows = latest_version_no n rows + 1

-- The rows that `createPendingVersion` inserts.
abbrev pub with_version : ℕ → ℕ → ScheduleVersion → Ledger → Ledger
with_version n version_no template db = record db {
  versions =
      record { id = db.next_version; business_id = n; version_no = version_no; status = pending }
      ∷ db.versions;
  contents =
      record { version_id = db.next_version; business_id = n; template = template } ∷ db.contents;
  next_version = suc db.next_version;
}

-- The CHECK constraint on the minutes of a blocked period and of a special date.
abbrev pub within_day : Option ℕ → Option ℕ → Bool
within_day none e = true
within_day (some s) none = false
within_day (some s) (some e) = ltb s e && leb e 1440

abbrev is_weekday : ℕ → Bool
is_weekday d = leb 1 d && leb d 7

abbrev is_weekday_or_none : Option ℕ → Bool
is_weekday_or_none none = true
is_weekday_or_none (some d) = is_weekday d

-- The CHECK constraints on the rows of a template.
abbrev pub passes_checks : ScheduleVersion → Bool
passes_checks t =
    all
      (λ (w : WorkingPeriod).
        is_weekday w.weekday && (ltb w.start_minutes w.end_minutes && leb w.end_minutes 1440))
      t.working_periods
    && (all
          (λ (b : BlockedPeriod).
            is_weekday_or_none b.day_of_week && within_day b.start_minutes b.end_minutes)
          t.blocked_periods
        && all (λ (s : SpecialDate). within_day s.start_minutes s.end_minutes) t.special_dates)

-- `createPendingVersion`
unfoldable pub create_pending_version : ℕ → ℕ → ScheduleVersion → Ledger → Result Ledger
create_pending_version n version_no template db =
    if passes_checks template
    then ok (with_version n version_no template db)
    else err check_violation

abbrev pub is_promotable : ℕ → ℕ → VersionRow → Bool
is_promotable id n v =
    v.id == id && (v.business_id == n && elim v.status [ pending ↦ true | active ↦ false ])

-- `setBusinessActiveVersion`
abbrev pub set_active_version : ℕ → ℕ → List ActiveVersion → List ActiveVersion
set_active_version n id rows =
    update_many (λ (a : ActiveVersion). a.business_id == n) (λ a. record a { version_id = some id })
      rows

-- What a save that is not held back by a pause does after the version is there.
unfoldable pub activate : ℕ → ℕ → Ledger → Result Ledger
activate n id db =
    let demoted = demote_active n db.versions in
    if count_where (is_promotable id n) demoted == 1
    then ok (record db {
      versions = promote_pending id n demoted;
      active_versions = set_active_version n id db.active_versions;
    })
    else err invalid_lifecycle_transition

pub record Saved : Type 0 where
  pub version_id : ℕ
  pub activated : Bool

-- The transaction of `saveTemplate`.
unfoldable pub save_tx : ℕ → Bool → ScheduleVersion → Ledger → Result (Saved × Ledger)
unfolding activate next_version_no create_pending_version
save_tx n is_paused template db = do
  created ← create_pending_version n (next_version_no n db.versions) template db
  if is_paused then ok (record { version_id = db.next_version; activated = false }, created) else do
    next ← activate n db.next_version created
    ok (record { version_id = db.next_version; activated = true }, next)

-- `settings?.isPaused ?? false`
abbrev pub paused_of : Option PauseSettings → Bool
paused_of none = false
paused_of (some s) = s.is_paused

-- `saveTemplate`; when it throws the tables stay as they are.
unfoldable pub save_template :
    Ledger → List Business → ActorContext → ℕ → ScheduleVersion → Result (Saved × Ledger)
unfolding save_tx
save_template db businesses ctx n template = do
  owned ← require_owned_business businesses ctx n
  valid ← validate_template template
  save_tx n (paused_of (settings_of db n)) template db

abbrev pub later_of : Option VersionRow → VersionRow → Option VersionRow
later_of none v = some v
later_of (some b) v = if ltb b.version_no v.version_no then some v else some b

-- Among the ACTIVE versions of a business, the one with the largest number.
unfoldable pub newest_active : ℕ → Option VersionRow → List VersionRow → Option VersionRow
newest_active n best [] = best
newest_active n best (v ∷ vs) =
    newest_active n (if v.business_id == n && is_current v.status then later_of best v else best) vs

unfoldable pub content_of : Ledger → Option VersionRow → Option VersionContent
content_of db none = none
content_of db (some v) = find_first (λ (c : VersionContent). c.version_id == v.id) db.contents

-- `getActiveVersion`
unfoldable pub get_active_version : Ledger → ℕ → Option VersionContent
unfolding newest_active content_of
get_active_version db n = content_of db (newest_active n none db.versions)
