-- ===== src/Subscriptions/Resuming.antt =====
-- When a scheduled pause ends, and that it ends once.
use werefa.Versions.{promote_latest_pending, latest_of, list_pending, promote}
use werefa.Subscriptions.Gating.{takes_bookings-reconcile_status}
use werefa.Lifecycle.{derive_canonical_status, is_eligible}
use werefa.Subscriptions.{
  advance_to_canonical_status, PauseSettings, Ledger, advance_from, Subscription, noted,
  SubscriptionStatus, status_is, get_by_business, append_history, VersionRow, resume_applied,
}
use werefa.Subscriptions.Service.{
  reconcile_from, resume_with, due_resume, auto_resume_from, attempt_auto_resume, Resume,
  takes_bookings, is_eligible_now, reconcile_status, settings_of, clear_pause, apply_pending,
  has_pending, is_thrown, resume_row,
}
use werefa.Prelude.{
  Option, none, some, true, false, Bool, leb, ◌&&◌, arith, Bool-cases, inl, inr, ◌∙◌, ℕ, ◌≡◌, refl,
  Option, Bool, some, false, true, ◌&&◌, arith, Bool-cases, find_first-update_found, ltb, ◌==◌, ap,
  not, subst, List, [], ◌∷◌,
}

-- Reconciling changes neither the pauses nor the schedule versions.
abbrev SameTimes : Ledger → Ledger → Type 0
SameTimes db next = (next.settings ≡ db.settings) × (next.versions ≡ db.versions)

advance_from-SameTimes :
    (db : Ledger) (n : ℕ) (desired : SubscriptionStatus) (o : Option Subscription)
    → SameTimes db (advance_from db n desired o)
unfolding advance_from noted
advance_from-SameTimes db n desired none = (refl, refl)
advance_from-SameTimes db n desired (some sub) = (ground arith, ground arith)

reconcile_from-SameTimes :
    (db : Ledger) (now n : ℕ) (o : Option Subscription) → SameTimes db (reconcile_from db now n o).1
unfolding reconcile_from advance_to_canonical_status
reconcile_from-SameTimes db now n none = (refl, refl)
reconcile_from-SameTimes db now n (some sub) =
    let desired = derive_canonical_status sub.bands now in
    elim (Bool-cases (status_is desired sub.status)) [
      | inl same ↦ rw same (refl, refl)
      | inr change ↦ rw change (advance_from-SameTimes db n desired (get_by_business db n))
    ]

abbrev reached : ℕ → Option ℕ → Bool
reached now none = false
reached now (some at) = leb at now

-- Is a scheduled pause due?
abbrev pub is_due_pause : ℕ → Option PauseSettings → Bool
is_due_pause now none = false
is_due_pause now (some s) = s.is_paused && reached now s.reopen_at

pub reconcile_status-SameTimes :
    (db : Ledger) (now n : ℕ) → SameTimes db (reconcile_status db now n).1
unfolding reconcile_status
reconcile_status-SameTimes db now n = reconcile_from-SameTimes db now n (get_by_business db n)

pub reconcile_status-settings :
    (db : Ledger) (now n : ℕ) → (reconcile_status db now n).1.settings ≡ db.settings
reconcile_status-settings db now n = (reconcile_status-SameTimes db now n).0

-- The settings after a pause was cleared.
cleared :
    (n : ℕ) (db next : Ledger) (s : PauseSettings)
    → settings_of db n ≡ some s
    → next.settings ≡ (clear_pause n db).settings
    → settings_of next n ≡ some (record s { is_paused = false; reopen_at = none })
cleared n db next s e same = rw same (
    find_first-update_found (λ (x : PauseSettings). x.business_id == n)
      (λ x. record x { is_paused = false; reopen_at = none }) db.settings (λ y. refl) e)

resume_with-settings :
    (n : ℕ) (db : Ledger) (o : Option Subscription)
    → (resume_with n db o).0 ≡ Resume.resumed
    → (resume_with n db o).1.settings ≡ (clear_pause n db).settings
unfolding resume_with apply_pending
resume_with-settings n db none e = cc
resume_with-settings n db (some sub) e = elim (Bool-cases (is_eligible sub.status)) [
  | inl can ↦ elim (Bool-cases (has_pending n db.versions)) [
    | inl waiting ↦ ground (arith, e, can, waiting)
    | inr clear ↦ rw (can, clear) refl
  ]
  | inr cannot ↦ ground (arith, e, cannot)
]

due_resume-settings :
    (db : Ledger) (now n : ℕ) (o : Option ℕ)
    → (due_resume db now n o).0 ≡ Resume.resumed
    → (due_resume db now n o).1.settings ≡ (clear_pause n db).settings
unfolding due_resume
due_resume-settings db now n none e = cc
due_resume-settings db now n (some at) e = elim (Bool-cases (ltb now at)) [
  | inl early ↦ ground (arith, e, early)
  | inr late ↦
      let r = reconcile_status db now n in
      let open_ : (resume_with n r.1 r.0).0 ≡ Resume.resumed = ground (arith, e, late) in
      rw late (
        resume_with-settings n r.1 r.0 open_
        ∙ ap (λ rows. (clear_pause n (record db { settings = rows })).settings)
            (reconcile_status-settings db now n))
]

not_paused_again :
    (next : Ledger) (later n : ℕ) (s : PauseSettings)
    → settings_of next n ≡ some s
    → s.is_paused ≡ false
    → attempt_auto_resume next later n ≡ (Resume.not_paused, next)
unfolding attempt_auto_resume auto_resume_from
not_paused_again next later n s e off = rw (e, off) refl

resumed_settings :
    (db : Ledger) (now n : ℕ) (o : Option PauseSettings)
    → settings_of db n ≡ o
    → (auto_resume_from db now n o).0 ≡ Resume.resumed
    → (s : PauseSettings) × (settings_of (auto_resume_from db now n o).1 n ≡ some s)
      × (s.is_paused ≡ false)
unfolding auto_resume_from
resumed_settings db now n none found e = cc
resumed_settings db now n (some s) found e = elim (Bool-cases s.is_paused) [
  | inl on ↦
      let due : (due_resume db now n s.reopen_at).0 ≡ Resume.resumed = ground (arith, e, on) in
      let next = (due_resume db now n s.reopen_at).1 in
      rw on (_, cleared n db next s found (due_resume-settings db now n s.reopen_at due), refl)
  | inr off ↦ ground (arith, e, off)
]

-- When the clock has reopened a business, a second attempt, at whatever instant, finds no pause and
-- changes nothing.
pub attempt_auto_resume-once :
    (db : Ledger) (now later n : ℕ)
    → (attempt_auto_resume db now n).0 ≡ Resume.resumed
    → attempt_auto_resume (attempt_auto_resume db now n).1 later n
      ≡ (Resume.not_paused, (attempt_auto_resume db now n).1)
unfolding attempt_auto_resume
attempt_auto_resume-once db now later n e =
    let (s, found, off) = resumed_settings db now n (settings_of db n) refl e in
    not_paused_again (auto_resume_from db now n (settings_of db n)).1 later n s found off

abbrev pub is_resumed : Resume → Bool
is_resumed Resume.resumed = true
is_resumed _ = false

-- What an attempt answers, from whether the pause is due, the subscription takes bookings and a version
-- is pending.
abbrev Answers : Resume → Bool → Bool → Bool → Type 0
Answers r due can waiting =
    (is_resumed r ≡ (due && (can && not waiting))) × (is_thrown r ≡ (due && (can && waiting)))

resume_with-Answers :
    (n : ℕ) (db : Ledger) (o : Option Subscription)
    → Answers (resume_with n db o).0 true (takes_bookings o) (has_pending n db.versions)
unfolding resume_with
resume_with-Answers n db none = (refl, refl)
resume_with-Answers n db (some sub) = (ground arith, ground arith)

due_resume-Answers :
    (db : Ledger) (now n : ℕ) (o : Option ℕ)
    → Answers
        (due_resume db now n o).0
        (reached now o)
        (takes_bookings (reconcile_status db now n).0)
        (has_pending n (reconcile_status db now n).1.versions)
unfolding due_resume
due_resume-Answers db now n none = (refl, refl)
due_resume-Answers db now n (some at) =
    let r = reconcile_status db now n in
    let a = resume_with-Answers n r.1 r.0 in (ground (arith, a.0, a.1), ground (arith, a.0, a.1))

auto_resume_from-Answers :
    (db : Ledger) (now n : ℕ) (o : Option PauseSettings)
    → Answers
        (auto_resume_from db now n o).0
        (is_due_pause now o)
        (takes_bookings (reconcile_status db now n).0)
        (has_pending n (reconcile_status db now n).1.versions)
unfolding auto_resume_from
auto_resume_from-Answers db now n none = (refl, refl)
auto_resume_from-Answers db now n (some s) =
    let a = due_resume-Answers db now n s.reopen_at in
    (ground (arith, a.0, a.1), ground (arith, a.0, a.1))

pub attempt_auto_resume_iff :
    (db : Ledger) (now n : ℕ)
    → let due = is_due_pause now (settings_of db n) in
      let can = is_eligible_now db now n in
      let waiting = has_pending n db.versions in
      (is_resumed (attempt_auto_resume db now n).0 ≡ (due && (can && not waiting)))
      × (is_thrown (attempt_auto_resume db now n).0 ≡ (due && (can && waiting)))
unfolding attempt_auto_resume
attempt_auto_resume_iff db now n =
    let r = (auto_resume_from db now n (settings_of db n)).0 in
    let due = is_due_pause now (settings_of db n) in
    subst (λ w. Answers r due (is_eligible_now db now n) w)
      (ap (has_pending n) ((reconcile_status-SameTimes db now n).1))
      (subst (λ c. Answers r due c (has_pending n (reconcile_status db now n).1.versions))
        (takes_bookings-reconcile_status db now n)
        (auto_resume_from-Answers db now n (settings_of db n)))

none_pending :
    (n : ℕ) (rows : List VersionRow) → has_pending n rows ≡ false → list_pending n rows ≡ []
none_pending n [] h = refl
none_pending n (v ∷ vs) h = ground (arith, h, none_pending n vs)

apply_pending-none :
    (n : ℕ) (db : Ledger)
    → has_pending n db.versions ≡ false
    → (apply_pending n db).versions ≡ db.versions
unfolding apply_pending promote_latest_pending latest_of promote
apply_pending-none n db h = rw (none_pending n db.versions h) refl

resume_with-versions :
    (n : ℕ) (db : Ledger) (o : Option Subscription) → (resume_with n db o).1.versions ≡ db.versions
unfolding resume_with
resume_with-versions n db none = refl
resume_with-versions n db (some sub) = elim (Bool-cases (is_eligible sub.status)) [
  | inl can ↦ elim (Bool-cases (has_pending n db.versions)) [
    | inl waiting ↦ rw (can, waiting) refl
    | inr clear ↦
        rw (can, clear)
          (apply_pending-none n (append_history (resume_row sub resume_applied) (clear_pause n db))
            clear)
  ]
  | inr cannot ↦ rw cannot refl
]

due_resume-versions :
    (db : Ledger) (now n : ℕ) (o : Option ℕ) → (due_resume db now n o).1.versions ≡ db.versions
unfolding due_resume
due_resume-versions db now n none = refl
due_resume-versions db now n (some at) = elim (Bool-cases (ltb now at)) [
  | inl early ↦ rw early refl
  | inr late ↦
      let r = reconcile_status db now n in
      rw late (resume_with-versions n r.1 r.0 ∙ (reconcile_status-SameTimes db now n).1)
]

auto_resume_from-versions :
    (db : Ledger) (now n : ℕ) (o : Option PauseSettings)
    → (auto_resume_from db now n o).1.versions ≡ db.versions
unfolding auto_resume_from
auto_resume_from-versions db now n none = refl
auto_resume_from-versions db now n (some s) = elim (Bool-cases s.is_paused) [
  | inl on ↦ rw on (due_resume-versions db now n s.reopen_at)
  | inr off ↦ rw off refl
]

-- The clock never changes which schedule version is in force, or which are pending.
pub attempt_auto_resume-versions :
    (db : Ledger) (now n : ℕ) → (attempt_auto_resume db now n).1.versions ≡ db.versions
unfolding attempt_auto_resume
attempt_auto_resume-versions db now n = auto_resume_from-versions db now n (settings_of db n)
