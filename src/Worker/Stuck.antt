-- ===== src/Worker/Stuck.antt =====
-- A pause during which a schedule was saved, and the clock
-- (backend/src/domain/services/subscription.service.ts, `attemptAutoResume`).
use werefa.Worker.Attempts.{auto_resume_from-Pauses, Pauses}
use werefa.Subscriptions.Resuming.{attempt_auto_resume_iff, is_due_pause, is_resumed}
use werefa.Subscriptions.Service.{
  attempt_auto_resume, settings_of, is_eligible_now, is_thrown, has_pending, Resume,
}
use werefa.Subscriptions.{Ledger}
use werefa.Booking.Transactions.{Ensures, returns, throws}
use werefa.DaySlots.{ScheduleVersion}
use werefa.Schedules.Saving.{
  save_tx, create_pending_version, with_version, next_version_no, passes_checks,
}
use werefa.Prelude.{ℕ, ◌≡◌, true, false, arith, Bool-cases, inl, inr}

kept_due :
    (now n : ℕ) (db next : Ledger) (r : Resume)
    → Pauses n db next r
    → is_resumed r ≡ false
    → is_due_pause now (settings_of db n) ≡ true
    → is_due_pause now (settings_of next n) ≡ true
kept_due now n db next r (Pauses.kept e f) stays due = rw e due
kept_due now n db next r (Pauses.ended e f) stays due = ground (arith, f, stays)

-- With a PENDING version, an attempt on a due pause of a business that takes bookings throws, and the
-- pause stays due.
stuck_attempt :
    (db : Ledger) (now n : ℕ)
    → has_pending n db.versions ≡ true
    → is_due_pause now (settings_of db n) ≡ true
    → is_eligible_now db now n ≡ true
    → (is_thrown (attempt_auto_resume db now n).0 ≡ true)
      × (is_due_pause now (settings_of (attempt_auto_resume db now n).1 n) ≡ true)
unfolding attempt_auto_resume
stuck_attempt db now n waiting due can =
    let both = attempt_auto_resume_iff db now n in
    (
      ground (arith, waiting, due, can, both.1),
      kept_due now n db _ _ (auto_resume_from-Pauses db now n (settings_of db n))
          (ground (arith, waiting, due, can, both.0)) due,
    )

-- After a schedule was saved during a pause, an attempt to end the pause by the clock throws whenever
-- the pause is due and the subscription takes bookings, and the pause stays due.
pub save_tx-stuck :
    (n now : ℕ) (template : ScheduleVersion) (db : Ledger)
    → is_due_pause now (settings_of db n) ≡ true
    → is_eligible_now db now n ≡ true
    → Ensures
        (λ r.
          (is_thrown (attempt_auto_resume r.1 now n).0 ≡ true)
          × (is_due_pause now (settings_of (attempt_auto_resume r.1 now n).1 n) ≡ true))
        (save_tx n true template db)
unfolding save_tx create_pending_version is_eligible_now
save_tx-stuck n now template db due can = elim (Bool-cases (passes_checks template)) [
  | inl fits ↦ rw fits (
      returns (
        stuck_attempt (with_version n (next_version_no n db.versions) template db) now n
          (ground arith) due can))
  | inr broken ↦ rw broken throws
]
