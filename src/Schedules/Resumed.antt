-- ===== src/Schedules/Resumed.antt =====
-- A schedule that was saved during a pause, and the end of that pause.
use werefa.Errors.{ok}
use werefa.Booking.Transactions.{Ensures, returns, throws}
use werefa.DaySlots.{ScheduleVersion}
use werefa.Schedules.Promotion.{new_version, same_number, IsNumbered, saved_content, newest_saved}
use werefa.Subscriptions.{Ledger, PauseSettings}
use werefa.Subscriptions.Service.{resume_tx, apply_pending, clear_pause, settings_of}
use werefa.Schedules.Saving.{
  save_tx, latest_version_no, next_version_no, get_active_version, with_version, content_of,
  paused_of, create_pending_version, passes_checks,
}
use werefa.Versions.{
  pending, active, VersionRow, latest_of, promote_latest_pending, list_pending, promote,
}
use werefa.Prelude.{
  ℕ, ◌≡◌, refl, [], ◌∷◌, List, Bool, ◌==◌, ◌<◌, ◌&&◌, some, none, true, false, Bool-cases, inl, inr,
  arith, ltb, Option, is_some, ◌∙◌,
}

abbrev is_pending_of : ℕ → VersionRow → Bool
is_pending_of n v = v.business_id == n && elim v.status [ pending ↦ true | active ↦ false ]

latest_of_skip :
    (b v : VersionRow) (vs : List VersionRow)
    → ltb b.version_no v.version_no ≡ false
    → latest_of (some b) (v ∷ vs) ≡ latest_of (some b) vs
unfolding latest_of
latest_of_skip b v vs h = rw h refl

latest_of_stays :
    (n : ℕ) (b : VersionRow) (vs : List VersionRow)
    → latest_version_no n vs < b.version_no
    → latest_of (some b) (list_pending n vs) ≡ some b
unfolding latest_of latest_version_no
latest_of_stays n b [] h = refl
latest_of_stays n b (v ∷ vs) h = elim (Bool-cases (is_pending_of n v)) [
  | inl waiting ↦ rw waiting (
      latest_of_skip b v (list_pending n vs) (ground (arith, h, waiting))
      ∙ latest_of_stays n b vs (ground (arith, h)))
  | inr other ↦ rw other (latest_of_stays n b vs (ground (arith, h)))
]

latest_is_new :
    (n : ℕ) (db : Ledger)
    → latest_of none (list_pending n (new_version n db ∷ db.versions)) ≡ some (new_version n db)
unfolding latest_of next_version_no
latest_is_new n db =
    rw (same_number n) (latest_of_stays n (new_version n db) db.versions (omega arith))

abbrev saved_paused : ℕ → ScheduleVersion → Ledger → Ledger
saved_paused n template db = with_version n (next_version_no n db.versions) template db

apply_pending-saved :
    (n : ℕ) (template : ScheduleVersion) (db : Ledger)
    → IsNumbered db
    → get_active_version (apply_pending n (clear_pause n (saved_paused n template db))) n
      ≡ some (saved_content n template db)
unfolding apply_pending promote_latest_pending promote get_active_version content_of
apply_pending-saved n template db h =
    rw (latest_is_new n db) (rw (newest_saved n db h) (rw (same_number db.next_version) refl))

is_some-paused_of : (o : Option PauseSettings) → paused_of o ≡ true → is_some o ≡ true
is_some-paused_of none h = cc
is_some-paused_of (some s) h = refl

-- When a schedule was saved during a pause and the next transaction is that of manualResume, that one
-- succeeds and the saved template is the one in force after it.
pub resume_tx-save_tx :
    (n : ℕ) (template : ScheduleVersion) (db : Ledger)
    → IsNumbered db
    → paused_of (settings_of db n) ≡ true
    → Ensures
        (λ r.
          (resume_tx n r.1 ≡ ok (apply_pending n (clear_pause n r.1)))
          × (get_active_version (apply_pending n (clear_pause n r.1)) n
              ≡ some (saved_content n template db)))
        (save_tx n (paused_of (settings_of db n)) template db)
unfolding save_tx create_pending_version resume_tx
resume_tx-save_tx n template db h p = elim (Bool-cases (passes_checks template)) [
  | inl fits ↦
      rw (p, fits)
        (returns
          (rw (is_some-paused_of (settings_of db n) p) refl, apply_pending-saved n template db h))
  | inr broken ↦ rw (p, broken) throws
]
