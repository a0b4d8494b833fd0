-- ===== src/Schedules/Promotion.antt =====
-- Which version is in force after a save, and after the end of a pause.
use werefa.DaySlots.{ScheduleVersion}
use werefa.Schedules.Saving.{
  is_promotable, newest_active, save_tx, activate, get_active_version, next_version_no,
  with_version, set_active_version, create_pending_version, passes_checks,
}
use werefa.Subscriptions.{Ledger, VersionContent}
use werefa.Prelude.{
  ℕ, ◌≡◌, refl, ◌∙◌, Bool, true, false, ◌&&◌, Option, none, some, List, [], ◌∷◌, ◌==◌, ltb, arith,
  all, count_where, update_many, any, update_many_none, count_where-any, count_where-cleared,
}
use werefa.Errors.{ok}
use werefa.Versions.{VersionRow, pending, active, is_current, demote_active, promote_pending}

-- Version ids are below the next one.
pub record IsNumbered (db : Ledger) : Type 0 where
  pub ids_below : all (λ (v : VersionRow). ltb v.id db.next_version) db.versions ≡ true

none_promotable :
    (k n : ℕ) (vs : List VersionRow)
    → all (λ (v : VersionRow). ltb v.id k) vs ≡ true
    → count_where (is_promotable k n) (demote_active n vs) ≡ 0
unfolding update_many
none_promotable k n [] h = refl
none_promotable k n (v ∷ vs) h = ground (arith, h, none_promotable k n vs)

abbrev in_force : ℕ → VersionRow → Bool
in_force n v = v.business_id == n && is_current v.status

newest_active_none :
    (n : ℕ) (best : Option VersionRow) (vs : List VersionRow)
    → any (in_force n) vs ≡ false
    → newest_active n best vs ≡ best
unfolding newest_active
newest_active_none n best [] h = refl
newest_active_none n best (v ∷ vs) h =
    let none_here : in_force n v ≡ false = ground (arith, h) in
    rw none_here (newest_active_none n best vs (ground (arith, h)))

-- After the other versions were demoted, promoting the row `k` makes none of them ACTIVE.
none_active :
    (k n : ℕ) (best : Option VersionRow) (vs : List VersionRow)
    → all (λ (v : VersionRow). ltb v.id k) vs ≡ true
    → newest_active n best (promote_pending k n (demote_active n vs)) ≡ best
none_active k n best vs h =
    let untouched =
      update_many_none (is_promotable k n) (λ v. record v { status = active }) (demote_active n vs)
        (count_where-any (is_promotable k n) _ (none_promotable k n vs h)) in
    let demoted = count_where-any (in_force n) _ (
      count_where-cleared (in_force n) (in_force n) (λ v. record v { status = pending }) vs
        λ v. ground arith) in
    rw untouched (newest_active_none n best (demote_active n vs) demoted)

-- The content that a save writes.
abbrev pub saved_content : ℕ → ScheduleVersion → Ledger → VersionContent
saved_content n template db = record {
  version_id = db.next_version;
  business_id = n;
  template = template;
}

abbrev pub new_version : ℕ → Ledger → VersionRow
new_version n db = record {
  id = db.next_version;
  business_id = n;
  version_no = next_version_no n db.versions;
  status = pending;
}

one_promotable :
    (n : ℕ) (db : Ledger)
    → IsNumbered db
    → count_where
        (is_promotable db.next_version n)
        (demote_active n (new_version n db ∷ db.versions))
      ≡ 1
unfolding update_many
one_promotable n db h = ground (arith, none_promotable db.next_version n db.versions h.ids_below)

-- The tables after a save that no pause holds back.
abbrev pub saved_running : ℕ → ScheduleVersion → Ledger → Ledger
saved_running n template db = record (with_version n (next_version_no n db.versions) template db) {
  versions = promote_pending db.next_version n (demote_active n (new_version n db ∷ db.versions));
  active_versions = set_active_version n db.next_version db.active_versions;
}

pub same_number : (k : ℕ) → (k == k) ≡ true
same_number k = ground arith

promoted_rows :
    (n : ℕ) (db : Ledger)
    → promote_pending db.next_version n (demote_active n (new_version n db ∷ db.versions))
      ≡ record (new_version n db) { status = active }
        ∷ promote_pending db.next_version n (demote_active n db.versions)
unfolding update_many
promoted_rows n db = ground arith

newest_active_taken :
    (n : ℕ) (v : VersionRow) (vs : List VersionRow)
    → in_force n v ≡ true
    → newest_active n none (v ∷ vs) ≡ newest_active n (some v) vs
unfolding newest_active
newest_active_taken n v vs h = rw h refl

pub newest_saved :
    (n : ℕ) (db : Ledger)
    → IsNumbered db
    → newest_active n none
        (promote_pending db.next_version n (demote_active n (new_version n db ∷ db.versions)))
      ≡ some (record (new_version n db) { status = active })
unfolding newest_active
newest_saved n db h =
    let saved : VersionRow = record (new_version n db) { status = active } in
    rw (promoted_rows n db) (
      newest_active_taken n saved (promote_pending db.next_version n (demote_active n db.versions))
        (ground arith)
      ∙ none_active db.next_version n (some saved) db.versions h.ids_below)

-- A save that no pause holds back succeeds if the template passes the CHECK constraints, and the saved
-- template is the one in force.
pub save_tx_running :
    (n : ℕ) (template : ScheduleVersion) (db : Ledger)
    → IsNumbered db
    → passes_checks template ≡ true
    → (save_tx n false template db
        ≡ ok (
          record { version_id = db.next_version; activated = true },
          saved_running n template db,
        ))
      × (get_active_version (saved_running n template db) n ≡ some (saved_content n template db))
unfolding save_tx create_pending_version activate get_active_version
save_tx_running n template db h fits = (
  rw (fits, one_promotable n db h) refl,
  rw (newest_saved n db h) (rw (same_number db.next_version) refl),
)

abbrev is_below : ℕ → Option VersionRow → Bool
is_below k none = true
is_below k (some v) = ltb v.id k
