-- ===== src/Worker/Attempts.antt =====
-- What one attempt of the auto-resume changes: nobody's bands, and one business's pause.
use werefa.Subscriptions.Renewing.{bands_of, bands_at}
use werefa.Subscriptions.Resuming.{is_resumed, reconcile_status-settings}
use werefa.Lifecycle.{SubscriptionStatus, derive_canonical_status, is_eligible}
use werefa.Prelude.{
  ℕ, ◌≡◌, refl, false, List, [], ◌∷◌, Option, none, some, arith, Bool, Bool-cases, inl, inr, ◌∙◌,
  ap, sym, update_many, find_first, ◌==◌, ltb, Option-cases, find_first-update_many-none,
  find_first-mem, find_first-update_many,
}
use werefa.Subscriptions.{
  Ledger, Subscription, PauseSettings, get_by_business, of_business, with_status, advance_from,
  noted, advance_to_canonical_status, standing, status_is,
}
use werefa.Subscriptions.Service.{
  settings_of, clear_pause, Resume, reconcile_from, resume_with, due_resume, auto_resume_from,
  apply_pending, reconcile_status, has_pending,
}

-- A change of statuses changes nobody's bands.
bands_of-update_many :
    (p : Subscription → Bool) (to : SubscriptionStatus) (n : ℕ) (xs : List Subscription)
    → bands_of (find_first (of_business n) (update_many p (with_status to) xs))
      ≡ bands_of (find_first (of_business n) xs)
unfolding update_many
bands_of-update_many p to n [] = refl
bands_of-update_many p to n (x ∷ xs) = elim (Bool-cases (of_business n x)) [
  | inl hit ↦ ground (arith, hit)
  | inr miss ↦ ground (arith, miss, bands_of-update_many p to n xs)
]

advance_from-bands_at :
    (db : Ledger) (m n : ℕ) (desired : SubscriptionStatus) (o : Option Subscription)
    → bands_at (advance_from db m desired o) n ≡ bands_at db n
unfolding advance_from noted
advance_from-bands_at db m n desired none = refl
advance_from-bands_at db m n desired (some sub) =
    ground (arith, bands_of-update_many (standing m sub.status) desired n db.subscriptions)

reconcile_from-bands_at :
    (db : Ledger) (now m n : ℕ) (o : Option Subscription)
    → bands_at (reconcile_from db now m o).1 n ≡ bands_at db n
unfolding reconcile_from advance_to_canonical_status
reconcile_from-bands_at db now m n none = refl
reconcile_from-bands_at db now m n (some sub) =
    let desired = derive_canonical_status sub.bands now in
    elim (Bool-cases (status_is desired sub.status)) [
      | inl same ↦ rw same refl
      | inr change ↦ rw change (advance_from-bands_at db m n desired (get_by_business db m))
    ]

resume_with-bands :
    (m n : ℕ) (db : Ledger) (o : Option Subscription)
    → bands_at (resume_with m db o).1 n ≡ bands_at db n
unfolding resume_with apply_pending
resume_with-bands m n db none = refl
resume_with-bands m n db (some sub) = elim (Bool-cases (is_eligible sub.status)) [
  | inl can ↦ elim (Bool-cases (has_pending m db.versions)) [
    | inl waiting ↦ rw (can, waiting) refl
    | inr clear ↦ rw (can, clear) refl
  ]
  | inr cannot ↦ rw cannot refl
]

due_resume-bands :
    (db : Ledger) (now m n : ℕ) (o : Option ℕ)
    → bands_at (due_resume db now m o).1 n ≡ bands_at db n
unfolding due_resume reconcile_status
due_resume-bands db now m n none = refl
due_resume-bands db now m n (some at) = elim (Bool-cases (ltb now at)) [
  | inl early ↦ rw early refl
  | inr due ↦
      let r = reconcile_from db now m (get_by_business db m) in
      rw due
        (resume_with-bands m n r.1 r.0 ∙ reconcile_from-bands_at db now m n (get_by_business db m))
]

pub auto_resume_from-bands :
    (db : Ledger) (now m n : ℕ) (o : Option PauseSettings)
    → bands_at (auto_resume_from db now m o).1 n ≡ bands_at db n
unfolding auto_resume_from
auto_resume_from-bands db now m n none = refl
auto_resume_from-bands db now m n (some s) = elim (Bool-cases s.is_paused) [
  | inl on ↦ rw on (due_resume-bands db now m n s.reopen_at)
  | inr off ↦ rw off refl
]

-- The pause rows after an attempt: as they were, or cleared for a business that was resumed.
pub data Pauses (m : ℕ) (db next : Ledger) (r : Resume) : Type 0 where
  kept : next.settings ≡ db.settings → is_resumed r ≡ false → Pauses m db next r
  ended : next.settings ≡ (clear_pause m db).settings → r ≡ Resume.resumed → Pauses m db next r

resume_with-Pauses :
    (m : ℕ) (db : Ledger) (o : Option Subscription)
    → Pauses m db (resume_with m db o).1 (resume_with m db o).0
unfolding resume_with apply_pending
resume_with-Pauses m db none = Pauses.kept refl refl
resume_with-Pauses m db (some sub) = elim (Bool-cases (is_eligible sub.status)) [
  | inl can ↦ elim (Bool-cases (has_pending m db.versions)) [
    | inl waiting ↦ rw (can, waiting) (Pauses.kept refl refl)
    | inr clear ↦ rw (can, clear) (Pauses.ended refl refl)
  ]
  | inr cannot ↦ rw cannot (Pauses.kept refl refl)
]

-- The same tables but for the pauses that reconciling leaves alone.
rebased :
    (m : ℕ) (db mid next : Ledger) (r : Resume)
    → mid.settings ≡ db.settings
    → Pauses m mid next r
    → Pauses m db next r
rebased m db mid next r e (Pauses.kept k f) = Pauses.kept (k ∙ e) f
rebased m db mid next r e (Pauses.ended c f) =
    Pauses.ended (c ∙ ap (λ rows. (clear_pause m (record db { settings = rows })).settings) e) f

due_resume-Pauses :
    (db : Ledger) (now m : ℕ) (o : Option ℕ)
    → Pauses m db (due_resume db now m o).1 (due_resume db now m o).0
unfolding due_resume
due_resume-Pauses db now m none = Pauses.kept refl refl
due_resume-Pauses db now m (some at) = elim (Bool-cases (ltb now at)) [
  | inl early ↦ rw early (Pauses.kept refl refl)
  | inr due ↦
      let r = reconcile_status db now m in
      rw due (
        rebased m db r.1 (resume_with m r.1 r.0).1 (resume_with m r.1 r.0).0
          (reconcile_status-settings db now m) (resume_with-Pauses m r.1 r.0))
]

pub auto_resume_from-Pauses :
    (db : Ledger) (now m : ℕ) (o : Option PauseSettings)
    → Pauses m db (auto_resume_from db now m o).1 (auto_resume_from db now m o).0
unfolding auto_resume_from
auto_resume_from-Pauses db now m none = Pauses.kept refl refl
auto_resume_from-Pauses db now m (some s) = elim (Bool-cases s.is_paused) [
  | inl on ↦ rw on (due_resume-Pauses db now m s.reopen_at)
  | inr off ↦ rw off (Pauses.kept refl refl)
]

pub settings_of_cleared :
    (m n : ℕ) (db : Ledger) → (m == n) ≡ false → settings_of (clear_pause m db) n ≡ settings_of db n
settings_of_cleared m n db other = elim (Option-cases (settings_of db n)) [
  | inl e ↦
      find_first-update_many-none (λ (s : PauseSettings). s.business_id == n)
        (λ (s : PauseSettings). s.business_id == m)
        (λ s. record s { is_paused = false; reopen_at = none }) db.settings (λ y. ground arith) e
      ∙ sym e
  | inr (s, e) ↦
      let away : (PauseSettings.business_id s == m) ≡ false = ground (
        arith,
        other,
        (find_first-mem (λ (s : PauseSettings). s.business_id == n) db.settings e).1,
      ) in
      find_first-update_many (λ (s : PauseSettings). s.business_id == n)
        (λ (s : PauseSettings). s.business_id == m)
        (λ s. record s { is_paused = false; reopen_at = none }) db.settings (λ y. ground arith) e
      ∙ rw away (sym e)
]
