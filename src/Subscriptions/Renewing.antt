-- ===== src/Subscriptions/Renewing.antt =====
-- An approval gives thirty days and their grace, and gives them once.
use werefa.Prelude.{
  ℕ, ◌+◌, ◌*◌, ◌<◌, ◌≡◌, refl, ◌∙◌, ap, Bool, true, false, none, some, Option, arith, Bool-cases,
  Option-cases, inl, inr, ltb, find_first-update_found, subst,
}
use werefa.Errors.{Result, ok, err, is_ok}
use werefa.Tenant.{ActorContext, require_admin_or_super_admin}
use werefa.Lifecycle.{
  Bands, active, is_eligible, is_eligible_at, next_period_ends_at, paid_grace_ends_after, day_ms,
}
use werefa.Lifecycle.Renewal
use werefa.Lifecycle.Renewal.{approved_timeline}
use werefa.Booking.Transactions.{Ensures, returns, after}
use werefa.Subscriptions.{
  Ledger, PauseSettings, Subscription, SubscriptionProof, get_by_business, get_proof_by_id,
  of_business, with_status,
}
use werefa.Subscriptions.Service.{
  reconcile_status, attempt_auto_resume, auto_resume_from, due_resume, resume_with, apply_pending,
  settings_of, is_eligible_now, has_pending,
}
use werefa.Subscriptions.Gating.{settled, reconcile_status-settled}
use werefa.Subscriptions.Billing.{
  extended, renewed, approve_tx, approved_then, approve_found, approve_permitted, approve_proof,
}
use werefa.Subscriptions.Changes.{with_approval, renewed_once}

abbrev pub bands_of : Option Subscription → Option Bands
bands_of none = none
bands_of (some s) = some s.bands

-- The bands of a business, which decide what it may do.
abbrev pub bands_at : Ledger → ℕ → Option Bands
bands_at db n = bands_of (get_by_business db n)

abbrev pub eligible_with : ℕ → Option Bands → Bool
eligible_with now none = false
eligible_with now (some b) = is_eligible_at b now

pub is_eligible_now-bands_at :
    (db : Ledger) (now n : ℕ) → is_eligible_now db now n ≡ eligible_with now (bands_at db n)
unfolding is_eligible_now is_eligible_at
is_eligible_now-bands_at db now n = elim (Option-cases (get_by_business db n)) [
  | inl e ↦ rw (e, is_eligible_now) refl
  | inr (s, e) ↦ rw (e, is_eligible_now) refl
]

bands_of-settled : (now : ℕ) (o : Option Subscription) → bands_of (settled now o) ≡ bands_of o
bands_of-settled now none = refl
bands_of-settled now (some s) = refl

reconcile_status-bands_at :
    (db : Ledger) (now n : ℕ) → bands_at (reconcile_status db now n).1 n ≡ bands_at db n
reconcile_status-bands_at db now n =
    ap bands_of (reconcile_status-settled db now n).1 ∙ bands_of-settled now (get_by_business db n)

resume_with-bands_at :
    (n : ℕ) (db : Ledger) (o : Option Subscription)
    → bands_at (resume_with n db o).1 n ≡ bands_at db n
unfolding resume_with apply_pending
resume_with-bands_at n db none = refl
resume_with-bands_at n db (some sub) = elim (Bool-cases (is_eligible sub.status)) [
  | inl can ↦ elim (Bool-cases (has_pending n db.versions)) [
    | inl waiting ↦ rw (can, waiting) refl
    | inr clear ↦ rw (can, clear) refl
  ]
  | inr cannot ↦ rw cannot refl
]

due_resume-bands_at :
    (db : Ledger) (now n : ℕ) (o : Option ℕ) → bands_at (due_resume db now n o).1 n ≡ bands_at db n
unfolding due_resume
due_resume-bands_at db now n none = refl
due_resume-bands_at db now n (some at) = elim (Bool-cases (ltb now at)) [
  | inl early ↦ rw early refl
  | inr due ↦
      let r = reconcile_status db now n in
      rw due (resume_with-bands_at n r.1 r.0 ∙ reconcile_status-bands_at db now n)
]

auto_resume_from-bands_at :
    (db : Ledger) (now n : ℕ) (o : Option PauseSettings)
    → bands_at (auto_resume_from db now n o).1 n ≡ bands_at db n
unfolding auto_resume_from
auto_resume_from-bands_at db now n none = refl
auto_resume_from-bands_at db now n (some s) = elim (Bool-cases s.is_paused) [
  | inl can ↦ rw can (due_resume-bands_at db now n s.reopen_at)
  | inr cannot ↦ rw cannot refl
]

pub attempt_auto_resume-bands_at :
    (db : Ledger) (now n : ℕ) → bands_at (attempt_auto_resume db now n).1 n ≡ bands_at db n
unfolding attempt_auto_resume
attempt_auto_resume-bands_at db now n = auto_resume_from-bands_at db now n (settings_of db n)

abbrev paid_until : ℕ → Subscription → Subscription
paid_until until s = record s {
  bands = record (Subscription.bands s) {
    period_ends_at = some until;
    paid_grace_ends_at = some (paid_grace_ends_after until);
  };
}

-- The bands that an approval writes.
extended-bands_at :
    (ctx : ActorContext) (proof : SubscriptionProof) (now : ℕ) (sub : Subscription) (db : Ledger)
    → get_by_business db proof.business_id ≡ some sub
    → bands_at (extended ctx proof now sub db) proof.business_id
      ≡ some (Renewal.approved sub.bands now)
unfolding extended
extended-bands_at ctx proof now sub db e =
    let n = proof.business_id in
    let banded =
      find_first-update_found (of_business n) (paid_until (next_period_ends_at sub.bands now))
        db.subscriptions (λ y. refl) e in
    ap bands_of (find_first-update_found (of_business n) (with_status active) _ (λ y. refl) banded)

renewed-bands_at :
    (ctx : ActorContext) (proof : SubscriptionProof) (now : ℕ) (db : Ledger) (sub : Subscription)
    → get_by_business db proof.business_id ≡ some sub
    → Ensures
        (λ next. bands_at next proof.business_id ≡ some (Renewal.approved sub.bands now))
        (renewed ctx proof now db (some sub))
renewed-bands_at ctx proof now db sub e =
    after
      (λ next q.
        ap (λ d. bands_at d proof.business_id) q.1
        ∙ extended-bands_at ctx proof now sub (with_approval ctx proof now sub db) e)
      (renewed_once ctx proof now db sub)

approved_then-bands_at :
    (proof : SubscriptionProof) (later : ℕ) (db : Ledger) (b : Option Bands) (r : Result Ledger)
    → is_ok (approved_then proof later db r).0 ≡ true
    → Ensures (λ next. bands_at next proof.business_id ≡ b) r
    → bands_at (approved_then proof later db r).1 proof.business_id ≡ b
unfolding is_ok approved_then
approved_then-bands_at proof later db b (err e) done w = cc
approved_then-bands_at proof later db b (ok next) done (returns w) =
    attempt_auto_resume-bands_at next later proof.business_id ∙ w

permitted-bands_at :
    (db : Ledger) (ctx : ActorContext) (id now later : ℕ) (proof : SubscriptionProof)
    (sub : Subscription) (r : Result (Unit {0}))
    → get_proof_by_id db id ≡ some proof
    → get_by_business db proof.business_id ≡ some sub
    → is_ok (approve_permitted db ctx id now later r).0 ≡ true
    → bands_at (approve_permitted db ctx id now later r).1 proof.business_id
      ≡ some (Renewal.approved sub.bands now)
unfolding is_ok approve_permitted approve_found approve_tx
permitted-bands_at db ctx id now later proof sub (err e) found known done = cc
permitted-bands_at db ctx id now later proof sub (ok _) found known done = rw found (
    approved_then-bands_at proof later db _ _
      (subst (λ o. is_ok (approve_found db ctx now later o).0 ≡ true) found done)
      (rw known (renewed-bands_at ctx proof now db sub known)))

-- After a successful approval of a proof, the scheduled resume after it included, isEligibleNow answers
-- true for the business at every instant before the end of its new period and five days of grace. It
-- tells nothing of a pause, which may keep the business closed.
pub approve_proof-is_eligible_now :
    (db : Ledger) (ctx : ActorContext) (id now later at : ℕ) (proof : SubscriptionProof)
    (sub : Subscription)
    → get_proof_by_id db id ≡ some proof
    → get_by_business db proof.business_id ≡ some sub
    → is_ok (approve_proof db ctx id now later).0 ≡ true
    → at < next_period_ends_at sub.bands now + 5 * day_ms
    → is_eligible_now (approve_proof db ctx id now later).1 at proof.business_id ≡ true
unfolding approve_proof is_eligible_at is_eligible
approve_proof-is_eligible_now db ctx id now later at proof sub found known done soon =
    let bands =
      permitted-bands_at db ctx id now later proof sub (require_admin_or_super_admin ctx) found
        known done in
    let after = (approve_proof db ctx id now later).1 in
    is_eligible_now-bands_at after at proof.business_id
    ∙ ap (eligible_with at) bands
    ∙ rw (approved_timeline sub.bands now at soon) (ground arith)
