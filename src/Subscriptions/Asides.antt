-- ===== src/Subscriptions/Asides.antt =====
-- The changes that no review of a proof makes: those of the gate, of reconciling and of resuming.
use werefa.Prelude.{
  ℕ, ◌≡◌, refl, ◌∙◌, Bool, not, true, false, ◌&&◌, none, some, List, Option, ◌==◌, arith, is_some,
  if◌then◌else◌, count_where, ltb,
}
use werefa.Errors.{Result, ok, err}
use werefa.Tenant.{Business, ActorContext, require_owned_business}
use werefa.Lifecycle.{SubscriptionStatus, derive_canonical_status, is_eligible}
use werefa.Booking.Transactions.{Ensures, returns, throws, checked}
use werefa.Subscriptions.{
  Ledger, status_is, PauseSettings, Subscription, SubscriptionProof, SubscriptionStatusHistory,
  ReviewState, approved, HistoryReason, proof_approved, advance_to_canonical_status, advance_from,
  get_by_business, noted,
}
use werefa.Subscriptions.Service.{
  reconcile_from, reconcile_status, attempt_auto_resume, auto_resume_from, commit, resume_owned,
  manual_resume, takes_bookings, resume_tx, apply_pending, due_resume, resume_with, settings_of,
  has_pending,
}

abbrev pub is_approved : ReviewState → Bool
is_approved approved = true
is_approved _ = false

abbrev pub approved_of : ℕ → SubscriptionProof → Bool
approved_of n p = p.business_id == n && is_approved p.review_state

abbrev pub is_renewal : HistoryReason → Bool
is_renewal (proof_approved until) = true
is_renewal _ = false

abbrev pub renewal_of : ℕ → SubscriptionStatusHistory → Bool
renewal_of n h = h.business_id == n && is_renewal h.reason

-- A change that no review makes.
pub record Aside (db next : Ledger) : Type 0 where
  pub proofs_same : next.proofs ≡ db.proofs
  pub renewals_same :
      (n : ℕ) → count_where (renewal_of n) next.history ≡ count_where (renewal_of n) db.history
  pub counter_same : next.next_proof ≡ db.next_proof

pub Aside-refl : (db : Ledger) → Aside db db
Aside-refl db = record { proofs_same = refl; renewals_same = λ n. refl; counter_same = refl }

pub Aside-trans : {a b c : Ledger} → Aside a b → Aside b c → Aside a c
Aside-trans r s = record {
  proofs_same = s.proofs_same ∙ r.proofs_same;
  renewals_same = λ n. s.renewals_same n ∙ r.renewals_same n;
  counter_same = s.counter_same ∙ r.counter_same;
}

advance-Aside :
    (db : Ledger) (n : ℕ) (desired : SubscriptionStatus) (o : Option Subscription)
    → Aside db (advance_from db n desired o)
unfolding advance_from noted
advance-Aside db n desired none = Aside-refl db
advance-Aside db n desired (some sub) = record {
  proofs_same = ground arith;
  renewals_same = λ n. ground arith;
  counter_same = ground arith;
}

picked :
    {db : Ledger} {A : Type 0} (b : Bool) (x y : A × Ledger)
    → Aside db x.1
    → Aside db y.1
    → Aside db (if b then x else y).1
picked true x y r s = r
picked false x y r s = s

reconcile_from-Aside :
    (db : Ledger) (now n : ℕ) (o : Option Subscription) → Aside db (reconcile_from db now n o).1
unfolding reconcile_from advance_to_canonical_status
reconcile_from-Aside db now n none = Aside-refl db
reconcile_from-Aside db now n (some sub) =
    picked (not (status_is (derive_canonical_status sub.bands now) sub.status)) _ _
      (advance-Aside db n _ (get_by_business db n)) (Aside-refl db)

pub reconcile_status-Aside : (db : Ledger) (now n : ℕ) → Aside db (reconcile_status db now n).1
unfolding reconcile_status
reconcile_status-Aside db now n = reconcile_from-Aside db now n (get_by_business db n)

resume_with-Aside :
    (n : ℕ) (db : Ledger) (o : Option Subscription) → Aside db (resume_with n db o).1
unfolding resume_with apply_pending
resume_with-Aside n db none = Aside-refl db
resume_with-Aside n db (some sub) =
    picked (not (is_eligible sub.status)) _ _
      (record { proofs_same = refl; renewals_same = λ m. ground arith; counter_same = refl })
      (picked (has_pending n db.versions) _ _ (Aside-refl db)
        (record { proofs_same = refl; renewals_same = λ m. ground arith; counter_same = refl }))

due_resume-Aside : (db : Ledger) (now n : ℕ) (o : Option ℕ) → Aside db (due_resume db now n o).1
unfolding due_resume
due_resume-Aside db now n none = Aside-refl db
due_resume-Aside db now n (some at) =
    let r = reconcile_status db now n in
    picked (ltb now at) _ _ (Aside-refl db)
      (Aside-trans (reconcile_status-Aside db now n) (resume_with-Aside n r.1 r.0))

auto_resume_from-Aside :
    (db : Ledger) (now n : ℕ) (o : Option PauseSettings) → Aside db (auto_resume_from db now n o).1
unfolding auto_resume_from
auto_resume_from-Aside db now n none = Aside-refl db
auto_resume_from-Aside db now n (some s) =
    picked s.is_paused _ _ (due_resume-Aside db now n s.reopen_at) (Aside-refl db)

pub attempt_auto_resume-Aside :
    (db : Ledger) (now n : ℕ) → Aside db (attempt_auto_resume db now n).1
unfolding attempt_auto_resume
attempt_auto_resume-Aside db now n = auto_resume_from-Aside db now n (settings_of db n)

commit-Aside :
    {base : Ledger} (db : Ledger) (r : Result Ledger)
    → Aside base db
    → Ensures (Aside db) r
    → Aside base (commit db r).1
unfolding commit
commit-Aside db (ok next) a (returns b) = Aside-trans a b
commit-Aside db (err e) a throws = a

resume_tx-Aside : (n : ℕ) (db : Ledger) → Ensures (Aside db) (resume_tx n db)
unfolding resume_tx apply_pending
resume_tx-Aside n db =
    checked (is_some (settings_of db n))
      (λ _. returns (record { proofs_same = refl; renewals_same = λ m. refl; counter_same = refl }))
      λ _. throws

resumed_owner :
    (db : Ledger) (now n : ℕ) (o : Result Business) → Aside db (resume_owned db now n o).1
unfolding resume_owned
resumed_owner db now n (err e) = Aside-refl db
resumed_owner db now n (ok b) =
    let r = reconcile_status db now n in
    picked (takes_bookings r.0) _ _
      (commit-Aside r.1 (resume_tx n r.1) (reconcile_status-Aside db now n) (resume_tx-Aside n r.1))
      (reconcile_status-Aside db now n)

pub manual_resume-Aside :
    (db : Ledger) (businesses : List Business) (ctx : ActorContext) (now n : ℕ)
    → Aside db (manual_resume db businesses ctx now n).1
unfolding manual_resume
manual_resume-Aside db businesses ctx now n =
    resumed_owner db now n (require_owned_business businesses ctx n)
