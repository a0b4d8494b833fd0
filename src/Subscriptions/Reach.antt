-- ===== src/Subscriptions/Reach.antt =====
-- The calls of the subscription services, one after another in any order.
use werefa.Prelude.{
  ℕ, ◌≡◌, refl, List, Option, arith, Bool-cases, inl, inr, length, any, subst, sym,
}
use werefa.Errors.{Result, ok, err}
use werefa.Store.{Text, text_eq}
use werefa.Texts.{trim}
use werefa.Tenant.{Business, ActorContext, require_owned_business}
use werefa.Subscriptions.{
  Ledger, Subscription, SubscriptionProof, create_proof, ensure_trial_at_creation,
}
use werefa.Subscriptions.Service.{booking_gate, manual_resume, attempt_auto_resume}
use werefa.Subscriptions.Billing.{
  Office, storing, view_owned, SubscriptionEvent, Submission, replay, fresh,
  get_owner_subscription_view, submit_rest, created_or_raced, submit_tx, submit_proof,
  approve_proof, reject_subscription_proof, publish, submitted_event,
}
use werefa.Subscriptions.Asides.{
  Aside, Aside-refl, reconcile_status-Aside, attempt_auto_resume-Aside, manual_resume-Aside,
}
use werefa.Subscriptions.Changes.{
  Submits, Change, Changes, once, approve_proof-Changes, reject_subscription_proof-Changes,
}

abbrev pub at_ledger : Office → Ledger → Office
at_ledger o db = record o { ledger = db }

-- One call of a service, with whatever arguments.
pub data Call (o : Office) : Office → Type 0 where
  registered :
      (n now : ℕ) (days : Option ℕ)
      → Call o (at_ledger o (ensure_trial_at_creation o.ledger n now days))
  gated : (now n : ℕ) → Call o (at_ledger o (booking_gate o.ledger now n).1)
  viewed :
      (ctx : ActorContext) (now n : ℕ)
      → Call o (at_ledger o (get_owner_subscription_view o.ledger o.businesses ctx now n).1)
  resumed_by_owner :
      (ctx : ActorContext) (now n : ℕ)
      → Call o (at_ledger o (manual_resume o.ledger o.businesses ctx now n).1)
  resumed_by_clock : (now n : ℕ) → Call o (at_ledger o (attempt_auto_resume o.ledger now n).1)
  submitted :
      (ctx : ActorContext) (n : ℕ) (key : Text) (bytes : List ℕ) (now : ℕ)
      → Call o (submit_proof o ctx n key bytes now).1
  approved_by :
      (ctx : ActorContext) (id now later : ℕ)
      → Call o (at_ledger o (approve_proof o.ledger ctx id now later).1)
  rejected_by :
      (ctx : ActorContext) (id : ℕ) (reason : Text)
      → Call o (reject_subscription_proof o ctx id reason).1

pub data Calls (o : Office) : Office → Type 0 where
  no_call : Calls o o
  then_call : {p q : Office} → Calls o p → Call p q → Calls o q

booking_gate-Aside : (db : Ledger) (now n : ℕ) → Aside db (booking_gate db now n).1
unfolding booking_gate
booking_gate-Aside db now n = reconcile_status-Aside db now n

view-Aside : (db : Ledger) (now n : ℕ) (r : Result Business) → Aside db (view_owned db now n r).1
unfolding view_owned
view-Aside db now n (err e) = Aside-refl db
view-Aside db now n (ok b) = reconcile_status-Aside db now n

owner_view-Aside :
    (db : Ledger) (businesses : List Business) (ctx : ActorContext) (now n : ℕ)
    → Aside db (get_owner_subscription_view db businesses ctx now n).1
unfolding get_owner_subscription_view
owner_view-Aside db businesses ctx now n =
    view-Aside db now n (require_owned_business businesses ctx n)

registered-Aside :
    (db : Ledger) (n now : ℕ) (days : Option ℕ) → Aside db (ensure_trial_at_creation db n now days)
unfolding ensure_trial_at_creation
registered-Aside db n now days = record {
  proofs_same = ground arith;
  renewals_same = λ m. ground arith;
  counter_same = ground arith;
}

submit_tx-Submits :
    (db : Ledger) (sub : Subscription) (n : ℕ) (key : Text) (storage size now : ℕ)
    → Submits db (submit_tx db sub n key storage size now).1
unfolding submit_tx created_or_raced create_proof
submit_tx-Submits db sub n key storage size now =
    elim (Bool-cases (any (λ (p : SubscriptionProof). text_eq p.submission_key key) db.proofs)) [
      | inl taken ↦ rw taken (Submits.adds_none refl refl refl)
      | inr free ↦ rw free (Submits.adds_pending _ refl refl refl refl refl)
    ]

publish-ledger :
    (event : SubscriptionProof → SubscriptionEvent) (o : Office)
    (r : Result SubscriptionProof × Ledger)
    → (publish event o r).1.ledger ≡ r.1
publish-ledger event o (err e, db) = refl
publish-ledger event o (ok p, db) = refl

submit_rest-Submits :
    (o : Office) (n : ℕ) (key : Text) (bytes : List ℕ) (now : ℕ) (r : Result Submission)
    → Submits o.ledger (submit_rest o n key bytes now r).1.ledger
unfolding submit_rest
submit_rest-Submits o n key bytes now (err e) = Submits.adds_none refl refl refl
submit_rest-Submits o n key bytes now (ok (replay p)) = Submits.adds_none refl refl refl
submit_rest-Submits o n key bytes now (ok (fresh sub)) =
    subst (Submits o.ledger)
      (sym (
        publish-ledger submitted_event (storing o)
          (submit_tx o.ledger sub n key o.next_key (length bytes) now)))
      (submit_tx-Submits o.ledger sub n key o.next_key (length bytes) now)

pub submit_proof-Submits :
    (o : Office) (ctx : ActorContext) (n : ℕ) (key : Text) (bytes : List ℕ) (now : ℕ)
    → Submits o.ledger (submit_proof o ctx n key bytes now).1.ledger
unfolding submit_proof
submit_proof-Submits o ctx n key bytes now = submit_rest-Submits o n (trim key) bytes now _

Call-Changes : {o p : Office} → Call o p → Changes o.ledger p.ledger
Call-Changes {o} (Call.registered n now days) =
    once (Change.aside (registered-Aside o.ledger n now days))
Call-Changes {o} (Call.gated now n) = once (Change.aside (booking_gate-Aside o.ledger now n))
Call-Changes {o} (Call.viewed ctx now n) =
    once (Change.aside (owner_view-Aside o.ledger o.businesses ctx now n))
Call-Changes {o} (Call.resumed_by_owner ctx now n) =
    once (Change.aside (manual_resume-Aside o.ledger o.businesses ctx now n))
Call-Changes {o} (Call.resumed_by_clock now n) =
    once (Change.aside (attempt_auto_resume-Aside o.ledger now n))
Call-Changes {o} (Call.submitted ctx n key bytes now) =
    once (Change.submits (submit_proof-Submits o ctx n key bytes now))
Call-Changes {o} (Call.approved_by ctx id now later) =
    approve_proof-Changes o.ledger ctx id now later
Call-Changes {o} (Call.rejected_by ctx id reason) =
    reject_subscription_proof-Changes o ctx id reason

along_changes {κ} :
    (P : Ledger → Type κ)
    → ((db next : Ledger) → Change db next → P db → P next)
    → {db next : Ledger} → Changes db next
    → P db
    → P next
along_changes P keep Changes.unchanged h = h
along_changes P keep (Changes.changed cs c) h = keep _ _ c (along_changes P keep cs h)

-- A property of the tables that every change keeps is kept by the calls.
pub along {κ} :
    (P : Ledger → Type κ)
    → ((db next : Ledger) → Change db next → P db → P next)
    → {o p : Office} → Calls o p
    → P o.ledger
    → P p.ledger
along P keep Calls.no_call h = h
along P keep (Calls.then_call cs c) h = along_changes P keep (Call-Changes c) (along P keep cs h)
