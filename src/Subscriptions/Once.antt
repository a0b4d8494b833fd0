-- ===== src/Subscriptions/Once.antt =====
-- Approving a proof twice extends nothing twice.
use werefa.Subscriptions.Changes.{renewed_once}
use werefa.Subscriptions.Asides.{attempt_auto_resume-Aside}
use werefa.Lifecycle.{next_period_ends_at}
use werefa.Booking.Transactions.{Ensures, returns, throws, after}
use werefa.Prelude.{ℕ, ◌<◌, ◌≡◌, refl, true, false, none, some, Option, arith, sym, subst, ap, ◌∙◌}
use werefa.Errors.{Result, ok, err, is_ok}
use werefa.Tenant.{ActorContext, require_admin_or_super_admin}
use werefa.Subscriptions.{
  Ledger, Subscription, SubscriptionProof, get_by_business, get_proof_by_id, as_approved,
}
use werefa.Subscriptions.Billing.{
  Office, approve_tx, renewed, approved_then, approve_found, approve_permitted, approve_proof,
  extended,
}
use werefa.Subscriptions.Changes.{renewed_once}
use werefa.Subscriptions.Reach.{Calls, along, at_ledger}
use werefa.Subscriptions.Settled.{
  IsSettled, Change-IsSettled, review_settled, get_proof_by_id-id, Aside-IsSettled, settling,
  approving, business_named,
}

refused_renewal :
    (ctx : ActorContext) (proof : SubscriptionProof) (id n now : ℕ) (db : Ledger)
    (o : Option Subscription)
    → IsSettled id n db
    → proof.id ≡ id
    → proof.business_id ≡ n
    → is_ok (renewed ctx proof now db o) ≡ false
unfolding is_ok renewed
refused_renewal ctx proof id n now db none s i own = refl
refused_renewal ctx proof id n now db (some sub) s i own =
    rw
      (
        i,
        own,
        review_settled id n (as_approved ctx.actor_user_id (next_period_ends_at sub.bands now)) db
            s.closed,
      )
      refl

refused_then :
    (proof : SubscriptionProof) (later : ℕ) (db : Ledger) (r : Result Ledger)
    → is_ok r ≡ false
    → (is_ok (approved_then proof later db r).0 ≡ false) × ((approved_then proof later db r).1 ≡ db)
unfolding is_ok approved_then
refused_then proof later db (ok next) h = cc
refused_then proof later db (err e) h = (refl, refl)

some-injective : {a b : ℕ} → some a ≡ some b → a ≡ b
some-injective h = ground (arith, h)

refused_found :
    (db : Ledger) (ctx : ActorContext) (id n now later : ℕ) (o : Option SubscriptionProof)
    → get_proof_by_id db id ≡ o
    → IsSettled id n db
    → (is_ok (approve_found db ctx now later o).0 ≡ false)
      × ((approve_found db ctx now later o).1 ≡ db)
unfolding is_ok approve_found approve_tx
refused_found db ctx id n now later none e s = (refl, refl)
refused_found db ctx id n now later (some proof) e s =
    let own : proof.business_id ≡ n = some-injective (sym (ap business_named e) ∙ s.named) in
    refused_then proof later db (approve_tx ctx proof now db) (
      refused_renewal ctx proof id n now db (get_by_business db proof.business_id) s
        (get_proof_by_id-id db id e) own)

refused_permitted :
    (db : Ledger) (ctx : ActorContext) (id n now later : ℕ) (r : Result (Unit {0}))
    → IsSettled id n db
    → (is_ok (approve_permitted db ctx id now later r).0 ≡ false)
      × ((approve_permitted db ctx id now later r).1 ≡ db)
unfolding is_ok approve_permitted
refused_permitted db ctx id n now later (err e) s = (refl, refl)
refused_permitted db ctx id n now later (ok _) s =
    refused_found db ctx id n now later (get_proof_by_id db id) refl s

approved_then-IsSettled :
    (proof : SubscriptionProof) (later : ℕ) (db : Ledger) (r : Result Ledger) (id n : ℕ)
    → is_ok (approved_then proof later db r).0 ≡ true
    → Ensures (IsSettled id n) r
    → IsSettled id n (approved_then proof later db r).1
unfolding is_ok approved_then
approved_then-IsSettled proof later db (err e) id n done w = cc
approved_then-IsSettled proof later db (ok next) id n done (returns w) =
    Aside-IsSettled (attempt_auto_resume-Aside next later proof.business_id) w

renewed-IsSettled :
    (ctx : ActorContext) (proof : SubscriptionProof) (now : ℕ) (db : Ledger)
    (o : Option Subscription)
    → proof.id < db.next_proof
    → get_proof_by_id db proof.id ≡ some proof
    → Ensures (IsSettled proof.id proof.business_id) (renewed ctx proof now db o)
unfolding renewed extended
renewed-IsSettled ctx proof now db none old found = throws
renewed-IsSettled ctx proof now db (some sub) old found =
    after
      (λ next q.
        settling proof.id proof.business_id
          (as_approved ctx.actor_user_id (next_period_ends_at sub.bands now)) db next proof
          (approving _ _) old found refl (rw (q.1) refl) (rw (q.1) refl))
      (renewed_once ctx proof now db sub)

permitted-IsSettled :
    (db : Ledger) (ctx : ActorContext) (id now later : ℕ) (proof : SubscriptionProof)
    (r : Result (Unit {0}))
    → id < db.next_proof
    → get_proof_by_id db id ≡ some proof
    → is_ok (approve_permitted db ctx id now later r).0 ≡ true
    → IsSettled id proof.business_id (approve_permitted db ctx id now later r).1
unfolding is_ok approve_permitted approve_found approve_tx
permitted-IsSettled db ctx id now later proof (err e) old found done = cc
permitted-IsSettled db ctx id now later proof (ok _) old found done =
    let own = get_proof_by_id-id db id found in
    let settled : Ensures (IsSettled id proof.business_id) (approve_tx ctx proof now db) =
      subst (λ i. Ensures (IsSettled i proof.business_id) (approve_tx ctx proof now db)) own
        (renewed-IsSettled ctx proof now db (get_by_business db proof.business_id) (rw own old)
          (subst (λ i. get_proof_by_id db i ≡ some proof) (sym own) found)) in
    rw found (
      approved_then-IsSettled proof later db (approve_tx ctx proof now db) id proof.business_id
        (subst (λ o. is_ok (approve_found db ctx now later o).0 ≡ true) found done) settled)

-- Once a proof of the tables has been approved, no later approval of it succeeds or changes anything,
-- whoever asks, at whatever instant, and whatever calls are made between.
pub approve_proof-once :
    (o p : Office) (ctx other : ActorContext) (id now later again after_that : ℕ)
    (proof : SubscriptionProof)
    → id < o.ledger.next_proof
    → get_proof_by_id o.ledger id ≡ some proof
    → is_ok (approve_proof o.ledger ctx id now later).0 ≡ true
    → Calls (at_ledger o (approve_proof o.ledger ctx id now later).1) p
    → (is_ok (approve_proof p.ledger other id again after_that).0 ≡ false)
      × ((approve_proof p.ledger other id again after_that).1 ≡ p.ledger)
unfolding approve_proof
approve_proof-once o p ctx other id now later again after_that proof old found done calls =
    refused_permitted p.ledger other id proof.business_id again after_that
      (require_admin_or_super_admin other)
      (along (IsSettled id proof.business_id) (Change-IsSettled id proof.business_id) calls (
        permitted-IsSettled o.ledger ctx id now later proof (require_admin_or_super_admin ctx) old
          found done))
