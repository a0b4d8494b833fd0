-- ===== src/Subscriptions/Changes.antt =====
-- Every call of the services as changes of the tables: asides, reviews of one pending proof, and
-- submissions.
use werefa.Prelude.{
  ℕ, ◌||◌, length, suc, ◌≡◌, ap, true, none, some, Option, arith, Bool-cases, inl, inr, ltb,
  count_where, update_many, ◌∷◌,
}
use werefa.Errors.{Result, ok, err}
use werefa.Tenant.{ActorContext, require_admin_or_super_admin}
use werefa.Booking.Transactions.{Ensures, returns, throws, bind, thrown, after}
use werefa.Store.{Text}
use werefa.Texts.{trim, is_empty}
use werefa.Subscriptions.{
  Ledger, Subscription, SubscriptionProof, get_by_business, get_proof_by_id, review_proof,
  reviewable, as_approved, as_rejected, is_pending,
}
use werefa.Lifecycle.{next_period_ends_at}
use werefa.Subscriptions.Billing.{
  approve_tx, reject_permitted, reject_subscription_proof, approve_permitted, reject_found,
  rejected_then, Office, renewed, approved_then, approve_found, extended, approve_proof,
  reject_proof_tx,
}
use werefa.Subscriptions.Asides.{Aside, attempt_auto_resume-Aside}

-- What a review of exactly one pending proof leaves.
pub reviewed_once :
    (db : Ledger) (id n : ℕ) (f : SubscriptionProof → SubscriptionProof) (next : Ledger)
    → review_proof db id n f ≡ some next
    → (count_where (reviewable id n) db.proofs ≡ 1)
      × (next ≡ record db { proofs = update_many (reviewable id n) f db.proofs })
unfolding review_proof
reviewed_once db id n f next e = ground (arith, e)

-- The tables after the review of an approval, before the subscription is extended.
abbrev pub with_approval : ActorContext → SubscriptionProof → ℕ → Subscription → Ledger → Ledger
with_approval ctx proof now sub db = record db {
  proofs =
      update_many (reviewable proof.id proof.business_id)
        (as_approved ctx.actor_user_id (next_period_ends_at sub.bands now)) db.proofs;
}

-- An approval finds exactly one pending proof, approves it and extends the subscription.
pub renewed_once :
    (ctx : ActorContext) (proof : SubscriptionProof) (now : ℕ) (db : Ledger) (sub : Subscription)
    → Ensures
        (λ next.
          (count_where (reviewable proof.id proof.business_id) db.proofs ≡ 1)
          × (next ≡ extended ctx proof now sub (with_approval ctx proof now sub db)))
        (renewed ctx proof now db (some sub))
unfolding renewed
renewed_once ctx proof now db sub =
    bind (thrown _ _ (reviewed_once db proof.id proof.business_id _))
      λ reviewed q. returns (q.0, ap (extended ctx proof now sub) q.1)

-- A review of exactly one pending proof.
pub data Review (db next : Ledger) : Type 0 where
  approves :
      (ctx : ActorContext) (proof : SubscriptionProof) (now : ℕ) (sub : Subscription)
      → count_where (reviewable proof.id proof.business_id) db.proofs ≡ 1
      → next ≡ extended ctx proof now sub (with_approval ctx proof now sub db)
      → Review db next
  rejects :
      (ctx : ActorContext) (proof : SubscriptionProof) (reason : Text)
      → count_where (reviewable proof.id proof.business_id) db.proofs ≡ 1
      → next ≡ record db {
        proofs =
            update_many
              (reviewable proof.id proof.business_id)
              (as_rejected ctx.actor_user_id reason)
              db.proofs;
      }
      → Review db next

-- A submission adds one pending proof, under the next number, or none.
pub data Submits (db next : Ledger) : Type 0 where
  adds_none :
      next.proofs ≡ db.proofs
      → next.history ≡ db.history
      → next.next_proof ≡ db.next_proof
      → Submits db next
  adds_pending :
      (p : SubscriptionProof)
      → is_pending p.review_state ≡ true
      → p.id ≡ db.next_proof
      → next.proofs ≡ p ∷ db.proofs
      → next.history ≡ db.history
      → next.next_proof ≡ suc db.next_proof
      → Submits db next

pub data Change (db next : Ledger) : Type 0 where
  aside : Aside db next → Change db next
  reviews : Review db next → Change db next
  submits : Submits db next → Change db next

pub data Changes (db : Ledger) : Ledger → Type 0 where
  unchanged : Changes db db
  changed : {mid next : Ledger} → Changes db mid → Change mid next → Changes db next

pub once : {db next : Ledger} → Change db next → Changes db next
once c = Changes.changed Changes.unchanged c

renewed-Review :
    (ctx : ActorContext) (proof : SubscriptionProof) (now : ℕ) (db : Ledger)
    (o : Option Subscription)
    → Ensures (Review db) (renewed ctx proof now db o)
unfolding renewed
renewed-Review ctx proof now db none = throws
renewed-Review ctx proof now db (some sub) =
    after (λ next q. Review.approves ctx proof now sub q.0 q.1) (renewed_once ctx proof now db sub)

approved_then-Changes :
    (proof : SubscriptionProof) (later : ℕ) (db : Ledger) (r : Result Ledger)
    → Ensures (Review db) r
    → Changes db (approved_then proof later db r).1
unfolding approved_then
approved_then-Changes proof later db (err e) throws = Changes.unchanged
approved_then-Changes proof later db (ok next) (returns r) =
    Changes.changed (once (Change.reviews r))
      (Change.aside (attempt_auto_resume-Aside next later proof.business_id))

approve_found-Changes :
    (db : Ledger) (ctx : ActorContext) (now later : ℕ) (o : Option SubscriptionProof)
    → Changes db (approve_found db ctx now later o).1
unfolding approve_found approve_tx
approve_found-Changes db ctx now later none = Changes.unchanged
approve_found-Changes db ctx now later (some proof) =
    approved_then-Changes proof later db (approve_tx ctx proof now db)
      (renewed-Review ctx proof now db (get_by_business db proof.business_id))

permitted_approval :
    (db : Ledger) (ctx : ActorContext) (id now later : ℕ) (r : Result (Unit {0}))
    → Changes db (approve_permitted db ctx id now later r).1
unfolding approve_permitted
permitted_approval db ctx id now later (err e) = Changes.unchanged
permitted_approval db ctx id now later (ok _) =
    approve_found-Changes db ctx now later (get_proof_by_id db id)

pub approve_proof-Changes :
    (db : Ledger) (ctx : ActorContext) (id now later : ℕ)
    → Changes db (approve_proof db ctx id now later).1
unfolding approve_proof
approve_proof-Changes db ctx id now later =
    permitted_approval db ctx id now later (require_admin_or_super_admin ctx)

reject_proof_tx-Review :
    (ctx : ActorContext) (proof : SubscriptionProof) (reason : Text) (db : Ledger)
    → Ensures (Review db) (reject_proof_tx ctx proof reason db)
unfolding reject_proof_tx
reject_proof_tx-Review ctx proof reason db = thrown _ _ λ next e.
    let q = reviewed_once db proof.id proof.business_id _ next e in
    Review.rejects ctx proof reason q.0 q.1

rejected_then-Changes :
    (proof : SubscriptionProof) (o : Office) (r : Result Ledger)
    → Ensures (Review o.ledger) r
    → Changes o.ledger (rejected_then proof o r).1.ledger
unfolding rejected_then
rejected_then-Changes proof o (err e) throws = Changes.unchanged
rejected_then-Changes proof o (ok next) (returns r) = once (Change.reviews r)

reject_found-Changes :
    (o : Office) (ctx : ActorContext) (reason : Text) (p : Option SubscriptionProof)
    → Changes o.ledger (reject_found o ctx reason p).1.ledger
unfolding reject_found
reject_found-Changes o ctx reason none = Changes.unchanged
reject_found-Changes o ctx reason (some proof) =
    rejected_then-Changes proof o (reject_proof_tx ctx proof reason o.ledger)
      (reject_proof_tx-Review ctx proof reason o.ledger)

permitted_rejection :
    (o : Office) (ctx : ActorContext) (id : ℕ) (reason : Text) (r : Result (Unit {0}))
    → Changes o.ledger (reject_permitted o ctx id reason r).1.ledger
unfolding reject_permitted
permitted_rejection o ctx id reason (err e) = Changes.unchanged
permitted_rejection o ctx id reason (ok _) =
    elim (Bool-cases (is_empty reason || ltb 800 (length reason))) [
      | inl bad ↦ rw bad Changes.unchanged
      | inr good ↦ rw good (reject_found-Changes o ctx reason (get_proof_by_id o.ledger id))
    ]

pub reject_subscription_proof-Changes :
    (o : Office) (ctx : ActorContext) (id : ℕ) (reason : Text)
    → Changes o.ledger (reject_subscription_proof o ctx id reason).1.ledger
unfolding reject_subscription_proof
reject_subscription_proof-Changes o ctx id reason =
    permitted_rejection o ctx id (trim reason) (require_admin_or_super_admin ctx)
