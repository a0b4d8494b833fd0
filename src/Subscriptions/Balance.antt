-- ===== src/Subscriptions/Balance.antt =====
-- The renewals in the history are as many as the approved proofs.
use werefa.Subscriptions.Reach.{Calls, along}
use werefa.Subscriptions.Changes.{with_approval, Review, Submits, Change}
use werefa.Subscriptions.Asides.{approved_of, Aside, renewal_of}
use werefa.Prelude.{
  ℕ, suc, ◌≡◌, sym, ◌∙◌, List, Option, ◌==◌, arith, Bool-cases, inl, inr, if◌then◌else◌,
  count_where, update_many, count_where-update_many, count_where-update_many-add,
}
use werefa.Tenant.{ActorContext}
use werefa.Subscriptions.{
  Ledger, Subscription, SubscriptionProof, reviewable, as_approved, as_rejected,
}
use werefa.Lifecycle.{next_period_ends_at}
use werefa.Subscriptions.Billing.{Office, extended}

-- For every business, as many renewals as approved proofs.
pub record IsBalanced (db : Ledger) : Type 0 where
  pub balance :
      (n : ℕ) → count_where (approved_of n) db.proofs ≡ count_where (renewal_of n) db.history

pub Aside-IsBalanced : {db next : Ledger} → Aside db next → IsBalanced db → IsBalanced next
Aside-IsBalanced a b = record {
  balance = λ n. rw a.proofs_same (b.balance n ∙ sym (a.renewals_same n));
}

-- The reviewed proof's row and no other is approved.
approvals_after :
    (id b n until : ℕ) (user : Option ℕ) (proofs : List SubscriptionProof)
    → count_where (reviewable id b) proofs ≡ 1
    → count_where (approved_of n) (update_many (reviewable id b) (as_approved user until) proofs)
      ≡ (if b == n
          then suc (count_where (approved_of n) proofs)
          else count_where (approved_of n) proofs)
approvals_after id b n until user proofs one = elim (Bool-cases (b == n)) [
  | inl same ↦ rw same (
      omega (
        arith,
        one,
        count_where-update_many-add (approved_of n) (reviewable id b) (as_approved user until)
            proofs (λ y h. ground (arith, h)) (λ y h. ground (arith, h, same)),
      ))
  | inr other ↦ rw other (
      count_where-update_many (approved_of n) (reviewable id b) (as_approved user until) proofs
        λ y. ground (arith, other))
]

extended-IsBalanced :
    (ctx : ActorContext) (proof : SubscriptionProof) (now : ℕ) (db : Ledger) (sub : Subscription)
    → count_where (reviewable proof.id proof.business_id) db.proofs ≡ 1
    → IsBalanced db
    → IsBalanced (extended ctx proof now sub (with_approval ctx proof now sub db))
unfolding extended
extended-IsBalanced ctx proof now db sub one b = record {
  balance = λ n. ground (
    arith,
    b.balance n,
    approvals_after proof.id proof.business_id n (next_period_ends_at sub.bands now)
        ctx.actor_user_id db.proofs one,
  );
}

Review-IsBalanced : {db next : Ledger} → Review db next → IsBalanced db → IsBalanced next
Review-IsBalanced {db} (Review.approves ctx proof now sub one e) b =
    rw e (extended-IsBalanced ctx proof now db sub one b)
Review-IsBalanced {db} (Review.rejects ctx proof reason one e) b = record {
  balance = λ n. rw e (
      count_where-update_many (approved_of n) (reviewable proof.id proof.business_id)
        (as_rejected ctx.actor_user_id reason) db.proofs (λ y. ground arith)
      ∙ b.balance n);
}

Submits-IsBalanced : {db next : Ledger} → Submits db next → IsBalanced db → IsBalanced next
Submits-IsBalanced (Submits.adds_none e h c) b = record { balance = λ n. rw (e, h) (b.balance n) }
Submits-IsBalanced (Submits.adds_pending p w i e h c) b = record {
  balance = λ n. rw (e, h) (ground (arith, w, b.balance n));
}

Change-IsBalanced : {db next : Ledger} → Change db next → IsBalanced db → IsBalanced next
Change-IsBalanced (Change.aside a) = Aside-IsBalanced a
Change-IsBalanced (Change.reviews r) = Review-IsBalanced r
Change-IsBalanced (Change.submits s) = Submits-IsBalanced s

-- Whatever calls are made and in whatever order, the history of a business holds as many renewals as
-- the business has approved proofs, if it did before: no approval extends a period twice.
pub Calls-IsBalanced : {o p : Office} → Calls o p → IsBalanced o.ledger → IsBalanced p.ledger
Calls-IsBalanced = along IsBalanced λ db next c. Change-IsBalanced c
