-- ===== src/Subscriptions/Settled.antt =====
-- A proof that was reviewed is never reviewed again.
use werefa.Lifecycle.{next_period_ends_at}
use werefa.Prelude.{
  ℕ, ◌<◌, ◌≡◌, refl, ◌∙◌, ap, Bool, false, none, some, Option, List, ◌==◌, arith, Option-cases, inl,
  inr, if◌then◌else◌, any, update_many, find_first, find_first-update_many, any-update_many-false,
  any-count_where, count_where-any, count_where-cleared, find_first-update_many-none,
  find_first-mem,
}
use werefa.Store.{Text}
use werefa.Subscriptions.{
  Ledger, SubscriptionProof, is_pending, get_proof_by_id, reviewable, as_approved, as_rejected,
  review_proof,
}
use werefa.Subscriptions.Billing.{extended}
use werefa.Subscriptions.Asides.{Aside}
use werefa.Subscriptions.Changes.{Review, Submits, Change}

abbrev pub business_named : Option SubscriptionProof → Option ℕ
business_named none = none
business_named (some p) = some p.business_id

-- The proof `id` is one of business `n`, and no review of it can succeed any more.
pub record IsSettled (id n : ℕ) (db : Ledger) : Type 0 where
  pub older : id < db.next_proof
  pub named : business_named (get_proof_by_id db id) ≡ some n
  pub closed : any (reviewable id n) db.proofs ≡ false

pub Aside-IsSettled :
    {id n : ℕ} {db next : Ledger} → Aside db next → IsSettled id n db → IsSettled id n next
Aside-IsSettled a s = record {
  older = rw a.counter_same s.older;
  named = rw a.proofs_same s.named;
  closed = rw a.proofs_same s.closed;
}

-- What a decision on some proof does to the row of another.
pub record IsDecision (f : SubscriptionProof → SubscriptionProof) : Type 0 where
  pub same_id : (p : SubscriptionProof) → (f p).id ≡ p.id
  pub same_business : (p : SubscriptionProof) → (f p).business_id ≡ p.business_id
  pub decided : (p : SubscriptionProof) → is_pending (f p).review_state ≡ false

-- Decisions move no proof to another business.
named-update_many :
    (id : ℕ) (p : SubscriptionProof → Bool) (f : SubscriptionProof → SubscriptionProof)
    (xs : List SubscriptionProof)
    → IsDecision f
    → business_named (find_first (λ (q : SubscriptionProof). q.id == id) (update_many p f xs))
      ≡ business_named (find_first (λ (q : SubscriptionProof). q.id == id) xs)
named-update_many id p f xs d =
    let has_id : SubscriptionProof → Bool = λ q. q.id == id in
    let keep : (y : SubscriptionProof) → has_id (if p y then f y else y) ≡ has_id y =
      λ y. ground (arith, d.same_id y) in
    elim (Option-cases (find_first has_id xs)) [
      | inl e ↦ rw (e, find_first-update_many-none has_id p f xs keep e) refl
      | inr (x, e) ↦
          rw (e, find_first-update_many has_id p f xs keep e) (ground (arith, d.same_business x))
    ]

decided_rows :
    (id n : ℕ) (f : SubscriptionProof → SubscriptionProof) (i m : ℕ) (db next : Ledger)
    → IsDecision f
    → next.proofs ≡ update_many (reviewable i m) f db.proofs
    → next.next_proof ≡ db.next_proof
    → IsSettled id n db
    → IsSettled id n next
decided_rows id n f i m db next d e c s = record {
  older = rw c s.older;
  named = rw e (named-update_many id (reviewable i m) f db.proofs d ∙ s.named);
  closed = rw e (
      any-update_many-false (reviewable id n) (reviewable i m) f db.proofs
        (λ x h. ground (arith, h, d.decided x)) s.closed);
}

pub approving : (user : Option ℕ) (until : ℕ) → IsDecision (as_approved user until)
approving user until = record {
  same_id = λ p. refl;
  same_business = λ p. refl;
  decided = λ p. refl;
}

rejecting : (user : Option ℕ) (reason : Text) → IsDecision (as_rejected user reason)
rejecting user reason = record {
  same_id = λ p. refl;
  same_business = λ p. refl;
  decided = λ p. refl;
}

-- A review that succeeds settles its proof.
pub settling :
    (id n : ℕ) (f : SubscriptionProof → SubscriptionProof) (db next : Ledger)
    (proof : SubscriptionProof)
    → IsDecision f
    → id < db.next_proof
    → get_proof_by_id db id ≡ some proof
    → proof.business_id ≡ n
    → next.proofs ≡ update_many (reviewable id n) f db.proofs
    → next.next_proof ≡ db.next_proof
    → IsSettled id n next
settling id n f db next proof d old found own e c = record {
  older = rw c old;
  named = rw e (
      named-update_many id (reviewable id n) f db.proofs d ∙ ap business_named found ∙ ap some own);
  closed = rw e (
      count_where-any (reviewable id n) _ (
        count_where-cleared (reviewable id n) (reviewable id n) f db.proofs
          λ y. ground (arith, d.decided y)));
}

-- The id that the proof is found by is its own.
pub get_proof_by_id-id :
    (db : Ledger) (id : ℕ) {p : SubscriptionProof} → get_proof_by_id db id ≡ some p → p.id ≡ id
get_proof_by_id-id db id e =
    ground (arith, (find_first-mem (λ (q : SubscriptionProof). q.id == id) db.proofs e).1)

-- A review of a settled proof finds no pending row.
pub review_settled :
    (id n : ℕ) (f : SubscriptionProof → SubscriptionProof) (db : Ledger)
    → any (reviewable id n) db.proofs ≡ false
    → review_proof db id n f ≡ none
unfolding review_proof
review_settled id n f db closed = rw (any-count_where (reviewable id n) db.proofs closed) refl

Review-IsSettled :
    (id n : ℕ) (db next : Ledger) → Review db next → IsSettled id n db → IsSettled id n next
unfolding extended
Review-IsSettled id n db next (Review.approves ctx proof now sub one e) =
    decided_rows id n (as_approved ctx.actor_user_id (next_period_ends_at sub.bands now)) proof.id
      proof.business_id db next (approving _ _) (rw e refl) (rw e refl)
Review-IsSettled id n db next (Review.rejects ctx proof reason one e) =
    decided_rows id n (as_rejected ctx.actor_user_id reason) proof.id proof.business_id db next
      (rejecting _ _) (rw e refl) (rw e refl)

Submits-IsSettled :
    (id n : ℕ) (db next : Ledger) → Submits db next → IsSettled id n db → IsSettled id n next
Submits-IsSettled id n db next (Submits.adds_none e h c) s = record {
  older = rw c s.older;
  named = rw e s.named;
  closed = rw e s.closed;
}
Submits-IsSettled id n db next (Submits.adds_pending p w i e h c) s =
    let other : (p.id == id) ≡ false = ground (arith, i, s.older) in
    record {
      older = omega (arith, c, s.older);
      named = rw (e, other) s.named;
      closed = rw (e, other) s.closed;
    }

pub Change-IsSettled :
    (id n : ℕ) (db next : Ledger) → Change db next → IsSettled id n db → IsSettled id n next
Change-IsSettled id n db next (Change.aside a) = Aside-IsSettled a
Change-IsSettled id n db next (Change.reviews r) = Review-IsSettled id n db next r
Change-IsSettled id n db next (Change.submits s) = Submits-IsSettled id n db next s
