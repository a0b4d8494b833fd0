-- ===== src/Subscriptions/Replays.antt =====
-- A submission key names one proof: what a second submission with it answers.
use werefa.Texts.{trim}
use werefa.Tenant.{Business, ActorContext}
use werefa.ProofFile.{proof_max_bytes, sniff_proof}
use werefa.Booking.Transactions.{ok-injective, ◌>>=◌}
use werefa.Subscriptions.{
  pending, SubscriptionProof, Ledger, find_proof_by_key, create_proof, Subscription,
  get_by_business,
}
use werefa.Subscriptions.Billing.{
  submit_rest, submit_tx, created_or_raced, Office, fresh, storing, submitted_event, Submission,
  for_key, checked_file, replay, is_allowed, submit_checks, admitted, SubscriptionEvent,
  submit_proof, publish,
}
use werefa.Store.{Text, text_eq, text_eq_refl}
use werefa.Errors.{Result, ok, err, DomainError, is_ok}
use werefa.Prelude.{
  refl, ℕ, ◌∷◌, List, any-find_first, find_first-any, ◌≡◌, true, Bool, ◌∷◌, arith, some, List, none,
  Option, Bool-cases, ◌==◌, inl, inr, ◌∙◌, ltb, ap, sym, length, false,
}

abbrev pub has_key : Text → SubscriptionProof → Bool
has_key key p = text_eq p.submission_key key

-- The key is that of `p`, a proof of business `n`.
pub record IsKeyOf (key : Text) (n : ℕ) (p : SubscriptionProof) (db : Ledger) : Type 0 where
  pub found : find_proof_by_key db key ≡ some p
  pub own : p.business_id ≡ n

-- When the key has a proof already, which a concurrent call may have committed after the checks, the
-- transaction answers that proof, of whatever business, and leaves the tables as they are; the event
-- of a submission is published all the same.
pub submit_rest_raced :
    (o : Office) (n : ℕ) (key : Text) (bytes : List ℕ) (now : ℕ) (sub : Subscription)
    (p : SubscriptionProof)
    → find_proof_by_key o.ledger key ≡ some p
    → submit_rest o n key bytes now (ok (fresh sub))
      ≡ (ok p, record (storing o) { events = submitted_event p ∷ o.events })
unfolding submit_rest submit_tx created_or_raced create_proof
submit_rest_raced o n key bytes now sub p e =
    rw (any-find_first (has_key key) o.ledger.proofs e, e) refl

-- The row that a new submission creates.
abbrev pub new_row : Ledger → ℕ → Text → ℕ → Subscription → SubscriptionProof
new_row db n key now sub = record {
  id = db.next_proof;
  subscription_id = sub.id;
  business_id = n;
  submission_key = key;
  file_object_id = some db.next_file;
  requested_at = now;
  review_state = pending;
  reviewed_by = none;
  rejection_reason = none;
  approved_until = none;
}

created :
    (o : Office) (n : ℕ) (key : Text) (bytes : List ℕ) (now : ℕ) (sub : Subscription)
    → find_proof_by_key o.ledger key ≡ none
    → ((submit_rest o n key bytes now (ok (fresh sub))).0 ≡ ok (new_row o.ledger n key now sub))
      × (find_proof_by_key (submit_rest o n key bytes now (ok (fresh sub))).1.ledger key
          ≡ some (new_row o.ledger n key now sub))
unfolding submit_rest submit_tx created_or_raced create_proof
created o n key bytes now sub free =
    rw (find_first-any (has_key key) o.ledger.proofs free) (refl, rw (text_eq_refl key) refl)

-- What the checks answered tells what the tables hold.
pub data IsReady (db : Ledger) (n : ℕ) (key : Text) : Result Submission → Type 0 where
  failed : {e : DomainError} → IsReady db n key (err e)
  replays :
      (p : SubscriptionProof)
      → find_proof_by_key db key ≡ some p
      → p.business_id ≡ n
      → IsReady db n key (ok (replay p))
  starts :
      (sub : Subscription) → find_proof_by_key db key ≡ none → IsReady db n key (ok (fresh sub))

for_key-IsReady :
    (db : Ledger) (n : ℕ) (key : Text) (sub : Option Subscription) (o : Option SubscriptionProof)
    → find_proof_by_key db key ≡ o
    → IsReady db n key (for_key n sub o)
unfolding for_key
for_key-IsReady db n key sub (some p) e = elim (Bool-cases (p.business_id == n)) [
  | inl own ↦ rw own (IsReady.replays p e (ground (arith, own)))
  | inr other ↦ rw other IsReady.failed
]
for_key-IsReady db n key none none e = IsReady.failed
for_key-IsReady db n key (some sub) none e = IsReady.starts sub e

checked_file-IsReady :
    (db : Ledger) (n : ℕ) (key : Text) (bytes : List ℕ) (r : Result Submission)
    → IsReady db n key r
    → IsReady db n key (r >>= checked_file bytes)
unfolding checked_file
checked_file-IsReady db n key bytes (err e) s = s
checked_file-IsReady db n key bytes (ok (replay p)) s = s
checked_file-IsReady db n key bytes (ok (fresh sub)) s =
    elim (Bool-cases (ltb proof_max_bytes (length bytes))) [
      | inl big ↦ rw big IsReady.failed
      | inr small ↦ elim (Bool-cases (is_allowed (sniff_proof bytes))) [
        | inl good ↦ rw (small, good) s
        | inr bad ↦ rw (small, bad) IsReady.failed
      ]
    ]

submit_rest-IsKeyOf :
    (o : Office) (n : ℕ) (key : Text) (bytes : List ℕ) (now : ℕ) (r : Result Submission)
    (p : SubscriptionProof)
    → IsReady o.ledger n key r
    → (submit_rest o n key bytes now r).0 ≡ ok p
    → IsKeyOf key n p (submit_rest o n key bytes now r).1.ledger
unfolding submit_rest
submit_rest-IsKeyOf o n key bytes now (err e) p s h = cc
submit_rest-IsKeyOf o n key bytes now (ok (replay q)) p (IsReady.replays x found own) h =
    let same : q ≡ p = ok-injective h in
    record { found = found ∙ ap some same; own = rw⁻¹ same own }
submit_rest-IsKeyOf o n key bytes now (ok (fresh sub)) p (IsReady.starts x free) h =
    let (row, found) = created o n key bytes now sub free in
    let same : new_row o.ledger n key now sub ≡ p = ok-injective (sym row ∙ h) in
    record { found = found ∙ ap some same; own = rw⁻¹ same refl }

admitted-IsReady :
    (db : Ledger) (n : ℕ) (key : Text) (r : Result Business) (bad : Bool) (next : Result Submission)
    → IsReady db n key next
    → IsReady db n key (admitted r bad next)
unfolding admitted
admitted-IsReady db n key (err e) bad next s = IsReady.failed
admitted-IsReady db n key (ok b) true next s = IsReady.failed
admitted-IsReady db n key (ok b) false next s = s

submit_checks-IsReady :
    (db : Ledger) (businesses : List Business) (ctx : ActorContext) (n : ℕ) (key : Text)
    (bytes : List ℕ)
    → IsReady db n key (submit_checks db businesses ctx n key bytes)
unfolding submit_checks
submit_checks-IsReady db businesses ctx n key bytes = admitted-IsReady db n key _ _ _ (
    checked_file-IsReady db n key bytes _
      (for_key-IsReady db n key (get_by_business db n) (find_proof_by_key db key) refl))

-- The first tests let the same owner and key pass again, whatever follows them.
admitted_again :
    (r : Result Business) (bad : Bool) (next other : Result Submission)
    → is_ok (admitted r bad next) ≡ true
    → admitted r bad other ≡ other
unfolding is_ok admitted
admitted_again (err e) bad next other h = cc
admitted_again (ok b) true next other h = cc
admitted_again (ok b) false next other h = refl

for_key-IsKeyOf :
    (db : Ledger) (n : ℕ) (key : Text) (bytes : List ℕ) (p : SubscriptionProof)
    → IsKeyOf key n p db
    → (for_key n (get_by_business db n) (find_proof_by_key db key) >>= checked_file bytes)
      ≡ ok (replay p)
unfolding for_key checked_file
for_key-IsKeyOf db n key bytes p s = rw (s.found, s.own) (ground arith)

-- The checks fail whenever the call fails.
submit_rest-err :
    (o : Office) (n : ℕ) (key : Text) (bytes : List ℕ) (now : ℕ) (r : Result Submission)
    (p : SubscriptionProof)
    → (submit_rest o n key bytes now r).0 ≡ ok p
    → is_ok r ≡ true
unfolding is_ok submit_rest
submit_rest-err o n key bytes now (err e) p h = cc
submit_rest-err o n key bytes now (ok s) p h = refl

publish-businesses :
    (event : SubscriptionProof → SubscriptionEvent) (o : Office)
    (r : Result SubscriptionProof × Ledger)
    → (publish event o r).1.businesses ≡ o.businesses
publish-businesses event o (err e, db) = refl
publish-businesses event o (ok p, db) = refl

submit_rest-businesses :
    (o : Office) (n : ℕ) (key : Text) (bytes : List ℕ) (now : ℕ) (r : Result Submission)
    → (submit_rest o n key bytes now r).1.businesses ≡ o.businesses
unfolding submit_rest
submit_rest-businesses o n key bytes now (err e) = refl
submit_rest-businesses o n key bytes now (ok (replay p)) = refl
submit_rest-businesses o n key bytes now (ok (fresh sub)) =
    publish-businesses submitted_event (storing o)
      (submit_tx o.ledger sub n key o.next_key (length bytes) now)

-- When a submission has answered a proof, a submission of the same owner with the same key, whatever
-- its file and its instant, answers that proof and changes nothing: no row, no stored file, no event.
pub submit_proof-again :
    (o : Office) (ctx : ActorContext) (n : ℕ) (key : Text) (bytes others : List ℕ) (now later : ℕ)
    (p : SubscriptionProof)
    → (submit_proof o ctx n key bytes now).0 ≡ ok p
    → submit_proof (submit_proof o ctx n key bytes now).1 ctx n key others later
      ≡ (ok p, (submit_proof o ctx n key bytes now).1)
unfolding submit_proof submit_checks submit_rest
submit_proof-again o ctx n key bytes others now later p h =
    let next = (submit_proof o ctx n key bytes now).1 in
    let checks = submit_checks o.ledger o.businesses ctx n (trim key) bytes in
    let same : next.businesses ≡ o.businesses =
      submit_rest-businesses o n (trim key) bytes now checks in
    let keyed : IsKeyOf (trim key) n p next.ledger =
      submit_rest-IsKeyOf o n (trim key) bytes now checks p
        (submit_checks-IsReady o.ledger o.businesses ctx n (trim key) bytes) h in
    let good = submit_rest-err o n (trim key) bytes now checks p h in
    rw same (
      ap (submit_rest next n (trim key) others later)
        (admitted_again _ _ _ _ good ∙ for_key-IsKeyOf next.ledger n (trim key) others p keyed))
