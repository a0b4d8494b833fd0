-- ===== src/Subscriptions/Billing.antt =====
-- backend/src/domain/services/subscription-billing.service.ts: the proofs of bank transfers that owners
-- upload and admins review. The relations of `getProofWithBusiness`, a name and an address, are left
-- out.
use werefa.Prelude.{
  ℕ, suc, Bool, false, ◌||◌, Option, none, some, List, ◌∷◌, ltb, ◌==◌, if◌then◌else◌, length,
}
use werefa.Errors.{
  Result, ok, err, business_not_found, invalid_schedule, idempotency_conflict, proof_file_too_large,
  proof_file_type_invalid, invalid_lifecycle_transition, p2023_invalid_uuid,
}
use werefa.Store.{Text, ActorType, admin, super_admin}
use werefa.Texts.{trim, is_empty}
use werefa.Lifecycle.{active, is_eligible, next_period_ends_at, paid_grace_ends_after}
use werefa.ProofFile.{
  mime_text, SniffedProof, sniff_proof, is_allowed_proof_mime_type, proof_max_bytes,
}
use werefa.Tenant.{
  Business, ActorContext, require_owned_business, require_admin_or_super_admin, is_super_admin,
}
use werefa.Booking.Transactions.{◌>>=◌, or_throw}
use werefa.Subscriptions.{
  Ledger, Subscription, SubscriptionProof, proof_approved, get_by_business, find_proof_by_key,
  get_proof_by_id, list_proofs_by_business, create_proof, review_proof, as_approved, as_rejected,
  set_paid_band, set_active, append_history,
}
use werefa.Subscriptions.Service.{reconcile_status, attempt_auto_resume, is_thrown}

pub data SubscriptionEventType : Type 0 where
  proof_submitted proof_rejected : SubscriptionEventType

pub record SubscriptionEvent : Type 0 where
  pub type : SubscriptionEventType
  pub business_id : ℕ
  pub proof_id : ℕ
  pub reason : Option Text

-- The tables, the businesses, the keys of the stored objects and the published events.
pub record Office : Type 0 where
  pub ledger : Ledger
  pub businesses : List Business
  pub objects : List ℕ
  pub next_key : ℕ
  pub events : List SubscriptionEvent

pub record OwnerView : Type 0 where
  pub subscription : Subscription
  pub bookings_enabled : Bool
  pub proofs : List SubscriptionProof

view_of : Ledger → ℕ → Option Subscription → Result OwnerView
view_of db n none = err business_not_found
view_of db n (some sub) = ok (record {
  subscription = sub;
  bookings_enabled = is_eligible sub.status;
  proofs = list_proofs_by_business db n;
})

unfoldable pub view_owned : Ledger → ℕ → ℕ → Result Business → Result OwnerView × Ledger
unfolding view_of
view_owned db now n (err e) = (err e, db)
view_owned db now n (ok b) = let r = reconcile_status db now n in (view_of r.1 n r.0, r.1)

-- `getOwnerSubscriptionView`
unfoldable pub get_owner_subscription_view :
    Ledger → List Business → ActorContext → ℕ → ℕ → Result OwnerView × Ledger
unfolding view_owned
get_owner_subscription_view db businesses ctx now n =
    view_owned db now n (require_owned_business businesses ctx n)

-- What `submitProof` knows before its transaction: the proof of an earlier submission, or the
-- subscription that a new one is for.
pub data Submission : Type 0 where
  replay : SubscriptionProof → Submission
  fresh : Subscription → Submission

unfoldable pub for_key : ℕ → Option Subscription → Option SubscriptionProof → Result Submission
for_key n sub (some existing) =
    if existing.business_id == n then ok (replay existing) else err idempotency_conflict
for_key n none none = err business_not_found
for_key n (some sub) none = ok (fresh sub)

abbrev pub is_allowed : Option SniffedProof → Bool
is_allowed none = false
is_allowed (some s) = is_allowed_proof_mime_type (mime_text s.mime_type)

-- The checks of the file, for a new submission only.
unfoldable pub checked_file : List ℕ → Submission → Result Submission
checked_file bytes (replay p) = ok (replay p)
checked_file bytes (fresh sub) =
    if ltb proof_max_bytes (length bytes)
    then err proof_file_too_large
    else if is_allowed (sniff_proof bytes)
    then ok (fresh sub)
    else err proof_file_type_invalid

-- The tests that come first: the owner's, then the key's.
unfoldable pub admitted : Result Business → Bool → Result Submission → Result Submission
admitted (err e) bad next = err e
admitted (ok b) bad next = if bad then err invalid_schedule else next

unfoldable pub submit_checks :
    Ledger → List Business → ActorContext → ℕ → Text → List ℕ → Result Submission
unfolding admitted for_key checked_file
submit_checks db businesses ctx n key bytes =
    admitted (require_owned_business businesses ctx n) (is_empty key || ltb 128 (length key))
      (for_key n (get_by_business db n) (find_proof_by_key db key) >>= checked_file bytes)

-- After a violation of the unique index the transaction, aborted, leaves no row, and the proof that
-- has the key is answered.
unfoldable pub created_or_raced :
    Ledger → Text → Option (SubscriptionProof × Ledger) → Result SubscriptionProof × Ledger
created_or_raced db key (some created) = (ok created.0, created.1)
created_or_raced db key none = (or_throw (find_proof_by_key db key) idempotency_conflict, db)

-- The transaction of `submitProof`.
unfoldable pub submit_tx :
    Ledger → Subscription → ℕ → Text → ℕ → ℕ → ℕ → Result SubscriptionProof × Ledger
unfolding created_or_raced
submit_tx db sub n key storage_key size_bytes now =
    let filed : Ledger = record db {
      files =
          record {
            id = db.next_file;
            business_id = n;
            storage_key = storage_key;
            size_bytes = size_bytes;
          }
          ∷ db.files;
      next_file = suc db.next_file;
    } in
    created_or_raced db key (create_proof filed sub.id n key db.next_file now)

-- `submittedEvent`
abbrev pub submitted_event : SubscriptionProof → SubscriptionEvent
submitted_event p = record {
  type = proof_submitted;
  business_id = p.business_id;
  proof_id = p.id;
  reason = none;
}

-- `rejectedEvent`, of the proof as the caller read it.
abbrev pub rejected_event : SubscriptionProof → SubscriptionEvent
rejected_event p = record {
  type = proof_rejected;
  business_id = p.business_id;
  proof_id = p.id;
  reason = p.rejection_reason;
}

abbrev pub publish :
    (SubscriptionProof → SubscriptionEvent)
    → Office
    → Result SubscriptionProof × Ledger
    → Result SubscriptionProof × Office
publish event o (err e, db) = (err e, record o { ledger = db })
publish event o (ok p, db) = (ok p, record o { ledger = db; events = event p ∷ o.events })

-- `proofStorage.store`, under a key that no object has yet.
abbrev pub storing : Office → Office
storing o = record o { objects = o.next_key ∷ o.objects; next_key = suc o.next_key }

-- What follows the checks. Others may have changed the tables since.
unfoldable pub submit_rest :
    Office → ℕ → Text → List ℕ → ℕ → Result Submission → Result SubscriptionProof × Office
submit_rest o n key bytes now (err e) = (err e, o)
submit_rest o n key bytes now (ok (replay p)) = (ok p, o)
submit_rest o n key bytes now (ok (fresh sub)) =
    publish submitted_event (storing o) (submit_tx o.ledger sub n key o.next_key (length bytes) now)

-- `submitProof`
unfoldable pub submit_proof :
    Office → ActorContext → ℕ → Text → List ℕ → ℕ → Result SubscriptionProof × Office
unfolding submit_checks submit_rest
submit_proof o ctx n submission_key bytes now =
    let key = trim submission_key in
    submit_rest o n key bytes now (submit_checks o.ledger o.businesses ctx n key bytes)

abbrev reviewer : ActorContext → ActorType
reviewer ctx = if is_super_admin ctx.actor_type then super_admin else admin

-- The paid band, the status and the history row of an approval.
unfoldable pub extended : ActorContext → SubscriptionProof → ℕ → Subscription → Ledger → Ledger
extended ctx proof now sub db =
    let new_period_end = next_period_ends_at sub.bands now in
    append_history
      (record {
        subscription_id = sub.id;
        business_id = proof.business_id;
        from_status = some sub.status;
        to_status = active;
        actor_type = reviewer ctx;
        actor_user_id = ctx.actor_user_id;
        reason = proof_approved new_period_end;
      })
      (set_active proof.business_id
        (set_paid_band proof.business_id new_period_end (paid_grace_ends_after new_period_end) db))

unfoldable pub renewed :
    ActorContext → SubscriptionProof → ℕ → Ledger → Option Subscription → Result Ledger
renewed ctx proof now db none = err business_not_found
renewed ctx proof now db (some sub) = do
  reviewed ←
      or_throw
        (review_proof db proof.id proof.business_id
          (as_approved ctx.actor_user_id (next_period_ends_at sub.bands now)))
        invalid_lifecycle_transition
  ok (extended ctx proof now sub reviewed)

-- The transaction of `approveProof`, with the proof as it was read before.
unfoldable pub approve_tx : ActorContext → SubscriptionProof → ℕ → Ledger → Result Ledger
unfolding renewed
approve_tx ctx proof now db = renewed ctx proof now db (get_by_business db proof.business_id)

-- The proof as the tables have it after a review.
abbrev pub reread : Ledger → ℕ → Result SubscriptionProof
reread db id = or_throw (get_proof_by_id db id) invalid_lifecycle_transition

unfoldable pub approved_then :
    SubscriptionProof → ℕ → Ledger → Result Ledger → Result SubscriptionProof × Ledger
approved_then proof later db (err e) = (err e, db)
approved_then proof later db (ok next) =
    let r = attempt_auto_resume next later proof.business_id in
    (if is_thrown r.0 then err p2023_invalid_uuid else reread r.1 proof.id, r.1)

unfoldable pub approve_found :
    Ledger → ActorContext → ℕ → ℕ → Option SubscriptionProof → Result SubscriptionProof × Ledger
unfolding approved_then
approve_found db ctx now later none = (err business_not_found, db)
approve_found db ctx now later (some proof) =
    approved_then proof later db (approve_tx ctx proof now db)

unfoldable pub approve_permitted :
    Ledger → ActorContext → ℕ → ℕ → ℕ → Result (Unit {0}) → Result SubscriptionProof × Ledger
unfolding approve_found
approve_permitted db ctx proof_id now later (err e) = (err e, db)
approve_permitted db ctx proof_id now later (ok _) =
    approve_found db ctx now later (get_proof_by_id db proof_id)

-- `approveProof`; `later` is the instant at which the auto-resume reads the clock.
unfoldable pub approve_proof : Ledger → ActorContext → ℕ → ℕ → ℕ → Result SubscriptionProof × Ledger
unfolding approve_permitted
approve_proof db ctx proof_id now later =
    approve_permitted db ctx proof_id now later (require_admin_or_super_admin ctx)

-- The transaction of `rejectProof`.
unfoldable pub reject_proof_tx : ActorContext → SubscriptionProof → Text → Ledger → Result Ledger
reject_proof_tx ctx proof reason db =
    or_throw (review_proof db proof.id proof.business_id (as_rejected ctx.actor_user_id reason))
      invalid_lifecycle_transition

unfoldable pub rejected_then :
    SubscriptionProof → Office → Result Ledger → Result SubscriptionProof × Office
rejected_then proof o (err e) = (err e, o)
rejected_then proof o (ok next) =
    (reread next proof.id, record o { ledger = next; events = rejected_event proof ∷ o.events })

unfoldable pub reject_found :
    Office → ActorContext → Text → Option SubscriptionProof → Result SubscriptionProof × Office
unfolding rejected_then reject_proof_tx
reject_found o ctx reason none = (err business_not_found, o)
reject_found o ctx reason (some proof) =
    rejected_then proof o (reject_proof_tx ctx proof reason o.ledger)

unfoldable pub reject_permitted :
    Office → ActorContext → ℕ → Text → Result (Unit {0}) → Result SubscriptionProof × Office
unfolding reject_found
reject_permitted o ctx proof_id reason (err e) = (err e, o)
reject_permitted o ctx proof_id reason (ok _) =
    if is_empty reason || ltb 800 (length reason)
    then (err invalid_schedule, o)
    else reject_found o ctx reason (get_proof_by_id o.ledger proof_id)

-- `rejectProof`
unfoldable pub reject_subscription_proof :
    Office → ActorContext → ℕ → Text → Result SubscriptionProof × Office
unfolding reject_permitted
reject_subscription_proof o ctx proof_id reason =
    reject_permitted o ctx proof_id (trim reason) (require_admin_or_super_admin ctx)
