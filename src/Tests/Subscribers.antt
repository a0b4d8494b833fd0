-- ===== src/Tests/Subscribers.antt =====
-- The subscriptions of a business, its proofs and their reviews.
use werefa.Worker.Stuck.{save_tx-stuck}
use werefa.Tests.Schedules.{mondays}
use werefa.Schedules.Saving.{save_tx}
use werefa.Booking.Transactions.{Ensures}
use werefa.Worker.Sweeping.{sweep_ends_pauses}
use werefa.Worker.{sweep}
use werefa.Subscriptions.Renewing.{approve_proof-is_eligible_now}
use werefa.Subscriptions.Resuming.{is_due_pause}
use werefa.Subscriptions.Balance.{IsBalanced, Calls-IsBalanced}
use werefa.Subscriptions.Once.{approve_proof-once}
use werefa.Subscriptions.Reach.{at_ledger, Calls, Call}
use werefa.ProofFile.{sniff_proof, is_allowed_proof_mime_type, has}
use werefa.Texts.{trim}
use werefa.Subscriptions.Gating.{booking_gate-is_eligible_now}
use werefa.Subscriptions.Replays.{new_row, submit_proof-again}
use werefa.Subscriptions.Service.{
  is_eligible_now, reconcile_status, booking_gate, attempt_auto_resume, Resume, settings_of,
  has_pending, is_thrown,
}
use werefa.Errors.{is_ok, ok}
use werefa.Subscriptions.Billing.{
  Office, submit_proof, approve_proof, submit_tx, approve_tx, extended,
}
use werefa.Tenant.{Business, ActorContext, require_owned_business, require_admin_or_super_admin}
use werefa.Subscriptions.{
  Subscription, PauseSettings, Ledger, SubscriptionProof, review_proof, get_proof_by_id,
  get_by_business, create_proof, advance_to_canonical_status,
}
use werefa.Prelude.{
  ℕ, ◌≡◌, refl, List, some, true, ◌∷◌, [], false, ◌+◌, ◌<◌, update_many, ◌*◌, arith, ◌&&◌,
}
use werefa.Store.{admin, owner, Text}
use werefa.Lifecycle.{trial, day_ms, is_eligible, derive_canonical_status, next_period_ends_at}
use werefa.Lifecycle.Timeline.{trial_bands}

-- A trial that began at 0, and the instant at which it is over.
abbrev trial_sub : Subscription
trial_sub = record {
  id = 3;
  business_id = 1;
  status = trial;
  trial_started_at = some 0;
  bands = trial_bands 0;
}

abbrev late : ℕ
late = 3000000000

abbrev soon : ℕ
soon = 1000

-- A pause that ends at 2000.
abbrev paused_settings : PauseSettings
paused_settings = record { business_id = 1; is_paused = true; reopen_at = some 2000 }

abbrev ledger : Ledger
ledger = record {
  subscriptions = trial_sub ∷ [];
  history = [];
  proofs = [];
  files = [];
  settings = paused_settings ∷ [];
  versions = [];
  active_versions = [];
  contents = [];
  exceptions = [];
  next_version = 1;
  next_subscription = 4;
  next_proof = 1;
  next_file = 1;
}

abbrev shop_row : Business
shop_row = record { id = 1; slug = 1; owners = 5 ∷ []; deactivated = false }

abbrev office : Office
office = record {
  ledger = ledger;
  businesses = shop_row ∷ [];
  objects = [];
  next_key = 70;
  events = [];
}

abbrev the_owner : ActorContext
the_owner = record { actor_type = owner; actor_user_id = some 5 }

abbrev the_admin : ActorContext
the_admin = record { actor_type = admin; actor_user_id = some 9 }

-- ' k1 '
abbrev key : Text
key = 32 ∷ 107 ∷ 49 ∷ 32 ∷ []

-- A JPEG.
abbrev receipt : List ℕ
receipt = 255 ∷ 216 ∷ 255 ∷ 224 ∷ []

abbrev sent : Office
sent = (submit_proof office the_owner 1 key receipt late).1

abbrev stored_proof : SubscriptionProof
stored_proof = new_row ledger 1 (107 ∷ 49 ∷ []) late trial_sub

booking_gate-is_eligible_now_example :
    is_ok (booking_gate ledger late 1).0 ≡ is_eligible_now ledger late 1
booking_gate-is_eligible_now_example = booking_gate-is_eligible_now ledger late 1

closed_late : is_eligible_now ledger late 1 ≡ false
unfolding is_eligible_now is_eligible derive_canonical_status
closed_late = refl

submitted_ok : (submit_proof office the_owner 1 key receipt late).0 ≡ ok stored_proof
unfolding submit_proof trim sniff_proof is_allowed_proof_mime_type require_owned_business has
    submit_tx create_proof
submitted_ok = refl

submit_proof-again_example : submit_proof sent the_owner 1 key [] late ≡ (ok stored_proof, sent)
submit_proof-again_example =
    submit_proof-again office the_owner 1 key receipt [] late late stored_proof submitted_ok

approved_ok : is_ok (approve_proof sent.ledger the_admin 1 late late).0 ≡ true
unfolding submit_proof trim sniff_proof is_allowed_proof_mime_type require_owned_business is_ok
    approve_proof require_admin_or_super_admin attempt_auto_resume review_proof has submit_tx
    create_proof approve_tx extended reconcile_status update_many derive_canonical_status
    next_period_ends_at is_eligible
approved_ok = refl

found_proof : get_proof_by_id sent.ledger 1 ≡ some stored_proof
unfolding submit_proof require_owned_business trim sniff_proof has is_allowed_proof_mime_type
    submit_tx create_proof
found_proof = refl

found_sub : get_by_business sent.ledger 1 ≡ some trial_sub
unfolding submit_proof require_owned_business trim sniff_proof has is_allowed_proof_mime_type
    submit_tx create_proof
found_sub = refl

approve_proof-is_eligible_now_example :
    is_eligible_now (approve_proof sent.ledger the_admin 1 late late).1 (late + 31 * day_ms) 1
    ≡ true
approve_proof-is_eligible_now_example =
    approve_proof-is_eligible_now sent.ledger the_admin 1 late late (late + 31 * day_ms)
      stored_proof trial_sub found_proof found_sub approved_ok within
  where
    within : late + 31 * day_ms < next_period_ends_at (trial_bands 0) late + 5 * day_ms
    within = unfold next_period_ends_at in omega arith

abbrev after_approval : Office
after_approval = at_ledger sent (approve_proof sent.ledger the_admin 1 late late).1

-- A gate and a second submission stand between the two approvals.
abbrev meanwhile : Office
meanwhile =
    (submit_proof (at_ledger after_approval (booking_gate after_approval.ledger late 1).1) the_owner
      1 (50 ∷ []) receipt late).1

abbrev calls_between : Calls after_approval meanwhile
calls_between =
    Calls.then_call (Calls.then_call Calls.no_call (Call.gated late 1))
      (Call.submitted the_owner 1 (50 ∷ []) receipt late)

one_below : 1 < sent.ledger.next_proof
unfolding submit_proof require_owned_business trim sniff_proof has is_allowed_proof_mime_type
    submit_tx create_proof
one_below = omega arith

approve_proof-once_example :
    (is_ok (approve_proof meanwhile.ledger the_admin 1 late late).0 ≡ false)
    × ((approve_proof meanwhile.ledger the_admin 1 late late).1 ≡ meanwhile.ledger)
approve_proof-once_example =
    approve_proof-once sent meanwhile the_admin the_admin 1 late late late late stored_proof
      one_below found_proof approved_ok calls_between

ledger-IsBalanced : IsBalanced ledger
ledger-IsBalanced = record { balance = λ n. refl }

abbrev all_calls : Calls office meanwhile
all_calls =
    Calls.then_call
      (Calls.then_call
        (Calls.then_call
          (Calls.then_call Calls.no_call (Call.submitted the_owner 1 key receipt late))
          (Call.approved_by the_admin 1 late late))
        (Call.gated late 1))
      (Call.submitted the_owner 1 (50 ∷ []) receipt late)

Calls-IsBalanced_example : IsBalanced meanwhile.ledger
Calls-IsBalanced_example = Calls-IsBalanced all_calls ledger-IsBalanced

abbrev nobody : Ledger
nobody = record ledger { subscriptions = [] }

-- In the trial the pause ends at its time.
reopened : (attempt_auto_resume ledger 2500 1).0 ≡ Resume.resumed
unfolding attempt_auto_resume reconcile_status derive_canonical_status is_eligible
reopened = refl

-- After the trial it does not.
stays_closed : (attempt_auto_resume ledger late 1).0 ≡ Resume.refused_expired
unfolding attempt_auto_resume reconcile_status derive_canonical_status advance_to_canonical_status
    update_many is_eligible
stays_closed = refl

still_open : is_eligible_now ledger 2500 1 ≡ true
unfolding is_eligible_now is_eligible derive_canonical_status
still_open = refl

none_stuck :
    (n : ℕ)
    → (is_due_pause 2500 (settings_of ledger n)
        && (is_eligible_now ledger 2500 n && has_pending n ledger.versions))
      ≡ false
none_stuck n = ground arith

sweep_ends_pauses_example :
    (is_ok (sweep ledger 2500).0 ≡ true)
    × ((n : ℕ)
        → is_eligible_now ledger 2500 n ≡ true
        → is_due_pause 2500 (settings_of (sweep ledger 2500).1 n) ≡ false)
sweep_ends_pauses_example = sweep_ends_pauses ledger 2500 none_stuck

swept : (sweep ledger 2500).0 ≡ ok (record { attempted = 1; resumed = 1; refused = 0 })
unfolding sweep attempt_auto_resume reconcile_status derive_canonical_status is_eligible
swept = refl

save_tx-stuck_example :
    Ensures
      (λ r.
        (is_thrown (attempt_auto_resume r.1 2500 1).0 ≡ true)
        × (is_due_pause 2500 (settings_of (attempt_auto_resume r.1 2500 1).1 1) ≡ true))
      (save_tx 1 true mondays ledger)
save_tx-stuck_example = save_tx-stuck 1 2500 mondays ledger refl still_open
