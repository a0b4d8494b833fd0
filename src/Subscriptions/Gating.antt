-- ===== src/Subscriptions/Gating.antt =====
-- What the booking gate answers, and that it settles the persisted status.
use werefa.Prelude.{
  ℕ, ◌≡◌, refl, sym, ◌∙◌, ap, false, none, some, arith, Bool-cases, inl, inr, Option,
  find_first-update_many, ltb, ◌+◌, ◌*◌, find_first-any,
}
use werefa.Errors.{is_ok}
use werefa.Lifecycle.{SubscriptionStatus, derive_canonical_status, is_eligible, day_ms}
use werefa.Subscriptions.{
  Ledger, Subscription, get_by_business, advance_to_canonical_status, advance_from, of_business,
  standing, with_status, status_is, noted, status_is_refl, status_is-eq, status_is_comm,
  is_booking_eligible, find_first-of_business, ensure_trial_at_creation,
}
use werefa.Subscriptions.Service.{
  reconcile_from, reconcile_status, booking_gate, is_eligible_now, takes_bookings,
}

get-advance_from :
    (db : Ledger) (n : ℕ) (desired : SubscriptionStatus) (sub : Subscription)
    → get_by_business db n ≡ some sub
    → status_is sub.status desired ≡ false
    → get_by_business (advance_from db n desired (some sub)) n ≡ some (with_status desired sub)
unfolding advance_from noted
get-advance_from db n desired sub e change =
    let found =
      find_first-update_many (of_business n) (standing n sub.status) (with_status desired)
        db.subscriptions (λ y. ground arith) e in
    ground
      (arith, found, change, status_is_refl sub.status, find_first-of_business n db.subscriptions e)

get-advance :
    (db : Ledger) (n : ℕ) (desired : SubscriptionStatus) (sub : Subscription)
    → get_by_business db n ≡ some sub
    → status_is desired sub.status ≡ false
    → get_by_business (advance_to_canonical_status db n desired) n ≡ some (with_status desired sub)
unfolding advance_to_canonical_status
get-advance db n desired sub e change =
    rw (e) (get-advance_from db n desired sub e (status_is_comm sub.status desired ∙ change))

-- The subscription as the time-aware reads see it.
abbrev pub settled : ℕ → Option Subscription → Option Subscription
settled now none = none
settled now (some sub) = some (with_status (derive_canonical_status sub.bands now) sub)

reconcile_from-settled :
    (db : Ledger) (now n : ℕ) (o : Option Subscription)
    → get_by_business db n ≡ o
    → ((reconcile_from db now n o).0 ≡ settled now o)
      × (get_by_business (reconcile_from db now n o).1 n ≡ settled now o)
unfolding reconcile_from
reconcile_from-settled db now n none e = (refl, e)
reconcile_from-settled db now n (some sub) e =
    let desired = derive_canonical_status sub.bands now in
    elim (Bool-cases (status_is desired sub.status)) [
      | inl same ↦
          let kept : some sub ≡ some (with_status desired sub) =
            ap (λ s. some (with_status s sub)) (sym (status_is-eq desired sub.status same)) in
          rw same (kept, e ∙ kept)
      | inr change ↦ let after = get-advance db n desired sub e change in rw change (after, after)
    ]

pub reconcile_status-settled :
    (db : Ledger) (now n : ℕ)
    → ((reconcile_status db now n).0 ≡ settled now (get_by_business db n))
      × (get_by_business (reconcile_status db now n).1 n ≡ settled now (get_by_business db n))
unfolding reconcile_status
reconcile_status-settled db now n = reconcile_from-settled db now n (get_by_business db n) refl

takes_bookings-settled :
    (now : ℕ) (o : Option Subscription)
    → takes_bookings (settled now o)
      ≡ elim o [ none ↦ false | some sub ↦ is_eligible (derive_canonical_status sub.bands now) ]
takes_bookings-settled now none = refl
takes_bookings-settled now (some sub) = refl

pub takes_bookings-reconcile_status :
    (db : Ledger) (now n : ℕ)
    → takes_bookings (reconcile_status db now n).0 ≡ is_eligible_now db now n
unfolding is_eligible_now
takes_bookings-reconcile_status db now n =
    ap takes_bookings (reconcile_status-settled db now n).0
    ∙ takes_bookings-settled now (get_by_business db n)

-- The gate of the booking service lets a business through exactly when the read-only check says it is
-- eligible at that instant: the persisted status, however stale, does not matter.
pub booking_gate-is_eligible_now :
    (db : Ledger) (now n : ℕ) → is_ok (booking_gate db now n).0 ≡ is_eligible_now db now n
unfolding is_ok booking_gate is_eligible_now
booking_gate-is_eligible_now db now n =
    let (answer, _) = reconcile_status-settled db now n in
    ground (arith, answer, takes_bookings-settled now (get_by_business db n))

reconcile_from-fixed :
    (db : Ledger) (now n : ℕ) (o : Option Subscription)
    → reconcile_from db now n (settled now o) ≡ (settled now o, db)
unfolding reconcile_from
reconcile_from-fixed db now n none = refl
reconcile_from-fixed db now n (some sub) =
    rw (status_is_refl (derive_canonical_status sub.bands now)) refl

-- Reconciling again at the same instant answers the same subscription and changes no table: no
-- history row is written twice.
pub reconcile_status_idem :
    (db : Ledger) (now n : ℕ)
    → reconcile_status (reconcile_status db now n).1 now n ≡ reconcile_status db now n
unfolding reconcile_status
reconcile_status_idem db now n =
    let r = reconcile_status db now n in
    let (answer, after) = reconcile_status-settled db now n in
    ap (reconcile_from r.1 now n) after
    ∙ reconcile_from-fixed r.1 now n (get_by_business db n)
    ∙ ap (λ o. (o, r.1)) (sym answer)

-- Once a gate has run, the persisted status is the derived one, so that `isBookingEligible`, which
-- reads only the persisted status, agrees with the derivation too.
pub is_booking_eligible-reconcile_status :
    (db : Ledger) (now n : ℕ)
    → is_booking_eligible (reconcile_status db now n).1 n ≡ is_eligible_now db now n
unfolding is_booking_eligible is_eligible_now
is_booking_eligible-reconcile_status db now n =
    let (_, after) = reconcile_status-settled db now n in
    rw (after, is_booking_eligible) (takes_bookings-settled now (get_by_business db n))

-- A business that is registered without a subscription takes bookings until thirty-three days after
-- its registration, and not from then on.
pub ensure_trial_at_creation-is_eligible_now :
    (db : Ledger) (n now at : ℕ)
    → get_by_business db n ≡ none
    → is_eligible_now (ensure_trial_at_creation db n now none) at n ≡ ltb at (now + 33 * day_ms)
unfolding is_eligible_now ensure_trial_at_creation derive_canonical_status is_eligible
ensure_trial_at_creation-is_eligible_now db n now at e =
    let free = find_first-any (of_business n) db.subscriptions e in rw free (ground arith)
