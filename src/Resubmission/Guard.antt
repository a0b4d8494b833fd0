-- ===== src/Resubmission/Guard.antt =====
-- What a resubmission needs and what it does to the tables.
use werefa.Prelude.{
  ℕ, ◌≡◌, refl, sym, subst, Bool, false, not, ◌&&◌, Option, none, some, List, arith, ltb, leb, ◌==◌,
  find_first, Option-cases, Bool-cases, inl, inr,
}
use werefa.Errors.{Result, ok, err, resubmission_code_used}
use werefa.Store.{Booking, Payment, PaymentProof, Db, rejected, booking_state_is}
use werefa.Store.Bookings.{find_by_id}
use werefa.Store.Payments.{KeyRow, find_by_submission_key}
use werefa.Tenant.{Business}
use werefa.Booking.Transactions.{
  or_throw, Resubmission, resubmit_tx, Ensures, returns, bind, anything, whenever_ok, Ensures-ok,
}
use werefa.Booking.World.{World}
use werefa.Booking.History.{History, next, resubmitted}
use werefa.Resubmission.{
  Verification, Station, Channel, ResubmitInput, mark_used, find_active, check_code,
}
use werefa.Resubmission.Reopening.{
  customer_action, reopen_tx, after_reopen, reopen, with_code, replay_key, resubmit_key,
  resubmit_for, resubmit,
}

-- The code is the booking's newest unused one for this phone number, it has not expired, and fewer
-- than five wrong codes were tried.
abbrev pub is_accepted : Channel → ℕ → ℕ → Option Verification → Bool
is_accepted ch now code none = false
is_accepted ch now code (some v) =
    ltb v.attempts 5 && (leb now v.expires_at && ch.hash_code code == v.code_hash)

pub check_code-world :
    (ch : Channel) (s : Station) (now code n : ℕ) (v : Option Verification)
    → (check_code ch s now code n v).0.world ≡ s.world
unfolding check_code
check_code-world ch s now code n none = refl
check_code-world ch s now code n (some v) = ground arith

with_code_refused :
    (ch : Channel) (s : Station) (now : ℕ) (input : ResubmitInput) (b : Booking)
    (v : Option Verification)
    → is_accepted ch now input.code v ≡ false
    → (with_code input b (check_code ch s now input.code b.business_id v)).0.world ≡ s.world
unfolding check_code with_code
with_code_refused ch s now input b none h = refl
with_code_refused ch s now input b (some v) h = ground (arith, h)

pub replay_key-world :
    (s : Station) (b : Booking) (row : KeyRow) → (replay_key s b row).0.world ≡ s.world
unfolding replay_key
replay_key-world s b row = ground arith

pub resubmit_key_refused :
    (ch : Channel) (s : Station) (now : ℕ) (input : ResubmitInput) (b : Booking)
    (row : Option KeyRow)
    → is_accepted ch now input.code (find_active s b.business_id b.id input.phone) ≡ false
    → (resubmit_key ch s now input b row).0.world ≡ s.world
unfolding resubmit_key
resubmit_key_refused ch s now input b (some row) h = replay_key-world s b row
resubmit_key_refused ch s now input b none h =
    with_code_refused ch s now input b (find_active s b.business_id b.id input.phone) h

-- Without the accepted code of the booking, a resubmission leaves the tables, the stored objects and
-- the published events as they were, whatever proof it carries and whether or not its submission key
-- was used before.
pub resubmit_for_refused :
    (ch : Channel) (s : Station) (now : ℕ) (input : ResubmitInput) (b : Booking)
    → is_accepted ch now input.code (find_active s b.business_id b.id input.phone) ≡ false
    → (resubmit_for ch s now input (some b)).0.world ≡ s.world
unfolding resubmit_for
resubmit_for_refused ch s now input b h = ground (
  arith,
  resubmit_key_refused ch s now input b (find_by_submission_key s.world.db input.submission_key) h,
)

reopen_tx-History :
    (s : Station) (b : Booking) (v : Verification) (r : Resubmission)
    → History s.world.db
    → Ensures (λ (x : Db × List Verification). History x.0) (reopen_tx s b v r)
unfolding reopen_tx
reopen_tx-History s b v r h =
    bind
      (whenever_ok (resubmit_tx (customer_action b) r 1 s.world.db)
        λ db e. next h (resubmitted (customer_action b) r 1 e))
      λ (db : Db) reached.
        bind (anything (or_throw (mark_used v.id b.business_id s.codes) resubmission_code_used))
          λ (codes : List Verification) u. returns reached

after_reopen-History :
    (s : Station) (b : Booking) (v : Verification) (r : Resubmission) (phone key : ℕ)
    (committed : Result (Db × List Verification))
    → History s.world.db
    → committed ≡ reopen_tx s b v r
    → History (after_reopen s b phone key committed).0.world.db
unfolding after_reopen
after_reopen-History s b v r phone key (err e) h eq = h
after_reopen-History s b v r phone key (ok (db, codes)) h eq =
    Ensures-ok (reopen_tx-History s b v r h) (sym eq)

reopen-History :
    (s : Station) (b : Booking) (v : Verification) (phone key : ℕ)
    (rows : Result (Payment × PaymentProof)) (proof : Result (List ℕ))
    → History s.world.db
    → History (reopen s b v phone key rows proof).0.world.db
unfolding reopen
reopen-History s b v phone key (err e) proof h = h
reopen-History s b v phone key (ok rows) (err e) h = h
reopen-History s b v phone key (ok (payment, latest)) (ok bytes) h =
    after_reopen-History _ b v _ phone _ _ h refl

with_code-History :
    (input : ResubmitInput) (b : Booking) (r : Station × Result Verification)
    → History r.0.world.db
    → History (with_code input b r).0.world.db
unfolding with_code
with_code-History input b (s, err e) h = h
with_code-History input b (s, ok v) h = reopen-History s b v input.phone input.submission_key _ _ h

resubmit_key-History :
    (ch : Channel) (s : Station) (now : ℕ) (input : ResubmitInput) (b : Booking)
    (row : Option KeyRow)
    → History s.world.db
    → History (resubmit_key ch s now input b row).0.world.db
unfolding resubmit_key
resubmit_key-History ch s now input b (some row) h =
    subst (λ (w : World). History w.db) (sym (replay_key-world s b row)) h
resubmit_key-History ch s now input b none h =
    let v = find_active s b.business_id b.id input.phone in
    with_code-History input b (check_code ch s now input.code b.business_id v) (
      subst (λ (w : World). History w.db)
        (sym (check_code-world ch s now input.code b.business_id v)) h)

resubmit_for-History :
    (ch : Channel) (s : Station) (now : ℕ) (input : ResubmitInput) (b : Option Booking)
    → History s.world.db
    → History (resubmit_for ch s now input b).0.world.db
unfolding resubmit_for
resubmit_for-History ch s now input none h = h
resubmit_for-History ch s now input (some b) h =
    elim (Bool-cases (not (b.customer_phone == input.phone))) [
      | inl stranger ↦ rw (stranger, resubmit_for) h
      | inr known ↦
          rw (known, resubmit_for)
            (elim (Bool-cases (not (booking_state_is b.status rejected))) [
              | inl other ↦ rw other h
              | inr still ↦ rw still (
                  resubmit_key-History ch s now input b
                    (find_by_submission_key s.world.db input.submission_key) h)
            ])
    ]

-- A call of `resubmit` moves the tables along a history: by the transaction of a resubmission or not
-- at all.
pub resubmit-History :
    (ch : Channel) (s : Station) (now : ℕ) (input : ResubmitInput)
    → History s.world.db
    → History (resubmit ch s now input).0.world.db
unfolding resubmit
resubmit-History ch s now input h =
    elim (Option-cases
      (find_first (λ (b : Business). b.slug == input.business_slug) s.world.businesses)) [
        | inl e ↦ rw (e, resubmit) h
        | inr (biz, e) ↦
            rw (e, resubmit)
              (resubmit_for-History ch s now input (find_by_id s.world.db biz.id input.booking_id)
                h)
      ]
