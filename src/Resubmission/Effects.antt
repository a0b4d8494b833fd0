-- ===== src/Resubmission/Effects.antt =====
-- What a resubmission does to the tables, and when.
use werefa.Resubmission.Guard.{
  is_accepted, check_code-world, resubmit_key_refused, replay_key-world,
}
use werefa.Resubmission.{
  Station, Channel, ResubmitInput, Verification, mark_used, find_active, check_code,
}
use werefa.Resubmission.Reopening.{
  customer_action, reopen_tx, after_reopen, reopen, with_code, resubmit_key, resubmit_for, resubmit,
}
use werefa.Booking.Transactions.{
  or_throw, Resubmission, resubmit_tx, Ensures, returns, bind, anything, whenever_ok, Ensures-ok,
}
use werefa.Booking.World.{World}
use werefa.Store.{Booking, Payment, PaymentProof, Db, rejected, booking_state_is}
use werefa.Store.Bookings.{find_by_id}
use werefa.Store.Payments.{KeyRow, find_by_submission_key}
use werefa.Tenant.{Business}
use werefa.Errors.{Result, ok, err, resubmission_code_used}
use werefa.Prelude.{
  ℕ, ◌≡◌, refl, ap, sym, subst, true, Option, none, some, List, ◌==◌, ◌⊎◌, find_first, Option-cases,
  Bool-cases, inl, inr,
}

-- The tables are as they were, or those of the transaction of a resubmission of this booking under
-- this key.
abbrev Moved : Booking → ℕ → Db → Db → Type 0
Moved b key db next =
    (next ≡ db)
    ⊎ ((r : Resubmission) × (r.submission_key ≡ key)
        × (resubmit_tx (customer_action b) r 1 db ≡ ok next))

reopen_tx-resubmit_tx :
    (s : Station) (b : Booking) (v : Verification) (r : Resubmission)
    → Ensures
        (λ (x : Db × List Verification). resubmit_tx (customer_action b) r 1 s.world.db ≡ ok x.0)
        (reopen_tx s b v r)
unfolding reopen_tx
reopen_tx-resubmit_tx s b v r =
    bind (whenever_ok (resubmit_tx (customer_action b) r 1 s.world.db) λ db e. e) λ (db : Db) done.
      bind (anything (or_throw (mark_used v.id b.business_id s.codes) resubmission_code_used))
        λ (codes : List Verification) u. returns done

after_reopen-Moved :
    (s : Station) (b : Booking) (v : Verification) (r : Resubmission) (phone key : ℕ)
    (committed : Result (Db × List Verification))
    → committed ≡ reopen_tx s b v r
    → Moved b r.submission_key s.world.db (after_reopen s b phone key committed).0.world.db
unfolding after_reopen
after_reopen-Moved s b v r phone key (err e) eq = inl refl
after_reopen-Moved s b v r phone key (ok (db, codes)) eq =
    inr (r, refl, Ensures-ok (reopen_tx-resubmit_tx s b v r) (sym eq))

reopen-Moved :
    (s : Station) (b : Booking) (v : Verification) (phone key : ℕ)
    (rows : Result (Payment × PaymentProof)) (proof : Result (List ℕ))
    → Moved b key s.world.db (reopen s b v phone key rows proof).0.world.db
unfolding reopen
reopen-Moved s b v phone key (err e) proof = inl refl
reopen-Moved s b v phone key (ok rows) (err e) = inl refl
reopen-Moved s b v phone key (ok (payment, latest)) (ok bytes) =
    after_reopen-Moved _ b v _ phone _ _ refl

with_code-Moved :
    (input : ResubmitInput) (b : Booking) (r : Station × Result Verification)
    → Moved b input.submission_key r.0.world.db (with_code input b r).0.world.db
unfolding with_code
with_code-Moved input b (s, err e) = inl refl
with_code-Moved input b (s, ok v) = reopen-Moved s b v input.phone input.submission_key _ _

resubmit_key-Moved :
    (ch : Channel) (s : Station) (now : ℕ) (input : ResubmitInput) (b : Booking)
    (row : Option KeyRow)
    → Moved b input.submission_key s.world.db (resubmit_key ch s now input b row).0.world.db
unfolding resubmit_key
resubmit_key-Moved ch s now input b (some row) =
    inl (ap (λ (w : World). w.db) (replay_key-world s b row))
resubmit_key-Moved ch s now input b none =
    let v = find_active s b.business_id b.id input.phone in
    let checked = check_code ch s now input.code b.business_id v in
    subst (λ (w : World). Moved b input.submission_key w.db (with_code input b checked).0.world.db)
      (check_code-world ch s now input.code b.business_id v) (with_code-Moved input b checked)

-- A resubmission of a booking that was read under the slug's business, for its customer's phone number
-- and with an accepted code, or nothing.
pub data Resubmits (ch : Channel) (s : Station) (now : ℕ) (input : ResubmitInput)
    : Db → Type 0 where
  nothing_done : Resubmits ch s now input s.world.db
  reopens :
      (biz : Business) (b : Booking) (r : Resubmission) {next : Db}
      → find_first (λ (x : Business). x.slug == input.business_slug) s.world.businesses ≡ some biz
      → find_by_id s.world.db biz.id input.booking_id ≡ some b
      → (b.customer_phone == input.phone) ≡ true
      → booking_state_is b.status rejected ≡ true
      → find_by_submission_key s.world.db input.submission_key ≡ none
      → is_accepted ch now input.code (find_active s b.business_id b.id input.phone) ≡ true
      → r.submission_key ≡ input.submission_key
      → resubmit_tx (customer_action b) r 1 s.world.db ≡ ok next
      → Resubmits ch s now input next

module _ (ch : Channel) (s : Station) (now : ℕ) (input : ResubmitInput) where
  unmoved : (next : Db) → next ≡ s.world.db → Resubmits ch s now input next
  unmoved next e = subst (λ (d : Db). Resubmits ch s now input d) (sym e) Resubmits.nothing_done

  module _ (biz : Business) (b : Booking)
      (by_slug : find_first (λ (x : Business). x.slug == input.business_slug) s.world.businesses
        ≡ some biz)
      (read : find_by_id s.world.db biz.id input.booking_id ≡ some b)
      (his : (b.customer_phone == input.phone) ≡ true)
      (still : booking_state_is b.status rejected ≡ true) where
    by_move :
        (next : Db)
        → find_by_submission_key s.world.db input.submission_key ≡ none
        → is_accepted ch now input.code (find_active s b.business_id b.id input.phone) ≡ true
        → Moved b input.submission_key s.world.db next
        → Resubmits ch s now input next
    by_move next fresh accepted (inl same) = unmoved next same
    by_move next fresh accepted (inr (r, key, done)) =
        Resubmits.reopens biz b r by_slug read his still fresh accepted key done

    by_key :
        (row : Option KeyRow)
        → find_by_submission_key s.world.db input.submission_key ≡ row
        → Resubmits ch s now input (resubmit_key ch s now input b row).0.world.db
    unfolding resubmit_key
    by_key (some row) e = unmoved _ (ap (λ (w : World). w.db) (replay_key-world s b row))
    by_key none e =
        elim (Bool-cases
          (is_accepted ch now input.code (find_active s b.business_id b.id input.phone))) [
            | inl accepted ↦ by_move _ e accepted (resubmit_key-Moved ch s now input b none)
            | inr not_accepted ↦
                unmoved _ (
                  ap (λ (w : World). w.db)
                    (resubmit_key_refused ch s now input b none not_accepted))
          ]

  by_booking :
      (biz : Business) (o : Option Booking)
      → find_first (λ (x : Business). x.slug == input.business_slug) s.world.businesses ≡ some biz
      → find_by_id s.world.db biz.id input.booking_id ≡ o
      → Resubmits ch s now input (resubmit_for ch s now input o).0.world.db
  unfolding resubmit_for
  by_booking biz none by_slug read = Resubmits.nothing_done
  by_booking biz (some b) by_slug read = elim (Bool-cases (b.customer_phone == input.phone)) [
    | inr stranger ↦ rw (stranger, resubmit_for) Resubmits.nothing_done
    | inl his ↦
        rw (his, resubmit_for)
          (elim (Bool-cases (booking_state_is b.status rejected)) [
            | inr other ↦ rw other Resubmits.nothing_done
            | inl still ↦ rw still (
                by_key biz b by_slug read his still
                  (find_by_submission_key s.world.db input.submission_key) refl)
          ])
  ]

  -- After a call of resubmit the tables are as they were, or those that its transaction leaves for a
  -- rejected booking of the business and the customer's phone number, read by the call, whose
  -- submission key was new and whose code was accepted.
  pub resubmit-Resubmits : Resubmits ch s now input (resubmit ch s now input).0.world.db
  unfolding resubmit
  resubmit-Resubmits =
      elim (Option-cases
        (find_first (λ (x : Business). x.slug == input.business_slug) s.world.businesses)) [
          | inl e ↦ rw (e, resubmit) Resubmits.nothing_done
          | inr (biz, e) ↦
              rw (e, resubmit)
                (by_booking biz (find_by_id s.world.db biz.id input.booking_id) e refl)
        ]
