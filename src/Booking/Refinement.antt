-- ===== src/Booking/Refinement.antt =====
-- The calls of the booking service as histories of transactions. `releaseSlot` is left out: the
-- histories admit it for cancelled bookings only.
use werefa.Prelude.{Option, arith, ℕ, ◌≡◌, refl, sym, subst, none, some, List, [], ◌∷◌}
use werefa.Errors.{Result, ok, err}
use werefa.Store.{Booking, Db}
use werefa.Catalog.{Resolved}
use werefa.Tenant.{Business, ActorContext}
use werefa.Booking.Transactions.{whenever_ok}
use werefa.Booking.World.{World}
use werefa.Booking.Owner.{Calendar, action}
use werefa.Booking.Completion.{
  list_due_for_completion, system_action, complete_each, auto_complete_due_bookings,
}
use werefa.Booking.Idempotency.{CommitRef}
use werefa.Booking.Claiming.{BookingInput, Claim, claim_tx, StagedProof}
use werefa.Booking.Create.{
  Desk, Begun, Settings, replayed, claims, discard_staged, precheck, begin_resolved, begin_booking,
  after_claim, finish_booking, continue_with, create, stage_proof,
}
use werefa.Booking.History.{
  History, next, claimed, proof_accepted, proof_rejected, was_cancelled, marked_no_show,
  rescheduled, completed_due,
}
use werefa.Booking.Serving.{
  after_commit-db, owner_call-keeps, Call, claiming, owning, completing, OwnerCall, owner_call,
  serve,
}

owner_call-History :
    (cal : Calendar) (w : World) (ctx : ActorContext) (n k : ℕ) (c : OwnerCall)
    → History w.db
    → History (owner_call cal w ctx n k c).0.db
owner_call-History cal w ctx n k c h =
    let a = action ctx n k in
    owner_call-keeps History w h cal ctx n k
      (λ p. whenever_ok _ λ db e. next h (proof_accepted a p e))
      (λ p reason. whenever_ok _ λ db e. next h (proof_rejected a p reason e))
      (λ s r. whenever_ok _ λ db e. next h (was_cancelled a s r e))
      (whenever_ok _ λ db e. next h (marked_no_show a e))
      (λ d s f. whenever_ok _ λ db e. next h (rescheduled a d s f e)) c

complete_each-History :
    (n : ℕ) (bs : List Booking) (done : ℕ) (db : Db)
    → History db
    → History (complete_each n bs done db).1
unfolding complete_each
complete_each-History n [] done db h = h
complete_each-History n (b ∷ bs) done db h =
    complete_each-History n bs _ _ (next h (completed_due (system_action n b.id) refl))

discard_staged-db : (s : Option StagedProof) (w : World) → (discard_staged s w).db ≡ w.db
unfolding discard_staged
discard_staged-db none w = refl
discard_staged-db (some s) w = refl

stage_proof-db : (w : World) (p : Option (List ℕ)) → (stage_proof w p).1.db ≡ w.db
unfolding stage_proof
stage_proof-db w none = refl
stage_proof-db w (some bytes) = refl

precheck-db :
    (desk : Desk) (w : World) (c : Claim) (duration : ℕ) → (precheck desk w c duration).0.db ≡ w.db
unfolding precheck
precheck-db desk w c duration = ground (arith, discard_staged-db c.staged w)

begin_resolved-db :
    (desk : Desk) (w : World) (input : BookingInput) (biz : Business) (settings : Settings)
    (r : Resolved)
    → (begin_resolved desk w input biz settings r).0.db ≡ w.db
unfolding begin_resolved
begin_resolved-db desk w input biz settings r =
    grind (arith, stage_proof-db w input.proof, precheck-db)

begin_booking-db :
    (desk : Desk) (w : World) (input : BookingInput) → (begin_booking desk w input).0.db ≡ w.db
unfolding begin_booking
begin_booking-db desk w input = grind (arith, begin_resolved-db)

after_claim-History :
    (w : World) (c : Claim) (r : Result (CommitRef × Db))
    → History w.db
    → r ≡ claim_tx c w.db
    → History (after_claim w c r).0.db
unfolding after_claim
after_claim-History w c (err e) h claim = subst History (sym (discard_staged-db c.staged w)) h
after_claim-History w c (ok (ref, db)) h claim =
    subst History
      (sym
        (after_commit-db (record w { db = db }) c.business_id ref.booking_id ref.customer_phone _))
      (next h (claimed c ref (sym claim)))

continue_with-History :
    (w : World) (r : Result Begun) → History w.db → History (continue_with w r).0.db
unfolding continue_with finish_booking
continue_with-History w (err e) h = h
continue_with-History w (ok (replayed r)) h = h
continue_with-History w (ok (claims c)) h = after_claim-History w c _ h refl

-- Whatever a call of the booking service other than `releaseSlot` does, to whatever state and with
-- whatever answers of the catalog and the calendar: it moves the tables along a history, that is by
-- committed transactions or not at all.
pub serve-History :
    (desk : Desk) (w : World) (c : Call) → History w.db → History (serve desk w c).db
unfolding serve create auto_complete_due_bookings
serve-History desk w (claiming input) h =
    continue_with-History _ _ (subst History (sym (begin_booking-db desk w input)) h)
serve-History desk w (owning ctx n k c) h = owner_call-History desk.calendar w ctx n k c h
serve-History desk w (completing n now) h =
    complete_each-History n (list_due_for_completion w.db n now 50) 0 w.db h
