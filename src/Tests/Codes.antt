-- ===== src/Tests/Codes.antt =====
-- A rejected booking whose customer asks for a code and uses it.
use werefa.Resubmission.Effects.{Resubmits, resubmit-Resubmits}
use werefa.Prelude.{ℕ, ◌≡◌, refl, true, false, some, List, [], ◌∷◌, map, update_many}
use werefa.Store.{Booking, BookingState, Db, payment_pending}
use werefa.Store.Bookings.{find_by_id, insert_booking, transition_status}
use werefa.Store.Payments.{
  find_by_submission_key, transition_payment, create_file, add_proof, mark_proof_replaced,
}
use werefa.Booking.Transactions.{reject_tx, resubmit_tx}
use werefa.Booking.Create.{check_proof}
use werefa.ProofFile.{sniff_proof, is_allowed_proof_mime_type, has}
use werefa.Resubmission.{
  Station, Channel, ResubmitInput, find_active, issue_code, mark_used, request_code, check_code,
}
use werefa.Resubmission.Reopening.{reopen_tx, after_reopen, with_code, resubmit_for, resubmit}
use werefa.Resubmission.Guard.{is_accepted, resubmit_for_refused}
use werefa.Tests.Bookings.{rejected_db, rejected_booking}

-- Stands for the hash.
abbrev channel : Channel
channel = record { hash_code = λ code. code; is_reachable = λ phone. true }

abbrev quiet : Station
quiet = record {
  world = record {
    db = rejected_db;
    businesses = record { id = 1; slug = 1; owners = 5 ∷ []; deactivated = false } ∷ [];
    objects = [];
    next_key = 1;
    events = [];
  };
  codes = [];
  security = [];
  next_code = 1;
}

-- The code 123456 is asked for at time 100.
abbrev waiting : Station
waiting = record quiet {
  codes =
      record {
        id = 1;
        booking_id = 1;
        business_id = 1;
        phone = 7;
        code_hash = 123456;
        expires_at = 600100;
        used = false;
        attempts = 0;
      }
      ∷ [];
  next_code = 2;
}

asked : (request_code channel quiet 100 123456 1 7 1).0.codes ≡ waiting.codes
unfolding request_code find_by_id issue_code mark_used reject_tx transition_payment
    transition_status insert_booking update_many
asked = refl

abbrev with_code_of : ℕ → ResubmitInput
with_code_of code = record {
  business_slug = 1;
  phone = 7;
  booking_id = 1;
  code = code;
  submission_key = 9;
  proof = some (0xff ∷ 0xd8 ∷ 0xff ∷ []);
}

abbrev statuses_in : Db → List BookingState
statuses_in db = map (λ (b : Booking). b.status) db.bookings

reopened :
    statuses_in (resubmit channel waiting 200 (with_code_of 123456)).0.world.db
    ≡ payment_pending ∷ []
unfolding resubmit find_by_id find_by_submission_key find_active check_code with_code check_proof
    sniff_proof is_allowed_proof_mime_type has reopen_tx after_reopen resubmit_tx mark_used
    reject_tx transition_payment transition_status insert_booking update_many create_file add_proof
    mark_proof_replaced
reopened = refl

resubmit_for_refused_example :
    (resubmit_for channel waiting 200 (with_code_of 654321) (some rejected_booking)).0.world
    ≡ quiet.world
resubmit_for_refused_example =
    resubmit_for_refused channel waiting 200 (with_code_of 654321) rejected_booking wrong
  where
    wrong :
        is_accepted channel 200 654321
          (find_active waiting rejected_booking.business_id rejected_booking.id 7)
        ≡ false
    wrong = unfold find_active in refl

resubmit-Resubmits_example :
    Resubmits channel waiting 200
      (with_code_of 123456)
      (resubmit channel waiting 200 (with_code_of 123456)).0.world.db
resubmit-Resubmits_example = resubmit-Resubmits channel waiting 200 (with_code_of 123456)
