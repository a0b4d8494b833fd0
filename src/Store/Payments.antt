-- ===== src/Store/Payments.antt =====
-- backend/src/domain/repositories/prisma-payment.repository.ts and prisma-file.repository.ts.
use werefa.Prelude.{
  ℕ, suc, Bool, ◌&&◌, Option, none, some, ◌∷◌, ◌==◌, if◌then◌else◌, find_first, update_many,
  count_where,
}
use werefa.Errors.{Result, ok, err, p2002_submission_key}
use werefa.Store.{PaymentState, ActorType, Payment, PaymentProof, Db, payment_state_is}
use werefa.Store.Bookings.{key_taken}

-- What `findBySubmissionKey` selects.
pub record KeyRow : Type 0 where
  pub booking_id : ℕ
  pub business_id : ℕ
  pub payment_id : ℕ

-- `proof.payment.bookingId`
row_of : Option PaymentProof → Db → Option KeyRow
row_of none db = none
row_of (some p) db = elim (find_first (λ (q : Payment). q.id == p.payment_id) db.payments) [
  | none ↦ none
  | some q ↦
      some (record {
        booking_id = q.booking_id;
        business_id = p.business_id;
        payment_id = p.payment_id;
      })
]

unfoldable pub find_by_submission_key : Db → ℕ → Option KeyRow
unfolding row_of
find_by_submission_key db key =
    row_of (find_first (λ (p : PaymentProof). p.submission_key == key) db.proofs) db

pub record PaymentTransition : Type 0 where
  pub payment_id : ℕ
  pub business_id : ℕ
  pub from : PaymentState
  pub to : PaymentState
  pub actor_type : ActorType
  pub actor_user_id : Option ℕ
  pub reason : Option ℕ

abbrev matches_payment : PaymentTransition → Payment → Bool
matches_payment a p =
    p.id == a.payment_id && (p.business_id == a.business_id && payment_state_is p.status a.from)

abbrev set_payment_status : PaymentState → Payment → Payment
set_payment_status to p = record p { status = to }

unfoldable pub transition_payment : Db → PaymentTransition → Option Db
transition_payment db a =
    if count_where (matches_payment a) db.payments == 1
    then some (record db {
      payments = update_many (matches_payment a) (set_payment_status a.to) db.payments;
      payment_history =
          record {
            payment_id = a.payment_id;
            business_id = a.business_id;
            from_status = some a.from;
            to_status = a.to;
            actor_type = a.actor_type;
            actor_user_id = a.actor_user_id;
            reason = a.reason;
          }
          ∷ db.payment_history;
    })
    else none

unfoldable pub add_proof : Db → ℕ → ℕ → ℕ → Option ℕ → Result (ℕ × Db)
add_proof db payment_id business_id submission_key file_object_id =
    if key_taken submission_key db
    then err p2002_submission_key
    else ok (
      db.next_proof,
      record db {
        proofs =
            record {
              id = db.next_proof;
              payment_id = payment_id;
              business_id = business_id;
              submission_key = submission_key;
              file_object_id = file_object_id;
              replaced_by_proof_id = none;
            }
            ∷ db.proofs;
        next_proof = suc db.next_proof;
      },
    )

unfoldable pub mark_proof_replaced : Db → ℕ → ℕ → Db
mark_proof_replaced db proof_id replaced_by = record db {
  proofs =
      update_many (λ (p : PaymentProof). p.id == proof_id)
        (λ p. record p { replaced_by_proof_id = some replaced_by }) db.proofs;
}

-- `fileRepo.create`
unfoldable pub create_file : Db → ℕ → ℕ → ℕ → ℕ × Db
create_file db business_id storage_key size_bytes = (
  db.next_file,
  record db {
    file_objects =
        record {
          id = db.next_file;
          business_id = business_id;
          storage_key = storage_key;
          size_bytes = size_bytes;
        }
        ∷ db.file_objects;
    next_file = suc db.next_file;
  },
)
