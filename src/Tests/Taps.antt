-- ===== src/Tests/Taps.antt =====
-- An owner's taps on the buttons of a notice, and the data of a button.
use werefa.Store.Payments.{transition_payment}
use werefa.Booking.Transactions.{accept_tx, reject_tx}
use werefa.Booking.World.{run_tx, after_commit}
use werefa.Store.Bookings.{find_by_id, insert_booking, transition_status, allocate_slot_locks}
use werefa.Tenant.{require_owned_business}
use werefa.Booking.Owner.{accept_proof, verified_booking, reject_proof}
use werefa.Notices.Buttons.{
  parse_callback_data, accept_callback_data, reject, accept, reject_callback_data,
  parse_callback_data-made, is_uuid,
}
use werefa.Texts.{code_points}
use werefa.Notices.Tapping.{tap, rejects, accepts, tap_again}
use werefa.Notices.Taps.{
  TapDesk, submit_reject_reason, start_reject, executed, refused_tap, accept_tap, claim_callback,
}
use werefa.Notices.{Outbox, accept_kind}
use werefa.Tests.Notices.{outbox}
use werefa.Tests.Bookings.{one_booking}
use werefa.Prelude.{◌≡◌, ◌≢◌, refl, false, none, some, [], ◌∷◌, update_many, length}
use werefa.Errors.{ok}
use werefa.Store.{Text}

abbrev buttons : Outbox
buttons = record outbox {
  callbacks =
      record {
        id = 1;
        business_id = 1;
        connection_id = 3;
        booking_id = 1;
        kind = accept_kind;
        used_at = none;
      }
      ∷ [];
}

-- One booking with a proof, of a business that user 5 owns.
abbrev tap_desk : TapDesk
tap_desk = record {
  outbox = buttons;
  world = record {
    db = one_booking;
    businesses = record { id = 1; slug = 1; owners = 5 ∷ []; deactivated = false } ∷ [];
    objects = [];
    next_key = 1;
    events = [];
  };
  waiting = [];
}

first_tap : (tap accepts tap_desk 1 77 100).1 ≡ ok executed
unfolding tap accept_tap claim_callback accept_proof verified_booking require_owned_business
    find_by_id insert_booking run_tx accept_tx transition_payment transition_status after_commit
    allocate_slot_locks update_many
first_tap = refl

tap_again_example :
    tap rejects (tap accepts tap_desk 1 77 100).0 1 78 200
    ≡ ((tap accepts tap_desk 1 77 100).0, ok refused_tap)
tap_again_example = tap_again accepts rejects tap_desk 1 77 100 78 200 done_once
  where
    done_once : (tap accepts tap_desk 1 77 100).1 ≢ ok refused_tap
    done_once e = cc first_tap

reason_executes : (submit_reject_reason (start_reject tap_desk 1 77 100).0 77 9 200).1 ≡ ok executed
unfolding submit_reject_reason start_reject claim_callback reject_proof verified_booking
    require_owned_business find_by_id insert_booking run_tx reject_tx transition_payment
    transition_status after_commit update_many
reason_executes = refl

abbrev uuid_token : Text
uuid_token = code_points "0a1b2c3d-0000-4000-8000-00000000beef"

parse_callback_data-made_example :
    (parse_callback_data (accept_callback_data uuid_token) ≡ some (accept, uuid_token))
    × (parse_callback_data (reject_callback_data uuid_token) ≡ some (reject, uuid_token))
    × (length (accept_callback_data uuid_token) ≡ 43)
parse_callback_data-made_example = parse_callback_data-made uuid_token (unfold is_uuid in refl)

padded :
    parse_callback_data (b' ' ∷ code_points "Reject:0A1B2C3D-0000-4000-8000-00000000BEEF")
    ≡ some (reject, code_points "0A1B2C3D-0000-4000-8000-00000000BEEF")
unfolding parse_callback_data
padded = refl
