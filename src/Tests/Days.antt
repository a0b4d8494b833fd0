-- ===== src/Tests/Days.antt =====
-- A day of one business: open 9:00 to 17:00 on Mondays, with a lunch break, booked at 10:00.
use werefa.Prelude.{◌+◌, ◌%◌, ◌≡◌, refl, ◌&&◌, none, some, List, [], ◌∷◌, arith, ◌==◌}
use werefa.Availability.{
  WorkingWindow, ComputeArgs, MinuteSpan, subtract_blocked, compute_available_slot_starts,
}
use werefa.Availability.Windows.{fits}
use werefa.Availability.Blocks.{unblocked, fits-subtract_blocked}
use werefa.Availability.Grid.{offers, in_range}
use werefa.Availability.Offers.{open_at, unoccupied, offers_iff}

abbrev monday : ComputeArgs
monday = record {
  interval_minutes = 60;
  duration_minutes = 60;
  iso_weekday = 1;
  working_periods = record { weekday = 1; start_minutes = 540; end_minutes = 1020 } ∷ [];
  blocked_periods =
      record { day_of_week = none; start_minutes = some 720; end_minutes = some 780 } ∷ [];
  special_dates = [];
  from_minutes = none;
  until_minutes = none;
}

abbrev booked : List MinuteSpan
booked = record { start_minute = 600; end_minute = 660 } ∷ []

slots_of_monday :
    compute_available_slot_starts monday booked
    ≡ record { start_minute = 540; end_minute = 600 }
      ∷ record { start_minute = 660; end_minute = 720 }
      ∷ record { start_minute = 780; end_minute = 840 }
      ∷ record { start_minute = 840; end_minute = 900 }
      ∷ record { start_minute = 900; end_minute = 960 }
      ∷ record { start_minute = 960; end_minute = 1020 }
      ∷ []
unfolding compute_available_slot_starts
slots_of_monday = refl

offers_iff_example : offers 540 600 (compute_available_slot_starts monday booked) ≡ (
    (600 == 540 + 60)
    && (in_range monday 540
        && ((540 % 60 == 0)
            && (open_at monday 540 600
                && (unblocked 1 540 600 monday.blocked_periods && unoccupied booked 540 600)))))
offers_iff_example = offers_iff monday booked 540 600 (omega arith) (omega arith) (omega arith)

abbrev nine_to_five : List WorkingWindow
nine_to_five = record { start_minutes = 540; end_minutes = 1020 } ∷ []

fits-subtract_blocked_example :
    fits 700 760 (subtract_blocked nine_to_five monday.blocked_periods 1)
    ≡ (fits 700 760 nine_to_five && unblocked 1 700 760 monday.blocked_periods)
fits-subtract_blocked_example =
    fits-subtract_blocked 1 700 760 (omega arith) (omega arith) nine_to_five monday.blocked_periods
