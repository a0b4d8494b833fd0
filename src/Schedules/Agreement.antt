-- ===== src/Schedules/Agreement.antt =====
-- The slots that a schedule offers and the bookings that it finds impossible.
use werefa.Availability.Offers.{offers_iff, open_at, in_period}
use werefa.Availability.Grid.{offers}
use werefa.Schedules.{
  validate_template, meets_block, conflict_of, valid_window, weekly_hours, schedule_conflict_reason,
  minute_of_day,
}
use werefa.Availability.Blocks.{unblocked}
use werefa.Errors.{is_ok}
use werefa.Schedules.Templates.{is_good_block, validate_template_iff}
use werefa.Availability.{
  BlockedPeriod, MinuteSpan, compute_available_slot_starts, WorkingPeriod, ComputeArgs,
}
use werefa.DaySlots.{ScheduleVersion, Zone, iso_weekday_of}
use werefa.Prelude.{
  ℕ, ◌≡◌, ◌≤◌, ◌<◌, refl, true, false, none, List, Option, all, any, [], ◌%◌, ◌∷◌, arith, sym, ◌∙◌,
  ◌==◌, ◌&&◌, leb,
}

-- A block of an accepted template that leaves a slot alone does not meet it either.
unblocked-meets_block :
    (weekday s e : ℕ) (bs : List BlockedPeriod)
    → s < e
    → all is_good_block bs ≡ true
    → unblocked weekday s e bs ≡ true
    → any (meets_block weekday s (e % 1440)) bs ≡ false
unblocked-meets_block weekday s e [] long good free = refl
unblocked-meets_block weekday s e (b ∷ bs) long good free =
    ground (arith, good, free, long, unblocked-meets_block weekday s e bs long)

any-earlier_end :
    (weekday s e : ℕ) (ws : List WorkingPeriod)
    → any (in_period weekday s e) ws ≡ true
    → any (in_period weekday s (e % 1440)) ws ≡ true
any-earlier_end weekday s e [] h = cc
any-earlier_end weekday s e (w ∷ ws) h = ground (arith, h, any-earlier_end weekday s e ws)

no_conflict :
    (version : ScheduleVersion) (weekday s e : ℕ)
    → any (in_period weekday s e) version.working_periods ≡ true
    → any (meets_block weekday s e) version.blocked_periods ≡ false
    → conflict_of version none weekday s e ≡ none
unfolding conflict_of valid_window weekly_hours
no_conflict version weekday s e hours free = rw (hours, free) refl

-- What the day's computation is asked under a version.
abbrev pub asking : ScheduleVersion → ℕ → ℕ → ℕ → Option ℕ → Option ℕ → ComputeArgs
asking version interval duration weekday from until = record {
  interval_minutes = interval;
  duration_minutes = duration;
  iso_weekday = weekday;
  working_periods = version.working_periods;
  blocked_periods = version.blocked_periods;
  special_dates = version.special_dates;
  from_minutes = from;
  until_minutes = until;
}

plain_hours :
    (version : ScheduleVersion) (interval duration weekday : ℕ) (from until : Option ℕ) (s e : ℕ)
    → version.special_dates ≡ []
    → open_at (asking version interval duration weekday from until) s e
      ≡ any (in_period weekday s e) version.working_periods
plain_hours version interval duration weekday from until s e plain = rw plain refl

-- A slot that computeAvailableSlotStarts offers for the version's hours and blocks is no conflict with
-- that version, for an accepted template without special dates; the slot may end at midnight.
pub offered_no_conflict :
    (version : ScheduleVersion) (interval duration weekday : ℕ) (from until : Option ℕ)
    (occupied : List MinuteSpan) (s e : ℕ)
    → 0 < interval
    → 0 < duration
    → e ≤ 1440
    → is_ok (validate_template version) ≡ true
    → version.special_dates ≡ []
    → offers s e (
        compute_available_slot_starts
          (asking version interval duration weekday from until)
          occupied)
      ≡ true
    → conflict_of version none weekday s (e % 1440) ≡ none
offered_no_conflict version interval duration weekday from until occupied s e k d h valid plain
      offered =
    let good : all is_good_block version.blocked_periods ≡ true =
      ground (arith, valid, validate_template_iff version) in
    let asked =
      sym (offers_iff (asking version interval duration weekday from until) occupied s e k d h)
      ∙ offered in
    let long : s < e = ground (arith, asked) in
    let free : unblocked weekday s e version.blocked_periods ≡ true = ground (arith, asked) in
    let open_ : open_at (asking version interval duration weekday from until) s e ≡ true =
      ground (arith, asked) in
    let hours : any (in_period weekday s e) version.working_periods ≡ true =
      sym (plain_hours version interval duration weekday from until s e plain) ∙ open_ in
    no_conflict version weekday s (e % 1440)
      (any-earlier_end weekday s e version.working_periods hours)
      (unblocked-meets_block weekday s e version.blocked_periods long good free)

any-to_midnight :
    (weekday s : ℕ) (ws : List WorkingPeriod)
    → any (λ (w : WorkingPeriod). w.weekday == weekday && leb w.start_minutes s) ws ≡ true
    → any (in_period weekday s 0) ws ≡ true
any-to_midnight weekday s [] h = cc
any-to_midnight weekday s (w ∷ ws) h = ground (arith, h, any-to_midnight weekday s ws)

no_block_before_0 :
    (weekday s : ℕ) (bs : List BlockedPeriod) → any (meets_block weekday s 0) bs ≡ false
no_block_before_0 weekday s [] = refl
no_block_before_0 weekday s (b ∷ bs) = ground (arith, no_block_before_0 weekday s bs)

-- A booking that ends at midnight, whose end the clock shows as minute 0, is found possible whenever a
-- period of its weekday has begun at its start: when that period ends, and which blocks meet the
-- booking, decides nothing.
pub midnight_no_conflict :
    (version : ScheduleVersion) (zone : Zone) (start_at end_at : ℕ)
    → version.special_dates ≡ []
    → minute_of_day zone end_at ≡ 0
    → any
        (λ (w : WorkingPeriod).
          w.weekday == iso_weekday_of zone start_at
          && leb w.start_minutes (minute_of_day zone start_at))
        version.working_periods
      ≡ true
    → schedule_conflict_reason zone version start_at end_at ≡ none
unfolding schedule_conflict_reason
midnight_no_conflict version zone start_at end_at plain midnight begun =
    rw (plain, midnight)
      (no_conflict version (iso_weekday_of zone start_at) (minute_of_day zone start_at) 0
        (any-to_midnight (iso_weekday_of zone start_at) (minute_of_day zone start_at)
          version.working_periods begun)
        (no_block_before_0 (iso_weekday_of zone start_at) (minute_of_day zone start_at)
          version.blocked_periods))
