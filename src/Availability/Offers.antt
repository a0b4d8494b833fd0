-- ===== src/Availability/Offers.antt =====
-- The slots of a day against an independent description of when a slot is on offer.
use mathlib.Core.Path.{ap₂}
use werefa.Prelude.{
  ℕ, suc, ◌+◌, ◌%◌, ◌≤◌, ◌<◌, ◌≡◌, refl, ◌∙◌, Bool, true, false, ◌&&◌, Option, none, some, List, [],
  ◌∷◌, map, arith, leb, ◌==◌, any, any-append, select, find_first, if◌then◌else◌, Bool-cases, inl,
  inr,
}
use werefa.Availability.{
  WorkingWindow, WorkingPeriod, SpecialDate, ComputeArgs, MinuteSpan, is_closed, is_custom,
  build_working_windows, from_custom, custom_window, candidates, is_free, grid_start,
  compute_available_slot_starts,
}
use werefa.Availability.Windows.{fits, fits-sort_windows, fits-select_proper}
use werefa.Availability.Blocks.{unblocked, fits-subtract_blocked}
use werefa.Availability.Grid.{in_range, is_slot, offers, offers-starts_from, grid_mod}

abbrev pub in_period : ℕ → ℕ → ℕ → WorkingPeriod → Bool
in_period iso_weekday s e w =
    w.weekday == iso_weekday && (leb w.start_minutes s && leb e w.end_minutes)

abbrev in_custom_hours : Option ℕ → Option ℕ → ℕ → ℕ → Bool
in_custom_hours (some a) (some b) s e = leb a s && leb e b
in_custom_hours _ _ s e = false

abbrev custom_or_weekly : Option SpecialDate → ComputeArgs → ℕ → ℕ → Bool
custom_or_weekly (some d) args s e = in_custom_hours d.start_minutes d.end_minutes s e
custom_or_weekly none args s e = any (in_period args.iso_weekday s e) args.working_periods

-- The business is open throughout [s, e): the first custom date replaces the weekly hours, and a
-- closed date among those given shuts the day.
abbrev pub open_at : ComputeArgs → ℕ → ℕ → Bool
open_at args s e =
    if any is_closed args.special_dates
    then false
    else custom_or_weekly (find_first is_custom args.special_dates) args s e

-- No span overlaps [s, e).
abbrev pub unoccupied : List MinuteSpan → ℕ → ℕ → Bool
unoccupied occupied s e = is_free occupied (record { start_minute = s; end_minute = e })

fits-period :
    (iso_weekday s e : ℕ) (ws : List WorkingPeriod)
    → fits s e (
        map
          (λ w. record { start_minutes = w.start_minutes; end_minutes = w.end_minutes })
          (select (λ (w : WorkingPeriod). w.weekday == iso_weekday) ws))
      ≡ any (in_period iso_weekday s e) ws
fits-period d s e [] = refl
fits-period d s e (w ∷ ws) = elim (Bool-cases (w.weekday == d)) [
  | inl same ↦ rw same (rw (fits-period d s e ws) refl)
  | inr other ↦ rw other (fits-period d s e ws)
]

fits-custom_window :
    (s e : ℕ) (a b : Option ℕ) → s < e → fits s e (custom_window a b) ≡ in_custom_hours a b s e
unfolding custom_window
fits-custom_window s e (some a) (some b) h = ground arith
fits-custom_window s e (some a) none h = refl
fits-custom_window s e none (some b) h = refl
fits-custom_window s e none none h = refl

fits-from_custom :
    (args : ComputeArgs) (d : Option SpecialDate) (s e : ℕ)
    → s < e
    → fits s e (from_custom d args) ≡ custom_or_weekly d args s e
unfolding from_custom
fits-from_custom args (some d) s e h = fits-custom_window s e d.start_minutes d.end_minutes h
fits-from_custom args none s e h =
    fits-sort_windows s e _
    ∙ fits-select_proper s e _ h
    ∙ fits-period args.iso_weekday s e args.working_periods

-- The windows of the day hold a non-empty interval exactly when the business is open throughout it.
pub fits-build_working_windows :
    (args : ComputeArgs) (s e : ℕ)
    → s < e
    → fits s e (build_working_windows args) ≡ open_at args s e
unfolding build_working_windows
fits-build_working_windows args s e h = elim (Bool-cases (any is_closed args.special_dates)) [
  | inl shut ↦ rw shut refl
  | inr open? ↦ rw open? (fits-from_custom args (find_first is_custom args.special_dates) s e h)
]

is_free-slot :
    (occupied : List MinuteSpan) (s e : ℕ) (x : MinuteSpan)
    → is_slot s e x ≡ true
    → is_free occupied x ≡ unoccupied occupied s e
is_free-slot occupied s e x h =
    let starts : x.start_minute ≡ s = ground arith in
    let stops : x.end_minute ≡ e = ground arith in ap₂ (λ a b. unoccupied occupied a b) starts stops

offers-select_free :
    (occupied : List MinuteSpan) (s e : ℕ) (slots : List MinuteSpan)
    → offers s e (select (is_free occupied) slots) ≡ (offers s e slots && unoccupied occupied s e)
offers-select_free occupied s e [] = refl
offers-select_free occupied s e (x ∷ xs) = elim (Bool-cases (is_free occupied x)) [
  | inl free ↦
      rw free
        (ground (arith, is_free-slot occupied s e x, free, offers-select_free occupied s e xs))
  | inr taken ↦
      rw taken
        (ground (arith, is_free-slot occupied s e x, taken, offers-select_free occupied s e xs))
]

offers-candidates :
    (args : ComputeArgs) (s e : ℕ) (ws : List WorkingWindow)
    → 0 < args.interval_minutes
    → offers s e (candidates args ws) ≡ (
        (e == s + args.duration_minutes)
        && (in_range args s && ((s % args.interval_minutes == 0) && fits s e ws)))
unfolding candidates
offers-candidates args s e [] h = ground arith
offers-candidates args s e (w ∷ ws) h =
    any-append (is_slot s e) _ (candidates args ws)
    ∙ rw
        (
          offers-starts_from args h s e w.end_minutes (suc w.end_minutes)
              (grid_start w.start_minutes args.interval_minutes) (omega arith),
          grid_mod w.start_minutes args.interval_minutes s h,
          offers-candidates args s e ws h,
        )
        (ground arith)

positive : (n : ℕ) → 0 < n → (n == 0) ≡ false
positive n h = ground arith

-- A slot [s, e) of the day is on offer exactly when it has the requested length, starts on the grid
-- and in the requested range, lies in the hours of the day, and meets no block and no occupied span.
pub offers_iff :
    (args : ComputeArgs) (occupied : List MinuteSpan) (s e : ℕ)
    → 0 < args.interval_minutes
    → 0 < args.duration_minutes
    → e ≤ 1440
    → offers s e (compute_available_slot_starts args occupied) ≡ (
        (e == s + args.duration_minutes)
        && (in_range args s
            && ((s % args.interval_minutes == 0)
                && (open_at args s e
                    && (unblocked args.iso_weekday s e args.blocked_periods
                        && unoccupied occupied s e)))))
unfolding compute_available_slot_starts
offers_iff args occupied s e k d h = elim (Bool-cases (e == s + args.duration_minutes)) [
  | inl long ↦
      let some_minutes : s < e = ground arith in
      rw (positive args.duration_minutes d, positive args.interval_minutes k)
        (offers-select_free occupied s e _
          ∙ rw
              (
                offers-candidates args s e _ k,
                fits-subtract_blocked args.iso_weekday s e some_minutes h
                    (build_working_windows args) args.blocked_periods,
                fits-build_working_windows args s e some_minutes,
              )
              (ground arith))
  | inr other ↦
      rw (positive args.duration_minutes d, positive args.interval_minutes k)
        (offers-select_free occupied s e _ ∙ rw (offers-candidates args s e _ k, other) refl)
]
