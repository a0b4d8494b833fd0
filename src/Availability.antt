-- ===== src/Availability.antt =====
-- backend/src/domain/services/availability.ts: the slot starts that one calendar day offers. Minutes
-- of the day are natural numbers, as the database's bounds on the schedule tables make them.
pub mod Windows
pub mod Blocks
pub mod Grid
pub mod Offers
pub mod Closed
use werefa.Prelude.{
  ℕ, zero, suc, ◌+◌, ◌-◌, ◌*◌, ◌/◌, ◌%◌, min, max, Bool, true, false, not, ◌&&◌, ◌||◌, Option, none,
  some, List, [], ◌∷◌, ◌++◌, map, ltb, leb, ◌==◌, if◌then◌else◌, or_default, any, select,
  find_first,
}

pub record WorkingWindow : Type 0 where
  pub start_minutes : ℕ
  pub end_minutes : ℕ

pub record WorkingPeriod : Type 0 where
  pub weekday : ℕ
  pub start_minutes : ℕ
  pub end_minutes : ℕ

pub record BlockedPeriod : Type 0 where
  pub day_of_week : Option ℕ
  pub start_minutes : Option ℕ
  pub end_minutes : Option ℕ

pub data SpecialDateKind : Type 0 where
  closed custom : SpecialDateKind

-- `date` is the calendar day, as the number of milliseconds of its UTC midnight.
pub record SpecialDate : Type 0 where
  pub date : ℕ
  pub kind : SpecialDateKind
  pub start_minutes : Option ℕ
  pub end_minutes : Option ℕ

-- The arguments that the computation reads.
pub record ComputeArgs : Type 0 where
  pub interval_minutes : ℕ
  pub duration_minutes : ℕ
  pub iso_weekday : ℕ
  pub working_periods : List WorkingPeriod
  pub blocked_periods : List BlockedPeriod
  pub special_dates : List SpecialDate
  pub from_minutes : Option ℕ
  pub until_minutes : Option ℕ

pub record MinuteSpan : Type 0 where
  pub start_minute : ℕ
  pub end_minute : ℕ

abbrev pub overlap : ℕ → ℕ → ℕ → ℕ → Bool
overlap a_start a_end b_start b_end = ltb a_start b_end && ltb b_start a_end

abbrev pub is_closed : SpecialDate → Bool
is_closed s = elim s.kind [ closed ↦ true | custom ↦ false ]

abbrev pub is_custom : SpecialDate → Bool
is_custom s = elim s.kind [ closed ↦ false | custom ↦ true ]

abbrev pub is_proper : WorkingWindow → Bool
is_proper w = ltb w.start_minutes w.end_minutes

-- The comparator of the sort: does `a` stand behind `b`?
abbrev comes_after : WorkingWindow → WorkingWindow → Bool
comes_after a b =
    ltb b.start_minutes a.start_minutes
    || (b.start_minutes == a.start_minutes && ltb b.end_minutes a.end_minutes)

pub insert_window : WorkingWindow → List WorkingWindow → List WorkingWindow
insert_window w [] = w ∷ []
insert_window w (v ∷ vs) = if comes_after w v then v ∷ insert_window w vs else w ∷ v ∷ vs

-- `Array.prototype.sort`, which is stable
unfoldable pub sort_windows : List WorkingWindow → List WorkingWindow
unfolding insert_window
sort_windows [] = []
sort_windows (w ∷ ws) = insert_window w (sort_windows ws)

custom_window : Option ℕ → Option ℕ → List WorkingWindow
custom_window (some s) (some e) =
    if leb e s then [] else record { start_minutes = s; end_minutes = e } ∷ []
custom_window _ _ = []

weekly : ComputeArgs → List WorkingWindow
unfolding sort_windows
weekly args = sort_windows (
    select is_proper (
      map (λ w. record { start_minutes = w.start_minutes; end_minutes = w.end_minutes })
        (select (λ (w : WorkingPeriod). w.weekday == args.iso_weekday) args.working_periods)))

from_custom : Option SpecialDate → ComputeArgs → List WorkingWindow
unfolding custom_window weekly
from_custom (some s) args = custom_window s.start_minutes s.end_minutes
from_custom none args = weekly args

unfoldable pub build_working_windows : ComputeArgs → List WorkingWindow
unfolding from_custom
build_working_windows args =
    if any is_closed args.special_dates
    then []
    else from_custom (find_first is_custom args.special_dates) args

abbrev pub applies_on : ℕ → Option ℕ → Bool
applies_on iso_weekday none = true
applies_on iso_weekday (some d) = d == iso_weekday

abbrev pub block_start : BlockedPeriod → ℕ
block_start b = or_default b.start_minutes 0

abbrev pub block_end : BlockedPeriod → ℕ
block_end b = or_default b.end_minutes 1440

-- Is the block kept, or skipped by `continue`?
abbrev pub is_kept : ℕ → BlockedPeriod → Bool
is_kept iso_weekday b =
    applies_on iso_weekday b.day_of_week
    && not (leb (block_end b) (block_start b) || (leb 1440 (block_start b) || leb (block_end b) 0))

-- The first loop of `subtractBlocked`.
pub expand_blocks : List BlockedPeriod → ℕ → List MinuteSpan
expand_blocks [] iso_weekday = []
expand_blocks (b ∷ bs) iso_weekday =
    let rest = expand_blocks bs iso_weekday in
    if is_kept iso_weekday b
    then record { start_minute = max 0 (block_start b); end_minute = min 1440 (block_end b) } ∷ rest
    else rest

-- The body of the inner loop: what is left of one window under one block.
pub cut_window : MinuteSpan → WorkingWindow → List WorkingWindow
cut_window block w =
    if not (overlap w.start_minutes w.end_minutes block.start_minute block.end_minute)
    then w ∷ []
    else ((if ltb w.start_minutes block.start_minute
          then record { start_minutes = w.start_minutes; end_minutes = block.start_minute } ∷ []
          else [])
        ++ (if ltb block.end_minute w.end_minutes
            then record { start_minutes = block.end_minute; end_minutes = w.end_minutes } ∷ []
            else []))

pub cut_all : MinuteSpan → List WorkingWindow → List WorkingWindow
unfolding cut_window
cut_all block [] = []
cut_all block (w ∷ ws) = cut_window block w ++ cut_all block ws

pub cut_blocks : List MinuteSpan → List WorkingWindow → List WorkingWindow
unfolding cut_all
cut_blocks [] result = result
cut_blocks (b ∷ bs) result = cut_blocks bs (cut_all b result)

unfoldable pub subtract_blocked : List WorkingWindow → List BlockedPeriod → ℕ → List WorkingWindow
unfolding cut_blocks expand_blocks
subtract_blocked windows blocked iso_weekday =
    select is_proper (cut_blocks (expand_blocks blocked iso_weekday) windows)

-- The `for` loop over one window's starts, with fuel.
pub starts_from : ℕ → ℕ → ComputeArgs → ℕ → List MinuteSpan
starts_from zero start args end_minutes = []
starts_from (suc fuel) start args end_minutes =
    let rest = starts_from fuel (start + args.interval_minutes) args end_minutes in
    let stop = start + args.duration_minutes in
    if leb stop end_minutes
    then (if leb (or_default args.from_minutes 0) start
          && ltb start (or_default args.until_minutes 1440)
        then record { start_minute = start; end_minute = stop } ∷ rest
        else rest)
    else []

-- `Math.ceil(a / k) * k`
abbrev pub grid_start : ℕ → ℕ → ℕ
grid_start a k = (a + k - 1) / k * k

-- The interval is positive here, so a window has at most `end_minutes + 1` rounds.
pub candidates : ComputeArgs → List WorkingWindow → List MinuteSpan
unfolding starts_from
candidates args [] = []
candidates args (w ∷ ws) =
    starts_from (suc w.end_minutes) (grid_start w.start_minutes args.interval_minutes) args
      w.end_minutes
    ++ candidates args ws

-- The `filter` callback: no span overlaps the slot.
abbrev pub is_free : List MinuteSpan → MinuteSpan → Bool
is_free occupied slot = not (
    any (λ span. ltb span.start_minute slot.end_minute && ltb slot.start_minute span.end_minute)
      occupied)

unfoldable pub compute_available_slot_starts : ComputeArgs → List MinuteSpan → List MinuteSpan
unfolding candidates subtract_blocked build_working_windows
compute_available_slot_starts args occupied =
    if args.duration_minutes == 0 || args.interval_minutes == 0
    then []
    else select (is_free occupied) (
        candidates args
          (subtract_blocked (build_working_windows args) args.blocked_periods args.iso_weekday))
