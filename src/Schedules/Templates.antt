-- ===== src/Schedules/Templates.antt =====
-- Which templates are accepted.
use werefa.Schedules.{
  TemplateField, bad_day, utc_day, refuse, working_fields, blocked_fields, is_reversed,
  period_fields, lacks_hours, special_fields, validate_template, template_fields, ScheduleVersion,
  working_periods_field,
}
use werefa.Texts.{is_empty}
use werefa.Availability.{WorkingPeriod, BlockedPeriod, SpecialDate, is_closed, is_custom}
use werefa.Prelude.{
  ℕ, ◌≡◌, refl, ◌∙◌, Bool, true, false, not, ◌&&◌, ◌||◌, Option, some, List, [], ◌∷◌, ◌++◌, arith,
  ltb, leb, ◌==◌, if◌then◌else◌, any, all,
}
use werefa.Errors.{is_ok, ok, err, invalid_schedule}

-- A weekday from 1 to 7, and 0 ≤ start < end ≤ 1440.
abbrev pub is_good_period : WorkingPeriod → Bool
is_good_period w =
    leb 1 w.weekday
    && (leb w.weekday 7 && (ltb w.start_minutes w.end_minutes && leb w.end_minutes 1440))

-- A weekday from 1 to 7 or none, and a start before the end when both are given.
abbrev pub is_good_block : BlockedPeriod → Bool
is_good_block b = not (bad_day b.day_of_week) && not (is_reversed b.start_minutes b.end_minutes)

abbrev has_hours : Option ℕ → Option ℕ → Bool
has_hours (some s) (some e) = ltb s e
has_hours _ _ = false

-- Custom hours are given and not empty.
abbrev pub is_good_date : SpecialDate → Bool
is_good_date s = is_closed s || has_hours s.start_minutes s.end_minutes

-- No two of the dates fall on one day.
abbrev pub on_different_days : List SpecialDate → Bool
on_different_days [] = true
on_different_days (s ∷ ss) =
    not (any (λ (t : SpecialDate). utc_day s == utc_day t) ss) && on_different_days ss

is_empty-append {ℓ} :
    {A : Type ℓ} (xs ys : List A) → is_empty (xs ++ ys) ≡ (is_empty xs && is_empty ys)
is_empty-append [] ys = refl
is_empty-append (x ∷ xs) ys = refl

is_empty-refuse : (bad : Bool) (f : TemplateField) → is_empty (refuse bad f) ≡ not bad
is_empty-refuse true f = refl
is_empty-refuse false f = refl

is_empty-working_fields :
    (ws : List WorkingPeriod) → is_empty (working_fields ws) ≡ all is_good_period ws
unfolding working_fields
is_empty-working_fields [] = refl
is_empty-working_fields (w ∷ ws) =
    is_empty-append (period_fields w) (working_fields ws)
    ∙ ground (arith, is_empty-working_fields ws)

is_empty-blocked_fields :
    (bs : List BlockedPeriod) → is_empty (blocked_fields bs) ≡ all is_good_block bs
unfolding blocked_fields
is_empty-blocked_fields [] = refl
is_empty-blocked_fields (b ∷ bs) = ground (arith, is_empty-blocked_fields bs)

all-not_or {ℓ} :
    {A : Type ℓ} (p q : A → Bool) (xs : List A)
    → all (λ x. not (p x || q x)) xs ≡ (not (any p xs) && all (λ x. not (q x)) xs)
all-not_or p q [] = refl
all-not_or p q (x ∷ xs) = ground (arith, all-not_or p q xs)

abbrev is_new : List ℕ → SpecialDate → Bool
is_new seen s = not (any (λ d. d == utc_day s) seen)

good_or_bad :
    (s : SpecialDate)
    → (not (lacks_hours s) && not (is_custom s && is_reversed s.start_minutes s.end_minutes))
      ≡ is_good_date s
good_or_bad s = ground arith

is_empty-special_fields :
    (seen : List ℕ) (ss : List SpecialDate)
    → is_empty (special_fields seen ss)
      ≡ (all is_good_date ss && (on_different_days ss && all (is_new seen) ss))
unfolding special_fields
is_empty-special_fields seen [] = refl
is_empty-special_fields seen (s ∷ ss) = ground (
  arith,
  good_or_bad s,
  is_empty-special_fields (utc_day s ∷ seen) ss,
  all-not_or (λ (t : SpecialDate). utc_day s == utc_day t) (λ t. any (λ d. d == utc_day t) seen) ss,
)

all-is_new : (ss : List SpecialDate) → all (is_new []) ss ≡ true
all-is_new [] = refl
all-is_new (s ∷ ss) = all-is_new ss

is_ok-if : (b : Bool) → is_ok (if b then ok (tt {0}) else err invalid_schedule) ≡ b
unfolding is_ok
is_ok-if true = refl
is_ok-if false = refl

-- A template is accepted exactly when each working period has a weekday and 0 ≤ start < end ≤ 1440, it
-- has a working period or a special date, each block has a weekday or none and is not reversed, each
-- custom date has hours, and no two special dates fall on one day.
pub validate_template_iff :
    (t : ScheduleVersion)
    → is_ok (validate_template t) ≡ (
        all is_good_period t.working_periods
        && (not (is_empty t.working_periods && is_empty t.special_dates)
            && (all is_good_block t.blocked_periods
                && (all is_good_date t.special_dates && on_different_days t.special_dates))))
unfolding is_ok validate_template template_fields
validate_template_iff t =
    let specials = special_fields [] t.special_dates in
    let blocks = blocked_fields t.blocked_periods in
    let none_given =
      refuse (is_empty t.working_periods && is_empty t.special_dates) working_periods_field in
    is_ok-if (is_empty (template_fields t))
    ∙ rw
        (
          is_empty-append (working_fields t.working_periods) (none_given ++ (blocks ++ specials)),
          is_empty-append none_given (blocks ++ specials),
          is_empty-append blocks specials,
          is_empty-working_fields t.working_periods,
          is_empty-blocked_fields t.blocked_periods,
          is_empty-special_fields [] t.special_dates,
          all-is_new t.special_dates,
          is_empty-refuse (is_empty t.working_periods && is_empty t.special_dates)
              working_periods_field,
        )
        (ground arith)
