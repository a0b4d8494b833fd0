-- ===== src/Lifecycle.antt =====
-- backend/src/domain/lib/subscription-lifecycle.ts: the status of a subscription, derived from its
-- four band timestamps. A `Date` is its number of milliseconds.
pub mod Timeline
pub mod Renewal
use werefa.Prelude.{
  ℕ, ◌+◌, ◌*◌, Bool, true, false, Option, none, some, List, [], ◌∷◌, ltb, if◌then◌else◌, or_default,
  select,
}

pub data SubscriptionStatus : Type 0 where
  none_yet trial trial_grace active paid_grace expired : SubscriptionStatus

-- The fields of the subscription row that carry its bands.
pub record Bands : Type 0 where
  pub trial_ends_at : Option ℕ
  pub trial_grace_ends_at : Option ℕ
  pub period_ends_at : Option ℕ
  pub paid_grace_ends_at : Option ℕ

abbrev pub eligible_for_bookings : SubscriptionStatus → Bool
eligible_for_bookings trial = true
eligible_for_bookings trial_grace = true
eligible_for_bookings active = true
eligible_for_bookings paid_grace = true
eligible_for_bookings _ = false

unfoldable pub is_eligible : SubscriptionStatus → Bool
is_eligible status = eligible_for_bookings status

-- `end && at.getTime() < end.getTime()`. A `Date` object is truthy whatever its time.
abbrev pub before : ℕ → Option ℕ → Bool
before at none = false
before at (some end_at) = ltb at end_at

unfoldable pub derive_canonical_status : Bands → ℕ → SubscriptionStatus
derive_canonical_status sub at =
    if before at sub.period_ends_at
    then active
    else if before at sub.paid_grace_ends_at
    then paid_grace
    else if before at sub.trial_ends_at
    then trial
    else if before at sub.trial_grace_ends_at
    then trial_grace
    else expired

unfoldable pub is_eligible_at : Bands → ℕ → Bool
unfolding is_eligible derive_canonical_status
is_eligible_at sub now = is_eligible (derive_canonical_status sub now)

abbrev pub trial_days : ℕ
trial_days = 30

abbrev pub trial_grace_days : ℕ
trial_grace_days = 3

abbrev paid_period_days : ℕ
paid_period_days = 30

abbrev paid_grace_days : ℕ
paid_grace_days = 5

-- 24 * 60 * 60 * 1000
abbrev pub day_ms : ℕ
day_ms = 86400000

abbrev present : List (Option ℕ) → List ℕ
present [] = []
present (none ∷ ds) = present ds
present (some d ∷ ds) = d ∷ present ds

-- The `reduce` that keeps the latest date.
abbrev latest : Option ℕ → List ℕ → Option ℕ
latest acc [] = acc
latest none (d ∷ ds) = latest (some d) ds
latest (some l) (d ∷ ds) = latest (some (if ltb l d then d else l)) ds

unfoldable pub next_period_ends_at : Bands → ℕ → ℕ
next_period_ends_at current now =
    let coverage = latest none (
      select (λ d. ltb now d)
        (present (current.period_ends_at ∷ current.paid_grace_ends_at ∷ []))) in
    or_default coverage now + paid_period_days * day_ms

unfoldable pub paid_grace_ends_after : ℕ → ℕ
paid_grace_ends_after period_ends_at = period_ends_at + paid_grace_days * day_ms
