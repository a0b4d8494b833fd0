-- ===== src/Lifecycle/Timeline.antt =====
-- The timeline that the derived status follows.
use werefa.Prelude.{ℕ, ◌+◌, ◌*◌, ◌≤◌, ◌≡◌, ◌↔◌, ◌⊎◌, true, none, some, arith, ltb, if◌then◌else◌}
use werefa.Lifecycle.{
  Bands, trial, trial_grace, expired, before, is_eligible_at, trial_days, trial_grace_days, day_ms,
  derive_canonical_status,
}

-- The bands that a business has between its creation and its first approval.
abbrev pub trial_bands : ℕ → Bands
trial_bands t0 = record {
  trial_ends_at = some (t0 + trial_days * day_ms);
  trial_grace_ends_at = some (t0 + trial_days * day_ms + trial_grace_days * day_ms);
  period_ends_at = none;
  paid_grace_ends_at = none;
}

-- A derived status is eligible exactly while the present time lies before one of the four ends.
pub eligible_iff_before :
    (b : Bands) (now : ℕ)
    → (is_eligible_at b now ≡ true) ↔ (
        ((before now b.period_ends_at ≡ true) ⊎ (before now b.paid_grace_ends_at ≡ true))
        ⊎ ((before now b.trial_ends_at ≡ true) ⊎ (before now b.trial_grace_ends_at ≡ true)))
unfolding is_eligible_at
eligible_iff_before b now = ground arith

-- With the same bands, an expired subscription is expired at every later instant.
pub expired_stays :
    (b : Bands) (now later : ℕ)
    → now ≤ later
    → derive_canonical_status b now ≡ expired
    → derive_canonical_status b later ≡ expired
unfolding derive_canonical_status
expired_stays b now later h e = ground arith

-- With the bands of a new trial the status is trial for thirty days, trial grace for three more, and
-- expired from then on.
pub trial_timeline :
    (t0 now : ℕ)
    → derive_canonical_status (trial_bands t0) now ≡ (
        if ltb now (t0 + 30 * day_ms)
        then trial
        else if ltb now (t0 + 33 * day_ms)
        then trial_grace
        else expired)
unfolding derive_canonical_status
trial_timeline t0 now = ground arith
