-- ===== src/Lifecycle/Renewal.antt =====
-- The paid band that an approval writes.
use werefa.Prelude.{
  ℕ, ◌+◌, ◌*◌, ◌≤◌, ◌<◌, ◌≡◌, true, some, arith, max, or_default, ltb, if◌then◌else◌,
}
use werefa.Lifecycle.{
  Bands, active, paid_grace, derive_canonical_status, is_eligible_at, next_period_ends_at,
  paid_grace_ends_after, day_ms,
}

-- The next period ends thirty days after the latest of the present time and the covered ends: no
-- paid day is lost or counted twice.
pub next_period_ends_at-max :
    (b : Bands) (now : ℕ)
    → next_period_ends_at b now
      ≡ max now (max (or_default b.period_ends_at 0) (or_default b.paid_grace_ends_at 0))
        + 30 * day_ms
unfolding next_period_ends_at
next_period_ends_at-max b now = ground arith

-- The bands after `setPaidBand` of an approval at `now`.
abbrev pub approved : Bands → ℕ → Bands
approved b now = record b {
  period_ends_at = some (next_period_ends_at b now);
  paid_grace_ends_at = some (paid_grace_ends_after (next_period_ends_at b now));
}

-- Until the paid grace of an approval at `now` is over, the subscription is active before the end of
-- the new period and in its paid grace from there on, whatever its trial bands are.
pub approved_timeline :
    (b : Bands) (now at : ℕ)
    → at < next_period_ends_at b now + 5 * day_ms
    → derive_canonical_status (approved b now) at
      ≡ (if ltb at (next_period_ends_at b now) then active else paid_grace)
unfolding derive_canonical_status paid_grace_ends_after
approved_timeline b now at h = ground arith

-- From an approval on, every instant at which the old bands accept bookings is one at which the
-- approved bands accept them.
pub approved_keeps_eligible :
    (b : Bands) (now at : ℕ)
    → now ≤ at
    → is_eligible_at b at ≡ true
    → is_eligible_at (approved b now) at ≡ true
unfolding is_eligible_at paid_grace_ends_after
approved_keeps_eligible b now at h e = ground (arith, next_period_ends_at-max b now)
