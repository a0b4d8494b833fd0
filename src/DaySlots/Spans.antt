-- ===== src/DaySlots/Spans.antt =====
-- The minutes of a day that a booking or a lock occupies.
use werefa.Prelude.{ℕ, ◌+◌, ◌*◌, ◌≤◌, ◌<◌, ◌≡◌, ◌&&◌, ltb, arith}
use werefa.DaySlots.{minute, minute_span}

-- A slot's minutes meet the span of a booking or a lock exactly when the slot, counted from the start
-- of the day, overlaps its window: rounding to whole minutes blocks no slot that is free and frees
-- none that is taken.
pub minute_span-overlap :
    (day start_at end_at s e : ℕ)
    → s < e
    → e ≤ 1440
    → (ltb (minute_span day start_at end_at).start_minute e
        && ltb s (minute_span day start_at end_at).end_minute)
      ≡ (ltb start_at (day + e * minute) && ltb (day + s * minute) end_at)
minute_span-overlap day start_at end_at s e h k = ground arith
