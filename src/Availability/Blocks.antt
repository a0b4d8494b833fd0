-- ===== src/Availability/Blocks.antt =====
-- `subtractBlocked`: what is left of the windows holds exactly the intervals that they held and
-- that meet no block.
use werefa.Prelude.{
  ℕ, ◌≤◌, ◌<◌, ◌≡◌, refl, Bool, true, false, not, ◌&&◌, ◌∙◌, List, [], ◌∷◌, arith, ltb, max, min,
  all, any-append, Bool-cases, inl, inr,
}
use werefa.Availability.{
  WorkingWindow, BlockedPeriod, MinuteSpan, overlap, cut_window, cut_all, cut_blocks, expand_blocks,
  subtract_blocked, is_kept, applies_on, block_start, block_end,
}
use werefa.Availability.Windows.{holds, fits, fits-select_proper}

abbrev clear_of : ℕ → ℕ → MinuteSpan → Bool
clear_of s e b = not (overlap s e b.start_minute b.end_minute)

fits-cut_window :
    (s e : ℕ) (b : MinuteSpan) (w : WorkingWindow)
    → s < e
    → b.start_minute < b.end_minute
    → fits s e (cut_window b w) ≡ (holds s e w && clear_of s e b)
unfolding cut_window
fits-cut_window s e b w h k = ground arith

fits-cut_all :
    (s e : ℕ) (b : MinuteSpan) (ws : List WorkingWindow)
    → s < e
    → b.start_minute < b.end_minute
    → fits s e (cut_all b ws) ≡ (fits s e ws && clear_of s e b)
unfolding cut_all
fits-cut_all s e b [] h k = refl
fits-cut_all s e b (w ∷ ws) h k =
    any-append (holds s e) (cut_window b w) (cut_all b ws)
    ∙ rw (fits-cut_window s e b w h k, fits-cut_all s e b ws h k) (ground arith)

-- The block takes part on this weekday, is not empty and meets [s, e).
abbrev blocks : ℕ → ℕ → ℕ → BlockedPeriod → Bool
blocks iso_weekday s e b =
    applies_on iso_weekday b.day_of_week
    && (ltb (block_start b) (block_end b) && overlap s e (block_start b) (block_end b))

abbrev pub unblocked : ℕ → ℕ → ℕ → List BlockedPeriod → Bool
unblocked iso_weekday s e bs = all (λ b. not (blocks iso_weekday s e b)) bs

abbrev clipped : BlockedPeriod → MinuteSpan
clipped b = record { start_minute = max 0 (block_start b); end_minute = min 1440 (block_end b) }

module _ (iso_weekday s e : ℕ) (some_minutes : s < e) (in_day : e ≤ 1440) where
  clear_of-clipped :
      (b : BlockedPeriod)
      → is_kept iso_weekday b ≡ true
      → clear_of s e (clipped b) ≡ not (blocks iso_weekday s e b)
  clear_of-clipped b k = ground arith

  kept-proper :
      (b : BlockedPeriod)
      → is_kept iso_weekday b ≡ true
      → max 0 (block_start b) < min 1440 (block_end b)
  kept-proper b k = ground arith

  skipped-clear :
      (b : BlockedPeriod) → is_kept iso_weekday b ≡ false → blocks iso_weekday s e b ≡ false
  skipped-clear b k = ground arith

  fits-cut_blocks :
      (bs : List BlockedPeriod) (ws : List WorkingWindow)
      → fits s e (cut_blocks (expand_blocks bs iso_weekday) ws)
        ≡ (fits s e ws && unblocked iso_weekday s e bs)
  unfolding cut_blocks expand_blocks
  fits-cut_blocks [] ws = ground arith
  fits-cut_blocks (b ∷ bs) ws = elim (Bool-cases (is_kept iso_weekday b)) [
    | inl k ↦ rw k (
        fits-cut_blocks bs (cut_all (clipped b) ws)
        ∙ rw (fits-cut_all s e (clipped b) ws some_minutes (kept-proper b k), clear_of-clipped b k)
            (ground arith))
    | inr k ↦ rw k (fits-cut_blocks bs ws ∙ rw (skipped-clear b k) refl)
  ]

  -- What is left holds an interval of the day exactly when the windows held it and no block that
  -- applies on the weekday meets it.
  pub fits-subtract_blocked :
      (ws : List WorkingWindow) (bs : List BlockedPeriod)
      → fits s e (subtract_blocked ws bs iso_weekday)
        ≡ (fits s e ws && unblocked iso_weekday s e bs)
  unfolding subtract_blocked
  fits-subtract_blocked ws bs =
      fits-select_proper s e (cut_blocks (expand_blocks bs iso_weekday) ws) some_minutes
      ∙ fits-cut_blocks bs ws
