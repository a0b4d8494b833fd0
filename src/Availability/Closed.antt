-- ===== src/Availability/Closed.antt =====
-- A day that a special date closes.
use werefa.Prelude.{◌≡◌, refl, true, List, [], ◌∷◌, any, arith}
use werefa.Availability.{
  ComputeArgs, MinuteSpan, is_closed, build_working_windows, subtract_blocked, cut_blocks,
  expand_blocks, candidates, compute_available_slot_starts,
}

cut_blocks-nil : (bs : List MinuteSpan) → cut_blocks bs [] ≡ []
unfolding cut_blocks
cut_blocks-nil [] = refl
cut_blocks-nil (b ∷ bs) = cut_blocks-nil bs

-- A special date with the kind CLOSED, whatever its date key, leaves no slot.
pub compute_available_slot_starts-closed :
    (args : ComputeArgs) (occupied : List MinuteSpan)
    → any is_closed args.special_dates ≡ true
    → compute_available_slot_starts args occupied ≡ []
unfolding compute_available_slot_starts build_working_windows subtract_blocked candidates
compute_available_slot_starts-closed args occupied h =
    rw (h, cut_blocks-nil (expand_blocks args.blocked_periods args.iso_weekday)) (ground arith)
