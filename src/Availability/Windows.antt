-- ===== src/Availability/Windows.antt =====
-- Which windows hold an interval of minutes: sorting and filtering the windows change nothing.
use werefa.Prelude.{
  ℕ, ◌<◌, ◌≡◌, refl, Bool, ◌&&◌, ◌||◌, List, [], ◌∷◌, arith, leb, any, select, ◌∙◌, Bool-cases, inl,
  inr,
}
use werefa.Availability.{WorkingWindow, insert_window, sort_windows, is_proper, comes_after}

-- The interval [s, e) lies in the window.
abbrev pub holds : ℕ → ℕ → WorkingWindow → Bool
holds s e w = leb w.start_minutes s && leb e w.end_minutes

-- It lies in one of the windows.
abbrev pub fits : ℕ → ℕ → List WorkingWindow → Bool
fits s e ws = any (holds s e) ws

fits-insert_window :
    (s e : ℕ) (w : WorkingWindow) (ws : List WorkingWindow)
    → fits s e (insert_window w ws) ≡ (holds s e w || fits s e ws)
unfolding insert_window
fits-insert_window s e w [] = refl
fits-insert_window s e w (v ∷ vs) = elim (Bool-cases (comes_after w v)) [
  | inl after ↦ rw after (rw (fits-insert_window s e w vs) (ground arith))
  | inr first ↦ rw first refl
]

pub fits-sort_windows :
    (s e : ℕ) (ws : List WorkingWindow) → fits s e (sort_windows ws) ≡ fits s e ws
unfolding sort_windows
fits-sort_windows s e [] = refl
fits-sort_windows s e (w ∷ ws) =
    fits-insert_window s e w (sort_windows ws) ∙ rw (fits-sort_windows s e ws) refl

-- A window with no minutes holds no interval that has one.
pub fits-select_proper :
    (s e : ℕ) (ws : List WorkingWindow) → s < e → fits s e (select is_proper ws) ≡ fits s e ws
fits-select_proper s e [] h = refl
fits-select_proper s e (w ∷ ws) h = ground (arith, fits-select_proper s e ws h)
