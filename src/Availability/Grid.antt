-- ===== src/Availability/Grid.antt =====
-- The loop over one window: its starts are the multiples of the interval that fit.
use native.Mathlib.Nat.{
  mod-eq_of_lt, mod-eq-sub-mod, mul-add-mod_self_right, mul-le-mul_right, div-add-mod',
}
use native.Mathlib.Decide.{dec_lt}
use werefa.Prelude.{
  ℕ, zero, suc, ◌+◌, ◌-◌, ◌*◌, ◌/◌, ◌%◌, ◌≤◌, ◌<◌, ◌≡◌, refl, sym, ◌≢◌, Bool, ◌&&◌, ◌||◌, ◌∙◌, List,
  arith, ltb, leb, ◌==◌, any, or_default,
}
use werefa.Availability.{MinuteSpan, ComputeArgs, starts_from, grid_start}

mod_near : (k start s : ℕ) → start ≤ s → s < start + k → (s - start) % k ≡ s - start
mod_near k start s h l = mod-eq_of_lt (omega arith)

mod_far : (k start s : ℕ) → start + k ≤ s → (s - start) % k ≡ (s - (start + k)) % k
mod_far k start s h =
    let e : s - (start + k) ≡ s - start - k = omega arith in
    rw e (mod-eq-sub-mod {n = s - start} {m = k} (omega arith))

-- One round of the loop, in the terms of the remainder.
step_mod :
    (k start s : ℕ)
    → 0 < k
    → (leb start s && ((s - start) % k == 0))
      ≡ ((start == s) || (leb (start + k) s && ((s - (start + k)) % k == 0)))
step_mod k start s h = ground (arith, mod_near k start s, mod_far k start s)

ceil_bounds : (a k : ℕ) → 0 < k → (a ≤ grid_start a k) × (grid_start a k < a + k)
ceil_bounds a k h = grind arith

above_mod : (q k s : ℕ) → q * k ≤ s → (s - q * k) % k ≡ s % k
above_mod q k s h =
    let e : q * k + (s - q * k) ≡ s = omega arith in
    sym (mul-add-mod_self_right q k (s - q * k)) ∙ rw e refl

no_multiple_between : (q k a s : ℕ) → q * k < a + k → a ≤ s → s < q * k → s % k ≢ 0
no_multiple_between q k a s h l m z = elim (dec_lt (s / k) q) [
  | yes below ↦ omega (arith, mul-le-mul_right {m = suc (s / k)} {n = q} k below, div-add-mod' s k)
  | no over ↦ omega (arith, mul-le-mul_right {m = q} {n = s / k} k (omega arith), div-add-mod' s k)
]

-- A grid that starts at the next multiple of the interval holds exactly the multiples from there.
pub grid_mod :
    (a k s : ℕ)
    → 0 < k
    → (leb (grid_start a k) s && ((s - grid_start a k) % k == 0)) ≡ (leb a s && (s % k == 0))
grid_mod a k s h = ground (
  arith,
  ceil_bounds a k h,
  above_mod ((a + k - 1) / k) k s,
  no_multiple_between ((a + k - 1) / k) k a s,
)

-- A start within the bounds that the caller asks for.
abbrev pub in_range : ComputeArgs → ℕ → Bool
in_range args s =
    leb (or_default args.from_minutes 0) s && ltb s (or_default args.until_minutes 1440)

abbrev pub is_slot : ℕ → ℕ → MinuteSpan → Bool
is_slot s e slot = slot.start_minute == s && slot.end_minute == e

-- The slot [s, e) is among the slots.
abbrev pub offers : ℕ → ℕ → List MinuteSpan → Bool
offers s e slots = any (is_slot s e) slots

module _ (args : ComputeArgs) (moves : 0 < args.interval_minutes) (s e limit : ℕ) where
  pub offers-starts_from :
      (fuel start : ℕ)
      → limit < start + fuel
      → offers s e (starts_from fuel start args limit) ≡ (
          (e == s + args.duration_minutes)
          && (leb e limit
              && (in_range args s && (leb start s && ((s - start) % args.interval_minutes == 0)))))
  unfolding starts_from
  offers-starts_from zero start f = ground arith
  offers-starts_from (suc fuel) start f = ground (
    arith,
    step_mod args.interval_minutes start s moves,
    offers-starts_from fuel (start + args.interval_minutes) (omega arith),
  )
