-- ===== src/Prepayment.antt =====
-- backend/src/domain/lib/prepayment.ts: the deposit due for a booking total, in minor units. A
-- `bigint` that the database keeps non-negative is a natural number.
use werefa.Prelude.{ℕ, ◌*◌, ◌/◌, ◌≤◌, ◌≡◌, Option, none, some, arith, or_default}

-- `prepaymentMode` is a text or missing; `other` stands for every text but the two tested ones.
pub data PrepaymentMode : Type 0 where
  percentage fixed other : PrepaymentMode

pub record PrepaymentSettings : Type 0 where
  pub mode : Option PrepaymentMode
  pub percent : Option ℕ
  pub fixed_minor : Option ℕ

abbrev no_settings : PrepaymentSettings
no_settings = record { mode = none; percent = none; fixed_minor = none }

by_mode : Option PrepaymentMode → PrepaymentSettings → ℕ → ℕ
by_mode (some percentage) s total = total * or_default s.percent 0 / 100
by_mode (some fixed) s total = or_default s.fixed_minor 0
by_mode _ s total = 0

unfoldable pub compute_prepaid_amount : Option PrepaymentSettings → ℕ → ℕ
unfolding by_mode
compute_prepaid_amount settings total =
    let s = or_default settings no_settings in by_mode s.mode s total

scaled-le : (t p : ℕ) → p ≤ 100 → t * p / 100 ≤ t
scaled-le t p h = grind arith

-- A percentage of at most 100, which the database enforces, never asks for more than the total.
pub percentage-le-total :
    (s : PrepaymentSettings) (total : ℕ)
    → s.mode ≡ some percentage
    → or_default s.percent 0 ≤ 100
    → compute_prepaid_amount (some s) total ≤ total
unfolding compute_prepaid_amount
percentage-le-total s total m h = ground (arith, scaled-le total (or_default s.percent 0))
