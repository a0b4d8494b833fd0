-- ===== src/Tests/Plans.antt =====
-- Subscriptions, deposits and proof files.
use werefa.Prelude.{ℕ, ◌≤◌, ◌≡◌, refl, none, some, List, [], ◌∷◌, arith}
use werefa.Lifecycle.{Bands}
use werefa.Lifecycle.Timeline.{trial_bands}
use werefa.Prepayment.{PrepaymentSettings, percentage, compute_prepaid_amount, percentage-le-total}

abbrev new_trial : Bands
new_trial = trial_bands 0

abbrev half_deposit : PrepaymentSettings
half_deposit = record { mode = some percentage; percent = some 50; fixed_minor = none }

half_of_999 : compute_prepaid_amount (some half_deposit) 999 ≡ 499
unfolding compute_prepaid_amount
half_of_999 = refl

percentage-le-total_example : compute_prepaid_amount (some half_deposit) 999 ≤ 999
percentage-le-total_example = percentage-le-total half_deposit 999 refl (omega arith)

abbrev png_bytes : List ℕ
png_bytes = 0x89 ∷ 0x50 ∷ 0x4e ∷ 0x47 ∷ 0x0d ∷ 0x0a ∷ 0x1a ∷ 0x0a ∷ 0 ∷ []
