-- ===== src/Tests/Choices.antt =====
-- A choice of services in a small catalog.
use werefa.Prelude.{◌<◌, ◌≡◌, refl, true, [], ◌∷◌}
use werefa.Errors.{ok, err, inactive_service}
use werefa.Store.{variation}
use werefa.Catalog.{
  Extra, Service, Selection, Resolved, nothing_yet, push, service_snapshot, extra_snapshot,
  validate_combinations, add_selection, add_extras,
}
use werefa.Catalog.Totals.{IsTotal, validate_combinations-IsTotal}

abbrev long_hair : Extra
long_hair = record {
  id = 1 ∷ [];
  name = 76 ∷ [];
  price_delta_minor = 2000;
  duration_delta_minutes = 15;
  active = true;
}

abbrev haircut : Service
haircut = record {
  id = 7 ∷ [];
  business_id = 1;
  active = true;
  name = 72 ∷ [];
  base_price_minor = 5000;
  base_duration_minutes = 30;
  variations = long_hair ∷ [];
  add_ons = [];
}

abbrev chosen : Selection
chosen = record { service_id = 7 ∷ []; variation_ids = (1 ∷ []) ∷ []; add_on_ids = [] }

abbrev resolved : Resolved
resolved = push (extra_snapshot variation long_hair) (push (service_snapshot haircut) nothing_yet)

resolves : validate_combinations (haircut ∷ []) 1 (chosen ∷ []) ≡ ok resolved
unfolding validate_combinations add_selection add_extras
resolves = refl

-- An id that is chosen twice is refused.
twice :
    validate_combinations
      (haircut ∷ [])
      1
      (record chosen { variation_ids = (1 ∷ []) ∷ (1 ∷ []) ∷ [] } ∷ [])
    ≡ err inactive_service
unfolding validate_combinations add_selection add_extras
twice = refl

validate_combinations-IsTotal_example : IsTotal resolved × (0 < resolved.total_duration_minutes)
validate_combinations-IsTotal_example =
    validate_combinations-IsTotal (haircut ∷ []) 1 chosen [] resolved resolves
