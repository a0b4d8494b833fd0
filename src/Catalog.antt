-- ===== src/Catalog.antt =====
-- backend/src/domain/services/catalog.service.ts: `validateCombinations`, which resolves the selected
-- services, variations and add-ons to the snapshots and the totals of an appointment. Prices and
-- durations are natural numbers: the catalog refuses negative ones when it stores them.
pub mod Totals
use werefa.Prelude.{
  ℕ, ◌+◌, Bool, ◌&&◌, not, Option, none, some, List, [], ◌∷◌, ◌++◌, ◌==◌, any, select, find_first,
  length, if◌then◌else◌,
}
use werefa.Errors.{Result, ok, err, inactive_service}
use werefa.Store.{Text, text_eq, ComponentType, service, variation, add_on, ComponentSnapshot}

-- A variation or an add-on: the two tables have the same columns.
pub record Extra : Type 0 where
  pub id : Text
  pub name : Text
  pub price_delta_minor : ℕ
  pub duration_delta_minutes : ℕ
  pub active : Bool

pub record Service : Type 0 where
  pub id : Text
  pub business_id : ℕ
  pub active : Bool
  pub name : Text
  pub base_price_minor : ℕ
  pub base_duration_minutes : ℕ
  pub variations : List Extra
  pub add_ons : List Extra

pub record Selection : Type 0 where
  pub service_id : Text
  pub variation_ids : List Text
  pub add_on_ids : List Text

-- What is resolved so far: the components in order, and the totals.
pub record Resolved : Type 0 where
  pub components : List ComponentSnapshot
  pub total_price_minor : ℕ
  pub total_duration_minutes : ℕ

abbrev pub nothing_yet : Resolved
nothing_yet = record { components = []; total_price_minor = 0; total_duration_minutes = 0 }

-- One `components.push`, with its two sums.
abbrev pub push : ComponentSnapshot → Resolved → Resolved
push c r = record {
  components = r.components ++ c ∷ [];
  total_price_minor = r.total_price_minor + c.unit_price_minor;
  total_duration_minutes = r.total_duration_minutes + c.duration_minutes;
}

abbrev pub service_snapshot : Service → ComponentSnapshot
service_snapshot s = record {
  service_id = some s.id;
  component_type = service;
  name_snapshot = s.name;
  unit_price_minor = s.base_price_minor;
  duration_minutes = s.base_duration_minutes;
}

abbrev pub extra_snapshot : ComponentType → Extra → ComponentSnapshot
extra_snapshot type x = record {
  service_id = none;
  component_type = type;
  name_snapshot = x.name;
  unit_price_minor = x.price_delta_minor;
  duration_minutes = x.duration_delta_minutes;
}

pub push_all : ComponentType → List Extra → Resolved → Resolved
push_all type [] r = r
push_all type (x ∷ xs) r = push_all type xs (push (extra_snapshot type x) r)

-- The chosen extras among the active ones; each id must be found once.
unfoldable pub add_extras : ComponentType → List Text → List Extra → Resolved → Result Resolved
unfolding push_all
add_extras type [] extras r = ok r
add_extras type (i ∷ ids) extras r =
    let chosen = select (λ (x : Extra). x.active && any (text_eq x.id) (i ∷ ids)) extras in
    if length chosen == length (i ∷ ids) then ok (push_all type chosen r) else err inactive_service

-- The active services of the business, by id.
abbrev pub by_id : List Service → ℕ → Text → Option Service
by_id services business_id id =
    find_first (λ (s : Service). text_eq s.id id && (s.business_id == business_id && s.active))
      services

add_more : ComponentType → List Text → List Extra → Result Resolved → Result Resolved
unfolding add_extras
add_more type ids extras (err e) = err e
add_more type ids extras (ok r) = add_extras type ids extras r

with_duration : Result Resolved → Result Resolved
with_duration (err e) = err e
with_duration (ok r) = if r.total_duration_minutes == 0 then err inactive_service else ok r

-- One round of the loop over the selections.
unfoldable pub add_selection : Option Service → Selection → Resolved → Result Resolved
unfolding add_more with_duration
add_selection none sel r = err inactive_service
add_selection (some s) sel r = with_duration (
    add_more add_on sel.add_on_ids s.add_ons
      (add_more variation sel.variation_ids s.variations (ok (push (service_snapshot s) r))))

pub add_selections : List Service → ℕ → List Selection → Result Resolved → Result Resolved
unfolding add_selection
add_selections services n sels (err e) = err e
add_selections services n [] (ok r) = ok r
add_selections services n (sel ∷ sels) (ok r) =
    add_selections services n sels (add_selection (by_id services n sel.service_id) sel r)

unfoldable pub validate_combinations : List Service → ℕ → List Selection → Result Resolved
unfolding add_selections
validate_combinations services business_id selections =
    add_selections services business_id selections (ok nothing_yet)
