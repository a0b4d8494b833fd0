-- ===== src/DaySlots/Closures.antt =====
-- A CLOSED date of the active schedule version.
use werefa.Prelude.{ℕ, ◌≡◌, refl, ap, ◌∙◌, true, some, Option, none, List, [], ◌∷◌, map, any, arith}
use werefa.Store.{Db}
use werefa.Availability.{SpecialDate, is_closed}
use werefa.Availability.Closed.{compute_available_slot_starts-closed}
use werefa.DaySlots.{
  Zone, SlotSettings, ScheduleVersion, Shop, SlotsArgs, keyed, compute_args, minute_spans, slot_at,
  date_key_as_slot_date, slots_of_version, slots_of_shop, get_slots_for_day,
}

keyed-closed :
    (zone : Zone) (ds : List SpecialDate) → any is_closed (map (keyed zone) ds) ≡ any is_closed ds
keyed-closed zone [] = refl
keyed-closed zone (d ∷ ds) = ground (arith, keyed-closed zone ds)

slots_of_version-closed :
    (zone : Zone) (db : Db) (shop : Shop) (settings : SlotSettings) (args : SlotsArgs)
    (version : ScheduleVersion)
    → any is_closed version.special_dates ≡ true
    → slots_of_version zone db shop settings args (some version) ≡ []
unfolding slots_of_version
slots_of_version-closed zone db shop settings args version h =
    let day = date_key_as_slot_date args.date_key in
    ap (map (slot_at zone day)) (
      compute_available_slot_starts-closed (compute_args zone settings version args)
        (minute_spans db shop.business_id day) (keyed-closed zone version.special_dates ∙ h))

slots_of_shop-closed :
    (zone : Zone) (db : Db) (now : ℕ) (shop : Shop) (version : ScheduleVersion) (args : SlotsArgs)
    (settings : Option SlotSettings)
    → shop.active_version ≡ some version
    → any is_closed version.special_dates ≡ true
    → slots_of_shop zone db now shop args settings ≡ []
unfolding slots_of_shop
slots_of_shop-closed zone db now shop version args none active h = refl
slots_of_shop-closed zone db now shop version args (some settings) active h =
    rw (active, slots_of_version-closed zone db shop settings args version h) (ground arith)

-- Once the active schedule version has a CLOSED date, of whatever calendar day, the business offers
-- no slot on any day.
pub closed_date_closes_every_day :
    (zone : Zone) (db : Db) (now : ℕ) (shop : Shop) (version : ScheduleVersion) (args : SlotsArgs)
    → shop.active_version ≡ some version
    → any is_closed version.special_dates ≡ true
    → get_slots_for_day zone db now (some shop) args ≡ []
unfolding get_slots_for_day
closed_date_closes_every_day zone db now shop version args active closed =
    slots_of_shop-closed zone db now shop version args shop.settings active closed
