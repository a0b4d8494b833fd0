-- ===== src/Tests/Pauses.antt =====
-- The schedule versions of a business when a pause ends.
use werefa.Prelude.{◌≡◌, refl, some, [], ◌∷◌, update_many}
use werefa.Versions.{VersionRow, pending, active, promote_latest_pending}

abbrev first_version : VersionRow
first_version = record { id = 11; business_id = 1; version_no = 1; status = pending }

abbrev second_version : VersionRow
second_version = record { id = 12; business_id = 1; version_no = 2; status = active }

-- The first version was replaced by the second and is PENDING since: a resumption brings it back.
rolled_back : promote_latest_pending 1 (first_version ∷ second_version ∷ []) ≡ (
  record first_version { status = active } ∷ record second_version { status = pending } ∷ [],
  some 11,
)
unfolding promote_latest_pending update_many
rolled_back = refl
