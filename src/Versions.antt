-- ===== src/Versions.antt =====
-- backend/src/domain/services/subscription.service.ts (`promoteLatestPending`) and the updates of
-- backend/src/domain/repositories/prisma-schedule.repository.ts that it makes: which schedule version of
-- a business is ACTIVE after a pause ends.
use werefa.Prelude.{
  ℕ, ◌≡◌, Bool, true, false, ◌&&◌, Option, none, some, List, [], ◌∷◌, Memᴰ, arith, ltb, ◌==◌,
  if◌then◌else◌, select, update_many, mem-update_many,
}

pub data VersionStatus : Type 0 where
  pending active : VersionStatus

abbrev pub is_current : VersionStatus → Bool
is_current active = true
is_current pending = false

pub record VersionRow : Type 0 where
  pub id : ℕ
  pub business_id : ℕ
  pub version_no : ℕ
  pub status : VersionStatus

-- `listPendingVersions`, without its order.
abbrev pub list_pending : ℕ → List VersionRow → List VersionRow
list_pending n rows =
    select
      (λ (v : VersionRow). v.business_id == n && elim v.status [ pending ↦ true | active ↦ false ])
      rows

-- The last in the order of the version numbers.
unfoldable pub latest_of : Option VersionRow → List VersionRow → Option VersionRow
latest_of best [] = best
latest_of none (v ∷ vs) = latest_of (some v) vs
latest_of (some b) (v ∷ vs) =
    latest_of (if ltb b.version_no v.version_no then some v else some b) vs

-- `demoteActiveVersions`
abbrev pub demote_active : ℕ → List VersionRow → List VersionRow
demote_active n rows =
    update_many (λ (v : VersionRow). v.business_id == n && is_current v.status)
      (λ v. record v { status = pending }) rows

-- `promotePendingVersion`
abbrev pub promote_pending : ℕ → ℕ → List VersionRow → List VersionRow
promote_pending id n rows =
    update_many
      (λ (v : VersionRow).
        v.id == id && (v.business_id == n && elim v.status [ pending ↦ true | active ↦ false ]))
      (λ v. record v { status = active }) rows

-- What is left to do with the latest pending version, if there is one.
unfoldable pub promote : ℕ → List VersionRow → Option VersionRow → List VersionRow × Option ℕ
promote n rows none = (rows, none)
promote n rows (some latest) = (promote_pending latest.id n (demote_active n rows), some latest.id)

-- `promoteLatestPending`: the rows, and the version that the business row names, if it is written.
unfoldable pub promote_latest_pending : ℕ → List VersionRow → List VersionRow × Option ℕ
unfolding latest_of promote
promote_latest_pending n rows = promote n rows (latest_of none (list_pending n rows))

demoted :
    (n : ℕ) (rows : List VersionRow) (v : VersionRow)
    → Memᴰ v (demote_active n rows)
    → v.business_id ≡ n
    → is_current v.status ≡ false
demoted n rows v m own = let (x, at, e) = mem-update_many _ _ rows m in ground (arith, e, own)

promoted :
    (id n : ℕ) (rows : List VersionRow) (v : VersionRow)
    → ((x : VersionRow) → Memᴰ x rows → x.business_id ≡ n → is_current x.status ≡ false)
    → Memᴰ v (promote_pending id n rows)
    → v.business_id ≡ n
    → is_current v.status ≡ true
    → v.id ≡ id
promoted id n rows v none_active m own current =
    let (x, at, e) = mem-update_many _ _ rows m in ground (arith, e, own, current, none_active x at)

promote_unique :
    (n id : ℕ) (rows : List VersionRow) (latest : Option VersionRow) (v : VersionRow)
    → (promote n rows latest).1 ≡ some id
    → Memᴰ v (promote n rows latest).0
    → v.business_id ≡ n
    → is_current v.status ≡ true
    → v.id ≡ id
unfolding promote
promote_unique n id rows none v e m own current = ground (arith, e)
promote_unique n id rows (some latest) v e m own current =
    let same = promoted latest.id n (demote_active n rows) v (demoted n rows) m own current in
    ground (arith, e, same)

-- When a pending version is promoted, it is the only ACTIVE version of the business.
pub promote_latest_pending_unique :
    (n id : ℕ) (rows : List VersionRow) (v : VersionRow)
    → (promote_latest_pending n rows).1 ≡ some id
    → Memᴰ v (promote_latest_pending n rows).0
    → v.business_id ≡ n
    → is_current v.status ≡ true
    → v.id ≡ id
unfolding promote_latest_pending
promote_latest_pending_unique n id rows v e m own current =
    promote_unique n id rows (latest_of none (list_pending n rows)) v e m own current
