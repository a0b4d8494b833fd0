-- ===== src/Tenant.antt =====
-- backend/src/domain/authorization: the actor of a call and the guard on a business's owners.
use werefa.Prelude.{
  refl, ℕ, Bool, true, false, Option, none, some, List, any, find_first, ◌==◌, if◌then◌else◌, Memᴰ,
  ◌≡◌, Bool-cases, find_first-mem, inl, arith, mem_of_any, inr, subst,
}
use werefa.Errors.{Result, ok, err, unauthorized_tenant_access, business_not_found}
use werefa.Store.{ActorType, owner, admin, super_admin}

-- The columns of a business row that the services read, with its settings' pause and deactivation.
pub record Business : Type 0 where
  pub id : ℕ
  pub slug : ℕ
  pub owners : List ℕ
  pub deactivated : Bool

pub record ActorContext : Type 0 where
  pub actor_type : ActorType
  pub actor_user_id : Option ℕ

abbrev is_owner : ActorType → Bool
is_owner owner = true
is_owner _ = false

abbrev is_admin_or_super_admin : ActorType → Bool
is_admin_or_super_admin admin = true
is_admin_or_super_admin super_admin = true
is_admin_or_super_admin _ = false

-- `isSuperAdmin`
abbrev pub is_super_admin : ActorType → Bool
is_super_admin super_admin = true
is_super_admin _ = false

owned_by : ℕ → Option Business → Result Business
owned_by user none = err business_not_found
owned_by user (some b) = if any (λ o. o == user) b.owners then ok b else err business_not_found

owned : Option ℕ → List Business → ℕ → Result Business
unfolding owned_by
owned none businesses business_id = err unauthorized_tenant_access
owned (some user) businesses business_id =
    owned_by user (find_first (λ (b : Business). b.id == business_id) businesses)

unfoldable pub require_owned_business : List Business → ActorContext → ℕ → Result Business
unfolding owned
require_owned_business businesses ctx business_id =
    if is_owner ctx.actor_type
    then owned ctx.actor_user_id businesses business_id
    else err unauthorized_tenant_access

unfoldable pub require_admin_or_super_admin : ActorContext → Result (Unit {0})
require_admin_or_super_admin ctx =
    if is_admin_or_super_admin ctx.actor_type then ok tt else err unauthorized_tenant_access

-- The caller is an owner of a row of this business.
pub record IsOwnerOf (businesses : List Business) (ctx : ActorContext) (n : ℕ) : Type 0 where
  pub business : Business
  pub user : ℕ
  pub in_table : Memᴰ business businesses
  pub same_id : business.id ≡ n
  pub acts_as_owner : ctx.actor_type ≡ owner
  pub same_user : ctx.actor_user_id ≡ some user
  pub among : Memᴰ user business.owners

owner_only : (t : ActorType) → is_owner t ≡ true → t ≡ owner
owner_only owner h = refl
owner_only _ h = cc

owned_by-owner : (user : ℕ) (b c : Business) → owned_by user (some b) ≡ ok c → Memᴰ user b.owners
unfolding owned_by
owned_by-owner user b c e = elim (Bool-cases (any (λ o. o == user) b.owners)) [
  | inl his ↦
      let (o, at, same) = mem_of_any (λ o. o == user) b.owners his in
      let eq : o ≡ user = ground (arith, same) in subst (λ (k : ℕ). Memᴰ k b.owners) eq at
  | inr other ↦ ground (arith, e, other)
]

found_owner :
    (businesses : List Business) (ctx : ActorContext) (n user : ℕ) (o : Option Business)
    (c : Business)
    → find_first (λ (b : Business). b.id == n) businesses ≡ o
    → ctx.actor_type ≡ owner
    → ctx.actor_user_id ≡ some user
    → owned_by user o ≡ ok c
    → IsOwnerOf businesses ctx n
unfolding owned_by
found_owner businesses ctx n user none c found kind who e = cc
found_owner businesses ctx n user (some b) c found kind who e =
    let (at, same) = find_first-mem (λ (b : Business). b.id == n) businesses found in
    record {
      business = b;
      user = user;
      in_table = at;
      same_id = ground (arith, same);
      acts_as_owner = kind;
      same_user = who;
      among = owned_by-owner user b c e;
    }

owned-IsOwnerOf :
    (businesses : List Business) (ctx : ActorContext) (n : ℕ) (o : Option ℕ) (c : Business)
    → ctx.actor_type ≡ owner
    → ctx.actor_user_id ≡ o
    → owned o businesses n ≡ ok c
    → IsOwnerOf businesses ctx n
unfolding owned
owned-IsOwnerOf businesses ctx n none c kind who e = cc
owned-IsOwnerOf businesses ctx n (some user) c kind who e =
    found_owner businesses ctx n user _ c refl kind who e

pub require_owned_business-IsOwnerOf :
    (businesses : List Business) (ctx : ActorContext) (n : ℕ) (c : Business)
    → require_owned_business businesses ctx n ≡ ok c
    → IsOwnerOf businesses ctx n
unfolding require_owned_business
require_owned_business-IsOwnerOf businesses ctx n c e =
    elim (Bool-cases (is_owner ctx.actor_type)) [
      | inl can ↦
          owned-IsOwnerOf businesses ctx n ctx.actor_user_id c (owner_only ctx.actor_type can) refl
            (ground (arith, e, can))
      | inr cannot ↦ ground (arith, e, cannot)
    ]
