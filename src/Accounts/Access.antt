-- ===== src/Accounts/Access.antt =====
-- backend/src/domain/services/auth.service.ts: who a token names, logging out, and changing a password.
use werefa.Accounts.Login.{to_actor}
use werefa.Prelude.{ℕ, Bool, true, false, not, ◌||◌, Option, none, some, ltb, length, if◌then◌else◌}
use werefa.Errors.{
  Result, ok, err, unauthenticated, not_permitted, password_mismatch, password_length,
}
use werefa.Store.{Text, ActorType, owner, admin, super_admin}
use werefa.Tenant.{ActorContext}
use werefa.Accounts.{
  Role, User, Session, no_client, Directory, AuthEnv, password_changed, success, note_event,
  find_user, update_password, find_valid_by_token_hash, revoke_by_id, revoke_all_by_user_id,
}

unfoldable pub resolved : AuthEnv → Directory → Option User → Result ActorContext
resolved env d none = err unauthenticated
resolved env d (some u) =
    if u.is_deactivated then err unauthenticated else ok (to_actor u.id u.role)

unfoldable pub of_session : AuthEnv → Directory → Option Session → Result ActorContext
unfolding resolved
of_session env d none = err unauthenticated
of_session env d (some s) = resolved env d (find_user d s.user_id)

-- `resolveActorFromToken`
unfoldable pub resolve_actor_from_token : AuthEnv → Directory → ℕ → Option ℕ → Result ActorContext
unfolding of_session
resolve_actor_from_token env d now none = err unauthenticated
resolve_actor_from_token env d now (some token) =
    of_session env d (find_valid_by_token_hash d now (env.sha256 token))

pub record SessionPrincipal : Type 0 where
  pub id : ℕ
  pub role : Role
  pub email : Text

abbrev is_internal : ActorType → Bool
is_internal owner = true
is_internal admin = true
is_internal super_admin = true
is_internal _ = false

principal_of : Option User → Option SessionPrincipal
principal_of none = none
principal_of (some u) =
    if u.is_deactivated then none else some (record { id = u.id; role = u.role; email = u.email })

named_principal : Directory → ActorType → Option ℕ → Option SessionPrincipal
unfolding principal_of
named_principal d type none = none
named_principal d type (some id) =
    if not (is_internal type) then none else principal_of (find_user d id)

-- `principalFor`
unfoldable pub principal_for : Directory → ActorContext → Option SessionPrincipal
unfolding named_principal
principal_for d actor = named_principal d actor.actor_type actor.actor_user_id

unfoldable pub logged_out : Directory → ℕ → Option Session → Directory
logged_out d now none = d
logged_out d now (some s) = revoke_by_id d now s.id

-- `logout`
unfoldable pub logout : AuthEnv → Directory → ℕ → Option ℕ → Directory
unfolding logged_out
logout env d now none = d
logout env d now (some token) = logged_out d now (find_valid_by_token_hash d now (env.sha256 token))

unfoldable pub password_of :
    AuthEnv → Directory → ℕ → ℕ → Text → Text → ℕ → Option User → Directory × Result (Unit {0})
password_of env d now salt current next id none = (d, err unauthenticated)
password_of env d now salt current next id (some u) =
    if not (env.verify u.password_hash current)
    then (d, err password_mismatch)
    else if ltb (length next) 1 || ltb 128 (length next)
    then (d, err password_length)
    else (
      note_event (some id) password_changed no_client success
          (revoke_all_by_user_id (update_password d id (env.hash salt next) now) now id),
      ok tt,
    )

unfoldable pub password_for :
    AuthEnv → Directory → ℕ → ℕ → Text → Text → Option ℕ → Directory × Result (Unit {0})
unfolding password_of
password_for env d now salt current next none = (d, err unauthenticated)
password_for env d now salt current next (some id) =
    password_of env d now salt current next id (find_user d id)

abbrev pub may_change : ActorType → Bool
may_change owner = true
may_change super_admin = true
may_change _ = false

-- `changePassword`
unfoldable pub change_password :
    AuthEnv → Directory → ℕ → ℕ → ActorContext → Text → Text → Directory × Result (Unit {0})
unfolding password_for
change_password env d now salt ctx current next =
    if may_change ctx.actor_type
    then password_for env d now salt current next ctx.actor_user_id
    else (d, err not_permitted)
