-- ===== src/Accounts/Login.antt =====
-- backend/src/domain/services/auth.service.ts: login, registration and Google login. What was written
-- before an error is thrown stays written. A call is run to its end here; `login_as` takes the row that
-- was read apart from the tables that it writes, so that calls at once can be put together from it.
use werefa.Prelude.{
  ℕ, ◌+◌, ◌*◌, ◌==◌, Bool, false, not, ◌&&◌, Option, none, some, ◌∷◌, leb, ltb, if◌then◌else◌,
}
use werefa.Errors.{
  Result, ok, err, invalid_credentials, account_locked, generic_conflict, p2002_token_hash,
}
use werefa.Store.{Text, ActorType, owner, admin, super_admin}
use werefa.Tenant.{ActorContext}
use werefa.Texts.{trim}
use werefa.Accounts.{
  Role, owner_role, admin_role, super_admin_role, User, ClientInfo, Directory, AuthEnv,
  login_failure, login_success, account_locked_event, device_first_use, owner_registered, success,
  no_account, deactivated, locked_out, lockout_triggered, bad_password, locked_result, Outcome,
  AuthEmailEvent, lockout_email, note_event, find_by_email, increment_failed_login_attempts,
  record_successful_login, set_locked_until, create_owner, create_session, count_by_device,
}

abbrev pub max_failed_login_attempts : ℕ
max_failed_login_attempts = 5

abbrev pub lockout_duration_minutes : ℕ
lockout_duration_minutes = 15

pub record Credentials : Type 0 where
  pub email : Text
  pub password : Text
  pub client : ClientInfo

pub record LoginOutcome : Type 0 where
  pub actor : ActorContext
  pub user_id : ℕ
  pub role : Role
  pub session_token : ℕ
  pub expires_at : ℕ

abbrev pub actor_type_of : Role → ActorType
actor_type_of owner_role = owner
actor_type_of admin_role = admin
actor_type_of super_admin_role = super_admin

-- `toActor`
abbrev pub to_actor : ℕ → Role → ActorContext
to_actor user_id role = record { actor_type = actor_type_of role; actor_user_id = some user_id }

-- `recordFailure`
abbrev pub record_failure : Option ℕ → Outcome → ClientInfo → Directory → Directory
record_failure user_id result client d = note_event user_id login_failure client result d

-- `publish` of one event.
abbrev pub publish_email : AuthEmailEvent → Directory → Directory
publish_email e d = record d { published = e ∷ d.published }

-- `email.toLowerCase().trim()`
unfoldable pub normal_email : AuthEnv → Text → Text
unfolding trim
normal_email env email = trim (env.lower email)

unfoldable pub session_created :
    Directory → LoginOutcome → Option Directory → Directory × Result LoginOutcome
session_created d o none = (d, err p2002_token_hash)
session_created d o (some next) = (next, ok o)

-- `issueSession`, with the token that was drawn.
unfoldable pub issue_session :
    AuthEnv → Directory → ℕ → ℕ → ℕ → Role → Directory × Result LoginOutcome
unfolding session_created
issue_session env d now token user_id role =
    let expires_at = now + env.session_ttl_hours * 3600000 in
    session_created d
      (record {
        actor = to_actor user_id role;
        user_id = user_id;
        role = role;
        session_token = token;
        expires_at = expires_at;
      })
      (create_session d user_id (env.sha256 token) expires_at)

-- `user.isLockedUntil && user.isLockedUntil.getTime() > now.getTime()`
abbrev pub is_locked : Option ℕ → ℕ → Bool
is_locked none now = false
is_locked (some until) now = ltb now until

-- A wrong password.
unfoldable pub bad_login :
    AuthEnv → Directory → ℕ → Credentials → User → Directory × Result LoginOutcome
bad_login env d now input u =
    let r = increment_failed_login_attempts d u.id in
    if leb max_failed_login_attempts r.0
    then (
      publish_email (record { type = lockout_email; user_id = u.id; email = u.email })
          (record_failure (some u.id) lockout_triggered input.client (
            note_event (some u.id) account_locked_event input.client locked_result
              (set_locked_until r.1 u.id (now + lockout_duration_minutes * 60000)))),
      err account_locked,
    )
    else (record_failure (some u.id) bad_password input.client r.1, err invalid_credentials)

-- `!!device && countByDevice(...) === 0`
abbrev pub is_new_device : Directory → ℕ → ClientInfo → Option ℕ → Bool
is_new_device d user_id client none = false
is_new_device d user_id client (some device) =
    not (device == 0) && (count_by_device d user_id device client.browser == 0)

unfoldable pub noted_success : Directory → ℕ → ClientInfo → Directory
noted_success d user_id client =
    let d' = note_event (some user_id) login_success client success d in
    if is_new_device d user_id client client.device
    then note_event (some user_id) device_first_use client success d'
    else d'

-- The right password.
unfoldable pub good_login :
    AuthEnv → Directory → ℕ → ℕ → Credentials → User → Directory × Result LoginOutcome
unfolding noted_success
good_login env d now token input u =
    issue_session env (noted_success (record_successful_login d u.id now) u.id input.client) now
      token u.id u.role

unfoldable pub login_as :
    AuthEnv → Directory → ℕ → ℕ → Credentials → Option User → Directory × Result LoginOutcome
login_as env d now token input none =
    (record_failure none no_account input.client d, err invalid_credentials)
login_as env d now token input (some u) =
    if u.is_deactivated
    then (record_failure (some u.id) deactivated input.client d, err invalid_credentials)
    else if is_locked u.is_locked_until now
    then (record_failure (some u.id) locked_out input.client d, err account_locked)
    else if env.verify u.password_hash input.password
    then good_login env d now token input u
    else bad_login env d now input u

-- `login`
unfoldable pub login : AuthEnv → Directory → ℕ → ℕ → Credentials → Directory × Result LoginOutcome
unfolding login_as
login env d now token input =
    login_as env d now token input (find_by_email env d (normal_email env input.email))

unfoldable pub registered :
    AuthEnv → ℕ → ℕ → ClientInfo → Option User × Directory → Directory × Result LoginOutcome
registered env now token client (none, d) = (d, err generic_conflict)
registered env now token client (some u, d) =
    issue_session env (note_event (some u.id) owner_registered client success d) now token u.id
      owner_role

-- `registerOwner`, with the id, the salt and the token that were drawn.
unfoldable pub register_owner :
    AuthEnv → Directory → ℕ → ℕ → ℕ → ℕ → Credentials → Directory × Result LoginOutcome
unfolding registered
register_owner env d now id salt token input =
    registered env now token input.client
      (create_owner env d id (normal_email env input.email) (env.hash salt input.password))

unfoldable pub google_session :
    AuthEnv → Directory → ℕ → ℕ → ClientInfo → User → Directory × Result LoginOutcome
google_session env d now token client u =
    issue_session env
      (note_event (some u.id) login_success client success (record_successful_login d u.id now)) now
      token u.id u.role

-- The user after `createOwner` is read again.
unfoldable pub google_created :
    AuthEnv → ℕ → ℕ → ClientInfo → Text → Option User × Directory → Directory × Result LoginOutcome
unfolding google_session
google_created env now token client email (none, d) = (d, err generic_conflict)
google_created env now token client email (some u, d) = elim (find_by_email env d email) [
  | none ↦ (d, err generic_conflict)
  | some v ↦
      google_session env (note_event (some v.id) owner_registered client success d) now token client
        v
]

unfoldable pub google_as :
    AuthEnv
    → Directory
    → ℕ
    → ℕ
    → ClientInfo
    → Text
    → Option User × Directory
    → Option User
    → Directory × Result LoginOutcome
unfolding google_created google_session
google_as env d now token client email created none =
    google_created env now token client email created
google_as env d now token client email created (some u) =
    if u.is_deactivated
    then (record_failure (some u.id) deactivated client d, err invalid_credentials)
    else if is_locked u.is_locked_until now
    then (record_failure (some u.id) locked_out client d, err account_locked)
    else google_session env d now token client u

-- `loginWithGoogle`: the address that Google's library vouches for, if it does. The hash is that of a
-- random password.
unfoldable pub login_with_google :
    AuthEnv → Directory → ℕ → ℕ → ℕ → ℕ → Option Text → ClientInfo → Directory × Result LoginOutcome
unfolding google_as normal_email
login_with_google env d now id random_hash token none client = (d, err invalid_credentials)
login_with_google env d now id random_hash token (some address) client =
    let email = normal_email env address in
    google_as env d now token client email (create_owner env d id email random_hash)
      (find_by_email env d email)
