-- ===== src/Accounts.antt =====
-- backend/src/domain/repositories/prisma-user-auth.repository.ts, prisma-session.repository.ts and
-- prisma-security-event-auth.repository.ts: the accounts, their sessions and the security history.
pub mod Login
pub mod Access
pub mod Emergency
pub mod Apart
pub mod Lockout
pub mod Parallel
pub mod Revoking
pub mod Sessions
pub mod Spending
use werefa.Prelude.{
  ℕ, suc, ◌+◌, Bool, true, false, ◌&&◌, ◌||◌, Option, none, some, List, [], ◌∷◌, ◌==◌, leb, ltb,
  any, if◌then◌else◌, find_first, update_many, count_where, is_some, select,
}
use werefa.Store.{Text, text_eq}

pub data Role : Type 0 where
  owner_role admin_role super_admin_role : Role

pub record User : Type 0 where
  pub id : ℕ
  pub email : Text
  pub password_hash : ℕ
  pub role : Role
  pub recovery_email : Option Text
  pub failed_login_attempts : ℕ
  pub is_locked_until : Option ℕ
  pub is_deactivated : Bool
  pub password_changed_at : Option ℕ
  pub last_login_at : Option ℕ

pub record Session : Type 0 where
  pub id : ℕ
  pub user_id : ℕ
  pub token_hash : ℕ
  pub expires_at : ℕ
  pub revoked_at : Option ℕ

pub data SecurityType : Type 0 where
  login_failure login_success account_locked_event device_first_use : SecurityType
  owner_registered password_changed forced_logout admin_created admin_deactivated : SecurityType
  security_history_deleted : SecurityType
  recovery_code_requested recovery_code_failed recovery_code_verified : SecurityType

pub data Outcome : Type 0 where
  success no_account deactivated locked_out lockout_triggered bad_password locked_result : Outcome
  invalid_code attempts_exceeded : Outcome

-- An absent device is `none`, the blank text is 0.
pub record ClientInfo : Type 0 where
  pub ip : Option ℕ
  pub device : Option ℕ
  pub browser : Option ℕ

abbrev pub no_client : ClientInfo
no_client = record { ip = none; device = none; browser = none }

pub record SecurityEvent : Type 0 where
  pub user_id : Option ℕ
  pub type : SecurityType
  pub client : ClientInfo
  pub result : Outcome

pub data AuthEmailType : Type 0 where
  lockout_email recovery_code_email forced_logout_email : AuthEmailType

pub record AuthEmailEvent : Type 0 where
  pub type : AuthEmailType
  pub user_id : ℕ
  pub email : Text

-- A row of `emergency_recovery`.
pub record Recovery : Type 0 where
  pub id : ℕ
  pub user_id : ℕ
  pub code_hash : ℕ
  pub expires_at : ℕ
  pub used_at : Option ℕ
  pub attempts : ℕ

-- The tables, the newest row first, and the published events.
pub record Directory : Type 0 where
  pub users : List User
  pub sessions : List Session
  pub recoveries : List Recovery
  pub security : List SecurityEvent
  pub published : List AuthEmailEvent
  pub next_session : ℕ
  pub next_recovery : ℕ

-- What the services take from elsewhere: `toLowerCase`, the password hasher, the digest of a token and
-- the configuration. A random salt, token or id is an argument of the call that draws it.
pub record AuthEnv : Type 0 where
  pub lower : Text → Text
  pub verify : ℕ → Text → Bool
  pub hash : ℕ → Text → ℕ
  pub sha256 : ℕ → ℕ
  pub session_ttl_hours : ℕ
  pub recovery_ttl_minutes : ℕ
  pub recovery_max_attempts : ℕ

abbrev pub is_user : ℕ → User → Bool
is_user id u = u.id == id

-- `findByEmail`, which lowers the address again.
unfoldable pub find_by_email : AuthEnv → Directory → Text → Option User
find_by_email env d email = find_first (λ (u : User). text_eq u.email (env.lower email)) d.users

-- `findById`
abbrev pub find_user : Directory → ℕ → Option User
find_user d id = find_first (is_user id) d.users

attempts_of : Option User → ℕ
attempts_of none = 0
attempts_of (some u) = u.failed_login_attempts

-- `incrementFailedLoginAttempts` returns the new number.
unfoldable pub increment_failed_login_attempts : Directory → ℕ → ℕ × Directory
unfolding attempts_of
increment_failed_login_attempts d id =
    let next = record d {
      users =
          update_many (is_user id)
            (λ (u : User). record u { failed_login_attempts = u.failed_login_attempts + 1 })
            d.users;
    } in
    (attempts_of (find_user next id), next)

unfoldable pub record_successful_login : Directory → ℕ → ℕ → Directory
record_successful_login d id now = record d {
  users =
      update_many (is_user id)
        (λ (u : User). record u {
          failed_login_attempts = 0;
          last_login_at = some now;
          is_locked_until = none;
        })
        d.users;
}

-- `setLockedUntil` with a date, which clears the counter.
unfoldable pub set_locked_until : Directory → ℕ → ℕ → Directory
set_locked_until d id until = record d {
  users =
      update_many (is_user id)
        (λ (u : User). record u { is_locked_until = some until; failed_login_attempts = 0 })
        d.users;
}

unfoldable pub update_password : Directory → ℕ → ℕ → ℕ → Directory
update_password d id password_hash now = record d {
  users =
      update_many (is_user id)
        (λ (u : User). record u {
          password_hash = password_hash;
          password_changed_at = some now;
          is_locked_until = none;
          failed_login_attempts = 0;
        })
        d.users;
}

-- `createOwner`: `none` is any violation, such as that of the unique address.
unfoldable pub create_owner : AuthEnv → Directory → ℕ → Text → ℕ → Option User × Directory
create_owner env d id email password_hash =
    let u : User = record {
      id = id;
      email = env.lower email;
      password_hash = password_hash;
      role = owner_role;
      recovery_email = none;
      failed_login_attempts = 0;
      is_locked_until = none;
      is_deactivated = false;
      password_changed_at = none;
      last_login_at = none;
    } in
    if any (λ (v : User). v.id == id || text_eq v.email (env.lower email)) d.users
    then (none, d)
    else (some u, record d { users = u ∷ d.users })

-- `securityEvent.create`
abbrev pub note_event : Option ℕ → SecurityType → ClientInfo → Outcome → Directory → Directory
note_event user_id type client result d = record d {
  security =
      record { user_id = user_id; type = type; client = client; result = result } ∷ d.security;
}

-- `sessionRepo.create`: the digest of a token is unique.
unfoldable pub create_session : Directory → ℕ → ℕ → ℕ → Option Directory
create_session d user_id token_hash expires_at =
    if any (λ (s : Session). s.token_hash == token_hash) d.sessions
    then none
    else some (record d {
      sessions =
          record {
            id = d.next_session;
            user_id = user_id;
            token_hash = token_hash;
            expires_at = expires_at;
            revoked_at = none;
          }
          ∷ d.sessions;
      next_session = suc d.next_session;
    })

-- The tests of `findValidByTokenHash` on the row that was found.
abbrev still_valid : ℕ → Option Session → Option Session
still_valid now none = none
still_valid now (some s) = if is_some s.revoked_at || leb s.expires_at now then none else some s

unfoldable pub find_valid_by_token_hash : Directory → ℕ → ℕ → Option Session
find_valid_by_token_hash d now token_hash =
    still_valid now (find_first (λ (s : Session). s.token_hash == token_hash) d.sessions)

abbrev pub is_live : Session → Bool
is_live s = elim (s.revoked_at) [ none ↦ true | some at ↦ false ]

abbrev pub revoke : ℕ → Session → Session
revoke now s = record s { revoked_at = some now }

unfoldable pub revoke_by_id : Directory → ℕ → ℕ → Directory
revoke_by_id d now id = record d {
  sessions = update_many (λ (s : Session). s.id == id && is_live s) (revoke now) d.sessions;
}

unfoldable pub revoke_all_by_user_id : Directory → ℕ → ℕ → Directory
revoke_all_by_user_id d now user_id = record d {
  sessions =
      update_many (λ (s : Session). s.user_id == user_id && is_live s) (revoke now) d.sessions;
}

abbrev option_eq : Option ℕ → Option ℕ → Bool
option_eq none none = true
option_eq (some a) (some b) = a == b
option_eq _ _ = false

abbrev is_login_success : SecurityType → Bool
is_login_success login_success = true
is_login_success _ = false

-- `countByDevice`
unfoldable pub count_by_device : Directory → ℕ → ℕ → Option ℕ → ℕ
count_by_device d user_id device browser =
    count_where
      (λ (e : SecurityEvent).
        option_eq e.user_id (some user_id)
        && (option_eq e.client.device (some device)
            && (option_eq e.client.browser browser && is_login_success e.type)))
      d.security
